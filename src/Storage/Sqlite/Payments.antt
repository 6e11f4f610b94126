-- ===== src/Storage/Sqlite/Payments.antt =====
-- The funding, the payments and the keysets of `SqliteStorage`: the store in memory makes the same step.
use cashu_spilman_channels.Prelude.{
  String, true, false, not, none, ok, leb, str_eq, get, insert, ok_or, reject_if, get-insert,
  string_eq, pair_eq, str_eq_iff, ◌≡◌, refl, subst, inl, inr, arith, Bool-cases, Option-cases,
}
use cashu_spilman_channels.Storage.Records.{
  ChannelFunding, PaymentProof, KeysetCacheEntry, same_state,
}
use cashu_spilman_channels.Storage.{MemoryStorage, StorageError}
use cashu_spilman_channels.Storage.Operations.{compares, saves, updates, sets_keyset, apply}
use cashu_spilman_channels.Storage
use cashu_spilman_channels.Channel.Verification.Secrets.{Result->>=-ok}
use cashu_spilman_channels.Storage.Sqlite.{
  Formats, ChannelRow, SqliteStorage, SqliteError, state_of, update_row, closing_row, closed_row,
}
use cashu_spilman_channels.Storage.Sqlite
use cashu_spilman_channels.Storage.Sqlite.Refines.{RoundTrips, SameAt, Tells, Agree, Tells-SameAt}
use cashu_spilman_channels.Storage.Sqlite.Steps.{Simulates, Signed}
use cashu_spilman_channels.Storage.Sqlite.Writes.{
  Row, changed, row_written, TellsRow, tells, succeeded, row-Simulates, with_payment, paying,
  with_payment-SameAt, payment-Tells,
}

module _ (formats : Formats) (laws : RoundTrips formats) where
  pub compare_payment-Simulates :
      (id : String) (expected payment : PaymentProof) (s t : SqliteStorage) (m : MemoryStorage)
      → Signed expected
      → Signed payment
      → Agree formats s m
      → Sqlite.compare_payment id expected payment s ≡ ok t
      → Simulates formats (compares id expected payment) t m
  unfolding Sqlite.compare_payment apply Storage.compare_payment Storage.get_state state_of
      same_state
  compare_payment-Simulates id expected payment s t m signed_expected signed agree h =
      let (u, above, after_above) =
        Result->>=-ok (reject_if (leb payment.balance expected.balance) _) _ h in
      let (b, fits, after_fits) = Result->>=-ok (Sqlite.to_i64 payment.balance _) _ after_above in
      let (c, fits_too, after_both) =
        Result->>=-ok (Sqlite.to_i64 expected.balance _) _ after_fits in
      let (row, found, held, done) = changed formats laws _ _ id s _ _ after_both in
      let told = tells formats laws id row s m found agree in
      row-Simulates formats laws (compares id expected payment) id (paying formats laws payment row)
        s t m (with_payment formats laws id payment m)
        (ground (
          arith,
          above,
          held,
          signed_expected,
          told.balance,
          told.state,
          str_eq_iff row.signature expected.signature,
          str_eq_iff expected.signature row.signature,
        ))
        done refl (with_payment-SameAt formats laws id payment m)
        (payment-Tells formats laws id payment row s m signed told) agree

  -- An update of the balance that takes the payment or leaves the row.
  balance_updated :
      (id : String) (payment : PaymentProof) (row : ChannelRow) (s t : SqliteStorage)
      (m : MemoryStorage)
      → Signed payment
      → Row formats laws id row s
      → str_eq row.state "Open" ≡ true
      → Agree formats s m
      → succeeded formats laws (
          Sqlite.with_channels s (
            Sqlite.or_same formats s.database.channels (
              Sqlite.update_channel
                (Sqlite.takes formats payment)
                (paying formats laws payment)
                id
                s)))
        ≡ ok t
      → Simulates formats (updates id payment) t m
  unfolding update_row apply Storage.update_balance Storage.get_state state_of same_state
  balance_updated id payment row s t m signed found open_ agree h =
      let told = tells formats laws id row s m found agree in
      elim (Bool-cases (Sqlite.takes formats payment row)) [
        | inl taken ↦
            row-Simulates formats laws (updates id payment) id (paying formats laws payment row) s t
              m (with_payment formats laws id payment m)
              (ground (arith, taken, open_, told.state, told.balance))
              (ground (arith, h, found, taken)) refl (with_payment-SameAt formats laws id payment m)
              (payment-Tells formats laws id payment row s m signed told) agree
        | inr left ↦ record {
          next = m;
          applied = ground (arith, left, open_, told.state, told.balance);
          agree = subst (λ t. Agree formats t m) (ground (arith, h, found, left)) agree;
        }
      ]

  pub update_balance-Simulates :
      (id : String) (payment : PaymentProof) (s t : SqliteStorage) (m : MemoryStorage)
      → Signed payment
      → Agree formats s m
      → Sqlite.update_balance formats id payment s ≡ ok t
      → Simulates formats (updates id payment) t m
  unfolding Sqlite.update_balance
  update_balance-Simulates id payment s t m signed agree h =
      let (b, fits, after_fits) = Result->>=-ok (Sqlite.to_i64 payment.balance _) _ h in
      let (row, found, after_found) =
        Result->>=-ok (ok_or (get s.database.channels id) _) _ after_fits in
      let (u, open_, done) =
        Result->>=-ok (reject_if (not (str_eq row.state "Open")) _) _ after_found in
      balance_updated id payment row s t m signed (ground (arith, found)) (ground (arith, open_))
        agree done

  -- The cache is no part of what the tables tell.
  pub Agree-database :
      (s t : SqliteStorage) (m : MemoryStorage)
      → t.database ≡ s.database
      → Agree formats s m
      → Agree formats t m
  Agree-database s t m same agree = record {
    channels = λ id. rw same (agree.channels id);
    keysets = λ mint id. rw same (agree.keysets mint id);
  }

  pub set_keyset-Simulates :
      (mint id : String) (entry : KeysetCacheEntry) (s t : SqliteStorage) (m : MemoryStorage)
      → Agree formats s m
      → Sqlite.set_keyset formats mint id entry s ≡ ok t
      → Simulates formats (sets_keyset mint id entry) t m
  unfolding Sqlite.set_keyset apply Storage.set_keyset
  set_keyset-Simulates mint id entry s t m agree h =
      let n = record m { keysets = insert m.keysets (mint, id) entry } in
      let rows : t.database.channels ≡ s.database.channels = ground (arith, h) in
      let journals : t.database.close_journals ≡ s.database.close_journals = ground (arith, h) in
      let keysets : t.database.keysets
          ≡ insert s.database.keysets (mint, id) (formats.keyset.to_text entry) =
        ground (arith, h) in
      record {
        next = n;
        applied = refl;
        agree = record {
          channels = λ j. rw rows (
              rw journals (
                Tells-SameAt formats _ _ j m n
                  (record {
                    funding = refl;
                    balance = refl;
                    closing = refl;
                    closed = refl;
                    journal = refl;
                  })
                  (agree.channels j)));
          keysets = λ a b. rw keysets (
              ground (
                arith,
                get-insert s.database.keysets (mint, id) (a, b) (formats.keyset.to_text entry),
                get-insert m.keysets (mint, id) (a, b) entry,
                laws.keyset entry,
                agree.keysets a b,
              ));
        };
      }

  abbrev with_funding : String → ChannelFunding → MemoryStorage → MemoryStorage
  with_funding id funding m = record m { funding = insert m.funding id funding }

  with_funding-SameAt :
      (id : String) (funding : ChannelFunding) (m : MemoryStorage) (j : String)
      → str_eq id j ≡ false
      → SameAt j m (with_funding id funding m)
  with_funding-SameAt id funding m j other = record {
    funding = ground (arith, other, get-insert m.funding id j funding);
    balance = refl;
    closing = refl;
    closed = refl;
    journal = refl;
  }

  new_row-Tells :
      (id : String) (funding : ChannelFunding) (s : SqliteStorage) (m : MemoryStorage)
      → get s.database.channels id ≡ none
      → Tells formats none (get s.database.close_journals id) id m
      → TellsRow formats laws id (Sqlite.new_row formats funding) s (with_funding id funding m)
  unfolding Storage.get_state state_of
  new_row-Tells id funding s m absent told =
      let w = get-insert m.funding id id funding in
      let same = str_eq_iff id id in
      record {
        known = ground (arith, w, same);
        state = ground (arith, w, same, told.closing, told.closed);
        funding = ground (arith, w, same, laws.funding funding);
        balance = told.balance;
        closing = told.closing;
        closed = told.closed;
        journal = told.journal;
      }

  pub save_funding-Simulates :
      (id : String) (funding : ChannelFunding) (s t : SqliteStorage) (m : MemoryStorage)
      → Agree formats s m
      → Sqlite.save_funding formats id funding s ≡ ok t
      → Simulates formats (saves id funding) t m
  unfolding Sqlite.save_funding apply Storage.save_funding
  save_funding-Simulates id funding s t m agree h =
      elim (Option-cases (get s.database.channels id)) [
        | inl absent ↦
            let told =
              subst (λ o. Tells formats o (get s.database.close_journals id) id m) absent
                (agree.channels id) in
            let row = Sqlite.new_row formats funding in
            record {
              next = with_funding id funding m;
              applied = ground (arith, told.known);
              agree =
                  Agree-database (Sqlite.with_channels s (insert s.database.channels id row)) t
                    (with_funding id funding m) (ground (arith, h, absent))
                    (row_written formats laws id row s m (with_funding id funding m) refl
                      (with_funding-SameAt id funding m) (new_row-Tells id funding s m absent told)
                      agree);
            }
        | inr present ↦
            let (row, found) = present in
            record {
              next = m;
              applied = ground (arith, (agree.channels id).known, found);
              agree = Agree-database s t m (ground (arith, h, found)) agree;
            }
      ]
