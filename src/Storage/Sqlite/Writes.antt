-- ===== src/Storage/Sqlite/Writes.antt =====
-- What a write to one row of `spilman_channels`, or to its close journal, does to the agreement with the maps.
use cashu_spilman_channels.Prelude.{
  String, Bool, true, false, Option, none, some, Result, ok, ◌>>=◌, if◌then◌else◌, str_eq, Map, get,
  insert, remove, ok_or, get-insert, get-remove, string_eq, pair_eq, str_eq_iff, ◌≡◌, refl, subst,
  inl, inr, arith, Bool-cases,
}
use cashu_spilman_channels.Storage.Records.{PaymentProof, ClosingData, ClosedDataView}
use cashu_spilman_channels.Storage.{MemoryStorage, StorageError}
use cashu_spilman_channels.Storage.Operations.{Operation, apply}
use cashu_spilman_channels.Storage
use cashu_spilman_channels.Channel.Verification.Secrets.{Result->>=-ok}
use cashu_spilman_channels.Storage.Sqlite.{
  Formats, ChannelRow, SqliteStorage, SqliteError, state_of, update_row, closing_row, closed_row,
}
use cashu_spilman_channels.Storage.Sqlite
use cashu_spilman_channels.Storage.Sqlite.Refines.{
  RoundTrips, SameAt, Tells, Agree, written, unwritten,
}
use cashu_spilman_channels.Storage.Sqlite.Steps.{Simulates, Signed}

module _ (formats : Formats) (laws : RoundTrips formats) where
  abbrev pub Row : String → ChannelRow → SqliteStorage → Type 0
  Row id row s = get s.database.channels id ≡ some row

  -- What a conditional update of a row that succeeds has found.
  pub update_row-some :
      (test : ChannelRow → Bool) (set : ChannelRow → ChannelRow) (id : String)
      (o : Option ChannelRow) (channels : Map String ChannelRow) {after : Map String ChannelRow}
      → update_row test set id o channels ≡ some after
      → (row : ChannelRow) × (o ≡ some row)
        × (test row ≡ true)
        × (after ≡ insert channels id (set row))
  unfolding update_row
  update_row-some test set id none channels h = absurd (ground (arith, h))
  update_row-some test set id (some row) channels h = elim (Bool-cases (test row)) [
    | inl passed ↦ (row, refl, passed, ground (arith, h, passed))
    | inr refused ↦ absurd (ground (arith, h, refused))
  ]

  -- The same where the update's result goes on.
  pub changed :
      (test : ChannelRow → Bool) (set : ChannelRow → ChannelRow) (id : String) (s : SqliteStorage)
      (e : SqliteError) (k : Map String ChannelRow → Result SqliteError SqliteStorage)
      {t : SqliteStorage}
      → (ok_or (Sqlite.update_channel test set id s) e >>= k) ≡ ok t
      → (row : ChannelRow) × (get s.database.channels id ≡ some row)
        × (test row ≡ true)
        × (k (insert s.database.channels id (set row)) ≡ ok t)
  changed test set id s e k {t} h =
      let (channels, found, done) =
        Result->>=-ok (ok_or (Sqlite.update_channel test set id s) e) k h in
      let (row, at_id, passed, after) =
        update_row-some test set id (get s.database.channels id) s.database.channels
          {after = channels} (ground (arith, found)) in
      (row, at_id, passed, subst (λ c. k c ≡ ok t) after done)

  -- A write to one row, from what the new row tells.
  pub row_written :
      (id : String) (row : ChannelRow) (s : SqliteStorage) (m n : MemoryStorage)
      → n.keysets ≡ m.keysets
      → ((j : String) → str_eq id j ≡ false → SameAt j m n)
      → Tells formats (some row) (get s.database.close_journals id) id n
      → Agree formats s m
      → Agree formats (Sqlite.with_channels s (insert s.database.channels id row)) n
  row_written id row s m n ks others here agree =
      written formats id row (get s.database.close_journals id) s
        (Sqlite.with_channels s (insert s.database.channels id row)) m n
        (λ j. get-insert s.database.channels id j row)
        (unwritten formats id s.database.close_journals) refl ks others here agree

  abbrev pub TellsRow : String → ChannelRow → SqliteStorage → MemoryStorage → Type 0
  TellsRow id row s m = Tells formats (some row) (get s.database.close_journals id) id m

  pub tells :
      (id : String) (row : ChannelRow) (s : SqliteStorage) (m : MemoryStorage)
      → Row id row s
      → Agree formats s m
      → TellsRow id row s m
  tells id row s m found agree =
      subst (λ o. Tells formats o (get s.database.close_journals id) id m) found (agree.channels id)

  abbrev pub with_closing : String → ClosingData → MemoryStorage → MemoryStorage
  with_closing id closing_data m = record m { closing = insert m.closing id closing_data }

  pub with_closing-SameAt :
      (id : String) (closing_data : ClosingData) (m : MemoryStorage) (j : String)
      → str_eq id j ≡ false
      → SameAt j m (with_closing id closing_data m)
  with_closing-SameAt id closing_data m j other = record {
    funding = refl;
    balance = refl;
    closing = ground (arith, other, get-insert m.closing id j closing_data);
    closed = refl;
    journal = refl;
  }

  abbrev pub succeeded : SqliteStorage → Result SqliteError SqliteStorage
  succeeded s = ok s

  -- A step that writes one row.
  pub row-Simulates :
      (op : Operation) (id : String) (row : ChannelRow) (s t : SqliteStorage) (m n : MemoryStorage)
      → apply op m ≡ ok n
      → succeeded (Sqlite.with_channels s (insert s.database.channels id row)) ≡ ok t
      → n.keysets ≡ m.keysets
      → ((j : String) → str_eq id j ≡ false → SameAt j m n)
      → TellsRow id row s n
      → Agree formats s m
      → Simulates formats op t m
  row-Simulates op id row s t m n applied done ks others here agree = record {
    next = n;
    applied = applied;
    agree =
        subst (λ t. Agree formats t n) (ground (arith, done))
          (row_written id row s m n ks others here agree);
  }

  pub closing-Tells :
      (id : String) (closing_data : ClosingData) (row : ChannelRow) (s : SqliteStorage)
      (m : MemoryStorage)
      → get m.closed id ≡ none
      → TellsRow id row s m
      → TellsRow id (closing_row formats closing_data row) s (with_closing id closing_data m)
  unfolding Storage.get_state state_of
  closing-Tells id closing_data row s m open_ told =
      let w = get-insert m.closing id id closing_data in
      let same = str_eq_iff id id in
      record {
        known = told.known;
        state = ground (arith, w, same, open_);
        funding = told.funding;
        balance = told.balance;
        closing = ground (arith, w, same, laws.closing closing_data);
        closed = ground (arith, open_);
        journal = told.journal;
      }

  abbrev pub with_closed : String → ClosedDataView → MemoryStorage → MemoryStorage
  with_closed id view m = record m {
    closed = insert m.closed id view;
    closing = remove m.closing id;
  }

  pub with_closed-SameAt :
      (id : String) (view : ClosedDataView) (m : MemoryStorage) (j : String)
      → str_eq id j ≡ false
      → SameAt j m (with_closed id view m)
  with_closed-SameAt id view m j other = record {
    funding = refl;
    balance = refl;
    closing = ground (arith, other, get-remove m.closing id j);
    closed = ground (arith, other, get-insert m.closed id j view);
    journal = refl;
  }

  pub closed-Tells :
      (id : String) (view : ClosedDataView) (row : ChannelRow) (s : SqliteStorage)
      (m : MemoryStorage)
      → TellsRow id row s m
      → TellsRow id (closed_row formats view row) s (with_closed id view m)
  unfolding Storage.get_state state_of
  closed-Tells id view row s m told =
      let w = get-insert m.closed id id view in
      let v = get-remove m.closing id id in
      let same = str_eq_iff id id in
      record {
        known = told.known;
        state = ground (arith, w, same);
        funding = told.funding;
        balance = told.balance;
        closing = ground (arith, v, same);
        closed = ground (arith, w, same, laws.closed view);
        journal = told.journal;
      }

  abbrev pub with_payment : String → PaymentProof → MemoryStorage → MemoryStorage
  with_payment id payment m = record m { balance = insert m.balance id payment }

  abbrev pub paying : PaymentProof → ChannelRow → ChannelRow
  paying payment row = record row { balance = payment.balance; signature = payment.signature }

  pub with_payment-SameAt :
      (id : String) (payment : PaymentProof) (m : MemoryStorage) (j : String)
      → str_eq id j ≡ false
      → SameAt j m (with_payment id payment m)
  with_payment-SameAt id payment m j other = record {
    funding = refl;
    balance = ground (arith, other, get-insert m.balance id j payment);
    closing = refl;
    closed = refl;
    journal = refl;
  }

  pub payment-Tells :
      (id : String) (payment : PaymentProof) (row : ChannelRow) (s : SqliteStorage)
      (m : MemoryStorage)
      → Signed payment
      → TellsRow id row s m
      → TellsRow id (paying payment row) s (with_payment id payment m)
  unfolding Storage.get_state state_of
  payment-Tells id payment row s m signed told = record {
    known = told.known;
    state = told.state;
    funding = told.funding;
    balance = ground (arith, get-insert m.balance id id payment, str_eq_iff id id, signed);
    closing = told.closing;
    closed = told.closed;
    journal = told.journal;
  }

  -- A journal is written beside the row.
  pub journal_written :
      (op : Operation) (id journal : String) (row : ChannelRow) (s t : SqliteStorage)
      (m n : MemoryStorage)
      → apply op m ≡ ok n
      → ((j : String)
          → get t.database.channels j
            ≡ (if str_eq id j then some row else get s.database.channels j))
      → t.database.close_journals ≡ insert s.database.close_journals id journal
      → t.database.keysets ≡ s.database.keysets
      → n.keysets ≡ m.keysets
      → ((j : String) → str_eq id j ≡ false → SameAt j m n)
      → Tells formats (some row) (some journal) id n
      → Agree formats s m
      → Simulates formats op t m
  journal_written op id journal row s t m n applied rows journals ks kn others here agree = record {
    next = n;
    applied = applied;
    agree =
        written formats id row (some journal) s t m n rows
          (λ j. rw journals (get-insert s.database.close_journals id j journal)) ks kn others here
          agree;
  }

  abbrev pub journaled : String → String → MemoryStorage → MemoryStorage
  journaled id journal m = record m { close_journals = insert m.close_journals id journal }

  pub journaled-SameAt :
      (id journal : String) (m n : MemoryStorage) (j : String)
      → str_eq id j ≡ false
      → SameAt j m n
      → SameAt j m (journaled id journal n)
  journaled-SameAt id journal m n j other same = record {
    funding = same.funding;
    balance = same.balance;
    closing = same.closing;
    closed = same.closed;
    journal = ground (arith, other, get-insert n.close_journals id j journal, same.journal);
  }

  pub journaled-Tells :
      (id journal : String) (row : ChannelRow) (s : SqliteStorage) (n : MemoryStorage)
      → TellsRow id row s n
      → Tells formats (some row) (some journal) id (journaled id journal n)
  unfolding Storage.get_state
  journaled-Tells id journal row s n told = record {
    known = told.known;
    state = told.state;
    funding = told.funding;
    balance = told.balance;
    closing = told.closing;
    closed = told.closed;
    journal = ground (arith, get-insert n.close_journals id id journal, str_eq_iff id id);
  }
