-- ===== src/Storage/Sqlite/Closes.antt =====
-- The closes of `SqliteStorage` and their journals: the store in memory makes the same step.
use cashu_spilman_channels.Prelude.{
  String, Bool, true, not, ◌||◌, Option, none, some, ok, ◌!=◌, if◌then◌else◌, str_eq, is_some, Map,
  get, insert, reject_if, get-insert, string_eq, pair_eq, str_eq_iff, ◌≡◌, refl, subst, arith,
}
use cashu_spilman_channels.Storage.Records.{
  PaymentProof, ClosingData, ClosedDataView, ChannelState, same_state,
}
use cashu_spilman_channels.Storage.{MemoryStorage, StorageError}
use cashu_spilman_channels.Storage.Operations.{
  freezes, advances, marks_closing, marks_closed, apply,
}
use cashu_spilman_channels.Storage
use cashu_spilman_channels.Channel.Verification.Secrets.{Result->>=-ok}
use cashu_spilman_channels.Storage.Sqlite.{
  Formats, ChannelRow, SqliteStorage, SqliteError, state_of, update_row, closing_row, closed_row,
}
use cashu_spilman_channels.Storage.Sqlite
use cashu_spilman_channels.Storage.Sqlite.Refines.{RoundTrips, Agree, unwritten}
use cashu_spilman_channels.Storage.Sqlite.Steps.{Simulates, Signed}
use cashu_spilman_channels.Storage.Sqlite.Writes.{
  Row, changed, tells, with_closing, with_closing-SameAt, row-Simulates, closing-Tells, with_closed,
  with_closed-SameAt, closed-Tells, journal_written, journaled, journaled-SameAt, journaled-Tells,
}

module _ (formats : Formats) (laws : RoundTrips formats) where
  pub mark_closing-Simulates :
      (id : String) (closing_data : ClosingData) (s t : SqliteStorage) (m : MemoryStorage)
      → Agree formats s m
      → Sqlite.mark_closing formats id closing_data s ≡ ok t
      → Simulates formats (marks_closing id closing_data) t m
  unfolding Sqlite.mark_closing apply Storage.mark_closing Storage.get_state state_of
  mark_closing-Simulates id closing_data s t m agree h =
      let (row, found, free, done) = changed formats laws _ _ id s _ _ h in
      let told = tells formats laws id row s m found agree in
      row-Simulates formats laws (marks_closing id closing_data) id
        (closing_row formats closing_data row) s t m (with_closing formats laws id closing_data m)
        (ground (arith, free, told.journal, told.closed, told.state)) done refl
        (with_closing-SameAt formats laws id closing_data m)
        (closing-Tells formats laws id closing_data row s m (ground (arith, free, told.state)) told)
        agree

  pub mark_closed-Simulates :
      (id : String) (view : ClosedDataView) (s t : SqliteStorage) (m : MemoryStorage)
      → Agree formats s m
      → Sqlite.mark_closed formats id view s ≡ ok t
      → Simulates formats (marks_closed id view) t m
  unfolding Sqlite.mark_closed apply Storage.mark_closed Storage.get_state state_of
  mark_closed-Simulates id view s t m agree h =
      let (row, found, free, done) = changed formats laws _ _ id s _ _ h in
      let told = tells formats laws id row s m found agree in
      row-Simulates formats laws (marks_closed id view) id (closed_row formats view row) s t m
        (with_closed formats laws id view m)
        (ground (arith, free, told.journal, told.closed, told.state)) done refl
        (with_closed-SameAt formats laws id view m) (closed-Tells formats laws id view row s m told)
        agree

  pub freeze_close-Simulates :
      (id : String) (expected : PaymentProof) (closing_data : ClosingData) (journal : String)
      (s t : SqliteStorage) (m : MemoryStorage)
      → Signed expected
      → Agree formats s m
      → Sqlite.freeze_close formats id expected closing_data journal s ≡ ok t
      → Simulates formats (freezes id expected closing_data journal) t m
  unfolding Sqlite.freeze_close apply Storage.freeze_close Storage.get_state state_of same_state
  freeze_close-Simulates id expected closing_data journal s t m signed agree h =
      let (u, authorized, after_authorized) =
        Result->>=-ok
          (reject_if
            ((closing_data.balance != expected.balance)
              || not (str_eq closing_data.signature expected.signature))
            _)
          _ h in
      let (b, fits, after_fits) =
        Result->>=-ok (Sqlite.to_i64 expected.balance _) _ after_authorized in
      let (row, found, held, after_row) = changed formats laws _ _ id s _ _ after_fits in
      let (v, first, done) =
        Result->>=-ok (reject_if (is_some (Sqlite.get_close_journal id s)) _) _ after_row in
      let told = tells formats laws id row s m found agree in
      let n = journaled formats laws id journal (with_closing formats laws id closing_data m) in
      journal_written formats laws (freezes id expected closing_data journal) id journal
        (closing_row formats closing_data row) s t m n
        (ground (
          arith,
          authorized,
          held,
          first,
          signed,
          told.balance,
          told.state,
          told.journal,
          told.known,
          str_eq_iff row.signature expected.signature,
          str_eq_iff expected.signature row.signature,
        ))
        (λ j.
          ground (
            arith,
            done,
            get-insert s.database.channels id j (closing_row formats closing_data row),
          ))
        (ground (arith, done)) (ground (arith, done)) refl
        (λ j other.
          journaled-SameAt formats laws id journal m (with_closing formats laws id closing_data m) j
            other (with_closing-SameAt formats laws id closing_data m j other))
        (journaled-Tells formats laws id journal (closing_row formats closing_data row) s
          (with_closing formats laws id closing_data m)
          (closing-Tells formats laws id closing_data row s m (ground (arith, held, told.state))
            told))
        agree

  row_is-some :
      (test : ChannelRow → Bool) (o : Option ChannelRow)
      → Sqlite.row_is formats test o ≡ true
      → (row : ChannelRow) × (o ≡ some row) × (test row ≡ true)
  row_is-some test none h = absurd (ground (arith, h))
  row_is-some test (some row) h = (row, refl, h)

  -- The rows as they are.
  kept_rows :
      (id : String) (row : ChannelRow) (channels : Map String ChannelRow) (j : String)
      → get channels id ≡ some row
      → get channels j ≡ (if str_eq id j then some row else get channels j)
  kept_rows id row channels j found =
      subst (λ o. get channels j ≡ (if str_eq id j then o else get channels j)) found
        (unwritten formats id channels j)

  closing_state :
      (row : ChannelRow)
      → str_eq row.state "Closing" ≡ true
      → state_of formats (some row) ≡ ok (some ChannelState.closing)
  unfolding state_of
  closing_state row closing =
      let named : row.state ≡ "Closing" = ground (arith, closing, str_eq_iff row.state "Closing") in
      rw named refl

  advanced_to :
      (id expected journal : String) (completed : Option ClosedDataView) (row : ChannelRow)
      (s t : SqliteStorage) (m : MemoryStorage)
      → Row formats laws id row s
      → str_eq row.state "Closing" ≡ true
      → Sqlite.text_is formats (Sqlite.get_close_journal id s) expected ≡ true
      → Agree formats s m
      → Sqlite.complete_row formats completed id
          (Sqlite.with_journals s (insert s.database.close_journals id journal))
        ≡ ok t
      → Simulates formats (advances id expected journal completed) t m
  unfolding apply Storage.advance_close Storage.get_state same_state
  advanced_to id expected journal none row s t m found closing named agree h =
      let told = tells formats laws id row s m found agree in
      journal_written formats laws (advances id expected journal none) id journal row s t m
        (journaled formats laws id journal m)
        (ground (arith, closing_state row closing, named, told.state, told.journal))
        (λ j. ground (arith, h, kept_rows id row s.database.channels j found)) (ground (arith, h))
        (ground (arith, h)) refl
        (λ j other. journaled-SameAt formats laws id journal m m j other (record {
          funding = refl;
          balance = refl;
          closing = refl;
          closed = refl;
          journal = refl;
        }))
        (journaled-Tells formats laws id journal row s m told) agree
  advanced_to id expected journal (some view) row s t m found closing named agree h =
      let (other_row, found_too, still, done) =
        changed formats laws _ _ id
          (Sqlite.with_journals s (insert s.database.close_journals id journal)) _ _ h in
      let told = tells formats laws id row s m found agree in
      let same : other_row ≡ row = ground (arith, found, found_too) in
      journal_written formats laws (advances id expected journal (some view)) id journal
        (closed_row formats view row) s t m
        (journaled formats laws id journal (with_closed formats laws id view m))
        (ground (arith, closing_state row closing, named, told.state, told.journal))
        (λ j. ground (
          arith,
          done,
          same,
          get-insert s.database.channels id j (closed_row formats view other_row),
        ))
        (ground (arith, done)) (ground (arith, done)) refl
        (λ j other.
          journaled-SameAt formats laws id journal m (with_closed formats laws id view m) j other
            (with_closed-SameAt formats laws id view m j other))
        (journaled-Tells formats laws id journal (closed_row formats view row) s
          (with_closed formats laws id view m) (closed-Tells formats laws id view row s m told))
        agree

  pub advance_close-Simulates :
      (id expected journal : String) (completed : Option ClosedDataView) (s t : SqliteStorage)
      (m : MemoryStorage)
      → Agree formats s m
      → Sqlite.advance_close formats id expected journal completed s ≡ ok t
      → Simulates formats (advances id expected journal completed) t m
  unfolding Sqlite.advance_close
  advance_close-Simulates id expected journal completed s t m agree h =
      let (u, checked, done) =
        Result->>=-ok
          (reject_if
            (not (Sqlite.text_is formats (Sqlite.get_close_journal id s) expected)
              || not
                  (Sqlite.row_is formats (Sqlite.is_closing formats) (get s.database.channels id)))
            _)
          _ h in
      let (row, found, closing) =
        row_is-some (Sqlite.is_closing formats) (get s.database.channels id)
          (ground (arith, checked)) in
      advanced_to id expected journal completed row s t m found closing (ground (arith, checked))
        agree done
