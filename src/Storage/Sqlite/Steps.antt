-- ===== src/Storage/Sqlite/Steps.antt =====
-- The successful writes of `SqliteStorage` as steps, and what it means that the store in memory makes one too.
use cashu_spilman_channels.Prelude.{String, false, Option, ok, str_eq, string_eq, pair_eq, ◌≡◌}
use cashu_spilman_channels.Storage.Records.{
  ChannelFunding, PaymentProof, ClosingData, ClosedDataView, KeysetCacheEntry,
}
use cashu_spilman_channels.Storage.{MemoryStorage}
use cashu_spilman_channels.Storage.Operations.{
  Operation, compares, freezes, advances, saves, updates, marks_closing, marks_closed, sets_keyset,
  apply,
}
use cashu_spilman_channels.Storage.Sqlite.{
  Formats, ChannelRow, SqliteStorage, SqliteError, state_of, update_row, closing_row, closed_row,
}
use cashu_spilman_channels.Storage.Sqlite
use cashu_spilman_channels.Storage.Sqlite.Refines.{Agree}

-- A payment's signature is not the empty text, which stands for no payment in the table.
abbrev pub Signed : PaymentProof → Type 0
Signed payment = str_eq payment.signature "" ≡ false

-- A successful write of the database.
pub data Step (formats : Formats) : Operation → SqliteStorage → SqliteStorage → Type 0 where
  compared :
      (id : String) (expected payment : PaymentProof) (s t : SqliteStorage)
      → Signed expected
      → Signed payment
      → Sqlite.compare_payment id expected payment s ≡ ok t
      → Step formats (compares id expected payment) s t
  frozen :
      (id : String) (expected : PaymentProof) (closing_data : ClosingData) (journal : String)
      (s t : SqliteStorage)
      → Signed expected
      → Sqlite.freeze_close formats id expected closing_data journal s ≡ ok t
      → Step formats (freezes id expected closing_data journal) s t
  advanced :
      (id expected journal : String) (completed : Option ClosedDataView) (s t : SqliteStorage)
      → Sqlite.advance_close formats id expected journal completed s ≡ ok t
      → Step formats (advances id expected journal completed) s t
  saved :
      (id : String) (funding : ChannelFunding) (s t : SqliteStorage)
      → Sqlite.save_funding formats id funding s ≡ ok t
      → Step formats (saves id funding) s t
  updated :
      (id : String) (payment : PaymentProof) (s t : SqliteStorage)
      → Signed payment
      → Sqlite.update_balance formats id payment s ≡ ok t
      → Step formats (updates id payment) s t
  marked_closing :
      (id : String) (closing_data : ClosingData) (s t : SqliteStorage)
      → Sqlite.mark_closing formats id closing_data s ≡ ok t
      → Step formats (marks_closing id closing_data) s t
  marked_closed :
      (id : String) (view : ClosedDataView) (s t : SqliteStorage)
      → Sqlite.mark_closed formats id view s ≡ ok t
      → Step formats (marks_closed id view) s t
  keyset_set :
      (mint id : String) (entry : KeysetCacheEntry) (s t : SqliteStorage)
      → Sqlite.set_keyset formats mint id entry s ≡ ok t
      → Step formats (sets_keyset mint id entry) s t

-- The store in memory makes the same step and agrees again.
pub record Simulates (formats : Formats) (op : Operation) (t : SqliteStorage) (m : MemoryStorage)
    : Type 0 where
  pub next : MemoryStorage
  pub applied : apply op m ≡ ok next
  pub agree : Agree formats t next
