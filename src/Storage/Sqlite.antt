-- ===== src/Storage/Sqlite.antt =====
-- The receiver's persistent store: `SqliteStorage` of crates/cdk-spilman/src/configurable_host.rs. A table is
-- a map from its primary key to its rows, a statement the function of the tables that its SQL describes. The
-- database itself never fails, and a transaction that returns early changes nothing. The usage table is left
-- out.
pub mod Refines
pub mod Steps
pub mod Writes
pub mod Payments
pub mod Closes
pub mod Cache
pub mod Coherence
pub mod Simulation
use cashu_spilman_channels.Prelude.{
  ℕ, ◌+◌, ◌^◌, String, Bool, true, false, not, ◌&&◌, ◌||◌, Option, none, some, List, [], ◌∷◌,
  Result, ok, err, ◌>>=◌, ◌>>◌, ok_or, reject_if, leb, ltb, ◌==◌, ◌!=◌, if◌then◌else◌, str_eq,
  is_some, Map, get, insert, empty, Eq, string_eq, pair_eq,
}
use cashu_spilman_channels.Json.{and_then}
use cashu_spilman_channels.Storage.Records.{
  ChannelFunding, PaymentProof, ClosingData, ClosedDataView, KeysetCacheEntry, ChannelState, opened,
}

-- `serde_json` on a stored record. Writing one cannot fail.
pub record Serde (A : Type 0) : Type 0 where
  pub to_text : A → String
  pub from_text : String → Option A

pub record Formats : Type 0 where
  pub funding : Serde ChannelFunding
  pub closing : Serde ClosingData
  pub closed : Serde ClosedDataView
  pub keyset : Serde KeysetCacheEntry

-- A row of `spilman_channels`.
pub record ChannelRow : Type 0 where
  pub funding_json : String
  pub balance : ℕ
  pub signature : String
  pub state : String
  pub closing_json : Option String
  pub closed_json : Option String

pub record Database : Type 0 where
  pub channels : Map String ChannelRow
  pub close_journals : Map String String
  pub keysets : Map (String × String) String

pub record SqliteStorage : Type 0 where
  pub database : Database
  pub funding_cache : Map String ChannelFunding

pub data SqliteError : Type 0 where
  payment_state_conflict payment_overflow payment_snapshot_conflict : SqliteError
  close_authorization_mismatch balance_overflow close_payment_or_state_conflict : SqliteError
  close_journal_conflict close_state_conflict no_row channel_not_open invalid_state : SqliteError
  not_found_or_closed journal_exists : SqliteError

unfoldable pub init_schema : Database
init_schema = record { channels = empty; close_journals = empty; keysets = empty }

-- `open` on a database that exists: the cache is empty.
abbrev pub reopened : Database → SqliteStorage
reopened database = record { database = database; funding_cache = empty }

-- `i64::try_from(n)`
abbrev pub to_i64 : ℕ → SqliteError → Result SqliteError ℕ
to_i64 n e = if ltb n (2 ^ 63) then ok n else err e

abbrev pub with_channels : SqliteStorage → Map String ChannelRow → SqliteStorage
with_channels s channels = record s { database = record s.database { channels = channels } }

abbrev pub with_journals : SqliteStorage → Map String String → SqliteStorage
with_journals s journals = record s { database = record s.database { close_journals = journals } }

-- `UPDATE spilman_channels SET … WHERE channel_id = ?1 AND …`: the table after it, `none` when no row has
-- changed.
unfoldable pub update_row :
    (ChannelRow → Bool)
    → (ChannelRow → ChannelRow)
    → String
    → Option ChannelRow
    → Map String ChannelRow
    → Option (Map String ChannelRow)
update_row test set id none channels = none
update_row test set id (some row) channels =
    if test row then some (insert channels id (set row)) else none

abbrev pub update_channel :
    (ChannelRow → Bool)
    → (ChannelRow → ChannelRow)
    → String
    → SqliteStorage
    → Option (Map String ChannelRow)
update_channel test set id s =
    update_row test set id (get s.database.channels id) s.database.channels

abbrev pub holds : PaymentProof → ChannelRow → Bool
holds expected row =
    str_eq row.state "Open"
    && ((row.balance == expected.balance) && str_eq row.signature expected.signature)

unfoldable pub compare_payment :
    String → PaymentProof → PaymentProof → SqliteStorage → Result SqliteError SqliteStorage
compare_payment id expected payment s = do
  reject_if (leb payment.balance expected.balance) payment_state_conflict
  balance ← to_i64 payment.balance payment_overflow
  previous ← to_i64 expected.balance payment_overflow
  channels ←
      ok_or
        (update_channel (holds expected)
          (λ row. record row { balance = payment.balance; signature = payment.signature }) id s)
        payment_snapshot_conflict
  ok (with_channels s channels)

abbrev pub get_close_journal : String → SqliteStorage → Option String
get_close_journal id s = get s.database.close_journals id

module _ (formats : Formats) where
  abbrev pub closing_row : ClosingData → ChannelRow → ChannelRow
  closing_row closing_data row = record row {
    state = "Closing";
    closing_json = some (formats.closing.to_text closing_data);
  }

  abbrev pub closed_row : ClosedDataView → ChannelRow → ChannelRow
  closed_row view row = record row {
    state = "Closed";
    closed_json = some (formats.closed.to_text view);
    closing_json = none;
  }

  unfoldable pub freeze_close :
      String
      → PaymentProof
      → ClosingData
      → String
      → SqliteStorage
      → Result SqliteError SqliteStorage
  freeze_close id expected closing_data journal s = do
    reject_if
        ((closing_data.balance != expected.balance)
          || not (str_eq closing_data.signature expected.signature))
        close_authorization_mismatch
    balance ← to_i64 expected.balance balance_overflow
    channels ←
        ok_or (update_channel (holds expected) (closing_row closing_data) id s)
          close_payment_or_state_conflict
    reject_if (is_some (get_close_journal id s)) journal_exists
    ok (with_journals (with_channels s channels) (insert s.database.close_journals id journal))

  abbrev is_closing : ChannelRow → Bool
  is_closing row = str_eq row.state "Closing"

  abbrev row_is : (ChannelRow → Bool) → Option ChannelRow → Bool
  row_is test none = false
  row_is test (some row) = test row

  abbrev text_is : Option String → String → Bool
  text_is none expected = false
  text_is (some t) expected = str_eq t expected

  -- `if let Some(completed) = completed`
  abbrev complete_row :
      Option ClosedDataView → String → SqliteStorage → Result SqliteError SqliteStorage
  complete_row none id s = ok s
  complete_row (some view) id s =
      ok_or (update_channel is_closing (closed_row view) id s) close_state_conflict >>= λ channels.
      ok (with_channels s channels)

  unfoldable pub advance_close :
      String
      → String
      → String
      → Option ClosedDataView
      → SqliteStorage
      → Result SqliteError SqliteStorage
  advance_close id expected journal completed s = do
    reject_if
        (not (text_is (get_close_journal id s) expected)
          || not (row_is is_closing (get s.database.channels id)))
        close_journal_conflict
    complete_row completed id (with_journals s (insert s.database.close_journals id journal))

  -- `query_row(…).ok().and_then(|json| serde_json::from_str(&json).ok())`
  abbrev pub stored_funding : Option ChannelRow → Option ChannelFunding
  stored_funding none = none
  stored_funding (some row) = formats.funding.from_text row.funding_json

  -- The cache first; a hit in the table is put in the cache.
  abbrev filled :
      String → Option ChannelFunding → SqliteStorage → SqliteStorage × Option ChannelFunding
  filled id none s = (s, none)
  filled id (some f) s = (record s { funding_cache = insert s.funding_cache id f }, some f)

  abbrev looked_up :
      String → Option ChannelFunding → SqliteStorage → SqliteStorage × Option ChannelFunding
  looked_up id (some f) s = (s, some f)
  looked_up id none s = filled id (stored_funding (get s.database.channels id)) s

  unfoldable pub get_funding : String → SqliteStorage → SqliteStorage × Option ChannelFunding
  get_funding id s = looked_up id (get s.funding_cache id) s

  -- `INSERT … ON CONFLICT(channel_id) DO NOTHING`, then `entry(channel_id).or_insert(funding)`
  abbrev new_row : ChannelFunding → ChannelRow
  new_row funding = record {
    funding_json = formats.funding.to_text funding;
    balance = 0;
    signature = "";
    state = "Open";
    closing_json = none;
    closed_json = none;
  }

  abbrev or_insert : {A : Type 0} → Map String A → String → A → Map String A
  or_insert m id a = if is_some (get m id) then m else insert m id a

  unfoldable pub save_funding :
      String → ChannelFunding → SqliteStorage → Result SqliteError SqliteStorage
  save_funding id funding s = ok (record s {
    database = record s.database { channels = or_insert s.database.channels id (new_row funding) };
    funding_cache = or_insert s.funding_cache id funding;
  })

  abbrev pub paid_row : ChannelRow → Option PaymentProof
  paid_row row =
      if str_eq row.signature ""
      then none
      else some (record { balance = row.balance; signature = row.signature })

  abbrev pub stored_balance : Option ChannelRow → Option PaymentProof
  stored_balance none = none
  stored_balance (some row) = paid_row row

  abbrev pub get_balance : String → SqliteStorage → Option PaymentProof
  get_balance id s = stored_balance (get s.database.channels id)

  abbrev pub takes : PaymentProof → ChannelRow → Bool
  takes payment row =
      str_eq row.state "Open" && (ltb row.balance payment.balance || str_eq row.signature "")

  abbrev pub or_same :
      Map String ChannelRow → Option (Map String ChannelRow) → Map String ChannelRow
  or_same channels none = channels
  or_same channels (some changed) = changed

  unfoldable pub update_balance :
      String → PaymentProof → SqliteStorage → Result SqliteError SqliteStorage
  update_balance id payment s = do
    balance ← to_i64 payment.balance payment_overflow
    row ← ok_or (get s.database.channels id) no_row
    reject_if (not (str_eq row.state "Open")) channel_not_open
    ok (
        with_channels s (
          or_same s.database.channels (
            update_channel (takes payment)
              (λ row. record row { balance = payment.balance; signature = payment.signature }) id
              s)))

  unfoldable pub state_of : Option ChannelRow → Result SqliteError (Option ChannelState)
  state_of none = ok none
  state_of (some row) =
      if str_eq row.state "Open"
      then ok (some opened)
      else if str_eq row.state "Closing"
      then ok (some ChannelState.closing)
      else if str_eq row.state "Closed"
      then ok (some ChannelState.closed)
      else err invalid_state

  unfoldable pub get_state : SqliteStorage → String → Result SqliteError (Option ChannelState)
  unfolding state_of
  get_state s id = state_of (get s.database.channels id)

  -- `state != 'Closed' AND NOT EXISTS (SELECT 1 FROM spilman_close_journals …)`
  abbrev free_of_journal : Option String → ChannelRow → Bool
  free_of_journal journal row = not (str_eq row.state "Closed") && not (is_some journal)

  unfoldable pub mark_closing :
      String → ClosingData → SqliteStorage → Result SqliteError SqliteStorage
  mark_closing id closing_data s = do
    channels ←
        ok_or
          (update_channel (free_of_journal (get_close_journal id s)) (closing_row closing_data) id
            s)
          not_found_or_closed
    ok (with_channels s channels)

  abbrev pub stored_closing : Option ChannelRow → Option ClosingData
  stored_closing none = none
  stored_closing (some row) =
      if str_eq row.state "Closing"
      then and_then row.closing_json formats.closing.from_text
      else none

  abbrev pub get_closing_data : String → SqliteStorage → Option ClosingData
  get_closing_data id s = stored_closing (get s.database.channels id)

  unfoldable pub mark_closed :
      String → ClosedDataView → SqliteStorage → Result SqliteError SqliteStorage
  mark_closed id view s = do
    channels ←
        ok_or (update_channel (free_of_journal (get_close_journal id s)) (closed_row view) id s)
          not_found_or_closed
    ok (with_channels s channels)

  abbrev pub stored_closed : Option ChannelRow → Option ClosedDataView
  stored_closed none = none
  stored_closed (some row) =
      if str_eq row.state "Closed" then and_then row.closed_json formats.closed.from_text else none

  abbrev pub get_closed_data : String → SqliteStorage → Option ClosedDataView
  get_closed_data id s = stored_closed (get s.database.channels id)

  abbrev pub get_keyset : String → String → SqliteStorage → Option KeysetCacheEntry
  get_keyset mint keyset_id s =
      and_then (get s.database.keysets (mint, keyset_id)) formats.keyset.from_text

  unfoldable pub set_keyset :
      String → String → KeysetCacheEntry → SqliteStorage → Result SqliteError SqliteStorage
  set_keyset mint keyset_id entry s = ok (record s {
    database = record s.database {
      keysets = insert s.database.keysets (mint, keyset_id) (formats.keyset.to_text entry);
    };
  })
