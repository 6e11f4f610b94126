-- ===== src/Storage.antt =====
-- The receiver's channel store: `MemoryStorage` of crates/cdk-spilman/src/configurable_host.rs, with the
-- records that it keeps (crates/cdk-spilman/src/bridge.rs). An operation that fails leaves the store as
-- it is, so it gives either an error or the next store; the locks are held one operation at a time and
-- are never poisoned. A keyset id and a currency unit are their texts.
pub mod Records
pub mod Operations
pub mod Lifecycle
pub mod Balance
pub mod Journal
pub mod Frozen
pub mod Usage
pub mod Sqlite
use cashu_spilman_channels.Prelude.{
  ℕ, ◌+◌, ◌%◌, String, Bool, true, false, not, ◌&&◌, ◌||◌, Option, none, some, List, [], ◌∷◌,
  Result, ok, err, ◌>>=◌, ◌>>◌, ok_or, reject_if, leb, ltb, ◌==◌, ◌!=◌, if◌then◌else◌, str_eq,
  is_some, unwrap_or, Map, get, insert, remove, empty, Eq, string_eq, pair_eq,
}
use cashu_spilman_channels.Amounts.{u64}
use cashu_spilman_channels.Storage.Records.{
  ChannelFunding, PaymentProof, ClosingData, ClosedDataView, KeysetCacheEntry, UsageMap,
  ChannelState, opened, closing, closed, same_state,
}

pub record MemoryStorage : Type 0 where
  pub close_journals : Map String String
  pub funding : Map String ChannelFunding
  pub balance : Map String PaymentProof
  pub usage : Map String UsageMap
  pub closing : Map String ClosingData
  pub closed : Map String ClosedDataView
  pub keysets : Map (String × String) KeysetCacheEntry

pub data StorageError : Type 0 where
  payment_state_conflict payment_snapshot_conflict missing_payment : StorageError
  close_authorization_mismatch close_payment_or_state_conflict close_journal_conflict : StorageError
  channel_not_open has_close_journal already_closed : StorageError

unfoldable pub new : MemoryStorage
new = record {
  close_journals = empty;
  funding = empty;
  balance = empty;
  usage = empty;
  closing = empty;
  closed = empty;
  keysets = empty;
}

-- `current.balance != expected.balance || current.signature != expected.signature`
abbrev pub differs : PaymentProof → PaymentProof → Bool
differs current expected =
    (current.balance != expected.balance) || not (str_eq current.signature expected.signature)

unfoldable pub get_state : MemoryStorage → String → Option ChannelState
get_state s id =
    if is_some (get s.closed id)
    then some ChannelState.closed
    else if is_some (get s.closing id)
    then some ChannelState.closing
    else if is_some (get s.funding id)
    then some opened
    else none

unfoldable pub compare_payment :
    String → PaymentProof → PaymentProof → MemoryStorage → Result StorageError MemoryStorage
compare_payment id expected payment s = do
  reject_if (not (same_state (get_state s id) opened) || leb payment.balance expected.balance)
      payment_state_conflict
  current ← ok_or (get s.balance id) missing_payment
  reject_if (differs current expected) payment_snapshot_conflict
  ok (record s { balance = insert s.balance id payment })

abbrev pub get_close_journal : String → MemoryStorage → Option String
get_close_journal id s = get s.close_journals id

unfoldable pub freeze_close :
    String → PaymentProof → ClosingData → String → MemoryStorage → Result StorageError MemoryStorage
freeze_close id expected closing_data journal s = do
  reject_if
      ((closing_data.balance != expected.balance)
        || not (str_eq closing_data.signature expected.signature))
      close_authorization_mismatch
  payment ← ok_or (get s.balance id) missing_payment
  reject_if
      (not (is_some (get s.funding id))
        || (not (same_state (get_state s id) opened)
            || (differs payment expected || is_some (get_close_journal id s))))
      close_payment_or_state_conflict
  ok (record s {
    closing = insert s.closing id closing_data;
    close_journals = insert s.close_journals id journal;
  })

-- `journals.get(channel_id) != Some(expected)`
is_journal : Option String → String → Bool
is_journal none expected = false
is_journal (some j) expected = str_eq j expected

-- The writes of a completed close.
completed_close : Option ClosedDataView → String → MemoryStorage → MemoryStorage
completed_close none id s = s
completed_close (some completed) id s = record s {
  closed = insert s.closed id completed;
  closing = remove s.closing id;
}

unfoldable pub advance_close :
    String
    → String
    → String
    → Option ClosedDataView
    → MemoryStorage
    → Result StorageError MemoryStorage
unfolding is_journal completed_close
advance_close id expected journal completed s = do
  reject_if
      (not (is_journal (get s.close_journals id) expected)
        || not (same_state (get_state s id) ChannelState.closing))
      close_journal_conflict
  ok (record (completed_close completed id s) {
    close_journals = insert s.close_journals id journal;
  })

abbrev pub get_funding : String → MemoryStorage → Option ChannelFunding
get_funding id s = get s.funding id

unfoldable pub save_funding :
    String → ChannelFunding → MemoryStorage → Result StorageError MemoryStorage
save_funding id funding s =
    ok
      (if is_some (get s.funding id) then s else record s { funding = insert s.funding id funding })

abbrev pub get_balance : String → MemoryStorage → Option PaymentProof
get_balance id s = get s.balance id

-- `store.get(channel_id).map(|b| payment.balance > b.balance).unwrap_or(true)`
unfoldable pub should_update : Option PaymentProof → PaymentProof → Bool
should_update none payment = true
should_update (some b) payment = ltb b.balance payment.balance

unfoldable pub update_balance :
    String → PaymentProof → MemoryStorage → Result StorageError MemoryStorage
unfolding should_update
update_balance id payment s = do
  reject_if (not (same_state (get_state s id) opened)) channel_not_open
  ok (
      if should_update (get s.balance id) payment
      then record s { balance = insert s.balance id payment }
      else s)

-- `if map.is_empty() { None } else { Some(map.clone()) }`
abbrev pub unless_empty : List (String × ℕ) → UsageMap → Option UsageMap
unless_empty [] usage = none
unless_empty (entry ∷ entries) usage = some usage

abbrev pub read_usage : Option UsageMap → Option UsageMap
read_usage none = none
read_usage (some usage) = unless_empty usage.entries usage

unfoldable pub get_usage : String → MemoryStorage → Option UsageMap
get_usage id s = read_usage (get s.usage id)

-- `for (var, delta) in increments { *usage.entry(var).or_insert(0) += delta }`, wrapping at 64 bits
unfoldable pub add_increments : List (String × ℕ) → UsageMap → UsageMap
add_increments [] usage = usage
add_increments ((variable, delta) ∷ rest) usage =
    add_increments rest (insert usage variable (u64 (unwrap_or (get usage variable) 0 + delta)))

unfoldable pub increment_usage :
    String → UsageMap → MemoryStorage → Result StorageError MemoryStorage
unfolding add_increments
increment_usage id increments s = ok (record s {
  usage = insert s.usage id (add_increments increments.entries (unwrap_or (get s.usage id) empty));
})

unfoldable pub mark_closing :
    String → ClosingData → MemoryStorage → Result StorageError MemoryStorage
mark_closing id closing_data s = do
  reject_if (is_some (get_close_journal id s)) has_close_journal
  reject_if (is_some (get s.closed id)) already_closed
  ok (record s { closing = insert s.closing id closing_data })

abbrev pub get_closing_data : String → MemoryStorage → Option ClosingData
get_closing_data id s = get s.closing id

unfoldable pub mark_closed :
    String → ClosedDataView → MemoryStorage → Result StorageError MemoryStorage
mark_closed id view s = do
  reject_if (is_some (get_close_journal id s)) has_close_journal
  reject_if (is_some (get s.closed id)) already_closed
  ok (record s { closed = insert s.closed id view; closing = remove s.closing id })

abbrev pub get_closed_data : String → MemoryStorage → Option ClosedDataView
get_closed_data id s = get s.closed id

abbrev pub get_keyset : String → String → MemoryStorage → Option KeysetCacheEntry
get_keyset mint keyset_id s = get s.keysets (mint, keyset_id)

unfoldable pub set_keyset :
    String → String → KeysetCacheEntry → MemoryStorage → Result StorageError MemoryStorage
set_keyset mint keyset_id entry s =
    ok (record s { keysets = insert s.keysets (mint, keyset_id) entry })

-- `.iter().filter(|((m, _), entry)| m == mint && entry.unit == *unit && entry.active)`
active_ids : List ((String × String) × KeysetCacheEntry) → String → String → List String
active_ids [] mint unit = []
active_ids (((m, keyset_id), entry) ∷ rest) mint unit =
    let others = active_ids rest mint unit in
    if str_eq m mint && (str_eq entry.unit unit && entry.active) then keyset_id ∷ others else others

unfoldable pub get_active_keyset_ids : String → String → MemoryStorage → List String
unfolding active_ids
get_active_keyset_ids mint unit s = active_ids s.keysets.entries mint unit

of_unit :
    List ((String × String) × KeysetCacheEntry) → String → String → List (String × KeysetCacheEntry)
of_unit [] mint unit = []
of_unit (((m, keyset_id), entry) ∷ rest) mint unit =
    let others = of_unit rest mint unit in
    if str_eq m mint && str_eq entry.unit unit then (keyset_id, entry) ∷ others else others

unfoldable pub list_keysets_for_unit :
    String → String → MemoryStorage → List (String × KeysetCacheEntry)
unfolding of_unit
list_keysets_for_unit mint unit s = of_unit s.keysets.entries mint unit

active_units : List ((String × String) × KeysetCacheEntry) → List String
active_units [] = []
active_units ((k, entry) ∷ rest) =
    let others = active_units rest in if entry.active then entry.unit ∷ others else others

-- The set of units is the list of the active keysets' units.
unfoldable pub get_active_units : MemoryStorage → List String
unfolding active_units
get_active_units s = active_units s.keysets.entries
