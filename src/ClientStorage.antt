-- ===== src/ClientStorage.antt =====
-- The sender's channel store: `MemoryClientStorage` of crates/cdk-spilman/src/client_storage.rs. An operation
-- that fails leaves the store as it is. The keyset cache, which these operations do not touch, is left out.
pub mod Consistent
pub mod Idempotent
use cashu_spilman_channels.Prelude.{
  ℕ, String, Bool, true, false, not, ◌&&◌, Option, none, some, List, [], ◌∷◌, Result, ok, err, ◌==◌,
  if◌then◌else◌, str_eq, is_some, Map, get, insert, remove, empty, Eq, string_eq,
}

pub record ClientChannelOpeningFromSwap : Type 0 where
  pub params_json : String
  pub channel_secret_hex : String
  pub keyset_info_json : String
  pub sender_pubkey_hex : String
  pub receiver_pubkey_hex : String
  pub capacity : ℕ
  pub funding_token_amount : ℕ
  pub mint_url : String
  pub unit : String
  pub input_token : String
  pub change_secrets_json : String
  pub change_amount_raw : ℕ
  pub created_at : ℕ

pub record ClientChannelFunding : Type 0 where
  pub params_json : String
  pub funding_proofs_json : String
  pub channel_secret_hex : String
  pub keyset_info_json : String
  pub sender_pubkey_hex : String
  pub capacity : ℕ
  pub funding_token_amount : ℕ
  pub mint_url : String
  pub created_at : ℕ

pub record ClientPaymentState : Type 0 where
  pub balance : ℕ
  pub signature : String
  pub payment_count : ℕ
  pub last_payment_at : ℕ

pub record ClientOpeningFailure : Type 0 where
  pub stage : String
  pub message : String
  pub failed_at : ℕ

pub data ClientChannelState : Type 0 where
  opening_from_swap opening_failed opened closing closed : ClientChannelState

unfoldable pub is_payable : ClientChannelState → Bool
is_payable opened = true
is_payable state = false

pub record MemoryClientStorage : Type 0 where
  pub opening : Map String ClientChannelOpeningFromSwap
  pub funding : Map String ClientChannelFunding
  pub payments : Map String ClientPaymentState
  pub states : Map String ClientChannelState
  pub failures : Map String ClientOpeningFailure

pub data ClientStorageError : Type 0 where
  already_exists corrupt_opening corrupt_funding different_proofs not_opening :
      String → ClientStorageError

unfoldable pub new : MemoryClientStorage
new = record {
  opening = empty;
  funding = empty;
  payments = empty;
  states = empty;
  failures = empty;
}

abbrev all_true : List Bool → Bool
all_true [] = true
all_true (b ∷ bs) = b && all_true bs

-- The derived `PartialEq` of the opening.
unfoldable pub opening_eq : ClientChannelOpeningFromSwap → ClientChannelOpeningFromSwap → Bool
opening_eq a b = all_true (
    str_eq a.params_json b.params_json
    ∷ str_eq a.channel_secret_hex b.channel_secret_hex
    ∷ str_eq a.keyset_info_json b.keyset_info_json
    ∷ str_eq a.sender_pubkey_hex b.sender_pubkey_hex
    ∷ str_eq a.receiver_pubkey_hex b.receiver_pubkey_hex
    ∷ (a.capacity == b.capacity)
    ∷ (a.funding_token_amount == b.funding_token_amount)
    ∷ str_eq a.mint_url b.mint_url
    ∷ str_eq a.unit b.unit
    ∷ str_eq a.input_token b.input_token
    ∷ str_eq a.change_secrets_json b.change_secrets_json
    ∷ (a.change_amount_raw == b.change_amount_raw)
    ∷ (a.created_at == b.created_at)
    ∷ [])

-- `self.opening.get(channel_id) == Some(&opening)`
is_same : Option ClientChannelOpeningFromSwap → ClientChannelOpeningFromSwap → Bool
unfolding opening_eq
is_same none opening = false
is_same (some stored) opening = opening_eq stored opening

abbrev pub may_save : ClientChannelState → Bool
may_save opening_from_swap = true
may_save opening_failed = true
may_save state = false

-- The arms of `save_opening_from_swap`.
save_at :
    Option ClientChannelState
    → String
    → ClientChannelOpeningFromSwap
    → MemoryClientStorage
    → Result ClientStorageError MemoryClientStorage
unfolding is_same
save_at none id opening s = ok (record s {
  opening = insert s.opening id opening;
  states = insert s.states id opening_from_swap;
})
save_at (some state) id opening s =
    if may_save state && is_same (get s.opening id) opening
    then ok (record s {
      failures = remove s.failures id;
      states = insert s.states id opening_from_swap;
    })
    else err (already_exists id)

unfoldable pub save_opening_from_swap :
    String
    → ClientChannelOpeningFromSwap
    → MemoryClientStorage
    → Result ClientStorageError MemoryClientStorage
unfolding save_at
save_opening_from_swap id opening s = save_at (get s.states id) id opening s

abbrev pub funding_of : ClientChannelOpeningFromSwap → String → ClientChannelFunding
funding_of opening funding_proofs_json = record {
  params_json = opening.params_json;
  funding_proofs_json = funding_proofs_json;
  channel_secret_hex = opening.channel_secret_hex;
  keyset_info_json = opening.keyset_info_json;
  sender_pubkey_hex = opening.sender_pubkey_hex;
  capacity = opening.capacity;
  funding_token_amount = opening.funding_token_amount;
  mint_url = opening.mint_url;
  created_at = opening.created_at;
}

complete_opening :
    Option ClientChannelOpeningFromSwap
    → String
    → String
    → MemoryClientStorage
    → Result ClientStorageError MemoryClientStorage
complete_opening none id funding_proofs_json s = err (corrupt_opening id)
complete_opening (some opening) id funding_proofs_json s = ok (record s {
  funding = insert s.funding id (funding_of opening funding_proofs_json);
  opening = remove s.opening id;
  failures = remove s.failures id;
  states = insert s.states id opened;
})

already_open :
    Option ClientChannelFunding
    → String
    → String
    → MemoryClientStorage
    → Result ClientStorageError MemoryClientStorage
already_open none id funding_proofs_json s = err (corrupt_funding id)
already_open (some funding) id funding_proofs_json s =
    if str_eq funding.funding_proofs_json funding_proofs_json
    then ok s
    else err (different_proofs id)

-- The arms of `set_open`.
open_at :
    Option ClientChannelState
    → String
    → String
    → MemoryClientStorage
    → Result ClientStorageError MemoryClientStorage
unfolding complete_opening already_open
open_at (some opening_from_swap) id proofs s = complete_opening (get s.opening id) id proofs s
open_at (some opened) id proofs s = already_open (get s.funding id) id proofs s
open_at (some closing) id proofs s = already_open (get s.funding id) id proofs s
open_at (some closed) id proofs s = already_open (get s.funding id) id proofs s
open_at state id proofs s = err (not_opening id)

unfoldable pub set_open :
    String → String → MemoryClientStorage → Result ClientStorageError MemoryClientStorage
unfolding open_at
set_open id funding_proofs_json s = open_at (get s.states id) id funding_proofs_json s

-- The arms of `get_opening_from_swap`.
opening_at :
    Option ClientChannelState
    → Option ClientChannelOpeningFromSwap
    → String
    → Result ClientStorageError (Option ClientChannelOpeningFromSwap)
opening_at (some opening_from_swap) (some opening) id = ok (some opening)
opening_at (some opening_from_swap) none id = err (corrupt_opening id)
opening_at state opening id = ok none

unfoldable pub get_opening_from_swap :
    String → MemoryClientStorage → Result ClientStorageError (Option ClientChannelOpeningFromSwap)
unfolding opening_at
get_opening_from_swap id s = opening_at (get s.states id) (get s.opening id) id

unfoldable pub set_opening_failed :
    String
    → ClientOpeningFailure
    → MemoryClientStorage
    → Result ClientStorageError MemoryClientStorage
set_opening_failed id failure s =
    if is_some (get s.opening id)
    then ok (record s {
      failures = insert s.failures id failure;
      states = insert s.states id opening_failed;
    })
    else err (not_opening id)

failure_at : Option ClientChannelState → Option ClientOpeningFailure → Option ClientOpeningFailure
failure_at (some opening_failed) failure = failure
failure_at state failure = none

unfoldable pub get_opening_failure : String → MemoryClientStorage → Option ClientOpeningFailure
unfolding failure_at
get_opening_failure id s = failure_at (get s.states id) (get s.failures id)

unfoldable pub save_payment_state :
    String
    → ClientPaymentState
    → MemoryClientStorage
    → Result ClientStorageError MemoryClientStorage
save_payment_state id state s = ok (record s { payments = insert s.payments id state })

unfoldable pub set_closed :
    String → MemoryClientStorage → Result ClientStorageError MemoryClientStorage
set_closed id s = ok (record s { states = insert s.states id closed })

unfoldable pub set_closing :
    String → MemoryClientStorage → Result ClientStorageError MemoryClientStorage
set_closing id s = ok (record s { states = insert s.states id closing })

unfoldable pub delete : String → MemoryClientStorage → Result ClientStorageError MemoryClientStorage
delete id s = ok (record {
  opening = remove s.opening id;
  funding = remove s.funding id;
  payments = remove s.payments id;
  failures = remove s.failures id;
  states = remove s.states id;
})
