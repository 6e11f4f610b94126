-- ===== src/Bridge/Close.antt =====
-- The close of a channel in crates/cdk-spilman/src/bridge.rs: its records and errors, and the writes to the
-- store before the mint's swap (`mark_prepared_close_closing`) and after it (`mark_completed_close`). The
-- children prepare the swap, complete it and execute the close.
pub mod Once
pub mod Select
pub mod Prepare
pub mod Transition
pub mod Unblind
pub mod Complete
pub mod Execute
pub mod Initiate
pub mod Sums
pub mod Completed
pub mod Cooperative
pub mod Signed
pub mod Prepared
pub mod Attempts
pub mod Executed
use cashu_spilman_channels.Prelude.{
  ℕ, ◌+◌, String, Bool, true, false, not, Option, none, some, List, Result, ok, err, reject_if,
  map_err, unwrap_or, if◌then◌else◌,
}
use cashu_spilman_channels.Prelude.{◌>>=◌, ◌>>◌}
use cashu_spilman_channels.Json.{Json, ok_of, and_then, u64_field}
use cashu_spilman_channels.Amounts.{KeysetInfo, u64}
use cashu_spilman_channels.Channel.{ChannelParameters}
use cashu_spilman_channels.Channel.Verification.{DeterministicSecretWithBlinding}
use cashu_spilman_channels.Swap.{SwapRequest, SwapResponse, RestoreResponse, Curve}
use cashu_spilman_channels.Packages.{Packages, Proof}
use cashu_spilman_channels.Mint.{MintRequestError, MintRejection, rejection}
use cashu_spilman_channels.Storage.Records.{PaymentProof, ChannelState, closing, same_state}
use cashu_spilman_channels.Storage.{MemoryStorage, StorageError, get_state}
use cashu_spilman_channels.Host.{ConfigurableHost, mark_channel_closing, mark_channel_closed}
use cashu_spilman_channels.Bridge.{
  Cause, BridgeError, invalid_request, channel_closed, channel_closing, internal,
  server_misconfigured, balance_mismatch,
}

-- `Payment` as `serde` reads it.
pub record Payment (V : Type 0) : Type 0 where
  pub channel_id : String
  pub balance : ℕ
  pub signature : String
  pub params : Option V
  pub funding_proofs : Option (List Proof)

-- What a close calls of the packages, and the derivations and signatures over the curve.
pub record CloseParts (p : Packages) : Type 0 where
  pub curve : Curve
  -- `sig_all_message_hash_hex`
  pub sig_all_message_hash : SwapRequest → String
  -- `derive_receiver_blinding_scalar_for_stage1` and `get_receiver_blinded_pubkey_for_stage1`, in hex
  pub stage1_tweak : ChannelParameters → Result String String
  pub stage1_pubkey : ChannelParameters → Result String String
  -- `sign_with_tweaked_key` of the host: the secret, the message and the tweak
  pub sign_with_tweaked_key : String → String → String → Result String String
  -- of the second stage, for a role, an amount and an index: the ephemeral key, the receiver's public key
  -- and the receiver's tweak
  pub stage2_p2pk_e : ChannelParameters → Bool → ℕ → ℕ → Result String String
  pub stage2_pubkey : ChannelParameters → ℕ → ℕ → Result String String
  pub stage2_tweak : ChannelParameters → ℕ → ℕ → Result String String
  -- the kind and the `data` of a secret's text, and the SHA-256 of a secret
  pub secret_kind : String → Result String (Option String × Option String)
  pub secret_hash : String → String
  -- `serde_json` of the swap request, of the secrets and of a keyset
  pub request_value : SwapRequest → p.json.Value
  pub request_from_value : p.json.Value → Option SwapRequest
  pub secrets_value : List (DeterministicSecretWithBlinding × Bool) → p.json.Value
  pub keyset_value : KeysetInfo → p.json.Value
  pub keyset_to_string : KeysetInfo → Result String String
  pub values_from_str : String → Result String (List p.json.Value)
  pub as_bool : p.json.Value → Option Bool
  pub response_from_str : String → Option SwapResponse
  pub response_to_string : SwapResponse → Option String
  pub restore_from_str : String → Option RestoreResponse
  -- `serde_json::from_str::<Payment>`
  pub payment_from_str : String → Result String (Payment p.json.Value)
  -- `SecretKey::from_slice`
  pub secret_key_from_slice : List ℕ → Result String String

pub record CloseData : Type 0 where
  pub swap_request : SwapRequest
  pub sig_all_message_hash : String
  pub blinded_receiver_pubkey : String
  pub expected_total : ℕ
  pub secrets_with_blinding : List (DeterministicSecretWithBlinding × Bool)
  pub output_keyset_info : KeysetInfo

pub record PreparedClose (V : Type 0) : Type 0 where
  pub channel_id : String
  pub balance : ℕ
  pub mint_url : String
  pub swap_request : V
  pub sig_all_message_hash : String
  pub blinded_receiver_pubkey : String
  pub secrets_with_blinding : V
  pub output_keyset_info : V
  pub params_json : String
  pub keyset_info_json : String
  pub channel_secret : String

pub record PreparedCloseTransition (V : Type 0) : Type 0 where
  pub prepared_close : PreparedClose V
  pub expiry_timestamp : ℕ
  pub payment : PaymentProof

pub record CompletedClose : Type 0 where
  pub channel_id : String
  pub expiry_timestamp : ℕ
  pub balance : ℕ
  pub receiver_proofs_json : String
  pub sender_proofs_json : String
  pub receiver_sum : ℕ
  pub sender_sum : ℕ

pub record CloseSuccess : Type 0 where
  pub channel_id : String
  pub total_value : ℕ
  pub receiver_sum : ℕ
  pub sender_sum : ℕ
  pub sender_proofs : String
  pub already_closed : Bool

-- A reason is kept as the value that its text is made from.
pub data Reason : Type 0 where
  because : Cause → Reason
  refused_by : BridgeError → Reason
  unstored : StorageError → Reason
  refresh_before_close : String → Reason

-- `extra` holds the expected and the actual balance, if anything.
pub record ClosePreparationError : Type 0 where
  pub error : String
  pub reason : Reason
  pub status : ℕ
  pub extra : Option (ℕ × ℕ)

abbrev pub preparation_error : String → ℕ → Reason → ClosePreparationError
preparation_error error status reason = record {
  error = error;
  reason = reason;
  status = status;
  extra = none;
}

abbrev pub bad_request : Reason → ClosePreparationError
bad_request reason = preparation_error "Bad request" 400 reason

abbrev pub payment_required : Reason → ClosePreparationError
payment_required reason = preparation_error "Payment required" 402 reason

-- The reason's text stands for the error too.
abbrev pub not_found : String → Reason → ClosePreparationError
not_found message reason = preparation_error message 404 reason

abbrev pub internal_error : Reason → ClosePreparationError
internal_error reason = preparation_error "Internal error" 500 reason

abbrev pub conflict : Reason → ClosePreparationError
conflict reason = preparation_error "Channel closing" 409 reason

abbrev pub gone : Reason → ClosePreparationError
gone reason = preparation_error "Channel closed" 410 reason

-- `from_bridge_error`; the test tells whether a message contains "no payment proof".
unfoldable pub from_bridge_error : (Cause → Bool) → BridgeError → ClosePreparationError
from_bridge_error no_payment_proof channel_closed = gone (refused_by channel_closed)
from_bridge_error no_payment_proof channel_closing = conflict (refused_by channel_closing)
from_bridge_error no_payment_proof BridgeError.unknown_channel =
    not_found "unknown channel" (refused_by BridgeError.unknown_channel)
from_bridge_error no_payment_proof (invalid_request message) =
    if no_payment_proof message
    then bad_request (refused_by (invalid_request message))
    else payment_required (refused_by (invalid_request message))
from_bridge_error no_payment_proof (internal message) =
    internal_error (refused_by (internal message))
from_bridge_error no_payment_proof (server_misconfigured message) =
    internal_error (refused_by (server_misconfigured message))
from_bridge_error no_payment_proof (balance_mismatch expected actual) =
    record (payment_required (refused_by (balance_mismatch expected actual))) {
      extra = some (expected, actual);
    }
from_bridge_error no_payment_proof error = payment_required (refused_by error)

-- What a mint's refusal is reported as.
pub data MintErrorValue : Type 0 where
  rejection_value : MintRejection → MintErrorValue
  error_value : MintRequestError → MintErrorValue
  null : MintErrorValue

pub data CloseError : Type 0 where
  validation_failed : Reason → ℕ → Option ℕ → Option ℕ → CloseError
  unknown_channel : CloseError
  already_closed : ℕ → ℕ → ℕ → CloseError
  mint_rejected : MintErrorValue → CloseError
  mint_rejected_after_retry : MintErrorValue → MintErrorValue → CloseError
  mint_request_failed : MintRequestError → Option MintRequestError → CloseError
  unblind_failed : Reason → CloseError
  storage_failed : Reason → CloseError

unfoldable pub status_code : CloseError → ℕ
status_code (validation_failed reason status expected actual) = status
status_code unknown_channel = 404
status_code (already_closed closed_balance requested_balance status) = status
status_code (mint_rejected error) = 502
status_code (mint_rejected_after_retry original retry) = 502
status_code (mint_request_failed error original) = 502
status_code (unblind_failed reason) = 500
status_code (storage_failed reason) = 500

unfoldable pub from_preparation_error : ClosePreparationError → CloseError
from_preparation_error e = elim e.extra [
  | none ↦ validation_failed e.reason e.status none none
  | some (expected, actual) ↦ validation_failed e.reason e.status (some expected) (some actual)
]

abbrev value_of : MintRequestError → Option MintRejection → MintErrorValue
value_of error (some rejected) = rejection_value rejected
value_of error none = error_value error

unfoldable pub parse_mint_error_value : MintRequestError → MintErrorValue
parse_mint_error_value error = value_of error (rejection error)

-- `serde_json::from_str(params_json).unwrap_or_default()["expiry_timestamp"].as_u64().unwrap_or(0)`
unfoldable pub close_expiry_timestamp : (json : Json) → PreparedClose json.Value → ℕ
close_expiry_timestamp json prep =
    unwrap_or
      (and_then (ok_of (json.from_str prep.params_json))
        (λ params. u64_field json params "expiry_timestamp"))
      0

abbrev pub not_closing : CloseError
not_closing = validation_failed (because (Cause.text "Not closing")) 400 none none

module _ (json : Json) (host : ConfigurableHost) where
  unfoldable pub mark_prepared_close_closing :
      PreparedCloseTransition json.Value → MemoryStorage → Result CloseError MemoryStorage
  mark_prepared_close_closing transition s =
      map_err (λ e. storage_failed (unstored e))
        (mark_channel_closing json host transition.prepared_close.channel_id
          transition.expiry_timestamp transition.payment s)

  unfoldable pub mark_completed_close :
      CompletedClose → MemoryStorage → Result CloseError (MemoryStorage × CloseSuccess)
  mark_completed_close completed s = do
    reject_if (not (same_state (get_state s completed.channel_id) closing)) not_closing
    t ←
        map_err (λ e. storage_failed (unstored e))
          (mark_channel_closed json host completed.channel_id completed.expiry_timestamp
            completed.balance completed.receiver_proofs_json completed.sender_proofs_json
            completed.receiver_sum completed.sender_sum s)
    ok (
      t,
      record {
        channel_id = completed.channel_id;
        total_value = u64 (completed.receiver_sum + completed.sender_sum);
        receiver_sum = completed.receiver_sum;
        sender_sum = completed.sender_sum;
        sender_proofs = completed.sender_proofs_json;
        already_closed = false;
      },
    )
