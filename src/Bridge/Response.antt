-- ===== src/Bridge/Response.antt =====
-- The HTTP answer to a payment that the bridge refuses: `BridgeErrorResponse` of
-- crates/cdk-spilman/src/bridge.rs.
pub mod Status
use cashu_spilman_channels.Prelude.{ℕ, String, Option, none, some, List, [], ◌∷◌}
use cashu_spilman_channels.Bridge.{
  BridgeError, invalid_request, channel_closed, channel_closing, server_misconfigured,
  capacity_too_small, expiry_too_soon, max_amount_exceeded, balance_exceeds_capacity,
  unsupported_unit, channel_id_mismatch, validation_failed, unknown_channel, invalid_signature,
  insufficient_balance, balance_mismatch, internal, receiver_key_not_acceptable,
  mint_or_keyset_not_acceptable,
}

-- The reason is kept as the error whose text it is, `extra` as the entries of its map.
pub record BridgeErrorResponse : Type 0 where
  pub error : String
  pub reason : BridgeError
  pub status : ℕ
  pub code : String
  pub extra : Option (List (String × ℕ))

abbrev respond : BridgeError → ℕ → String → String → BridgeErrorResponse
respond e status error code = record {
  error = error;
  reason = e;
  status = status;
  code = code;
  extra = none;
}

abbrev unpaid : BridgeError → String → BridgeErrorResponse
unpaid e code = respond e 402 "Payment required" code

abbrev unpaid_with : BridgeError → String → List (String × ℕ) → BridgeErrorResponse
unpaid_with e code entries = record (unpaid e code) { extra = some entries }

unfoldable pub from_bridge_error : BridgeError → BridgeErrorResponse
from_bridge_error (invalid_request m) =
    respond (invalid_request m) 400 "Bad request" "invalid_request"
from_bridge_error unknown_channel = respond unknown_channel 404 "Not found" "unknown_channel"
from_bridge_error channel_closing = respond channel_closing 409 "Channel closing" "channel_closing"
from_bridge_error channel_closed = respond channel_closed 410 "Channel closed" "channel_closed"
from_bridge_error (server_misconfigured m) =
    respond (server_misconfigured m) 500 "Internal error" "server_misconfigured"
from_bridge_error (internal m) = respond (internal m) 500 "Internal error" "internal"
from_bridge_error (balance_mismatch expected actual) =
    unpaid_with (balance_mismatch expected actual) "balance_mismatch"
      (("expected", expected) ∷ ("actual", actual) ∷ [])
from_bridge_error (balance_exceeds_capacity balance capacity) =
    unpaid_with (balance_exceeds_capacity balance capacity) "balance_exceeds_capacity"
      (("balance", balance) ∷ ("capacity", capacity) ∷ [])
from_bridge_error (insufficient_balance balance amount_due) =
    unpaid_with (insufficient_balance balance amount_due) "insufficient_balance"
      (("balance", balance) ∷ ("amount_due", amount_due) ∷ [])
from_bridge_error (capacity_too_small capacity min_capacity) =
    unpaid_with (capacity_too_small capacity min_capacity) "capacity_too_small"
      (("capacity", capacity) ∷ ("min_capacity", min_capacity) ∷ [])
from_bridge_error (expiry_too_soon expiry_timestamp min_expiry now) =
    unpaid_with (expiry_too_soon expiry_timestamp min_expiry now) "expiry_too_soon"
      (("expiry_timestamp", expiry_timestamp) ∷ ("min_expiry", min_expiry) ∷ ("now", now) ∷ [])
from_bridge_error (max_amount_exceeded amount max_allowed) =
    unpaid_with (max_amount_exceeded amount max_allowed) "max_amount_exceeded"
      (("amount", amount) ∷ ("max_allowed", max_allowed) ∷ [])
from_bridge_error (unsupported_unit u) = unpaid (unsupported_unit u) "unsupported_unit"
from_bridge_error channel_id_mismatch = unpaid channel_id_mismatch "channel_id_mismatch"
from_bridge_error (validation_failed m) = unpaid (validation_failed m) "validation_failed"
from_bridge_error (invalid_signature m) = unpaid (invalid_signature m) "invalid_signature"
from_bridge_error receiver_key_not_acceptable =
    unpaid receiver_key_not_acceptable "receiver_key_not_acceptable"
from_bridge_error mint_or_keyset_not_acceptable =
    unpaid mint_or_keyset_not_acceptable "mint_or_keyset_not_acceptable"
