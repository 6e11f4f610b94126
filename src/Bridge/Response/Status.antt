-- ===== src/Bridge/Response/Status.antt =====
-- The statuses of a refused payment and of a refused close are the same, but for one error.
use cashu_spilman_channels.Prelude.{ℕ, Bool, false, ◌≡◌, ◌⊎◌, refl, inl, inr, Bool-cases}
use cashu_spilman_channels.Bridge.{
  Cause, BridgeError, invalid_request, channel_closed, channel_closing, server_misconfigured,
  capacity_too_small, expiry_too_soon, max_amount_exceeded, balance_exceeds_capacity,
  unsupported_unit, channel_id_mismatch, validation_failed, unknown_channel, invalid_signature,
  insufficient_balance, balance_mismatch, internal, receiver_key_not_acceptable,
  mint_or_keyset_not_acceptable,
}
use cashu_spilman_channels.Bridge.Close
use cashu_spilman_channels.Bridge.Close.{status_code, from_preparation_error}
use cashu_spilman_channels.Bridge.Response

-- The status of a close that fails with an error of the bridge.
abbrev pub close_status : (Cause → Bool) → BridgeError → ℕ
close_status no_payment_proof e =
    status_code (from_preparation_error (Close.from_bridge_error no_payment_proof e))

-- Where the statuses differ.
abbrev pub Unproven : (Cause → Bool) → BridgeError → Type 0
Unproven no_payment_proof e =
    (m : Cause) × (e ≡ invalid_request m)
    × (no_payment_proof m ≡ false)
    × (close_status no_payment_proof e ≡ 402)
    × ((Response.from_bridge_error e).status ≡ 400)

-- A close that fails with an error of the bridge is answered with the status that a payment with that error
-- has, in every case but one: an invalid request that does not tell of a missing payment proof is 400 for a
-- payment and 402 for a close.
pub close_status-from_bridge_error :
    (no_payment_proof : Cause → Bool) (e : BridgeError)
    → (close_status no_payment_proof e ≡ (Response.from_bridge_error e).status)
      ⊎ Unproven no_payment_proof e
unfolding Close.from_bridge_error Response.from_bridge_error status_code from_preparation_error
close_status-from_bridge_error n (invalid_request m) = elim (Bool-cases (n m)) [
  | inl missing ↦ rw missing (inl refl)
  | inr other ↦ inr (m, refl, other, rw other refl, refl)
]
close_status-from_bridge_error n channel_closed = inl refl
close_status-from_bridge_error n channel_closing = inl refl
close_status-from_bridge_error n (server_misconfigured m) = inl refl
close_status-from_bridge_error n (capacity_too_small a b) = inl refl
close_status-from_bridge_error n (expiry_too_soon a b c) = inl refl
close_status-from_bridge_error n (max_amount_exceeded a b) = inl refl
close_status-from_bridge_error n (balance_exceeds_capacity a b) = inl refl
close_status-from_bridge_error n (unsupported_unit u) = inl refl
close_status-from_bridge_error n channel_id_mismatch = inl refl
close_status-from_bridge_error n (validation_failed m) = inl refl
close_status-from_bridge_error n unknown_channel = inl refl
close_status-from_bridge_error n (invalid_signature m) = inl refl
close_status-from_bridge_error n (insufficient_balance a b) = inl refl
close_status-from_bridge_error n (balance_mismatch a b) = inl refl
close_status-from_bridge_error n (internal m) = inl refl
close_status-from_bridge_error n receiver_key_not_acceptable = inl refl
close_status-from_bridge_error n mint_or_keyset_not_acceptable = inl refl
