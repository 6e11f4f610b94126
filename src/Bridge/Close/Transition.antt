-- ===== src/Bridge/Close/Transition.antt =====
-- The preparations of a cooperative and of a unilateral close, up to the transition that is stored before
-- the swap, and of the swap of a closing channel: crates/cdk-spilman/src/bridge.rs.
use cashu_spilman_channels.Prelude.{
  ℕ, String, Bool, true, false, not, some, ok, map_err, ok_or, reject_if, unwrap_or, is_some,
}
use cashu_spilman_channels.Prelude.Runs.{Run, ◌>>=◌, ◌>>◌, map_error}
use cashu_spilman_channels.Json.{str_field, u64_field, ok_of, and_then}
use cashu_spilman_channels.Packages.{Packages}
use cashu_spilman_channels.Channel.Parse.{give}
use cashu_spilman_channels.Mint.Retry.{SelectedOutputKeyset}
use cashu_spilman_channels.Storage.Records.{ChannelState, same_state}
use cashu_spilman_channels.Storage.{
  MemoryStorage, get_state, get_funding, get_balance, get_closing_data,
}
use cashu_spilman_channels.Host.{ConfigurableHost}
use cashu_spilman_channels.Bridge.{Cause, text, BridgeError, invalid_request, unknown_channel}
use cashu_spilman_channels.Bridge.Validate.{reject_empty}
use cashu_spilman_channels.Bridge.Close.{
  CloseParts, CloseData, PreparedClose, PreparedCloseTransition, ClosePreparationError, because,
  bad_request, internal_error, from_bridge_error, close_expiry_timestamp,
}
use cashu_spilman_channels.Bridge.Close.Select.{selected_output_keyset_info, missing_funding}
use cashu_spilman_channels.Bridge.Close.Prepare.{
  prepare_close_data, prepare_close_data_impl, wrap_close_data,
}

module _ (p : Packages) (parts : CloseParts p) (no_payment_proof : Cause → Bool)
    (host : ConfigurableHost) (fuel now : ℕ) where
  unfoldable pub validate_and_prepare_cooperative_close :
      String → MemoryStorage → Run BridgeError CloseData
  validate_and_prepare_cooperative_close json s = do
    payment ← give (map_err (λ e. invalid_request (text e)) (parts.payment_from_str json))
    give (reject_empty payment.channel_id "missing channel_id")
    give (reject_empty payment.signature "missing signature")
    prepare_close_data p parts host fuel now payment.channel_id payment.balance payment.signature
        true s

  -- `host.get_balance_and_signature_for_unilateral_exit` is the stored payment.
  unfoldable pub create_unilateral_close_data : String → MemoryStorage → Run BridgeError CloseData
  create_unilateral_close_data channel_id s = do
    give (reject_if (not (is_some (get_funding channel_id s))) unknown_channel)
    payment ← give (ok_or (get_balance channel_id s) (invalid_request (text "No payment proof")))
    prepare_close_data p parts host fuel now channel_id payment.balance payment.signature false s

  unfoldable pub prepare_cooperative_close_for_execution :
      String → MemoryStorage → Run ClosePreparationError (PreparedClose p.json.Value)
  unfolding validate_and_prepare_cooperative_close
  prepare_cooperative_close_for_execution json s = do
    value ← give (map_err (λ e. bad_request (because (text e))) (p.json.from_str json))
    channel_id ←
        give
          (ok_or (str_field p.json value "channel_id") (bad_request (because (text "Missing ID"))))
    close_data ←
        map_error (from_bridge_error no_payment_proof)
          (validate_and_prepare_cooperative_close json s)
    let balance = unwrap_or (u64_field p.json value "balance") 0
    funding ← give (ok_or (get_funding channel_id s) missing_funding)
    give (wrap_close_data p parts host fuel now close_data channel_id balance funding)

  unfoldable pub prepare_unilateral_close_for_execution :
      String → MemoryStorage → Run ClosePreparationError (PreparedClose p.json.Value)
  unfolding create_unilateral_close_data
  prepare_unilateral_close_for_execution channel_id s = do
    close_data ←
        map_error (from_bridge_error no_payment_proof) (create_unilateral_close_data channel_id s)
    funding ← give (ok_or (get_funding channel_id s) missing_funding)
    payment ←
        give (ok_or (get_balance channel_id s) (internal_error (because (text "Missing payment"))))
    give (wrap_close_data p parts host fuel now close_data channel_id payment.balance funding)

  -- `serde_json::from_str::<Value>(json).unwrap_or_default()["signature"].as_str().unwrap_or_default()`
  unfoldable pub signature_of : String → String
  signature_of json =
      unwrap_or
        (and_then (ok_of (p.json.from_str json)) (λ value. str_field p.json value "signature")) ""

  unfoldable pub prepare_cooperative_close_transition :
      String → MemoryStorage → Run ClosePreparationError (PreparedCloseTransition p.json.Value)
  unfolding signature_of prepare_cooperative_close_for_execution
  prepare_cooperative_close_transition json s = do
    prepared_close ← prepare_cooperative_close_for_execution json s
    some (
        ok (record {
          prepared_close = prepared_close;
          expiry_timestamp = close_expiry_timestamp p.json prepared_close;
          payment = record { balance = prepared_close.balance; signature = signature_of json };
        }))

  unfoldable pub prepare_unilateral_close_transition :
      String → MemoryStorage → Run ClosePreparationError (PreparedCloseTransition p.json.Value)
  unfolding prepare_unilateral_close_for_execution
  prepare_unilateral_close_transition channel_id s = do
    prepared_close ← prepare_unilateral_close_for_execution channel_id s
    payment ← give (ok_or (get_balance channel_id s) (bad_request (because (text "No payment"))))
    some (
        ok (record {
          prepared_close = prepared_close;
          expiry_timestamp = close_expiry_timestamp p.json prepared_close;
          payment = payment;
        }))

  unfoldable pub prepare_close_for_closing_channel_with_keyset :
      String
      → ℕ
      → String
      → SelectedOutputKeyset
      → MemoryStorage
      → Run ClosePreparationError (PreparedClose p.json.Value)
  prepare_close_for_closing_channel_with_keyset channel_id balance signature selected s = do
    funding ← give (ok_or (get_funding channel_id s) missing_funding)
    out_keyset ← selected_output_keyset_info p parts no_payment_proof host fuel now selected
    close_data ← map_error (from_bridge_error no_payment_proof) (
        prepare_close_data_impl p parts host fuel now channel_id balance signature funding
          out_keyset false s)
    give (wrap_close_data p parts host fuel now close_data channel_id balance funding)

  unfoldable pub prepare_close_for_closing_channel_with_output_keyset :
      String
      → SelectedOutputKeyset
      → MemoryStorage
      → Run ClosePreparationError (PreparedClose p.json.Value)
  unfolding prepare_close_for_closing_channel_with_keyset
  prepare_close_for_closing_channel_with_output_keyset channel_id selected s = do
    give (
        reject_if (not (same_state (get_state s channel_id) ChannelState.closing))
          (bad_request (because (text "Not closing"))))
    closing_data ← give (
        ok_or (get_closing_data channel_id s)
          (internal_error (because (text "Missing closing data"))))
    prepare_close_for_closing_channel_with_keyset channel_id closing_data.balance
        closing_data.signature selected s
