-- ===== src/Bridge/Close/Prepare.antt =====
-- The preparation of a close's swap: `prepare_close_data_impl`, `prepare_close_data`, `wrap_close_data` and
-- the preparations of cooperative and unilateral closes in crates/cdk-spilman/src/bridge.rs.
use cashu_spilman_channels.Prelude.{
  ℕ, String, Bool, true, false, Option, none, some, List, [], ◌∷◌, ◌++◌, Result, ok, err, map_err,
  ok_or, reject_if, ltb, ◌!=◌, ◌&&◌,
}
use cashu_spilman_channels.Prelude.Runs.{Run, ◌>>=◌, ◌>>◌, map_error}
use cashu_spilman_channels.Json.{str_field}
use cashu_spilman_channels.Packages.{Packages, Proof}
use cashu_spilman_channels.Amounts.{KeysetInfo}
use cashu_spilman_channels.Channel.{
  ChannelParameters, CommitmentOutputs, for_balance, get_value_after_stage1_with_keyset,
}
use cashu_spilman_channels.Channel.Parse.{give}
use cashu_spilman_channels.Channel.Verification.{
  DeterministicSecretWithBlinding, establish, verify_sender_signature, get_secrets_with_blinding,
}
use cashu_spilman_channels.Storage.Records.{ChannelFunding, ChannelState, opened}
use cashu_spilman_channels.Storage.{MemoryStorage, get_state, get_funding}
use cashu_spilman_channels.Swap.{SwapRequest}
use cashu_spilman_channels.Swap.Request.{
  create_swap_request, attach_signature_to_first_input, sort_by,
}
use cashu_spilman_channels.Host.{ConfigurableHost, compute_amount_due}
use cashu_spilman_channels.Bridge.{
  Cause, text, unestablished, unsigned, uncommitted, unrequested, BridgeError, channel_closed,
  server_misconfigured, balance_exceeds_capacity, unknown_channel, invalid_signature,
  balance_mismatch, internal,
}
use cashu_spilman_channels.Bridge.Close.{
  CloseParts, CloseData, PreparedClose, ClosePreparationError, because, internal_error,
}
use cashu_spilman_channels.Bridge.Close.Select.{
  funding_params, select_close_output_keyset_from_funding,
}

-- `.map(|s| (s, true))`
abbrev pub tagged :
    Bool → List DeterministicSecretWithBlinding → List (DeterministicSecretWithBlinding × Bool)
tagged is_receiver [] = []
tagged is_receiver (secret ∷ secrets) = (secret, is_receiver) ∷ tagged is_receiver secrets

-- `map_err(|e| BridgeError::Internal(e.to_string()))?`
abbrev pub or_internal : {E A : Type 0} → (E → Cause) → Result E A → Run BridgeError A
or_internal cause r = give (map_err (λ e. internal (cause e)) r)

module _ (p : Packages) where
  -- The secrets of both sides, receiver first, by ascending amount; the errors say which side's.
  unfoldable pub commitment_secrets :
      {E : Type 0}
      → (String → E)
      → (String → E)
      → CommitmentOutputs
      → Result E (List (DeterministicSecretWithBlinding × Bool))
  commitment_secrets of_receiver of_sender commitment =
      elim (get_secrets_with_blinding p commitment.receiver_outputs) [
        | err e ↦ err (of_receiver e)
        | ok receiver ↦ elim (get_secrets_with_blinding p commitment.sender_outputs) [
          | err e ↦ err (of_sender e)
          | ok sender ↦
              ok (sort_by (λ secret. secret.0.amount) (tagged true receiver ++ tagged false sender))
        ]
      ]

module _ (p : Packages) (parts : CloseParts p) (host : ConfigurableHost) (fuel now : ℕ) where
  -- The stored channel, and that it can pay the balance.
  unfoldable pub close_terms :
      String
      → ℕ
      → ChannelFunding
      → Bool
      → MemoryStorage
      → Run BridgeError (ChannelParameters × List Proof)
  close_terms channel_id balance funding validate_due s = do
    params ← map_error internal (funding_params p host fuel now funding)
    proofs ← or_internal text (p.proofs_from_str funding.funding_proofs_json)
    give
        (reject_if (ltb params.capacity balance) (balance_exceeds_capacity balance params.capacity))
    let due = compute_amount_due p.json host channel_id none s
    give (reject_if (validate_due && (balance != due)) (balance_mismatch due balance))
    some (ok (params, proofs))

  -- The swap of the commitment with the sender's signature, which is verified.
  unfoldable pub sender_signed :
      ℕ
      → String
      → KeysetInfo
      → ChannelParameters
      → List Proof
      → Run BridgeError (CommitmentOutputs × SwapRequest)
  sender_signed balance signature out_keyset params proofs = do
    sig ← give (map_err (λ e. invalid_signature (text e)) (p.parse_signature signature))
    commitment ← map_error (λ e. internal (uncommitted e)) (for_balance fuel balance params)
    unsigned_swap ←
        or_internal text
          (create_swap_request p parts.curve commitment proofs (some out_keyset.keyset_id))
    swap ← or_internal unrequested (attach_signature_to_first_input parts.curve unsigned_swap sig)
    channel ← or_internal unestablished (establish params proofs)
    map_error (λ e. invalid_signature (unsigned e))
        (verify_sender_signature p fuel balance sig channel)
    some (ok (commitment, swap))

  -- The receiver's signature, and what the close has to keep for its completion.
  unfoldable pub receiver_signed :
      KeysetInfo → ChannelParameters → CommitmentOutputs → SwapRequest → Run BridgeError CloseData
  unfolding commitment_secrets
  receiver_signed out_keyset params commitment swap = do
    tweak ← or_internal text (parts.stage1_tweak params)
    let hash = parts.sig_all_message_hash swap
    blinded_receiver_pubkey ← or_internal text (parts.stage1_pubkey params)
    server_sig ← give (
        map_err (λ e. server_misconfigured (text e))
          (parts.sign_with_tweaked_key host.server_secret_hex hash tweak))
    signed ← or_internal unrequested (attach_signature_to_first_input parts.curve swap server_sig)
    expected_total ←
        map_error (λ e. internal (uncommitted e))
          (get_value_after_stage1_with_keyset params out_keyset)
    secrets ←
        give (commitment_secrets p (λ e. internal (text e)) (λ e. internal (text e)) commitment)
    some (
        ok (record {
          swap_request = signed;
          sig_all_message_hash = hash;
          blinded_receiver_pubkey = blinded_receiver_pubkey;
          expected_total = expected_total;
          secrets_with_blinding = secrets;
          output_keyset_info = out_keyset;
        }))

  unfoldable pub prepare_close_data_impl :
      String
      → ℕ
      → String
      → ChannelFunding
      → KeysetInfo
      → Bool
      → MemoryStorage
      → Run BridgeError CloseData
  unfolding close_terms sender_signed receiver_signed
  prepare_close_data_impl channel_id balance signature funding out_keyset validate_due s = do
    (params, proofs) ← close_terms channel_id balance funding validate_due s
    (commitment, swap) ← sender_signed balance signature out_keyset params proofs
    receiver_signed out_keyset params commitment swap

  -- The states that a close can be prepared in.
  abbrev pub closable : Option ChannelState → Run BridgeError Unit
  closable (some ChannelState.closed) = some (err channel_closed)
  closable none = some (err unknown_channel)
  closable (some opened) = some (ok tt)
  closable (some ChannelState.closing) = some (ok tt)

  unfoldable pub prepare_close_data :
      String → ℕ → String → Bool → MemoryStorage → Run BridgeError CloseData
  unfolding prepare_close_data_impl
  prepare_close_data channel_id balance signature validate_due s = do
    closable (get_state s channel_id)
    funding ← give (ok_or (get_funding channel_id s) unknown_channel)
    out_keyset ← select_close_output_keyset_from_funding p host fuel now funding s
    prepare_close_data_impl channel_id balance signature funding out_keyset validate_due s

  unfoldable pub wrap_close_data :
      CloseData
      → String
      → ℕ
      → ChannelFunding
      → Result ClosePreparationError (PreparedClose p.json.Value)
  wrap_close_data close_data channel_id balance funding =
      elim (p.json.from_str funding.params_json) [
        | err e ↦ err (internal_error (because (text e)))
        | ok params ↦ elim (str_field p.json params "mint") [
          | none ↦ err (internal_error (because (text "Missing mint")))
          | some mint_url ↦ ok (record {
            channel_id = channel_id;
            balance = balance;
            mint_url = mint_url;
            swap_request = parts.request_value close_data.swap_request;
            sig_all_message_hash = close_data.sig_all_message_hash;
            blinded_receiver_pubkey = close_data.blinded_receiver_pubkey;
            secrets_with_blinding = parts.secrets_value close_data.secrets_with_blinding;
            output_keyset_info = parts.keyset_value close_data.output_keyset_info;
            params_json = funding.params_json;
            keyset_info_json = funding.keyset_info_json;
            channel_secret = funding.channel_secret_hex;
          })
        ]
      ]
