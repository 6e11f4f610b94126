-- ===== src/Bridge/Close/Complete.antt =====
-- The completion of a prepared close from the mint's answer, without the store:
-- `complete_prepared_close`, `sign_receiver_close_proof` and `complete_prepared_close_restore` of
-- crates/cdk-spilman/src/bridge.rs.
use cashu_spilman_channels.Prelude.{
  ℕ, String, Bool, true, false, not, ◌&&◌, ◌||◌, Option, none, some, List, [], ◌∷◌, length, Result,
  ok, map_err, ok_or, reject_if, ltb, ◌==◌, ◌!=◌, if◌then◌else◌, str_eq, unwrap_or,
}
use cashu_spilman_channels.Prelude.Runs.{Run, ◌>>=◌, ◌>>◌, map_error}
use cashu_spilman_channels.Json.{str_field, u64_field, and_then, ok_of}
use cashu_spilman_channels.Packages.{Packages, Proof}
use cashu_spilman_channels.Amounts.{KeysetInfo}
use cashu_spilman_channels.Channel.{ChannelParameters, for_balance}
use cashu_spilman_channels.Channel.Parse.{
  give, from_json_with_channel_secret, parse_keyset_info_from_json,
}
use cashu_spilman_channels.Channel.Verification.{DeterministicSecretWithBlinding}
use cashu_spilman_channels.Swap.{
  BlindedMessage, SwapResponse, RestoreResponse, same_message, is_empty_list, swap_restore_request,
}
use cashu_spilman_channels.Swap.Restore.{match_restore_response}
use cashu_spilman_channels.Host.{ConfigurableHost}
use cashu_spilman_channels.Bridge.{Cause, text, unparsed}
use cashu_spilman_channels.Bridge.Validate.{decode_secret}
use cashu_spilman_channels.Bridge.Close.{
  CloseParts, PreparedClose, CompletedClose, CloseError, because, refused_by, unblind_failed,
  close_expiry_timestamp,
}
use cashu_spilman_channels.Bridge.Close.Prepare.{commitment_secrets}
use cashu_spilman_channels.Bridge.Close.Unblind.{
  ProofWithMeta, UnblindResult, Secrets, mode_flag, unblind_and_verify_stage1_swap_response,
}

abbrev pub failed : String → CloseError
failed message = unblind_failed (because (text message))

-- `map_err(|_| CloseError::unblind_failed(message))?`
abbrev pub or_failed : {A : Type 0} → Option A → String → Run CloseError A
or_failed o message = give (ok_or o (failed message))

abbrev pub or_reason : {E A : Type 0} → (E → Cause) → Result E A → Run CloseError A
or_reason cause r = give (map_err (λ e. unblind_failed (because (cause e))) r)

-- `expected.zip(actual).any(…)`
abbrev pub same_secret :
    DeterministicSecretWithBlinding × Bool → DeterministicSecretWithBlinding × Bool → Bool
same_secret (expected, true) (actual, true) =
    str_eq expected.secret actual.secret
    && (str_eq expected.blinding_factor actual.blinding_factor
        && ((expected.amount == actual.amount) && (expected.index == actual.index)))
same_secret (expected, false) (actual, false) =
    str_eq expected.secret actual.secret
    && (str_eq expected.blinding_factor actual.blinding_factor
        && ((expected.amount == actual.amount) && (expected.index == actual.index)))
same_secret (expected, true) (actual, false) = false
same_secret (expected, false) (actual, true) = false

unfoldable pub any_different : Secrets → Secrets → Bool
any_different [] actual = false
any_different (e ∷ expected) [] = false
any_different (e ∷ expected) (a ∷ actual) = not (same_secret e a) || any_different expected actual

module _ (p : Packages) (parts : CloseParts p) (host : ConfigurableHost) (fuel now : ℕ) where
  -- The channel that the preparation names.
  unfoldable pub prepared_params :
      PreparedClose p.json.Value → Run CloseError (ChannelParameters × KeysetInfo)
  prepared_params prep = do
    keyset_info ←
        map_error (λ e. unblind_failed (because (unparsed e)))
          (parse_keyset_info_from_json p prep.keyset_info_json)
    output_keyset_info ←
        map_error (λ e. unblind_failed (because (unparsed e)))
          (parse_keyset_info_from_json p (p.json.to_string prep.output_keyset_info))
    channel_secret ←
        map_error (λ e. unblind_failed (because e))
          (decode_secret p host fuel now prep.channel_secret)
    params ←
        map_error (λ e. unblind_failed (because (unparsed e)))
          (from_json_with_channel_secret p prep.params_json keyset_info channel_secret)
    some (ok (params, output_keyset_info))

  -- One entry of `secrets_with_blinding`.
  unfoldable pub read_secret :
      p.json.Value → Run CloseError (DeterministicSecretWithBlinding × Bool)
  read_secret swb = do
    secret ← or_failed (str_field p.json swb "secret") "Missing secret"
    blinding_hex ← or_failed (str_field p.json swb "blinding_factor") "Missing blinding"
    bytes ← or_reason text (p.hex_decode blinding_hex)
    blinding_factor ← or_reason text (parts.secret_key_from_slice bytes)
    amount ← or_failed (u64_field p.json swb "amount") "Missing amount"
    index ← or_failed (u64_field p.json swb "index") "Missing index"
    is_receiver ←
        or_failed (and_then (p.json.get swb "is_receiver") parts.as_bool) "Missing is_receiver"
    some (
        ok (
          record {
            secret = secret;
            blinding_factor = blinding_factor;
            amount = amount;
            index = index;
          },
          is_receiver,
        ))

  unfoldable pub read_secrets : List p.json.Value → Run CloseError Secrets
  unfolding read_secret
  read_secrets [] = some (ok [])
  read_secrets (swb ∷ rest) = do
    secret ← read_secret swb
    secrets ← read_secrets rest
    some (ok (secret ∷ secrets))

  -- The preparation names its channel, and its secrets are those of the commitment to its balance.
  unfoldable pub check_binding :
      PreparedClose p.json.Value → ChannelParameters → KeysetInfo → Secrets → Run CloseError Unit
  check_binding prep params output_keyset_info secrets = do
    give (
        reject_if
          (not (str_eq (p.channel_id params) prep.channel_id)
            || (not (str_eq params.mint prep.mint_url)
                || (not (str_eq params.unit output_keyset_info.unit)
                    || ltb params.capacity prep.balance)))
          (failed "Prepared close binding mismatch"))
    commitment ←
        map_error (λ _. failed "Invalid close commitment") (for_balance fuel prep.balance params)
    expected ← give (
        commitment_secrets p (λ _. failed "Invalid receiver close secrets")
          (λ _. failed "Invalid sender close secrets") commitment)
    give (
        reject_if ((length expected != length secrets) || any_different expected secrets)
          (failed "Prepared close secrets do not match commitment"))

  -- `for (output, (secret, _)) in request.outputs().iter().zip(&secrets_with_blinding)`
  unfoldable pub check_outputs : KeysetInfo → List BlindedMessage → Secrets → Run CloseError Unit
  check_outputs keys [] secrets = some (ok tt)
  check_outputs keys (output ∷ outputs) [] = some (ok tt)
  check_outputs keys (output ∷ outputs) ((secret, is_receiver) ∷ secrets) = do
    blinded_secret ← give (
        map_err (λ _. failed "Invalid prepared close output")
          (parts.curve.blind_message secret.secret secret.blinding_factor))
    give (
        reject_if
          (not (
            same_message output (record {
              amount = secret.amount;
              keyset_id = keys.keyset_id;
              blinded_secret = blinded_secret;
              witness = none;
            })))
          (failed "Prepared close outputs do not match secrets"))
    check_outputs keys outputs secrets

  abbrev pub flags_differ : Bool → Bool → Bool
  flags_differ true other = not other
  flags_differ false other = other

  -- The request is the one for those secrets.
  unfoldable pub check_request :
      PreparedClose p.json.Value → ChannelParameters → KeysetInfo → Secrets → Run CloseError Unit
  unfolding check_outputs
  check_request prep params keys secrets = do
    request ←
        or_failed (parts.request_from_value prep.swap_request) "Invalid prepared close request"
    give (
        reject_if
          (flags_differ request.is_rerandomized (mode_flag params.commitment_mode)
            || (length request.outputs != length secrets))
          (failed "Prepared close output count mismatch"))
    check_outputs keys request.outputs secrets

  -- The receiver's signature on a proof.
  unfoldable pub sign_receiver_close_proof :
      ChannelParameters → ProofWithMeta → Run CloseError Proof
  sign_receiver_close_proof params proof_meta = do
    p2pk_e ← or_reason text (parts.stage2_p2pk_e params true proof_meta.amount proof_meta.index)
    tweak ← or_reason text (parts.stage2_tweak params proof_meta.amount proof_meta.index)
    sig ← or_reason text (
        parts.sign_with_tweaked_key host.server_secret_hex
          (parts.secret_hash proof_meta.proof.secret) tweak)
    some (
        ok (record proof_meta.proof {
          p2pk_e = some p2pk_e;
          witness = some (parts.curve.add_signature none sig);
        }))

  unfoldable pub sign_all : ChannelParameters → List ProofWithMeta → Run CloseError (List Proof)
  unfolding sign_receiver_close_proof
  sign_all params [] = some (ok [])
  sign_all params (proof ∷ proofs) = do
    first ← sign_receiver_close_proof params proof
    rest ← sign_all params proofs
    some (ok (first ∷ rest))

  abbrev pub proofs_of : List ProofWithMeta → List Proof
  proofs_of [] = []
  proofs_of (m ∷ ms) = m.proof ∷ proofs_of ms

  -- `serde_json::to_string(&proofs).unwrap_or_default()`
  abbrev pub proofs_json : List Proof → String
  proofs_json proofs = unwrap_or (ok_of (p.proofs_to_string proofs)) ""

  -- What is unblinded, once the preparation has been checked.
  unfoldable pub unblinded :
      SwapResponse → PreparedClose p.json.Value → Run CloseError (ChannelParameters × UnblindResult)
  unfolding prepared_params read_secrets check_binding check_request
  unblinded response prep = do
    (params, keys) ← prepared_params prep
    values ← or_reason text (parts.values_from_str (p.json.to_string prep.secrets_with_blinding))
    secrets ← read_secrets values
    check_binding prep params keys secrets
    check_request prep params keys secrets
    result ←
        map_error (λ e. unblind_failed (refused_by e))
          (unblind_and_verify_stage1_swap_response p parts fuel response secrets params keys
            prep.balance)
    some (ok (params, result))

  unfoldable pub complete_prepared_close :
      String → PreparedClose p.json.Value → Run CloseError CompletedClose
  unfolding unblinded sign_all
  complete_prepared_close resp_json prep = do
    response ← or_failed (parts.response_from_str resp_json) "Invalid close swap response"
    (params, result) ← unblinded response prep
    signed ← sign_all params result.receiver_proofs
    some (
        ok (record {
          channel_id = prep.channel_id;
          expiry_timestamp = close_expiry_timestamp p.json prep;
          balance = prep.balance;
          receiver_proofs_json = proofs_json signed;
          sender_proofs_json = proofs_json (proofs_of result.sender_proofs);
          receiver_sum = result.receiver_sum;
          sender_sum = result.sender_sum;
        }))

  -- The answer that holds the restored signatures.
  restored_close :
      RestoreResponse
      → List BlindedMessage
      → Option String
      → PreparedClose p.json.Value
      → Run CloseError (Option CompletedClose)
  restored_close response outputs randomness prep = do
    signatures ← give (
        map_err (λ _. failed "Close restore does not match the outputs")
          (match_restore_response response outputs))
    resp_json ←
        or_failed
          (parts.response_to_string
            (record { signatures = signatures; rerandomization_r = randomness }))
          "Invalid restored swap response"
    completed ← complete_prepared_close resp_json prep
    some (ok (some completed))

  -- The restore is `none` when the mint has nothing to restore.
  unfoldable pub complete_prepared_close_restore_with_randomness :
      String → PreparedClose p.json.Value → Option String → Run CloseError (Option CompletedClose)
  unfolding restored_close
  complete_prepared_close_restore_with_randomness resp_json prep randomness = do
    response ← or_failed (parts.restore_from_str resp_json) "Invalid close restore response"
    request ←
        or_failed (parts.request_from_value prep.swap_request) "Invalid prepared close request"
    outputs ← or_reason text (swap_restore_request parts.curve request randomness)
    if is_empty_list response.outputs && is_empty_list response.signatures
        then some (ok none)
        else restored_close response outputs randomness prep
