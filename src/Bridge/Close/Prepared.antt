-- ===== src/Bridge/Close/Prepared.antt =====
-- What a prepared close is: `prepare_close_data_impl`.
use cashu_spilman_channels.Prelude.{
  ℕ, ◌≤◌, String, Bool, false, none, some, List, ok, map_err, ◌≡◌, ◌⊎◌, arith, All,
}
use cashu_spilman_channels.Prelude.Runs.{>>=-ok, map_error}
use cashu_spilman_channels.Packages.{Packages, Proof}
use cashu_spilman_channels.Amounts.{KeysetInfo}
use cashu_spilman_channels.Channel.{
  ChannelParameters, CommitmentOutputs, get_value_after_stage1, get_value_after_stage1_with_keyset,
}
use cashu_spilman_channels.Channel.Parse.{give}
use cashu_spilman_channels.Storage.Records.{ChannelFunding}
use cashu_spilman_channels.Storage.{MemoryStorage}
use cashu_spilman_channels.Swap.{BlindedMessage, SwapRequest}
use cashu_spilman_channels.Swap.Request.{attach_signature_to_first_input}
use cashu_spilman_channels.Swap.Request.Conserved.{sum_by, amount_of, Ascending}
use cashu_spilman_channels.Host.{ConfigurableHost, compute_amount_due}
use cashu_spilman_channels.Bridge.{text, uncommitted, unrequested, server_misconfigured, internal}
use cashu_spilman_channels.Bridge.Validate.{verify_signature}
use cashu_spilman_channels.Bridge.Close.{CloseParts, CloseData}
use cashu_spilman_channels.Bridge.Close.Prepare.{
  close_terms, sender_signed, receiver_signed, prepare_close_data_impl, or_internal,
  commitment_secrets,
}
use cashu_spilman_channels.Bridge.Close.Signed.{
  attach-outputs, Terms, close_terms-Terms, SenderSigned, sender_signed-SenderSigned,
}

module _ (p : Packages) (parts : CloseParts p) (host : ConfigurableHost) (fuel now : ℕ) where
  receiver_signed-outputs :
      (out_keyset : KeysetInfo) (params : ChannelParameters) (commitment : CommitmentOutputs)
      (swap : SwapRequest) {close_data : CloseData}
      → receiver_signed p parts host fuel now out_keyset params commitment swap
        ≡ some (ok close_data)
      → (close_data.swap_request.outputs ≡ swap.outputs)
        × (commitment_secrets p (λ e. internal (text e)) (λ e. internal (text e)) commitment
            ≡ ok close_data.secrets_with_blinding)
        × (close_data.output_keyset_info ≡ out_keyset)
  unfolding receiver_signed
  receiver_signed-outputs out_keyset params commitment swap {close_data} h =
      let hash = parts.sig_all_message_hash swap in
      let (tweak, tweaked, after_tweaked) =
        >>=-ok (or_internal text (parts.stage1_tweak params)) _ h in
      let (key, keyed, after_keyed) =
        >>=-ok (or_internal text (parts.stage1_pubkey params)) _ after_tweaked in
      let (sig, signed, after_signed) =
        >>=-ok
          (give (
            map_err (λ e. server_misconfigured (text e))
              (parts.sign_with_tweaked_key host.server_secret_hex hash tweak)))
          _ after_keyed in
      let (attached, attach, after_attach) =
        >>=-ok (or_internal unrequested (attach_signature_to_first_input parts.curve swap sig)) _
          after_signed in
      let (total, valued, after_valued) =
        >>=-ok
          (map_error (λ e. internal (uncommitted e))
            (get_value_after_stage1_with_keyset params out_keyset))
          _ after_attach in
      let (secrets, listed, done) =
        >>=-ok
          (give (commitment_secrets p (λ e. internal (text e)) (λ e. internal (text e)) commitment))
          _ after_valued in
      let kept = attach-outputs parts.curve swap sig {signed = attached} (ground (arith, attach)) in
      (ground (arith, done, kept), ground (arith, listed, done), ground (arith, done))

  pub record Prepared (id : String) (balance : ℕ) (signature : String) (funding : ChannelFunding)
      (out_keyset : KeysetInfo) (validate_due : Bool) (s : MemoryStorage)
      (params : ChannelParameters) (close_data : CloseData) : Type 0 where
    pub within : balance ≤ params.capacity
    pub due : (validate_due ≡ false) ⊎ (balance ≡ compute_amount_due p.json host id none s)
    pub signed : verify_signature p host fuel now funding balance signature ≡ some (ok tt)
    pub after_stage1 : ℕ
    pub stage1 : get_value_after_stage1 params ≡ some (ok after_stage1)
    pub total : sum_by amount_of close_data.swap_request.outputs ≡ after_stage1
    pub ascending : Ascending amount_of close_data.swap_request.outputs
    pub under_keyset :
        All
          (λ (m : BlindedMessage). m.keyset_id ≡ out_keyset.keyset_id)
          close_data.swap_request.outputs

  -- The parts of a preparation, for what follows it.
  pub record Stages (id : String) (balance : ℕ) (signature : String) (funding : ChannelFunding)
      (out_keyset : KeysetInfo) (validate_due : Bool) (s : MemoryStorage) (close_data : CloseData)
      : Type 0 where
    pub params : ChannelParameters
    pub proofs : List Proof
    pub commitment : CommitmentOutputs
    pub swap : SwapRequest
    pub terms : Terms p parts host fuel now id balance funding validate_due s params proofs
    pub signed :
        SenderSigned p parts host fuel now balance signature out_keyset params proofs commitment
          swap
    pub outputs : close_data.swap_request.outputs ≡ swap.outputs
    pub keyset : close_data.output_keyset_info ≡ out_keyset

  pub prepare_close_data_impl-Stages :
      (id : String) (balance : ℕ) (signature : String) (funding : ChannelFunding)
      (out_keyset : KeysetInfo) (validate_due : Bool) (s : MemoryStorage) {close_data : CloseData}
      → prepare_close_data_impl p parts host fuel now id balance signature funding out_keyset
          validate_due s
        ≡ some (ok close_data)
      → Stages id balance signature funding out_keyset validate_due s close_data
  unfolding prepare_close_data_impl
  prepare_close_data_impl-Stages id balance signature funding out_keyset validate_due s h =
      let (t, terms, after_terms) =
        >>=-ok (close_terms p parts host fuel now id balance funding validate_due s) _ h in
      let (c, made, after_made) =
        >>=-ok (sender_signed p parts host fuel now balance signature out_keyset t.0 t.1) _
          after_terms in
      let (outputs, secrets, keyset) = receiver_signed-outputs out_keyset t.0 c.0 c.1 after_made in
      record {
        params = t.0;
        proofs = t.1;
        commitment = c.0;
        swap = c.1;
        terms = close_terms-Terms p parts host fuel now id balance funding validate_due s terms;
        signed =
            sender_signed-SenderSigned p parts host fuel now balance signature out_keyset t.0 t.1
              made;
        outputs = outputs;
        keyset = keyset;
      }
