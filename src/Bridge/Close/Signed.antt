-- ===== src/Bridge/Close/Signed.antt =====
-- What a close's terms and the sender's signature have been checked for before the receiver signs.
use cashu_spilman_channels.Prelude.{
  ℕ, ◌≤◌, String, Bool, false, ◌&&◌, none, some, List, ok, map_err, reject_if, ltb, ◌!=◌, ◌≡◌, ◌⊎◌,
  inl, inr, subst, arith, Bool-cases,
}
use cashu_spilman_channels.Prelude.Runs.{>>=-ok, map_error}
use cashu_spilman_channels.Packages.{Packages, Proof}
use cashu_spilman_channels.Amounts.{KeysetInfo}
use cashu_spilman_channels.Channel.{ChannelParameters, CommitmentOutputs, for_balance}
use cashu_spilman_channels.Channel.Parse.{give}
use cashu_spilman_channels.Channel.Verification.{
  EstablishedChannel, establish, verify_sender_signature,
}
use cashu_spilman_channels.Storage.Records.{ChannelFunding}
use cashu_spilman_channels.Storage.{MemoryStorage}
use cashu_spilman_channels.Swap.{SwapRequest, Curve}
use cashu_spilman_channels.Swap.Request.{create_swap_request, attach_signature_to_first_input}
use cashu_spilman_channels.Host.{ConfigurableHost, compute_amount_due}
use cashu_spilman_channels.Bridge.{
  text, unestablished, unsigned, uncommitted, unrequested, internal, invalid_signature,
  balance_mismatch, balance_exceeds_capacity,
}
use cashu_spilman_channels.Bridge.Validate.{verify_signature, decode_secret}
use cashu_spilman_channels.Bridge.Close.{CloseParts}
use cashu_spilman_channels.Bridge.Close.Select.{funding_params}
use cashu_spilman_channels.Bridge.Close.Prepare.{close_terms, sender_signed, or_internal}

pub attach-outputs :
    (c : Curve) (request : SwapRequest) (signature : String) {signed : SwapRequest}
    → attach_signature_to_first_input c request signature ≡ ok signed
    → signed.outputs ≡ request.outputs
unfolding attach_signature_to_first_input
attach-outputs c request signature h = ground arith

module _ (p : Packages) (parts : CloseParts p) (host : ConfigurableHost) (fuel now : ℕ) where
  pub record Terms (id : String) (balance : ℕ) (funding : ChannelFunding) (validate_due : Bool)
      (s : MemoryStorage) (params : ChannelParameters) (proofs : List Proof) : Type 0 where
    pub parsed : funding_params p host fuel now funding ≡ some (ok params)
    pub read : p.proofs_from_str funding.funding_proofs_json ≡ ok proofs
    pub within : balance ≤ params.capacity
    pub due : (validate_due ≡ false) ⊎ (balance ≡ compute_amount_due p.json host id none s)

  pub close_terms-Terms :
      (id : String) (balance : ℕ) (funding : ChannelFunding) (validate_due : Bool)
      (s : MemoryStorage) {params : ChannelParameters} {proofs : List Proof}
      → close_terms p parts host fuel now id balance funding validate_due s
        ≡ some (ok (params, proofs))
      → Terms id balance funding validate_due s params proofs
  unfolding close_terms
  close_terms-Terms id balance funding validate_due s {params} {proofs} h =
      let due = compute_amount_due p.json host id none s in
      let (ps, parsed, after_parsed) =
        >>=-ok (map_error internal (funding_params p host fuel now funding)) _ h in
      let (l, read, after_read) =
        >>=-ok (or_internal text (p.proofs_from_str funding.funding_proofs_json)) _ after_parsed in
      let (u, within, after_within) =
        >>=-ok
          (give
            (reject_if (ltb ps.capacity balance) (balance_exceeds_capacity balance ps.capacity)))
          _ after_read in
      let (v, dued, done) =
        >>=-ok (give (reject_if (validate_due && (balance != due)) (balance_mismatch due balance)))
          _ after_within in
      let e : ps ≡ params = ground (arith, done) in
      record {
        parsed = ground (arith, parsed, e);
        read = ground (arith, read, done);
        within = ground (arith, within, e);
        due = elim (Bool-cases validate_due) [
          | inl checked ↦ inr (ground (arith, dued))
          | inr unchecked ↦ inl unchecked
        ];
      }

  pub record SenderSigned (balance : ℕ) (signature : String) (out_keyset : KeysetInfo)
      (params : ChannelParameters) (proofs : List Proof) (commitment : CommitmentOutputs)
      (swap : SwapRequest) : Type 0 where
    pub sig : String
    pub read : p.parse_signature signature ≡ ok sig
    pub committed : for_balance fuel balance params ≡ some (ok commitment)
    pub request : SwapRequest
    pub requested :
        create_swap_request p parts.curve commitment proofs (some out_keyset.keyset_id) ≡ ok request
    pub outputs : swap.outputs ≡ request.outputs
    pub channel : EstablishedChannel
    pub established : establish params proofs ≡ ok channel
    pub verified : verify_sender_signature p fuel balance sig channel ≡ some (ok tt)

  pub sender_signed-SenderSigned :
      (balance : ℕ) (signature : String) (out_keyset : KeysetInfo) (params : ChannelParameters)
      (proofs : List Proof) {commitment : CommitmentOutputs} {swap : SwapRequest}
      → sender_signed p parts host fuel now balance signature out_keyset params proofs
        ≡ some (ok (commitment, swap))
      → SenderSigned balance signature out_keyset params proofs commitment swap
  unfolding sender_signed
  sender_signed-SenderSigned balance signature out_keyset params proofs {commitment} {swap} h =
      let (sig, read, after_read) =
        >>=-ok (give (map_err (λ e. invalid_signature (text e)) (p.parse_signature signature))) _
          h in
      let (c, committed, after_committed) =
        >>=-ok (map_error (λ e. internal (uncommitted e)) (for_balance fuel balance params)) _
          after_read in
      let (request, requested, after_requested) =
        >>=-ok
          (or_internal text
            (create_swap_request p parts.curve c proofs (some out_keyset.keyset_id)))
          _ after_committed in
      let (attached, attach, after_attach) =
        >>=-ok (or_internal unrequested (attach_signature_to_first_input parts.curve request sig)) _
          after_requested in
      let (channel, established, after_established) =
        >>=-ok (or_internal unestablished (establish params proofs)) _ after_attach in
      let (u, verified, done) =
        >>=-ok
          (map_error (λ e. invalid_signature (unsigned e))
            (verify_sender_signature p fuel balance sig channel))
          _ after_established in
      let same : c ≡ commitment = ground (arith, done) in
      record {
        sig = sig;
        read = ground (arith, read);
        committed = ground (arith, committed, same);
        request = request;
        requested = ground (arith, requested, same);
        outputs =
            subst (λ (x : SwapRequest). x.outputs ≡ request.outputs) {x = attached} {y = swap}
              (ground (arith, done))
              (attach-outputs parts.curve request sig {signed = attached} (ground (arith, attach)));
        channel = channel;
        established = ground (arith, established);
        verified = ground (arith, verified);
      }

  -- The signature is one with which a payment of the balance would be accepted.
  pub verified_payment :
      (id : String) (balance : ℕ) (signature : String) (funding : ChannelFunding)
      (out_keyset : KeysetInfo) (validate_due : Bool) (s : MemoryStorage)
      (params : ChannelParameters) (proofs : List Proof) (commitment : CommitmentOutputs)
      (swap : SwapRequest)
      → Terms id balance funding validate_due s params proofs
      → SenderSigned balance signature out_keyset params proofs commitment swap
      → verify_signature p host fuel now funding balance signature ≡ some (ok tt)
  unfolding verify_signature funding_params
  verified_payment id balance signature funding out_keyset validate_due s params proofs commitment
        swap terms signed =
      let (secret, decoded, stored) =
        >>=-ok (decode_secret p host fuel now funding.channel_secret_hex) _ terms.parsed in
      rw (decoded, stored, terms.read, signed.established, signed.read, signed.verified)
