-- ===== src/Bridge/Close/Unblind.antt =====
-- The proofs of a close from the mint's answer: `unblind_and_verify_stage1_swap_response` of
-- crates/cdk-spilman/src/bridge.rs. A sum wraps at 64 bits.
use cashu_spilman_channels.Prelude.{
  ℕ, ◌+◌, String, Bool, true, false, not, Option, none, some, List, [], ◌∷◌, length, Result, ok,
  err, ◌>>=◌, ◌>>◌, map_err, reject_if, ◌!=◌, if◌then◌else◌, str_eq,
}
use cashu_spilman_channels.Prelude.Runs.{Run, map_error}
use cashu_spilman_channels.Prelude.Runs
use cashu_spilman_channels.Packages.{Packages, Proof}
use cashu_spilman_channels.Amounts.{KeysetInfo, u64}
use cashu_spilman_channels.Channel.{
  ChannelParameters, CommitmentMode, ordinary, rerandomized, inverse_of,
}
use cashu_spilman_channels.Channel.Parse.{give}
use cashu_spilman_channels.Channel.Verification.{DeterministicSecretWithBlinding}
use cashu_spilman_channels.Swap.{
  BlindedMessage, SwapRequest, SwapResponse, PreparedSwapOutput, complete_swap_response,
}
use cashu_spilman_channels.Bridge.{text, uncommitted, BridgeError, validation_failed, internal}
use cashu_spilman_channels.Bridge.Close.{CloseParts}

pub record ProofWithMeta : Type 0 where
  pub proof : Proof
  pub amount : ℕ
  pub index : ℕ
  pub is_receiver : Bool

pub record UnblindResult : Type 0 where
  pub receiver_proofs : List ProofWithMeta
  pub sender_proofs : List ProofWithMeta
  pub receiver_sum : ℕ
  pub sender_sum : ℕ

abbrev pub Secrets : Type 0
Secrets = List (DeterministicSecretWithBlinding × Bool)

abbrev pub mode_flag : CommitmentMode → Bool
mode_flag ordinary = false
mode_flag rerandomized = true

-- `outputs.iter().map(|output| output.blinded_message.clone())`
abbrev pub messages : List PreparedSwapOutput → List BlindedMessage
messages [] = []
messages (output ∷ outputs) = output.blinded_message ∷ messages outputs

-- `get(0).as_str() != Some("P2PK") || get(1).get("data").as_str() != Some(&expected)`
unfoldable pub is_locked_to : Option String × Option String → String → Bool
is_locked_to (some kind, some key) expected =
    if str_eq kind "P2PK" then str_eq key expected else false
is_locked_to (some kind, none) expected = false
is_locked_to (none, key) expected = false

-- What the loop has so far.
abbrev pub put_receiver : ProofWithMeta → UnblindResult → UnblindResult
put_receiver proof rest = record rest {
  receiver_proofs = proof ∷ rest.receiver_proofs;
  receiver_sum = u64 (proof.proof.amount + rest.receiver_sum);
}

abbrev pub put_sender : ProofWithMeta → UnblindResult → UnblindResult
put_sender proof rest = record rest {
  sender_proofs = proof ∷ rest.sender_proofs;
  sender_sum = u64 (proof.proof.amount + rest.sender_sum);
}

abbrev pub nothing_unblinded : UnblindResult
nothing_unblinded = record {
  receiver_proofs = [];
  sender_proofs = [];
  receiver_sum = 0;
  sender_sum = 0;
}

module _ (p : Packages) (parts : CloseParts p) where
  -- The outputs that the secrets stand for, under the output keyset.
  unfoldable pub expected_prepared :
      KeysetInfo → Secrets → Result BridgeError (List PreparedSwapOutput)
  expected_prepared keys [] = ok []
  expected_prepared keys ((secret, is_receiver) ∷ secrets) = do
    blinded_secret ←
        map_err (λ e. internal (text e))
          (parts.curve.blind_message secret.secret secret.blinding_factor)
    rest ← expected_prepared keys secrets
    ok (
        record {
          blinded_message = record {
            amount = secret.amount;
            keyset_id = keys.keyset_id;
            blinded_secret = blinded_secret;
            witness = none;
          };
          secret = secret.secret;
          blinding_factor = secret.blinding_factor;
        }
        ∷ rest)

  -- A receiver's proof has to be locked to the receiver's key for its output.
  unfoldable pub check_locked : ChannelParameters → Proof → ℕ → ℕ → Result BridgeError Unit
  unfolding is_locked_to
  check_locked params proof amount index = do
    expected_pubkey ← map_err (λ e. internal (text e)) (parts.stage2_pubkey params amount index)
    kind ← map_err (λ e. internal (text e)) (parts.secret_kind proof.secret)
    reject_if (not (is_locked_to kind expected_pubkey))
        (validation_failed (text "Receiver proof locked to wrong pubkey"))

  -- One round of the loop: the check, and where the proof goes.
  unfoldable pub sort_out :
      ChannelParameters
      → Proof
      → Bool
      → ℕ
      → ℕ
      → Result BridgeError UnblindResult
      → Result BridgeError UnblindResult
  unfolding check_locked
  sort_out params proof true amount index rest = do
    check_locked params proof amount index
    result ← rest
    ok (
        put_receiver (record { proof = proof; amount = amount; index = index; is_receiver = true })
          result)
  sort_out params proof false amount index rest = do
    result ← rest
    ok (
        put_sender (record { proof = proof; amount = amount; index = index; is_receiver = false })
          result)

  -- The loop over the proofs, the flags and the amounts with their indices.
  unfoldable pub sort_proofs :
      ChannelParameters → List Proof → Secrets → Result BridgeError UnblindResult
  unfolding sort_out
  sort_proofs params [] secrets = ok nothing_unblinded
  sort_proofs params (proof ∷ proofs) [] = ok nothing_unblinded
  sort_proofs params (proof ∷ proofs) ((secret, is_receiver) ∷ secrets) =
      map_err (λ e. internal (text e))
        (parts.stage2_p2pk_e params is_receiver secret.amount secret.index)
      >>= λ p2pk_e.
          sort_out params (record proof { p2pk_e = some p2pk_e }) is_receiver secret.amount
            secret.index (sort_proofs params proofs secrets)

  -- The receiver's sum against the nominal value of the signed balance.
  unfoldable pub check_nominal :
      ℕ → ChannelParameters → ℕ → UnblindResult → Run BridgeError UnblindResult
  check_nominal fuel params balance result =
      Runs.◌>>=◌
        (map_error (λ e. internal (uncommitted e))
          (inverse_of fuel params.keyset_info balance params.maximum_amount_for_one_output))
        (λ inverse.
          if result.receiver_sum != inverse.nominal_value
          then some (err (validation_failed (text "Receiver nominal mismatch")))
          else some (ok result))

  -- The proofs of the answer, sorted by their owner.
  unfoldable pub unblind_proofs :
      SwapResponse → Secrets → ChannelParameters → KeysetInfo → Result BridgeError UnblindResult
  unfolding expected_prepared sort_proofs
  unblind_proofs response secrets params keys = do
    reject_if (length response.signatures != length secrets)
        (internal (text "Length mismatch between signatures and secrets"))
    expected ← expected_prepared keys secrets
    let request : SwapRequest = record {
      inputs = [];
      outputs = messages expected;
      is_rerandomized = mode_flag params.commitment_mode;
    }
    proofs ←
        map_err (λ e. validation_failed (text e))
          (complete_swap_response p parts.curve request expected response keys)
    sort_proofs params proofs secrets

  unfoldable pub unblind_and_verify_stage1_swap_response :
      ℕ
      → SwapResponse
      → Secrets
      → ChannelParameters
      → KeysetInfo
      → ℕ
      → Run BridgeError UnblindResult
  unfolding unblind_proofs check_nominal
  unblind_and_verify_stage1_swap_response fuel response secrets params keys balance =
      Runs.◌>>=◌ (give (unblind_proofs response secrets params keys))
        (check_nominal fuel params balance)
