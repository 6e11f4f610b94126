-- ===== src/Swap/Request.antt =====
-- The swap of a commitment: `get_blinded_messages` and `create_swap_request` of
-- crates/cdk-spilman/src/deterministic.rs, and the signatures on its first input
-- (crates/cdk-spilman/src/balance_update.rs).
pub mod Conserved
use cashu_spilman_channels.Prelude.{
  ℕ, String, Bool, true, false, Option, none, some, List, [], ◌∷◌, ◌++◌, replicate, Result, ok, err,
  ◌>>=◌, ◌>>◌, ltb, if◌then◌else◌, unwrap_or,
}
use cashu_spilman_channels.Packages.{Packages, Proof}
use cashu_spilman_channels.Channel.{
  CommitmentMode, ordinary, rerandomized, DeterministicOutputs, CommitmentOutputs,
}
use cashu_spilman_channels.Channel.Verification.{
  DeterministicSecretWithBlinding, get_secrets_with_blinding,
}
use cashu_spilman_channels.Channel.Verification.Secrets.{smallest_first}
use cashu_spilman_channels.Swap.{BlindedMessage, SwapRequest, Curve}

pub data RequestError : Type 0 where
  output_error : String → RequestError
  no_inputs : RequestError

-- `sort_by_key`, which is stable: an entry stays before the later ones of an equal key.
module _ {A : Type 0} (key : A → ℕ) where
  unfoldable pub insert_by : A → List A → List A
  insert_by a [] = a ∷ []
  insert_by a (b ∷ bs) =
      let rest = insert_by a bs in if ltb (key b) (key a) then b ∷ rest else a ∷ b ∷ bs

  unfoldable pub sort_by : List A → List A
  unfolding insert_by
  sort_by [] = []
  sort_by (a ∷ as_) = insert_by a (sort_by as_)

is_rerandomized_mode : CommitmentMode → Bool
is_rerandomized_mode ordinary = false
is_rerandomized_mode rerandomized = true

-- `attach_signature_to_first_input`
unfoldable pub attach_signature_to_first_input :
    Curve → SwapRequest → String → Result RequestError SwapRequest
attach_signature_to_first_input c request signature = elim request.inputs [
  | [] ↦ err no_inputs
  | proof ∷ proofs ↦ ok (record request {
    inputs = record proof { witness = some (c.add_signature proof.witness signature) } ∷ proofs;
  })
]

module _ (p : Packages) (c : Curve) where
  -- `secret.to_blinded_message` over the zipped lists
  to_messages :
      String → List DeterministicSecretWithBlinding → List ℕ → Result String (List BlindedMessage)
  to_messages keyset_id [] amounts = ok []
  to_messages keyset_id (secret ∷ secrets) [] = ok []
  to_messages keyset_id (secret ∷ secrets) (amount ∷ amounts) = do
    point ← c.blind_message secret.secret secret.blinding_factor
    rest ← to_messages keyset_id secrets amounts
    ok (
        record { amount = amount; keyset_id = keyset_id; blinded_secret = point; witness = none }
        ∷ rest)

  unfoldable pub get_blinded_messages :
      DeterministicOutputs → Option String → Result String (List BlindedMessage)
  unfolding to_messages
  get_blinded_messages outputs override_keyset_id = do
    secrets ← get_secrets_with_blinding p outputs
    to_messages (unwrap_or override_keyset_id outputs.params.keyset_info.keyset_id) secrets
        (smallest_first outputs.ordered_amounts.count_by_amount)

  unfoldable pub create_swap_request :
      CommitmentOutputs → List Proof → Option String → Result String SwapRequest
  unfolding is_rerandomized_mode
  create_swap_request commitment funding_proofs override_keyset_id = do
    receiver_outputs ← get_blinded_messages commitment.receiver_outputs override_keyset_id
    sender_outputs ← get_blinded_messages commitment.sender_outputs override_keyset_id
    ok (record {
      inputs = funding_proofs;
      outputs = sort_by (λ message. message.amount) (receiver_outputs ++ sender_outputs);
      is_rerandomized = is_rerandomized_mode commitment.receiver_outputs.params.commitment_mode;
    })
