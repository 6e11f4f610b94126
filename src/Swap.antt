-- ===== src/Swap.antt =====
-- Swap requests and what completes them: crates/cdk-spilman/src/swap_completion.rs, the signature checks of
-- crates/cdk-spilman/src/bindings.rs, and the swap of a commitment in
-- crates/cdk-spilman/src/deterministic.rs. The curve operations of the `cashu` package are an interface.
pub mod Completion
pub mod Request
pub mod Restore
use cashu_spilman_channels.Prelude.{
  ℕ, zero, suc, ◌+◌, ◌^◌, String, Bool, true, false, not, ◌&&◌, ◌||◌, Option, none, some, List, [],
  ◌∷◌, ◌++◌, length, replicate, Result, ok, err, ◌>>=◌, ◌>>◌, map_err, ok_or, reject_if, leb, ltb,
  ◌==◌, ◌!=◌, if◌then◌else◌, str_eq, is_some,
}
use cashu_spilman_channels.Packages.{Packages, Proof, Dleq}
use cashu_spilman_channels.Amounts.{KeysetInfo}
use cashu_spilman_channels.Channel.{
  CommitmentMode, ordinary, rerandomized, DeterministicOutputs, CommitmentOutputs,
}
use cashu_spilman_channels.Channel.Verification.{
  DeterministicSecretWithBlinding, amount_key, get_secrets_with_blinding,
}

pub record BlindedMessage : Type 0 where
  pub amount : ℕ
  pub keyset_id : String
  pub blinded_secret : String
  pub witness : Option String

pub record BlindSignature : Type 0 where
  pub amount : ℕ
  pub keyset_id : String
  pub c : String
  pub dleq : Option Dleq

pub record SwapRequest : Type 0 where
  pub inputs : List Proof
  pub outputs : List BlindedMessage
  pub is_rerandomized : Bool

pub record SwapResponse : Type 0 where
  pub signatures : List BlindSignature
  pub rerandomization_r : Option String

pub record RestoreResponse : Type 0 where
  pub outputs : List BlindedMessage
  pub signatures : List BlindSignature

-- `PreparedSwapOutput`, and `PreparedOutput` of the bindings.
pub record PreparedSwapOutput : Type 0 where
  pub blinded_message : BlindedMessage
  pub secret : String
  pub blinding_factor : String

-- The curve operations of the `cashu` package. A scalar and a point are their texts.
pub record Curve : Type 0 where
  -- `dhke::blind_message` with a given blinding factor
  pub blind_message : String → String → Result String String
  -- `derive_rerandomization_tweak` and `tweak_swap_outputs`
  pub rerandomization_tweak : String → Option String
  pub tweak_swap_outputs : String → List BlindedMessage → Option (List BlindedMessage)
  -- `SecretKey::from_slice` and `SecretKey::add_tweak`
  pub scalar : String → Option String
  pub add_tweak : String → String → Option String
  -- `BlindSignature::verify_dleq`
  pub verify_dleq : BlindSignature → String → String → Result String Unit
  -- `dhke::construct_proofs`
  pub construct_proofs :
      List BlindSignature
      → List String
      → List String
      → List (ℕ × String)
      → Result String (List Proof)
  -- `Witness::add_signatures`, on an empty P2PK witness when there is none
  pub add_signature : Option String → String → String

-- `==` of two optional witnesses, which are their texts.
abbrev pub same_witness : Option String → Option String → Bool
same_witness none none = true
same_witness (some w) (some v) = str_eq w v
same_witness _ _ = false

abbrev pub same_message : BlindedMessage → BlindedMessage → Bool
same_message a b =
    (a.amount == b.amount)
    && (str_eq a.keyset_id b.keyset_id
        && (str_eq a.blinded_secret b.blinded_secret && same_witness a.witness b.witness))

-- Whether a point stands twice, or among those seen: `any(|o| !points.insert(o.blinded_secret))`.
abbrev pub contains : List String → String → Bool
contains [] s = false
contains (x ∷ xs) s = str_eq x s || contains xs s

unfoldable pub any_repeated : List BlindedMessage → List String → Bool
any_repeated [] seen = false
any_repeated (o ∷ outputs) seen =
    contains seen o.blinded_secret || any_repeated outputs (o.blinded_secret ∷ seen)

abbrev pub is_empty_list {ℓ} : {A : Type ℓ} → List A → Bool
is_empty_list [] = true
is_empty_list (x ∷ xs) = false

-- The errors of the signature checks.
pub data SignaturesError : Type 0 where
  count_mismatch total_mismatch : ℕ → ℕ → SignaturesError
  prepared_outputs_mismatch expected_total_overflow response_total_overflow : SignaturesError
  signature_amount_mismatch : ℕ → ℕ → ℕ → SignaturesError
  signature_keyset_mismatch : ℕ → String → String → SignaturesError
  missing_denomination_key : ℕ → SignaturesError
  invalid_signature_dleq : ℕ → String → SignaturesError
  not_constructed : String → SignaturesError

-- `try_fold(0, checked_add)`
unfoldable pub checked_sum : List ℕ → ℕ → SignaturesError → Result SignaturesError ℕ
checked_sum [] total overflow = ok total
checked_sum (n ∷ ns) total overflow =
    let rest = checked_sum ns (total + n) overflow in
    if ltb (total + n) (2 ^ 64) then rest else err overflow

abbrev pub message_amounts : List PreparedSwapOutput → List ℕ
message_amounts [] = []
message_amounts (o ∷ outputs) = o.blinded_message.amount ∷ message_amounts outputs

abbrev pub signature_amounts : List BlindSignature → List ℕ
signature_amounts [] = []
signature_amounts (s ∷ signatures) = s.amount ∷ signature_amounts signatures

abbrev pub proof_amounts : List Proof → List ℕ
proof_amounts [] = []
proof_amounts (proof ∷ proofs) = proof.amount ∷ proof_amounts proofs

-- `exact_outputs.iter().zip(&expected).any(…)`
any_other : List BlindedMessage → List PreparedSwapOutput → Bool
any_other [] prepared = false
any_other (exact ∷ exacts) [] = false
any_other (exact ∷ exacts) (o ∷ prepared) =
    not (same_message exact o.blinded_message) || any_other exacts prepared

-- `if let Some(exact_outputs) = exact_outputs`
check_exact : Option (List BlindedMessage) → List PreparedSwapOutput → Result SignaturesError Unit
unfolding any_other
check_exact none expected = ok tt
check_exact (some exact_outputs) expected =
    reject_if ((length exact_outputs != length expected) || any_other exact_outputs expected)
      prepared_outputs_mismatch

abbrev pub secrets_of : List PreparedSwapOutput → List String
secrets_of [] = []
secrets_of (o ∷ outputs) = o.secret ∷ secrets_of outputs

abbrev pub blindings_of : List PreparedSwapOutput → List String
blindings_of [] = []
blindings_of (o ∷ outputs) = o.blinding_factor ∷ blindings_of outputs

module _ (c : Curve) where
  check_signature :
      KeysetInfo → ℕ → BlindSignature → PreparedSwapOutput → Result SignaturesError Unit
  check_signature keys index signature output = do
    reject_if (signature.amount != output.blinded_message.amount)
        (signature_amount_mismatch index output.blinded_message.amount signature.amount)
    reject_if (not (str_eq signature.keyset_id output.blinded_message.keyset_id))
        (signature_keyset_mismatch index output.blinded_message.keyset_id signature.keyset_id)
    mint_key ←
        ok_or (amount_key keys.active_keys output.blinded_message.amount)
          (missing_denomination_key index)
    map_err (invalid_signature_dleq index)
        (c.verify_dleq signature mint_key output.blinded_message.blinded_secret)

  -- `for (index, (signature, output)) in signatures.iter().zip(&expected).enumerate()`
  check_signatures :
      KeysetInfo → ℕ → List BlindSignature → List PreparedSwapOutput → Result SignaturesError Unit
  unfolding check_signature
  check_signatures keys index [] outputs = ok tt
  check_signatures keys index (signature ∷ signatures) [] = ok tt
  check_signatures keys index (signature ∷ signatures) (output ∷ outputs) =
      check_signature keys index signature output
      >> check_signatures keys (suc index) signatures outputs

  unfoldable pub complete_exact_signatures :
      List BlindSignature
      → List PreparedSwapOutput
      → KeysetInfo
      → Option (List BlindedMessage)
      → Result SignaturesError (List Proof)
  unfolding check_exact check_signatures
  complete_exact_signatures signatures expected keys exact_outputs = do
    reject_if (length signatures != length expected)
        (count_mismatch (length expected) (length signatures))
    check_exact exact_outputs expected
    expected_total ← checked_sum (message_amounts expected) 0 expected_total_overflow
    response_total ← checked_sum (signature_amounts signatures) 0 response_total_overflow
    reject_if (response_total != expected_total) (total_mismatch expected_total response_total)
    check_signatures keys 0 signatures expected
    map_err not_constructed (
        c.construct_proofs signatures (blindings_of expected) (secrets_of expected)
          keys.active_keys)

  -- The outputs of `swap_restore_request`, by the mode and the randomness.
  derived_outputs : Bool → Option String → List BlindedMessage → Result String (List BlindedMessage)
  derived_outputs false none outputs = ok outputs
  derived_outputs true (some r) outputs =
      ok_or (c.tweak_swap_outputs r outputs) "invalid derived swap points"
  derived_outputs false (some r) outputs = err "swap mode/randomness mismatch"
  derived_outputs true none outputs = err "swap mode/randomness mismatch"

  unfoldable pub swap_restore_request :
      SwapRequest → Option String → Result String (List BlindedMessage)
  unfolding derived_outputs
  swap_restore_request request r = do
    reject_if (is_empty_list request.outputs) "empty prepared swap outputs"
    reject_if (any_repeated request.outputs []) "duplicate prepared swap outputs"
    derived_outputs request.is_rerandomized r request.outputs

  effective_blinding : Option String → String → Result String String
  effective_blinding none blinding_factor = ok blinding_factor
  effective_blinding (some tweak) blinding_factor = do
    original ← ok_or (c.scalar blinding_factor) "invalid original blinding scalar"
    effective ← ok_or (c.add_tweak original tweak) "invalid effective blinding scalar"
    ok_or (c.scalar effective) "invalid effective blinding scalar"

  -- One output of the `map` in `effective_outputs`.
  pub effective_output :
      KeysetInfo
      → Option String
      → List String
      → PreparedSwapOutput
      → BlindedMessage
      → BlindedMessage
      → Result String PreparedSwapOutput
  unfolding effective_blinding
  effective_output keys tweak seen p original output = do
    reject_if
        (not (same_message p.blinded_message original)
          || (not (str_eq original.keyset_id keys.keyset_id)
              || (not (is_some (amount_key keys.active_keys original.amount))
                  || contains seen p.secret)))
        "prepared swap output binding mismatch"
    point ←
        map_err (λ _. "invalid original swap blinding") (c.blind_message p.secret p.blinding_factor)
    reject_if (not (str_eq point original.blinded_secret))
        "prepared swap secrets do not match original points"
    blinding_factor ← effective_blinding tweak p.blinding_factor
    ok (record { blinded_message = output; secret = p.secret; blinding_factor = blinding_factor })

  -- The three zipped lists.
  zip_outputs :
      KeysetInfo
      → Option String
      → List String
      → List PreparedSwapOutput
      → List BlindedMessage
      → List BlindedMessage
      → Result String (List PreparedSwapOutput)
  unfolding effective_output
  zip_outputs keys tweak seen [] originals outputs = ok []
  zip_outputs keys tweak seen (p ∷ prepared) [] outputs = ok []
  zip_outputs keys tweak seen (p ∷ prepared) (original ∷ originals) [] = ok []
  zip_outputs keys tweak seen (p ∷ prepared) (original ∷ originals) (output ∷ outputs) = do
    first ← effective_output keys tweak seen p original output
    rest ← zip_outputs keys tweak (p.secret ∷ seen) prepared originals outputs
    ok (first ∷ rest)

  -- `r.map(…).transpose()?`
  tweak_for : Option String → Result String (Option String)
  tweak_for none = ok none
  tweak_for (some r) = do
    tweak ← ok_or (c.rerandomization_tweak r) "invalid mint randomness"
    ok (some tweak)

  unfoldable pub effective_outputs :
      SwapRequest
      → List PreparedSwapOutput
      → KeysetInfo
      → Option String
      → Result String (List PreparedSwapOutput)
  unfolding zip_outputs tweak_for
  effective_outputs request prepared keys r = do
    derived ← swap_restore_request request r
    reject_if (length prepared != length request.outputs) "prepared swap output count mismatch"
    tweak ← tweak_for r
    zip_outputs keys tweak [] prepared request.outputs derived

module _ (p : Packages) (c : Curve) where
  -- `for proof in &proofs`
  verify_proofs : KeysetInfo → List Proof → Result String Unit
  verify_proofs keys [] = ok tt
  verify_proofs keys (proof ∷ proofs) =
      (do
        key ← ok_or (amount_key keys.active_keys proof.amount) "missing proof denomination key"
        map_err (λ _. "invalid unblinded swap proof DLEQ") (p.verify_dleq proof key))
      >> verify_proofs keys proofs

  unfoldable pub complete :
      List BlindSignature → List PreparedSwapOutput → KeysetInfo → Result String (List Proof)
  unfolding verify_proofs
  complete signatures outputs keys = do
    proofs ←
        map_err (λ _. "invalid complete swap signature set or DLEQ")
          (complete_exact_signatures c signatures outputs keys none)
    verify_proofs keys proofs
    ok proofs

  unfoldable pub complete_swap_response :
      SwapRequest → List PreparedSwapOutput → SwapResponse → KeysetInfo → Result String (List Proof)
  unfolding complete
  complete_swap_response request prepared response keys = do
    outputs ← effective_outputs c request prepared keys response.rerandomization_r
    complete response.signatures outputs keys
