-- ===== src/Swap/Completion.antt =====
-- What a completed swap is: `complete_swap_response`.
use cashu_spilman_channels.Prelude.{
  ℕ, suc, String, Bool, true, false, not, ◌||◌, Option, none, some, List, [], ◌∷◌, length, Result,
  ok, map_err, ok_or, reject_if, ◌!=◌, str_eq, str_eq_iff, is_some, ◌≡◌, refl, sym, ap, ◌∙◌, arith,
  All, subst, ◌>>=◌,
}
use cashu_spilman_channels.Packages.{Packages, Proof}
use cashu_spilman_channels.Amounts.{KeysetInfo}
use cashu_spilman_channels.Channel.Verification.{amount_key}
use cashu_spilman_channels.Channel.Verification.Secrets.{Result->>=-ok}
use cashu_spilman_channels.Swap.{
  BlindedMessage, BlindSignature, SwapRequest, SwapResponse, PreparedSwapOutput, Curve,
  same_message, same_witness, is_empty_list, any_repeated, contains, count_mismatch, total_mismatch,
  expected_total_overflow, response_total_overflow, signature_amount_mismatch, checked_sum,
  message_amounts, signature_amounts, proof_amounts, secrets_of, blindings_of, check_signature,
  check_signatures, complete_exact_signatures, derived_outputs, swap_restore_request,
  effective_blinding, effective_output, zip_outputs, tweak_for, effective_outputs, verify_proofs,
  complete, complete_swap_response,
}

abbrev pub amounts_of : List BlindedMessage → List ℕ
amounts_of [] = []
amounts_of (m ∷ messages) = m.amount ∷ amounts_of messages

abbrev pub messages_of : List PreparedSwapOutput → List BlindedMessage
messages_of [] = []
messages_of (o ∷ outputs) = o.blinded_message ∷ messages_of outputs

-- The package keeps the amounts: in tweaking outputs, and in building a proof of each signature.
pub record KeepsAmounts (c : Curve) : Type 0 where
  pub tweaked :
      (r : String) (outputs outputs' : List BlindedMessage)
      → c.tweak_swap_outputs r outputs ≡ some outputs'
      → amounts_of outputs' ≡ amounts_of outputs
  pub constructed :
      (signatures : List BlindSignature) (blindings secrets : List String)
      (keys : List (ℕ × String)) (proofs : List Proof)
      → c.construct_proofs signatures blindings secrets keys ≡ ok proofs
      → proof_amounts proofs ≡ signature_amounts signatures

pub same_witness-eq : (a b : Option String) → same_witness a b ≡ true → a ≡ b
same_witness-eq none none h = refl
same_witness-eq none (some v) h = absurd (ground (arith, h))
same_witness-eq (some w) none h = absurd (ground (arith, h))
same_witness-eq (some w) (some v) h = ground (arith, h, str_eq_iff w v)

pub same_message-eq : (a b : BlindedMessage) → same_message a b ≡ true → a ≡ b
same_message-eq a b h =
    let witness = same_witness-eq a.witness b.witness (ground (arith, h)) in
    ground (
      arith,
      h,
      witness,
      str_eq_iff a.keyset_id b.keyset_id,
      str_eq_iff a.blinded_secret b.blinded_secret,
    )

module _ (c : Curve) (keys : KeysetInfo) where
  pub effective_output-bound :
      (tweak : Option String) (seen : List String) (p : PreparedSwapOutput)
      (original output : BlindedMessage) {o : PreparedSwapOutput}
      → effective_output c keys tweak seen p original output ≡ ok o
      → (p.blinded_message ≡ original) × (o.blinded_message ≡ output)
  unfolding effective_output
  effective_output-bound tweak seen p original output h =
      let (u, bound, after) =
        Result->>=-ok
          (reject_if
            (not (same_message p.blinded_message original)
              || (not (str_eq original.keyset_id keys.keyset_id)
                  || (not (is_some (amount_key keys.active_keys original.amount))
                      || contains seen p.secret)))
            "prepared swap output binding mismatch")
          _ h in
      let (point, blinded, after_point) =
        Result->>=-ok
          (map_err (λ _. "invalid original swap blinding")
            (c.blind_message p.secret p.blinding_factor))
          _ after in
      let (v, matched, after_matched) =
        Result->>=-ok
          (reject_if (not (str_eq point original.blinded_secret))
            "prepared swap secrets do not match original points")
          _ after_point in
      let (factor, made, done) =
        Result->>=-ok (effective_blinding c tweak p.blinding_factor) _ after_matched in
      (same_message-eq p.blinded_message original (ground (arith, bound)), ground (arith, done))

  zip_outputs-bound :
      (tweak : Option String) (seen : List String) (prepared : List PreparedSwapOutput)
      (originals outputs : List BlindedMessage) {l : List PreparedSwapOutput}
      → length prepared ≡ length originals
      → amounts_of outputs ≡ amounts_of originals
      → zip_outputs c keys tweak seen prepared originals outputs ≡ ok l
      → (messages_of prepared ≡ originals) × (message_amounts l ≡ amounts_of originals)
  unfolding zip_outputs
  zip_outputs-bound tweak seen [] [] outputs n a h = (refl, ground (arith, h))
  zip_outputs-bound tweak seen [] (original ∷ originals) outputs n a h = absurd (omega (arith, n))
  zip_outputs-bound tweak seen (p ∷ prepared) [] outputs n a h = absurd (omega (arith, n))
  zip_outputs-bound tweak seen (p ∷ prepared) (original ∷ originals) [] n a h = absurd (cc)
  zip_outputs-bound tweak seen (p ∷ prepared) (original ∷ originals) (output ∷ outputs) {l} n a h =
      let (first, made, after) =
        Result->>=-ok (effective_output c keys tweak seen p original output) _ h in
      let (rest, others, whole) =
        Result->>=-ok (zip_outputs c keys tweak (p.secret ∷ seen) prepared originals outputs) _
          after in
      let (bound, kept) = effective_output-bound tweak seen p original output made in
      let ih =
        zip_outputs-bound tweak (p.secret ∷ seen) prepared originals outputs (omega (arith, n))
          (ground (arith, a)) others in
      let e : first ∷ rest ≡ l = ground (arith, whole) in
      (ground (arith, bound, ih.0), rw (← e) (ground (arith, kept, ih.1, a)))

  check_signature-amount :
      (index : ℕ) (s : BlindSignature) (o : PreparedSwapOutput)
      → check_signature c keys index s o ≡ ok tt
      → s.amount ≡ o.blinded_message.amount
  unfolding check_signature
  check_signature-amount index s o h =
      let (u, same, after) =
        Result->>=-ok
          (reject_if (s.amount != o.blinded_message.amount)
            (signature_amount_mismatch index o.blinded_message.amount s.amount))
          _ h in
      ground (arith, same)

  check_signatures-amounts :
      (index : ℕ) (signatures : List BlindSignature) (outputs : List PreparedSwapOutput)
      → length signatures ≡ length outputs
      → check_signatures c keys index signatures outputs ≡ ok tt
      → signature_amounts signatures ≡ message_amounts outputs
  unfolding check_signatures
  check_signatures-amounts index [] [] n h = refl
  check_signatures-amounts index [] (o ∷ outputs) n h = absurd (omega (arith, n))
  check_signatures-amounts index (s ∷ signatures) [] n h = absurd (omega (arith, n))
  check_signatures-amounts index (s ∷ signatures) (o ∷ outputs) n h =
      let (u, first, rest) = Result->>=-ok (check_signature c keys index s o) _ h in
      let head = check_signature-amount index s o first in
      let ih = check_signatures-amounts (suc index) signatures outputs (omega (arith, n)) rest in
      ground (arith, head, ih)

  complete_exact_signatures-amounts :
      (signatures : List BlindSignature) (expected : List PreparedSwapOutput) {proofs : List Proof}
      → KeepsAmounts c
      → complete_exact_signatures c signatures expected keys none ≡ ok proofs
      → (length signatures ≡ length expected) × (proof_amounts proofs ≡ message_amounts expected)
  unfolding complete_exact_signatures
  complete_exact_signatures-amounts signatures expected {proofs} laws h =
      let (u, counted, after_count) =
        Result->>=-ok
          (reject_if (length signatures != length expected)
            (count_mismatch (length expected) (length signatures)))
          _ h in
      let (e, expected_total, after_expected) =
        Result->>=-ok (checked_sum (message_amounts expected) 0 expected_total_overflow) _
          after_count in
      let (r, response_total, after_response) =
        Result->>=-ok (checked_sum (signature_amounts signatures) 0 response_total_overflow) _
          after_expected in
      let (w, totals, after_totals) =
        Result->>=-ok (reject_if (r != e) (total_mismatch e r)) _ after_response in
      let (x, checked, built) =
        Result->>=-ok (check_signatures c keys 0 signatures expected) _ after_totals in
      let n : length signatures ≡ length expected = ground (arith, counted) in
      let made =
        laws.constructed signatures (blindings_of expected) (secrets_of expected) keys.active_keys
          proofs (ground (arith, built)) in
      (n, made ∙ check_signatures-amounts 0 signatures expected n checked)

  derived_outputs-amounts :
      (is_rerandomized : Bool) (r : Option String) (outputs : List BlindedMessage)
      {derived : List BlindedMessage}
      → KeepsAmounts c
      → derived_outputs c is_rerandomized r outputs ≡ ok derived
      → amounts_of derived ≡ amounts_of outputs
  unfolding derived_outputs
  derived_outputs-amounts false none outputs laws h = sym (ap amounts_of (ground (arith, h)))
  derived_outputs-amounts true (some r) outputs {derived} laws h =
      laws.tweaked r outputs derived (ground (arith, h))
  derived_outputs-amounts false (some r) outputs laws h = absurd (ground (arith, h))
  derived_outputs-amounts true none outputs laws h = absurd (ground (arith, h))

  pub swap_restore_request-amounts :
      (request : SwapRequest) (r : Option String) {derived : List BlindedMessage}
      → KeepsAmounts c
      → swap_restore_request c request r ≡ ok derived
      → amounts_of derived ≡ amounts_of request.outputs
  unfolding swap_restore_request
  swap_restore_request-amounts request r laws h =
      let (u, full, after_full) =
        Result->>=-ok (reject_if (is_empty_list request.outputs) "empty prepared swap outputs") _
          h in
      let (v, distinct, after_distinct) =
        Result->>=-ok
          (reject_if (any_repeated request.outputs []) "duplicate prepared swap outputs") _
          after_full in
      derived_outputs-amounts request.is_rerandomized r request.outputs laws after_distinct

  effective_outputs-bound :
      (request : SwapRequest) (prepared : List PreparedSwapOutput) (r : Option String)
      {l : List PreparedSwapOutput}
      → KeepsAmounts c
      → effective_outputs c request prepared keys r ≡ ok l
      → (messages_of prepared ≡ request.outputs) × (message_amounts l ≡ amounts_of request.outputs)
  unfolding effective_outputs
  effective_outputs-bound request prepared r {l} laws h =
      let (derived, restore, after_restore) =
        Result->>=-ok (swap_restore_request c request r) _ h in
      let (u, counted, after_count) =
        Result->>=-ok
          (reject_if (length prepared != length request.outputs)
            "prepared swap output count mismatch")
          _ after_restore in
      let (tweak, tweaked, zipped) = Result->>=-ok (tweak_for c r) _ after_count in
      zip_outputs-bound tweak [] prepared request.outputs derived (ground (arith, counted))
        (swap_restore_request-amounts request r laws restore) zipped

module _ (p : Packages) (c : Curve) (keys : KeysetInfo) where
  -- A proof that the mint has signed under the keyset's key for its amount.
  pub record IsVerified (proof : Proof) : Type 0 where
    pub key : String
    pub listed : amount_key keys.active_keys proof.amount ≡ some key
    pub dleq : p.verify_dleq proof key ≡ ok tt

  verify_proof : Proof → Result String Unit
  verify_proof proof =
      ok_or (amount_key keys.active_keys proof.amount) "missing proof denomination key" >>= λ key.
      map_err (λ _. "invalid unblinded swap proof DLEQ") (p.verify_dleq proof key)

  verify_proof-IsVerified : (proof : Proof) → verify_proof proof ≡ ok tt → IsVerified proof
  unfolding verify_proof
  verify_proof-IsVerified proof h =
      let (key, listed, after) =
        Result->>=-ok
          (ok_or (amount_key keys.active_keys proof.amount) "missing proof denomination key") _ h in
      record { key = key; listed = ground (arith, listed); dleq = ground (arith, after) }

  verify_proofs-IsVerified :
      (proofs : List Proof) → verify_proofs p c keys proofs ≡ ok tt → All IsVerified proofs
  unfolding verify_proofs verify_proof
  verify_proofs-IsVerified [] h = tt
  verify_proofs-IsVerified (proof ∷ proofs) h =
      let (u, first, rest) = Result->>=-ok (verify_proof proof) _ h in
      (verify_proof-IsVerified proof first, verify_proofs-IsVerified proofs rest)

  -- What a completed swap is.
  pub record SwapCompleted (request : SwapRequest) (prepared : List PreparedSwapOutput)
      (response : SwapResponse) (proofs : List Proof) : Type 0 where
    pub bound : messages_of prepared ≡ request.outputs
    pub signed : length response.signatures ≡ length request.outputs
    pub amounts : proof_amounts proofs ≡ amounts_of request.outputs
    pub verified : All IsVerified proofs

  length-messages : (l : List PreparedSwapOutput) → length (message_amounts l) ≡ length l
  length-messages [] = refl
  length-messages (o ∷ l) = ap suc (length-messages l)

  length-amounts : (l : List BlindedMessage) → length (amounts_of l) ≡ length l
  length-amounts [] = refl
  length-amounts (m ∷ l) = ap suc (length-amounts l)

  -- A mint's answer that `complete_swap_response` accepts, in either mode, completes the whole request: the
  -- prepared outputs are exactly the request's, each is signed, and the proofs are one for each output, of
  -- its amount and in its order, every one signed under the keyset's key for its amount. The curve package
  -- keeps the amounts, in tweaking outputs and in building a proof of each signature.
  pub complete_swap_response-SwapCompleted :
      (request : SwapRequest) (prepared : List PreparedSwapOutput) (response : SwapResponse)
      {proofs : List Proof}
      → KeepsAmounts c
      → complete_swap_response p c request prepared response keys ≡ ok proofs
      → SwapCompleted request prepared response proofs
  unfolding complete_swap_response complete
  complete_swap_response-SwapCompleted request prepared response {proofs} laws h =
      let (outputs, effective, after) =
        Result->>=-ok (effective_outputs c request prepared keys response.rerandomization_r) _ h in
      let (made, built, after_built) =
        Result->>=-ok
          (map_err (λ _. "invalid complete swap signature set or DLEQ")
            (complete_exact_signatures c response.signatures outputs keys none))
          _ after in
      let (u, verified, done) = Result->>=-ok (verify_proofs p c keys made) _ after_built in
      let (bound, kept) =
        effective_outputs-bound c keys request prepared response.rerandomization_r laws effective in
      let (signed, amounts) =
        complete_exact_signatures-amounts c keys response.signatures outputs {proofs = made} laws
          (ground (arith, built)) in
      let same : made ≡ proofs = ground (arith, done) in
      record {
        bound = bound;
        signed =
            signed
            ∙ sym (length-messages outputs)
            ∙ ap length kept
            ∙ length-amounts request.outputs;
        amounts = ap proof_amounts (sym same) ∙ amounts ∙ kept;
        verified = subst (All IsVerified) same (verify_proofs-IsVerified made verified);
      }
