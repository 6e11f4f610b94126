-- ===== src/Swap/Restore/Matched.antt =====
-- A restore gives every expected output the signature that the mint's answer pairs with it.
use cashu_spilman_channels.Prelude.{
  ℕ, zero, suc, true, Option, none, some, List, [], ◌∷◌, length, replicate, ok, ok_or, reject_if,
  ◌!=◌, ◌≡◌, ◌⊎◌, inl, inr, refl, subst, arith, Bool-cases,
}
use cashu_spilman_channels.Channel.Verification.Secrets.{Result->>=-ok}
use cashu_spilman_channels.Swap.{BlindedMessage, BlindSignature, RestoreResponse, same_message}
use cashu_spilman_channels.Swap.Restore.{
  output_signature_count, restore_count, unknown_output, position, put, replaced, match_outputs,
  collect, match_restore_response,
}

-- An answer that pairs an output with a signature.
abbrev pub Paired :
    BlindedMessage → BlindSignature → List BlindedMessage → List BlindSignature → Type 0
Paired o s [] signatures = ⊥
Paired o s (output ∷ outputs) [] = ⊥
Paired o s (output ∷ outputs) (signature ∷ signatures) =
    ((same_message o output ≡ true) × (signature ≡ s)) ⊎ Paired o s outputs signatures

-- Every output has a signature, in its place, as the predicate says.
abbrev pub Each :
    (BlindedMessage → BlindSignature → Type 0) → List BlindedMessage → List BlindSignature → Type 0
Each P [] [] = Unit
Each P [] (s ∷ signatures) = ⊥
Each P (o ∷ outputs) [] = ⊥
Each P (o ∷ outputs) (s ∷ signatures) = P o s × Each P outputs signatures

module _ (P : BlindedMessage → BlindSignature → Type 0) where
  -- The signatures that have been found so far.
  abbrev Found : List BlindedMessage → List (Option BlindSignature) → Type 0
  Found [] [] = Unit
  Found [] (m ∷ matched) = ⊥
  Found (o ∷ outputs) [] = ⊥
  Found (o ∷ outputs) (none ∷ matched) = Found outputs matched
  Found (o ∷ outputs) (some s ∷ matched) = P o s × Found outputs matched

  Found-nothing : (outputs : List BlindedMessage) → Found outputs (replicate (length outputs) none)
  Found-nothing [] = tt
  Found-nothing (o ∷ outputs) = Found-nothing outputs

  put-Found :
      (expected : List BlindedMessage) (matched : List (Option BlindSignature)) (i : ℕ)
      (output : BlindedMessage) (s : BlindSignature)
      → ((o : BlindedMessage) → same_message o output ≡ true → P o s)
      → position expected output ≡ some i
      → Found expected matched
      → Found expected (put matched i s)
  unfolding put position
  put-Found [] matched i output s f e h = absurd (cc)
  put-Found (o ∷ expected) [] i output s f e h = h
  put-Found (o ∷ expected) (none ∷ matched) zero output s f e h =
      elim (Bool-cases (same_message o output)) [
        | inl same ↦ (f o same, h)
        | inr other ↦ absurd (ground (arith, e, other))
      ]
  put-Found (o ∷ expected) (some t ∷ matched) zero output s f e h =
      elim (Bool-cases (same_message o output)) [
        | inl same ↦ (f o same, h.1)
        | inr other ↦ absurd (ground (arith, e, other))
      ]
  put-Found (o ∷ expected) (none ∷ matched) (suc i) output s f e h =
      put-Found expected matched i output s f (ground (arith, e)) h
  put-Found (o ∷ expected) (some t ∷ matched) (suc i) output s f e h =
      (h.0, put-Found expected matched i output s f (ground (arith, e)) h.1)

  match_outputs-Found :
      (expected outputs : List BlindedMessage) (signatures : List BlindSignature)
      (matched : List (Option BlindSignature)) {done : List (Option BlindSignature)}
      → ((o : BlindedMessage) (s : BlindSignature) → Paired o s outputs signatures → P o s)
      → Found expected matched
      → match_outputs expected outputs signatures matched ≡ ok done
      → Found expected done
  unfolding match_outputs replaced
  match_outputs-Found expected [] signatures matched f h e =
      subst (Found expected) (ground (arith, e)) h
  match_outputs-Found expected (output ∷ outputs) [] matched f h e =
      subst (Found expected) (ground (arith, e)) h
  match_outputs-Found expected (output ∷ outputs) (s ∷ signatures) matched f h e =
      let (i, placed, after) =
        Result->>=-ok (ok_or (position expected output) unknown_output) _ e in
      let (next, wrote, rest) = Result->>=-ok (replaced matched i s) _ after in
      let written : put matched i s ≡ next = ground (arith, wrote) in
      match_outputs-Found expected outputs signatures next (λ o t paired. f o t (inr paired))
        (subst (Found expected) written (
          put-Found expected matched i output s (λ o same. f o s (inl (same, refl)))
            (ground (arith, placed)) h))
        rest

  collect-Each :
      (index : ℕ) (expected : List BlindedMessage) (matched : List (Option BlindSignature))
      {signatures : List BlindSignature}
      → Found expected matched
      → collect index matched ≡ ok signatures
      → Each P expected signatures
  unfolding collect
  collect-Each index [] [] h e = subst (Each P []) {x = []} (ground (arith, e)) tt
  collect-Each index [] (m ∷ matched) h e = elim h [ ]
  collect-Each index (o ∷ expected) [] h e = elim h [ ]
  collect-Each index (o ∷ expected) (none ∷ matched) h e = absurd (ground (arith, e))
  collect-Each index (o ∷ expected) (some s ∷ matched) h e =
      let (rest, others, whole) = Result->>=-ok (collect (suc index) matched) _ e in
      subst (Each P (o ∷ expected)) {x = s ∷ rest} (ground (arith, whole))
        (h.0, collect-Each (suc index) expected matched h.1 others)

-- The signatures that `match_restore_response` gives are one for each expected output, in the order of the
-- expected outputs, each the one that the answer has beside that output, in whatever order the answer lists
-- them; and the answer had as many outputs as were expected.
pub match_restore_response-Each :
    (response : RestoreResponse) (expected : List BlindedMessage) {signatures : List BlindSignature}
    → match_restore_response response expected ≡ ok signatures
    → Each (λ o s. Paired o s response.outputs response.signatures) expected signatures
      × (length response.outputs ≡ length expected)
      × (length response.signatures ≡ length expected)
unfolding match_restore_response
match_restore_response-Each response expected h =
    let P : BlindedMessage → BlindSignature → Type 0 =
      λ o s. Paired o s response.outputs response.signatures in
    let (u, paired, after_paired) =
      Result->>=-ok
        (reject_if (length response.outputs != length response.signatures)
          (output_signature_count (length response.outputs) (length response.signatures)))
        _ h in
    let (v, counted, after_counted) =
      Result->>=-ok
        (reject_if (length response.outputs != length expected)
          (restore_count (length expected) (length response.outputs)))
        _ after_paired in
    let (matched, found, collected) =
      Result->>=-ok
        (match_outputs expected response.outputs response.signatures
          (replicate (length expected) none))
        _ after_counted in
    (
      collect-Each P 0 expected matched
          (match_outputs-Found P expected response.outputs response.signatures
            (replicate (length expected) none) (λ o s h. h) (Found-nothing P expected) found)
          collected,
      ground (arith, counted),
      ground (arith, counted, paired),
    )
