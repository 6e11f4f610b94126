-- ===== src/Swap/Restore/Recovered.antt =====
-- A restore recovers what the swap's lost answer would have given: `complete_swap_restore` against
-- `complete_swap_response`.
use cashu_spilman_channels.Prelude.{
  ℕ, suc, String, Bool, true, false, Option, none, some, List, [], ◌∷◌, length, replicate, Result,
  ok, err, ◌>>=◌, reject_if, ◌!=◌, str_eq_iff, All-map, ◌≡◌, refl, sym, ap, subst, ◌∙◌, arith, All,
  inl, inr, Bool-cases, Option-cases, Result-cases,
}
use cashu_spilman_channels.Packages.{Packages}
use cashu_spilman_channels.Amounts.{KeysetInfo}
use cashu_spilman_channels.Channel.Verification.Secrets.{Result->>=-ok}
use cashu_spilman_channels.Swap.{
  BlindedMessage, BlindSignature, SwapRequest, PreparedSwapOutput, Curve, same_message,
  same_witness, is_empty_list, any_repeated, contains, swap_restore_request, derived_outputs,
  effective_output, zip_outputs, tweak_for, effective_outputs, complete_swap_response,
}
use cashu_spilman_channels.Swap.Completion.{
  KeepsAmounts, amounts_of, effective_output-bound, swap_restore_request-amounts,
}
use cashu_spilman_channels.Swap.Restore.Reordered.{
  Reordered, Reordered-length, match_restore_response-Reordered,
}
use cashu_spilman_channels.Swap.Restore.{
  RestoreError, position, at, put, is_set, replaced, match_outputs, collect, match_restore_response,
  messages_of, restored, complete_swap_restore,
}

-- No output stands twice.
abbrev pub Distinct : List BlindedMessage → Type 0
Distinct [] = Unit
Distinct (o ∷ outputs) = All (λ x. same_message o x ≡ false) outputs × Distinct outputs

abbrev found : List BlindSignature → List (Option BlindSignature)
found [] = []
found (s ∷ signatures) = some s ∷ found signatures

abbrev after_head :
    Option BlindSignature
    → Result RestoreError (List (Option BlindSignature))
    → Result RestoreError (List (Option BlindSignature))
after_head m (err e) = err e
after_head m (ok matched) = ok (m ∷ matched)

-- Outputs other than the first leave its place as it is.
match_outputs-tail :
    (o : BlindedMessage) (expected outputs : List BlindedMessage) (signatures : List BlindSignature)
    (m : Option BlindSignature) (matched : List (Option BlindSignature))
    → All (λ x. same_message o x ≡ false) outputs
    → match_outputs (o ∷ expected) outputs signatures (m ∷ matched)
      ≡ after_head m (match_outputs expected outputs signatures matched)
unfolding match_outputs position replaced at put
match_outputs-tail o expected [] signatures m matched h = refl
match_outputs-tail o expected (x ∷ outputs) [] m matched h = refl
match_outputs-tail o expected (x ∷ outputs) (s ∷ signatures) m matched h =
    elim (Option-cases (position expected x)) [
      | inl unknown ↦ rw h.0 (rw unknown refl)
      | inr known ↦
          let (i, e) = known in
          elim (Bool-cases (is_set (at matched i))) [
            | inl twice ↦ rw h.0 (rw e (rw twice refl))
            | inr once ↦ rw h.0 (
                rw e (
                  rw once
                    (match_outputs-tail o expected outputs signatures m (put matched i s) h.1)))
          ]
    ]

same_witness_refl : (w : Option String) → same_witness w w ≡ true
same_witness_refl none = refl
same_witness_refl (some w) = ground (arith, str_eq_iff w w)

same_message_refl : (o : BlindedMessage) → same_message o o ≡ true
same_message_refl o =
    let witness = same_witness_refl o.witness in
    ground (
      arith,
      witness,
      str_eq_iff o.keyset_id o.keyset_id,
      str_eq_iff o.blinded_secret o.blinded_secret,
    )

match_outputs-found :
    (expected : List BlindedMessage) (signatures : List BlindSignature)
    → length signatures ≡ length expected
    → Distinct expected
    → match_outputs expected expected signatures (replicate (length expected) none)
      ≡ ok (found signatures)
unfolding match_outputs position replaced at put is_set
match_outputs-found [] [] n h = refl
match_outputs-found [] (s ∷ signatures) n h = absurd (omega (arith, n))
match_outputs-found (o ∷ expected) [] n h = absurd (omega (arith, n))
match_outputs-found (o ∷ expected) (s ∷ signatures) n h =
    let ih = match_outputs-found expected signatures (omega (arith, n)) h.1 in
    let tail =
      match_outputs-tail o expected expected signatures (some s) (replicate (length expected) none)
        h.0 in
    rw (same_message_refl o) (tail ∙ ap (after_head (some s)) ih)

collect-found :
    (i : ℕ) (signatures : List BlindSignature) → collect i (found signatures) ≡ ok signatures
unfolding collect
collect-found i [] = refl
collect-found i (s ∷ signatures) = rw (collect-found (suc i) signatures) refl

any_repeated-Distinct :
    (outputs : List BlindedMessage) (seen : List String)
    → any_repeated outputs seen ≡ false
    → All (λ (x : BlindedMessage). contains seen x.blinded_secret ≡ false) outputs
      × Distinct outputs
unfolding any_repeated
any_repeated-Distinct [] seen h = (tt, tt)
any_repeated-Distinct (o ∷ outputs) seen h =
    let (later, distinct) =
      any_repeated-Distinct outputs (o.blinded_secret ∷ seen) (ground (arith, h)) in
    (
      (
        ground (arith, h),
        All-map (λ x. contains (o.blinded_secret ∷ seen) x.blinded_secret ≡ false)
            (λ x. contains seen x.blinded_secret ≡ false) outputs (λ x e. ground (arith, e)) later,
      ),
      (
        All-map (λ x. contains (o.blinded_secret ∷ seen) x.blinded_secret ≡ false)
            (λ x. same_message o x ≡ false) outputs (λ x e. ground (arith, e)) later,
        distinct,
      ),
    )

-- The signatures of a restore that lists the outputs as they were sent.
match_restore_response-found :
    (outputs : List BlindedMessage) (signatures : List BlindSignature)
    → length signatures ≡ length outputs
    → Distinct outputs
    → match_restore_response (record { outputs = outputs; signatures = signatures }) outputs
      ≡ ok signatures
unfolding match_restore_response
match_restore_response-found outputs signatures n h =
    let matched = match_outputs-found outputs signatures n h in
    let collected = collect-found 0 signatures in ground (arith, n, matched, collected)

module _ (c : Curve) (keys : KeysetInfo) where
  zip_outputs-messages :
      (tweak : Option String) (seen : List String) (prepared : List PreparedSwapOutput)
      (originals outputs : List BlindedMessage) {l : List PreparedSwapOutput}
      → length prepared ≡ length outputs
      → length originals ≡ length outputs
      → zip_outputs c keys tweak seen prepared originals outputs ≡ ok l
      → messages_of l ≡ outputs
  unfolding zip_outputs messages_of
  zip_outputs-messages tweak seen [] originals [] {l} n k h =
      ap messages_of {x = l} {y = []} (ground (arith, h))
  zip_outputs-messages tweak seen [] originals (x ∷ outputs) n k h = absurd (omega (arith, n))
  zip_outputs-messages tweak seen (p ∷ prepared) originals [] n k h = absurd (omega (arith, n))
  zip_outputs-messages tweak seen (p ∷ prepared) [] (x ∷ outputs) n k h = absurd (omega (arith, k))
  zip_outputs-messages tweak seen (p ∷ prepared) (original ∷ originals) (x ∷ outputs) {l} n k h =
      let (o, first, after) = Result->>=-ok (effective_output c keys tweak seen p original x) _ h in
      let (rest, others, whole) =
        Result->>=-ok (zip_outputs c keys tweak (p.secret ∷ seen) prepared originals outputs) _
          after in
      let head = (effective_output-bound c keys tweak seen p original x {o = o} first).1 in
      let tail =
        zip_outputs-messages tweak (p.secret ∷ seen) prepared originals outputs {l = rest}
          (omega (arith, n)) (omega (arith, k)) others in
      subst (λ l. messages_of l ≡ x ∷ outputs) {x = o ∷ rest} (ground (arith, whole))
        (ap (λ m. m ∷ messages_of rest) head ∙ ap (λ ms. x ∷ ms) tail)

  length-amounts_of : (l : List BlindedMessage) → length (amounts_of l) ≡ length l
  length-amounts_of [] = refl
  length-amounts_of (m ∷ l) = ap suc (length-amounts_of l)

  effective_outputs-messages :
      (request : SwapRequest) (prepared : List PreparedSwapOutput) (r : Option String)
      (outputs : List BlindedMessage) {l : List PreparedSwapOutput}
      → KeepsAmounts c
      → swap_restore_request c request r ≡ ok outputs
      → effective_outputs c request prepared keys r ≡ ok l
      → messages_of l ≡ outputs
  unfolding effective_outputs
  effective_outputs-messages request prepared r outputs {l} laws restore h =
      let (derived, derive, after_derive) = Result->>=-ok (swap_restore_request c request r) _ h in
      let (u, counted, after_count) =
        Result->>=-ok
          (reject_if (length prepared != length request.outputs)
            "prepared swap output count mismatch")
          _ after_derive in
      let (tweak, tweaked, zipped) = Result->>=-ok (tweak_for c r) _ after_count in
      let same : derived ≡ outputs = ground (arith, derive, restore) in
      let amounts = swap_restore_request-amounts c keys request r laws derive in
      let n : length request.outputs ≡ length derived =
        sym (length-amounts_of request.outputs)
        ∙ ap length (sym amounts)
        ∙ length-amounts_of derived in
      let k : length prepared ≡ length request.outputs = ground (arith, counted) in
      zip_outputs-messages tweak [] prepared request.outputs derived (k ∙ n) n zipped ∙ same

  amounts_of-nonempty :
      (l m : List BlindedMessage)
      → amounts_of l ≡ amounts_of m
      → is_empty_list m ≡ false
      → is_empty_list l ≡ false
  amounts_of-nonempty l [] e h = absurd (ground (arith, h))
  amounts_of-nonempty [] (x ∷ m) e h = absurd (cc)
  amounts_of-nonempty (y ∷ l) (x ∷ m) e h = refl

  swap_restore_request-nonempty :
      (request : SwapRequest) (r : Option String) {outputs : List BlindedMessage}
      → KeepsAmounts c
      → swap_restore_request c request r ≡ ok outputs
      → is_empty_list outputs ≡ false
  unfolding swap_restore_request
  swap_restore_request-nonempty request r {outputs} laws restore =
      let (u, full, after) =
        Result->>=-ok (reject_if (is_empty_list request.outputs) "empty prepared swap outputs") _
          restore in
      amounts_of-nonempty outputs request.outputs
        (swap_restore_request-amounts c keys request r laws restore) (ground (arith, full))

  derived_outputs-Distinct :
      (is_rerandomized : Bool) (r : Option String) (sent outputs : List BlindedMessage)
      → (is_rerandomized ≡ true → Distinct outputs)
      → Distinct sent
      → derived_outputs c is_rerandomized r sent ≡ ok outputs
      → Distinct outputs
  unfolding derived_outputs
  derived_outputs-Distinct true r sent outputs distinct h e = distinct refl
  derived_outputs-Distinct false none sent outputs distinct h e =
      subst Distinct (ground (arith, e)) h
  derived_outputs-Distinct false (some x) sent outputs distinct h e = absurd (ground (arith, e))

  swap_restore_request-Distinct :
      (request : SwapRequest) (r : Option String) (outputs : List BlindedMessage)
      → (request.is_rerandomized ≡ true → Distinct outputs)
      → swap_restore_request c request r ≡ ok outputs
      → Distinct outputs
  unfolding swap_restore_request
  swap_restore_request-Distinct request r outputs distinct restore =
      let (u, full, after_full) =
        Result->>=-ok (reject_if (is_empty_list request.outputs) "empty prepared swap outputs") _
          restore in
      let (v, once, derived) =
        Result->>=-ok
          (reject_if (any_repeated request.outputs []) "duplicate prepared swap outputs") _
          after_full in
      derived_outputs-Distinct request.is_rerandomized r request.outputs outputs distinct
        (any_repeated-Distinct request.outputs [] (ground (arith, once))).1 derived

nonempty_of_length :
    (l m : List BlindedMessage)
    → length m ≡ length l
    → is_empty_list l ≡ false
    → is_empty_list m ≡ false
nonempty_of_length [] m n h = absurd (ground (arith, h))
nonempty_of_length (x ∷ l) [] n h = absurd (omega (arith, n))
nonempty_of_length (x ∷ l) (y ∷ m) n h = refl

module _ (p : Packages) (c : Curve) (keys : KeysetInfo) where
  -- Nothing is lost with a swap's answer: a restore that lists, in whatever order, the signatures beside the
  -- outputs that they were issued for gives exactly the proofs, or exactly the refusal, that the answer with
  -- those signatures would have given, in either mode. Of a rerandomized request no output stands twice once
  -- it is tweaked, and the curve package keeps the amounts in tweaking outputs.
  pub complete_swap_restore-complete_swap_response :
      (request : SwapRequest) (prepared : List PreparedSwapOutput) (r : Option String)
      (outputs listed : List BlindedMessage) (signatures beside : List BlindSignature)
      → KeepsAmounts c
      → swap_restore_request c request r ≡ ok outputs
      → (request.is_rerandomized ≡ true → Distinct outputs)
      → length signatures ≡ length outputs
      → Reordered outputs signatures listed beside
      → complete_swap_restore p c request prepared r
          (record { outputs = listed; signatures = beside })
          keys
        ≡ (complete_swap_response p c request prepared
              (record { signatures = signatures; rerandomization_r = r })
              keys
            >>= λ proofs. ok (some proofs))
  unfolding complete_swap_restore complete_swap_response restored
  complete_swap_restore-complete_swap_response request prepared r outputs listed signatures beside
        laws restore distinct n reordered =
      elim (Result-cases (effective_outputs c request prepared keys r)) [
        | inl effective ↦
            let (l, e) = effective in
            let full =
              nonempty_of_length outputs listed (Reordered-length reordered).0
                (swap_restore_request-nonempty c keys request r laws restore) in
            let found = match_restore_response-Reordered outputs reordered (
              match_restore_response-found outputs signatures n
                (swap_restore_request-Distinct c keys request r outputs distinct restore)) in
            rw e (
              rw full (
                rw
                  (effective_outputs-messages c keys request prepared r outputs {l = l} laws restore
                    e)
                  (rw found refl)))
        | inr refused ↦ let (x, e) = refused in rw e refl
      ]
