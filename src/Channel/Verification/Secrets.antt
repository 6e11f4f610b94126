-- ===== src/Channel/Verification/Secrets.antt =====
-- The amounts of the deterministic secrets: `get_secrets_with_blinding` of
-- crates/cdk-spilman/src/deterministic.rs.
use cashu_spilman_channels.Prelude.{
  ℕ, zero, suc, List, [], ◌∷◌, ◌++◌, replicate, sum, Result, ok, err, ◌>>=◌, ◌≡◌, refl, sym, ap,
  ◌∙◌, arith, ◌==◌, Bool-cases, inl, inr, sum-append, sum-replicate, ◌⊎◌,
}
use cashu_spilman_channels.Packages.{Packages}
use cashu_spilman_channels.Amounts.BTree.{weight}
use cashu_spilman_channels.Channel.{DeterministicOutputs}
use cashu_spilman_channels.Channel.Verification.{
  DeterministicSecretWithBlinding, indexed_outputs, counted_outputs, get_secrets_with_blinding,
}

abbrev pub secret_amounts : List DeterministicSecretWithBlinding → List ℕ
secret_amounts [] = []
secret_amounts (s ∷ secrets) = s.amount ∷ secret_amounts secrets

-- `iter_smallest_first().flat_map(|(&amount, &count)| repeat_n(amount, count))`
unfoldable pub smallest_first : List (ℕ × ℕ) → List ℕ
smallest_first [] = []
smallest_first ((amount, count) ∷ counts) = replicate count amount ++ smallest_first counts

pub sum-smallest_first : (counts : List (ℕ × ℕ)) → sum (smallest_first counts) ≡ weight counts
unfolding smallest_first weight
sum-smallest_first [] = refl
sum-smallest_first ((amount, count) ∷ counts) = omega (
  arith,
  sum-append (replicate count amount) (smallest_first counts),
  sum-replicate count amount,
  sum-smallest_first counts,
)

pub secret_amounts-append :
    (xs ys : List DeterministicSecretWithBlinding)
    → secret_amounts (xs ++ ys) ≡ secret_amounts xs ++ secret_amounts ys
secret_amounts-append [] ys = refl
secret_amounts-append (x ∷ xs) ys = ap (λ l. x.amount ∷ l) (secret_amounts-append xs ys)

-- Inversion of a bind of two results.
pub Result->>=-ok :
    {E A B : Type 0} (m : Result E A) (f : A → Result E B) {b : B}
    → (m >>= f) ≡ ok b
    → (a : A) × (m ≡ ok a) × (f a ≡ ok b)
Result->>=-ok (ok a) f h = (a, refl, h)
Result->>=-ok (err e) f h = absurd (ground arith)

module _ (p : Packages) (outputs : DeterministicOutputs) where
  indexed_outputs-amounts :
      (amount index count : ℕ) {secrets : List DeterministicSecretWithBlinding}
      → indexed_outputs p outputs amount index count ≡ ok secrets
      → secret_amounts secrets ≡ replicate count amount
  unfolding indexed_outputs
  indexed_outputs-amounts amount index zero h = ground (arith, h)
  indexed_outputs-amounts amount index (suc count) {secrets} h =
      let (s, made, after) =
        Result->>=-ok (p.output_secret outputs.params outputs.context amount index) _ h in
      let (rest, others, whole) =
        Result->>=-ok (indexed_outputs p outputs amount (suc index) count) _ after in
      let ih = indexed_outputs-amounts amount (suc index) count others in ground (arith, whole, ih)

  counted_outputs-amounts :
      (counts : List (ℕ × ℕ)) {secrets : List DeterministicSecretWithBlinding}
      → counted_outputs p outputs counts ≡ ok secrets
      → secret_amounts secrets ≡ smallest_first counts
  unfolding counted_outputs smallest_first
  counted_outputs-amounts [] h = ground (arith, h)
  counted_outputs-amounts ((amount, count) ∷ counts) {secrets} h =
      let (these, made, after) = Result->>=-ok (indexed_outputs p outputs amount 0 count) _ h in
      let (rest, others, whole) = Result->>=-ok (counted_outputs p outputs counts) _ after in
      let first = indexed_outputs-amounts amount 0 count made in
      let ih = counted_outputs-amounts counts others in
      let same : these ++ rest ≡ secrets = ground (arith, whole) in
      rw (← same) (rw (secret_amounts-append these rest) (rw (first, ih)))

  -- The secrets have the amounts of the count map, smallest first, or there is nothing to pay.
  pub get_secrets_with_blinding-amounts :
      {secrets : List DeterministicSecretWithBlinding}
      → get_secrets_with_blinding p outputs ≡ ok secrets
      → (secret_amounts secrets ≡ smallest_first outputs.ordered_amounts.count_by_amount)
        ⊎ ((secrets ≡ []) × (outputs.amount ≡ 0))
  unfolding get_secrets_with_blinding
  get_secrets_with_blinding-amounts h = elim (Bool-cases (outputs.amount == 0)) [
    | inl nothing ↦ inr (ground arith, ground arith)
    | inr some_ ↦
        inl (counted_outputs-amounts outputs.ordered_amounts.count_by_amount (ground arith))
  ]

  pub get_secrets_with_blinding-sum :
      {secrets : List DeterministicSecretWithBlinding}
      → weight outputs.ordered_amounts.count_by_amount ≡ outputs.amount
      → get_secrets_with_blinding p outputs ≡ ok secrets
      → sum (secret_amounts secrets) ≡ outputs.amount
  get_secrets_with_blinding-sum w h = elim (get_secrets_with_blinding-amounts h) [
    | inl same ↦ rw same (sum-smallest_first outputs.ordered_amounts.count_by_amount ∙ w)
    | inr nothing ↦ rw (nothing.0) (sym nothing.1)
  ]
