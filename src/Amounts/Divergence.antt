-- ===== src/Amounts/Divergence.antt =====
-- An amount of 0 in a keyset: `while remaining >= amount { remaining -= amount; .. }` never ends.
use cashu_spilman_channels.Prelude.{
  ℕ, zero, suc, ◌+◌, ◌-◌, ◌<◌, ◌≡◌, refl, ◌∙◌, inl, inr, true, false, none, some, List, [], ◌∷◌,
  arith, Bool-cases, Option-cases, Member,
}
use cashu_spilman_channels.Amounts.{
  KeysetInfo, take_amount, is_skipped, greedy, from_target, finish, record_count,
}
use cashu_spilman_channels.Amounts.Greedy.{greedy_skip, greedy_take, take_amount_lem}

-- Whatever the fuel, the inner loop does not end at an amount of 0.
take_amount_zero : (fuel remaining count : ℕ) → take_amount fuel remaining 0 count ≡ none
unfolding take_amount
take_amount_zero zero remaining count = refl
take_amount_zero (suc fuel) remaining count =
    ground (arith, take_amount_zero fuel (remaining - 0) (count + 1))

greedy_stuck :
    (maximum_amount remaining amount : ℕ) (rest : List ℕ) (counts : List (ℕ × ℕ))
    → is_skipped maximum_amount amount ≡ false
    → take_amount (suc remaining) remaining amount 0 ≡ none
    → greedy maximum_amount remaining (amount ∷ rest) counts ≡ none
greedy_stuck maximum_amount remaining amount rest counts h t = unfold greedy in rw (h, t, greedy)

greedy_zero :
    (maximum_amount remaining : ℕ) (denominations : List ℕ) (counts : List (ℕ × ℕ))
    → Member 0 denominations
    → greedy maximum_amount remaining denominations counts ≡ none
greedy_zero maximum_amount remaining [] counts m = elim m [ ]
greedy_zero maximum_amount remaining (amount ∷ rest) counts m =
    elim (Bool-cases (is_skipped maximum_amount amount)) [
      | inl skip ↦
          greedy_skip maximum_amount remaining amount rest counts skip
          ∙ greedy_zero maximum_amount remaining rest counts (later skip m)
      | inr keep ↦ elim (Option-cases (take_amount (suc remaining) remaining amount 0)) [
        | inl stuck ↦ greedy_stuck maximum_amount remaining amount rest counts keep stuck
        | inr found ↦
            let r = found.0 in
            greedy_take maximum_amount remaining amount rest counts keep found.1
            ∙ greedy_zero maximum_amount r.0 rest (record_count amount r.1 counts)
                (after r found.1 m)
      ]
    ]
  where
    later : is_skipped maximum_amount amount ≡ true → Member 0 (amount ∷ rest) → Member 0 rest
    later skip (inl e) = absurd (ground arith)
    later skip (inr m') = m'

    after :
        (r : ℕ × ℕ)
        → take_amount (suc remaining) remaining amount 0 ≡ some r
        → Member 0 (amount ∷ rest)
        → Member 0 rest
    after r t (inl e) =
        let never : take_amount (suc remaining) remaining amount 0 ≡ none =
          rw e (take_amount_zero (suc remaining) remaining 0) in
        absurd (cc)
    after r t (inr m') = m'

-- `from_target` gets, with what remains, to its inner loop at an amount.
pub data Enters (maximum_amount : ℕ) : ℕ → List ℕ → ℕ → ℕ → Type 0 where
  here :
      (remaining amount : ℕ) (rest : List ℕ)
      → is_skipped maximum_amount amount ≡ false
      → Enters maximum_amount remaining (amount ∷ rest) remaining amount
  passed :
      (remaining amount r a : ℕ) (rest : List ℕ)
      → is_skipped maximum_amount amount ≡ true
      → Enters maximum_amount remaining rest r a
      → Enters maximum_amount remaining (amount ∷ rest) r a
  took :
      (fuel remaining left count amount r a : ℕ) (rest : List ℕ)
      → is_skipped maximum_amount amount ≡ false
      → take_amount fuel remaining amount 0 ≡ some (left, count)
      → Enters maximum_amount left rest r a
      → Enters maximum_amount remaining (amount ∷ rest) r a

Enters-zero :
    (maximum_amount remaining : ℕ) (denominations : List ℕ)
    → Member 0 denominations
    → (r : ℕ) × Enters maximum_amount remaining denominations r 0
Enters-zero maximum_amount remaining [] m = elim m [ ]
Enters-zero maximum_amount remaining (zero ∷ rest) m =
    (remaining, here remaining 0 rest (ground arith))
Enters-zero maximum_amount remaining (suc n ∷ rest) (inl e) = absurd (omega (arith, e))
Enters-zero maximum_amount remaining (suc n ∷ rest) (inr m) =
    elim (Bool-cases (is_skipped maximum_amount (suc n))) [
      | inl skip ↦
          let (r, later) = Enters-zero maximum_amount remaining rest m in
          (r, passed remaining (suc n) r 0 rest skip later)
      | inr keep ↦
          let t = take_amount_lem (suc remaining) remaining (suc n) 0 (omega arith) (omega arith) in
          let (r, later) = Enters-zero maximum_amount t.left rest m in
          (r, took (suc remaining) remaining t.left t.total (suc n) r 0 rest keep t.returns later)
    ]

-- For a keyset that lists the amount 0, `from_target` does not return for any target but 0, under any
-- limit: after inner loops that end it gets to one that does not end, whatever its fuel; and the model, which
-- gives every inner loop one more round than what remains, has no result.
pub from_target_zero_amount :
    (target maximum_amount : ℕ) (info : KeysetInfo)
    → 0 < target
    → Member 0 info.amounts_largest_first
    → ((r : ℕ) × Enters maximum_amount target info.amounts_largest_first r 0
        × ((fuel : ℕ) → take_amount fuel r 0 0 ≡ none))
      × (from_target target maximum_amount info ≡ none)
unfolding from_target
from_target_zero_amount target maximum_amount info positive m =
    let g = greedy_zero maximum_amount target info.amounts_largest_first [] m in
    let (r, entered) = Enters-zero maximum_amount target info.amounts_largest_first m in
    ((r, entered, λ fuel. take_amount_zero fuel r 0), unfold finish in ground (arith, g))
