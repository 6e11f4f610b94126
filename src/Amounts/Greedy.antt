-- ===== src/Amounts/Greedy.antt =====
-- `OrderedListOfAmounts::from_target`: the loops end, and the amounts are those of the keyset, at
-- most the maximum, in descending order, and add up to the target.
use cashu_spilman_channels.Prelude.{
  ℕ, zero, suc, ◌+◌, ◌-◌, ◌*◌, ◌/◌, ◌%◌, ◌≤◌, ◌<◌, ◌≡◌, refl, ◌⊎◌, inl, inr, true, false, Option,
  some, List, [], ◌∷◌, arith, All, leb, if◌then◌else◌, Bool-cases, ◌∙◌, lt→ltb,
}
use cashu_spilman_channels.Amounts.{take_amount, is_skipped, record_count, greedy, btree_insert}
use cashu_spilman_channels.Amounts.BTree.{
  weight, AscendingFrom, AscendingFrom-le, weight-btree_insert, outputs, outputs-btree_insert,
  btree_insert_front,
}

-- What the inner loop leaves.
pub record Taken (taken : Option (ℕ × ℕ)) (remaining amount count : ℕ) : Type 0 where
  pub left : ℕ
  pub total : ℕ
  pub returns : taken ≡ some (left, total)
  pub exhausted : left < amount
  pub conserved : left + total * amount ≡ remaining + count * amount
  pub unused : remaining < amount → total ≡ count
  pub used : amount ≤ remaining → count < total
  pub shrinks : left ≤ remaining

pub take_amount_lem :
    (fuel remaining amount count : ℕ)
    → 0 < amount
    → remaining < fuel
    → Taken (take_amount fuel remaining amount count) remaining amount count
unfolding take_amount
take_amount_lem zero remaining amount count p h = absurd (omega arith)
take_amount_lem (suc fuel) remaining amount count p h = elim (Bool-cases (leb amount remaining)) [
  | inl more ↦
      let le : amount ≤ remaining = ground arith in
      let t = take_amount_lem fuel (remaining - amount) amount (count + 1) p (omega arith) in
      record {
        left = t.left;
        total = t.total;
        returns = rw more t.returns;
        exhausted = t.exhausted;
        conserved = grind (arith, t.conserved);
        unused = λ lt. absurd (omega arith);
        used = λ _. elim (Bool-cases (leb amount (remaining - amount))) [
          | inl a ↦ let l : amount ≤ remaining - amount = ground arith in omega (arith, t.used l)
          | inr a ↦ let l : remaining - amount < amount = ground arith in omega (arith, t.unused l)
        ];
        shrinks = omega (arith, t.shrinks);
      }
  | inr done ↦
      let lt : remaining < amount = ground arith in
      record {
        left = remaining;
        total = count;
        returns = rw done;
        exhausted = lt;
        conserved = refl;
        unused = λ _. refl;
        used = λ le. absurd (omega arith);
        shrinks = omega arith;
      }
]

-- The number of outputs that the greedy choice makes.
unfoldable pub coins : ℕ → List ℕ → ℕ → ℕ
coins maximum_amount [] remaining = 0
coins maximum_amount (amount ∷ rest) remaining =
    if is_skipped maximum_amount amount
    then coins maximum_amount rest remaining
    else remaining / amount + coins maximum_amount rest (remaining % amount)

pub quotient : (r a q left : ℕ) → left < a → left + q * a ≡ r → (r / a ≡ q) × (r % a ≡ left)
quotient r a q left lt e = (grind arith, grind arith)

pub coins_take :
    (maximum_amount remaining amount left total : ℕ) (rest : List ℕ)
    → is_skipped maximum_amount amount ≡ false
    → left < amount
    → left + total * amount ≡ remaining
    → coins maximum_amount (amount ∷ rest) remaining ≡ total + coins maximum_amount rest left
coins_take maximum_amount remaining amount left total rest keep lt e =
    let (q, r) = quotient remaining amount total left lt e in unfold coins in rw (keep, q, r)

pub coins_skip :
    (maximum_amount remaining amount : ℕ) (rest : List ℕ)
    → is_skipped maximum_amount amount ≡ true
    → coins maximum_amount (amount ∷ rest) remaining ≡ coins maximum_amount rest remaining
coins_skip maximum_amount remaining amount rest skip = unfold coins in rw skip

-- What the outer loop leaves: `P` is any property of the amounts that the limit admits.
pub record Chosen (P : ℕ → Type 0) (maximum_amount : ℕ) (denominations : List ℕ)
    (run : Option (ℕ × List (ℕ × ℕ))) (remaining : ℕ) (counts : List (ℕ × ℕ)) : Type 0 where
  pub left : ℕ
  pub chosen : List (ℕ × ℕ)
  pub returns : run ≡ some (left, chosen)
  pub conserved : left + weight chosen ≡ remaining + weight counts
  pub counted : outputs chosen ≡ coins maximum_amount denominations remaining + outputs counts
  pub shrinks : left ≤ remaining
  pub ascending : AscendingFrom left chosen
  pub allowed : All (λ e. P e.0) chosen

record_count_zero : (amount : ℕ) (counts : List (ℕ × ℕ)) → record_count amount 0 counts ≡ counts
unfolding record_count
record_count_zero amount counts = refl

record_count-suc :
    (amount n : ℕ) (counts : List (ℕ × ℕ))
    → record_count amount (suc n) counts ≡ btree_insert amount (suc n) counts
unfolding record_count
record_count-suc amount n counts = rw (lt→ltb 0 (suc n) (omega arith))

record_count-weight :
    (amount count left remaining : ℕ) (counts : List (ℕ × ℕ))
    → (amount ≤ remaining) ⊎ (count ≡ 0)
    → AscendingFrom remaining counts
    → weight (record_count amount count counts) ≡ count * amount + weight counts
record_count-weight amount zero left remaining counts c a = rw record_count_zero (omega arith)
record_count-weight amount (suc n) left remaining counts (inl le) a =
    rw record_count-suc (weight-btree_insert amount (suc n) remaining counts le a)
record_count-weight amount (suc n) left remaining counts (inr e) a = absurd (omega arith)

record_count-outputs :
    (amount count remaining : ℕ) (counts : List (ℕ × ℕ))
    → (amount ≤ remaining) ⊎ (count ≡ 0)
    → AscendingFrom remaining counts
    → outputs (record_count amount count counts) ≡ count + outputs counts
record_count-outputs amount zero remaining counts c a = rw record_count_zero (omega arith)
record_count-outputs amount (suc n) remaining counts (inl le) a =
    rw record_count-suc (outputs-btree_insert amount (suc n) remaining counts le a)
record_count-outputs amount (suc n) remaining counts (inr e) a = absurd (omega arith)

record_count-AscendingFrom :
    (amount count left remaining : ℕ) (counts : List (ℕ × ℕ))
    → (amount ≤ remaining) ⊎ (count ≡ 0)
    → left < amount
    → left ≤ remaining
    → AscendingFrom remaining counts
    → AscendingFrom left (record_count amount count counts)
record_count-AscendingFrom amount zero left remaining counts c lt le a =
    rw record_count_zero (AscendingFrom-le counts le a)
record_count-AscendingFrom amount (suc n) left remaining counts (inl h) lt le a =
    rw (record_count-suc, btree_insert_front amount (suc n) remaining counts h a)
      (lt, AscendingFrom-le counts h a)
record_count-AscendingFrom amount (suc n) left remaining counts (inr e) lt le a =
    absurd (omega arith)

record_count-All :
    (P : ℕ → Type 0) (amount count remaining : ℕ) (counts : List (ℕ × ℕ))
    → (amount ≤ remaining) ⊎ (count ≡ 0)
    → AscendingFrom remaining counts
    → P amount
    → All (λ e. P e.0) counts
    → All (λ e. P e.0) (record_count amount count counts)
record_count-All P amount zero remaining counts c a p h = rw record_count_zero h
record_count-All P amount (suc n) remaining counts (inl le) a p h =
    rw (record_count-suc, btree_insert_front amount (suc n) remaining counts le a) (p, h)
record_count-All P amount (suc n) remaining counts (inr e) a p h = absurd (omega arith)

-- Whether the amount was taken at all.
taken-cases :
    (amount remaining total : ℕ)
    → (remaining < amount → total ≡ 0)
    → (amount ≤ remaining) ⊎ (total ≡ 0)
taken-cases amount remaining total unused = elim (Bool-cases (leb amount remaining)) [
  | inl a ↦ inl (ground arith)
  | inr a ↦ inr (unused (ground arith))
]

pub greedy_skip :
    (maximum_amount remaining amount : ℕ) (rest : List ℕ) (counts : List (ℕ × ℕ))
    → is_skipped maximum_amount amount ≡ true
    → greedy maximum_amount remaining (amount ∷ rest) counts
      ≡ greedy maximum_amount remaining rest counts
unfolding greedy
greedy_skip maximum_amount remaining amount rest counts h = rw (h, greedy)

pub greedy_take :
    (maximum_amount remaining amount : ℕ) (rest : List ℕ) (counts : List (ℕ × ℕ)) {left total : ℕ}
    → is_skipped maximum_amount amount ≡ false
    → take_amount (suc remaining) remaining amount 0 ≡ some (left, total)
    → greedy maximum_amount remaining (amount ∷ rest) counts
      ≡ greedy maximum_amount left rest (record_count amount total counts)
greedy_take maximum_amount remaining amount rest counts h t = unfold greedy in rw (h, t, greedy)

pub greedy_lem :
    (P : ℕ → Type 0) (maximum_amount remaining : ℕ) (denominations : List ℕ) (counts : List (ℕ × ℕ))
    → All (λ a. 1 ≤ a) denominations
    → All (λ a. is_skipped maximum_amount a ≡ false → P a) denominations
    → AscendingFrom remaining counts
    → All (λ e. P e.0) counts
    → Chosen P maximum_amount denominations
        (greedy maximum_amount remaining denominations counts)
        remaining
        counts
greedy_lem P maximum_amount remaining [] counts positive admits a p = record {
  left = remaining;
  chosen = counts;
  returns = unfold greedy in refl;
  conserved = refl;
  counted = unfold coins in omega arith;
  shrinks = omega arith;
  ascending = a;
  allowed = p;
}
greedy_lem P maximum_amount remaining (amount ∷ rest) counts positive admits a p =
    elim (Bool-cases (is_skipped maximum_amount amount)) [
      | inl skip ↦
          let g = greedy_lem P maximum_amount remaining rest counts positive.1 admits.1 a p in
          record {
            left = g.left;
            chosen = g.chosen;
            returns = greedy_skip maximum_amount remaining amount rest counts skip ∙ g.returns;
            conserved = g.conserved;
            counted =
                omega (arith, g.counted, coins_skip maximum_amount remaining amount rest skip);
            shrinks = g.shrinks;
            ascending = g.ascending;
            allowed = g.allowed;
          }
      | inr keep ↦
          let t = take_amount_lem (suc remaining) remaining amount 0 positive.0 (omega arith) in
          let c = taken-cases amount remaining t.total t.unused in
          let g =
            greedy_lem P maximum_amount t.left rest (record_count amount t.total counts) positive.1
              admits.1
              (record_count-AscendingFrom amount t.total t.left remaining counts c t.exhausted
                t.shrinks a)
              (record_count-All P amount t.total remaining counts c a (admits.0 keep) p) in
          record {
            left = g.left;
            chosen = g.chosen;
            returns =
                greedy_take maximum_amount remaining amount rest counts keep t.returns ∙ g.returns;
            conserved = omega (
              arith,
              g.conserved,
              t.conserved,
              record_count-weight amount t.total t.left remaining counts c a,
            );
            counted = omega (
              arith,
              g.counted,
              coins_take maximum_amount remaining amount t.left t.total rest keep t.exhausted
                  (omega (arith, t.conserved)),
              record_count-outputs amount t.total remaining counts c a,
            );
            shrinks = omega (arith, g.shrinks, t.shrinks);
            ascending = g.ascending;
            allowed = g.allowed;
          }
    ]
