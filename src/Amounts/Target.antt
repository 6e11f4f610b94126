-- ===== src/Amounts/Target.antt =====
-- `OrderedListOfAmounts::from_target` as a whole.
use cashu_spilman_channels.Prelude.{
  ℕ, zero, suc, ◌^◌, ◌≤◌, ◌<◌, ◌≡◌, refl, sym, subst, ◌∙◌, ◌⊎◌, inl, inr, true, false, some, List,
  [], ◌∷◌, arith, All, All-map, All-Member, Member, length, sum, ok, err, ◌==◌, Bool-cases,
}
use cashu_spilman_channels.Amounts.{
  KeysetInfo, OrderedListOfAmounts, is_skipped, greedy, finish, unrepresentable, from_target,
  nominal_total, expand_rev, record_count,
}
use cashu_spilman_channels.Amounts.BTree.{
  weight, outputs, length-expand_rev, AscendingFrom, Descending, sum-expand_rev, All-expand_rev,
  expand_rev-Descending,
}
use cashu_spilman_channels.Amounts.Greedy.{
  Chosen, coins, greedy_lem, greedy_skip, greedy_take, take_amount_lem,
}

abbrev pub IsPositive : List ℕ → Type 0
IsPositive denominations = All (λ a. 1 ≤ a) denominations

-- An amount of the keyset that the limit admits.
abbrev pub IsOffered : ℕ → KeysetInfo → ℕ → Type 0
IsOffered maximum_amount info a =
    Member a info.amounts_largest_first × (is_skipped maximum_amount a ≡ false)

offered :
    (maximum_amount : ℕ) (info : KeysetInfo)
    → All
        (λ a. is_skipped maximum_amount a ≡ false → IsOffered maximum_amount info a)
        info.amounts_largest_first
offered maximum_amount info =
    All-map (λ a. Member a info.amounts_largest_first)
      (λ a. is_skipped maximum_amount a ≡ false → IsOffered maximum_amount info a)
      info.amounts_largest_first (λ a m k. (m, k)) (All-Member info.amounts_largest_first)

chosen :
    (target maximum_amount : ℕ) (info : KeysetInfo)
    → IsPositive info.amounts_largest_first
    → Chosen
        (IsOffered maximum_amount info)
        maximum_amount
        info.amounts_largest_first
        (greedy maximum_amount target info.amounts_largest_first [])
        target
        []
chosen target maximum_amount info positive =
    greedy_lem (IsOffered maximum_amount info) maximum_amount target info.amounts_largest_first []
      positive (offered maximum_amount info) tt tt

-- The list that the code returns for the counts that the loops leave.
abbrev listed : KeysetInfo → List (ℕ × ℕ) → OrderedListOfAmounts
listed info counts = record {
  amounts = expand_rev counts;
  count_by_amount = counts;
  input_fee_ppk = info.input_fee_ppk;
}

-- All ways for the function to return.
pub data Returned (target maximum_amount : ℕ) (info : KeysetInfo) : Type 0 where
  listing :
      (counts : List (ℕ × ℕ))
      → from_target target maximum_amount info ≡ some (ok (listed info counts))
      → weight counts ≡ target
      → AscendingFrom 0 counts
      → All (λ e. IsOffered maximum_amount info e.0) counts
      → outputs counts ≡ coins maximum_amount info.amounts_largest_first target
      → Returned target maximum_amount info
  failing :
      from_target target maximum_amount info ≡ some (err (unrepresentable target maximum_amount))
      → Returned target maximum_amount info

pub coins_zero :
    (maximum_amount : ℕ) (denominations : List ℕ) → coins maximum_amount denominations 0 ≡ 0
unfolding coins
coins_zero maximum_amount [] = refl
coins_zero maximum_amount (amount ∷ rest) = ground (arith, coins_zero maximum_amount rest)

Returned-from :
    (target maximum_amount : ℕ) (info : KeysetInfo)
    → Chosen
        (IsOffered maximum_amount info)
        maximum_amount
        info.amounts_largest_first
        (greedy maximum_amount target info.amounts_largest_first [])
        target
        []
    → Returned target maximum_amount info
unfolding from_target finish weight outputs
Returned-from zero maximum_amount info c =
    listing [] refl refl tt tt (sym (coins_zero maximum_amount info.amounts_largest_first))
Returned-from (suc n) maximum_amount info c = elim (Bool-cases (c.left == 0)) [
  | inl done ↦
      let e : c.left ≡ 0 = ground arith in
      listing c.chosen (ground (arith, c.returns)) (omega (arith, c.conserved))
        (subst_left c.left c.chosen e c.ascending) c.allowed (omega (arith, c.counted))
  | inr more ↦ failing (ground (arith, c.returns))
]
  where
    subst_left :
        (left : ℕ) (counts : List (ℕ × ℕ))
        → left ≡ 0
        → AscendingFrom left counts
        → AscendingFrom 0 counts
    subst_left left counts e a = rw e at a

pub returned :
    (target maximum_amount : ℕ) (info : KeysetInfo)
    → IsPositive info.amounts_largest_first
    → Returned target maximum_amount info
returned target maximum_amount info positive =
    Returned-from target maximum_amount info (chosen target maximum_amount info positive)

-- For a keyset of positive amounts the loops of `from_target` end: it returns a list of amounts, or
-- the error that the target cannot be represented, and nothing else.
pub from_target_total :
    (target maximum_amount : ℕ) (info : KeysetInfo)
    → IsPositive info.amounts_largest_first
    → ((l : OrderedListOfAmounts) × (from_target target maximum_amount info ≡ some (ok l)))
      ⊎ (from_target target maximum_amount info
          ≡ some (err (unrepresentable target maximum_amount)))
from_target_total target maximum_amount info positive =
    elim (returned target maximum_amount info positive) [
      | listing counts e w a o n ↦ inl (listed info counts, e)
      | failing e ↦ inr e
    ]

abbrev pub Represents : ℕ → ℕ → KeysetInfo → OrderedListOfAmounts → Type 0
Represents target maximum_amount info l =
    (nominal_total l ≡ target)
    × All (IsOffered maximum_amount info) l.amounts
    × Descending l.amounts
    × (l.amounts ≡ expand_rev l.count_by_amount)
    × AscendingFrom 0 l.count_by_amount
    × (sum l.amounts ≡ target)
    × (l.input_fee_ppk ≡ info.input_fee_ppk)
    × (length l.amounts ≡ coins maximum_amount info.amounts_largest_first target)

listed-Represents :
    (target maximum_amount : ℕ) (info : KeysetInfo) (counts : List (ℕ × ℕ))
    → target < 2 ^ 64
    → weight counts ≡ target
    → AscendingFrom 0 counts
    → All (λ e. IsOffered maximum_amount info e.0) counts
    → outputs counts ≡ coins maximum_amount info.amounts_largest_first target
    → Represents target maximum_amount info (listed info counts)
unfolding nominal_total
listed-Represents target maximum_amount info counts small w a o n = (
  omega (arith, sum-expand_rev counts),
  All-expand_rev (IsOffered maximum_amount info) counts o,
  expand_rev-Descending 0 counts a,
  refl,
  a,
  sum-expand_rev counts ∙ w,
  refl,
  length-expand_rev counts ∙ n,
)

-- When `from_target` returns a list for a `u64` target, over a keyset of positive amounts, the
-- amounts sum to the target (in `u64`, and exactly), each is an amount of the keyset that the limit
-- admits, they come largest first, they are the expansion of the count map, whose keys strictly
-- ascend, the fee rate is the keyset's, and there are as many as the greedy choice makes.
pub from_target-Represents :
    (target maximum_amount : ℕ) (info : KeysetInfo) {l : OrderedListOfAmounts}
    → IsPositive info.amounts_largest_first
    → target < 2 ^ 64
    → from_target target maximum_amount info ≡ some (ok l)
    → Represents target maximum_amount info l
from_target-Represents target maximum_amount info {l} positive small h =
    elim (returned target maximum_amount info positive) [
      | listing counts e w a o n ↦
          let same : listed info counts ≡ l = cc in
          subst (Represents target maximum_amount info) same
            (listed-Represents target maximum_amount info counts small w a o n)
      | failing e ↦ absurd (cc)
    ]

exact :
    (target maximum_amount : ℕ) (info : KeysetInfo) {l : OrderedListOfAmounts}
    → IsPositive info.amounts_largest_first
    → from_target target maximum_amount info ≡ some (ok l)
    → sum l.amounts ≡ target
exact target maximum_amount info {l} positive h =
    elim (returned target maximum_amount info positive) [
      | listing counts e w a o n ↦
          let same : listed info counts ≡ l = cc in rw (← same) (sum-expand_rev counts ∙ w)
      | failing e ↦ absurd (cc)
    ]

one-kept : (maximum_amount : ℕ) → is_skipped maximum_amount 1 ≡ false
one-kept maximum_amount = ground arith

-- The amount 1 takes all that remains.
greedy_exhausts :
    (maximum_amount remaining : ℕ) (denominations : List ℕ) (counts : List (ℕ × ℕ))
    → IsPositive denominations
    → (remaining ≡ 0) ⊎ Member 1 denominations
    → (chosen' : List (ℕ × ℕ)) × (greedy maximum_amount remaining denominations counts
        ≡ some (0, chosen'))
greedy_exhausts maximum_amount remaining [] counts positive (inl e) =
    (counts, unfold greedy in rw e refl)
greedy_exhausts maximum_amount remaining [] counts positive (inr m) = elim m [ ]
greedy_exhausts maximum_amount remaining (amount ∷ rest) counts positive h =
    elim (Bool-cases (is_skipped maximum_amount amount)) [
      | inl skip ↦
          let (c, e) =
            greedy_exhausts maximum_amount remaining rest counts positive.1 (later skip h) in
          (c, greedy_skip maximum_amount remaining amount rest counts skip ∙ e)
      | inr keep ↦
          let t = take_amount_lem (suc remaining) remaining amount 0 positive.0 (omega arith) in
          let (c, e) =
            greedy_exhausts maximum_amount t.left rest (record_count amount t.total counts)
              positive.1 (shrunk t.exhausted t.shrinks h) in
          (c, greedy_take maximum_amount remaining amount rest counts keep t.returns ∙ e)
    ]
  where
    later :
        is_skipped maximum_amount amount ≡ true
        → (remaining ≡ 0) ⊎ Member 1 (amount ∷ rest)
        → (remaining ≡ 0) ⊎ Member 1 rest
    later skip (inl z) = inl z
    later skip (inr (inl one)) = absurd (ground arith)
    later skip (inr (inr m)) = inr m

    shrunk :
        {left : ℕ}
        → left < amount
        → left ≤ remaining
        → (remaining ≡ 0) ⊎ Member 1 (amount ∷ rest)
        → (left ≡ 0) ⊎ Member 1 rest
    shrunk lt le (inl z) = inl (omega arith)
    shrunk lt le (inr (inl one)) = inl (omega arith)
    shrunk lt le (inr (inr m)) = inr m

exhausted-finish :
    (target maximum_amount : ℕ) (info : KeysetInfo) (counts : List (ℕ × ℕ))
    → greedy maximum_amount target info.amounts_largest_first [] ≡ some (0, counts)
    → (l : OrderedListOfAmounts) × (from_target target maximum_amount info ≡ some (ok l))
exhausted-finish zero maximum_amount info counts h =
    (listed info [], unfold from_target finish in refl)
exhausted-finish (suc n) maximum_amount info counts h =
    (listed info counts, unfold from_target finish in ground (arith, h))

-- A keyset of positive amounts that has the amount 1 can represent every target, under every limit.
pub from_target_complete :
    (target maximum_amount : ℕ) (info : KeysetInfo)
    → IsPositive info.amounts_largest_first
    → Member 1 info.amounts_largest_first
    → (l : OrderedListOfAmounts) × (from_target target maximum_amount info ≡ some (ok l))
      × (sum l.amounts ≡ target)
from_target_complete target maximum_amount info positive one =
    let (c, g) =
      greedy_exhausts maximum_amount target info.amounts_largest_first [] positive (inr one) in
    let (l, e) = exhausted-finish target maximum_amount info c g in
    (l, e, exact target maximum_amount info positive e)
