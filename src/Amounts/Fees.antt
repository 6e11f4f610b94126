-- ===== src/Amounts/Fees.antt =====
-- `value_after_fees` and `deterministic_value_after_fees`: the fee is the exact ceiling.
use cashu_spilman_channels.Prelude.{
  ℕ, ◌+◌, ◌-◌, ◌*◌, ◌^◌, ◌≤◌, ◌<◌, ◌≡◌, refl, subst, ◌∙◌, inl, inr, some, arith, length, sum,
  length-le-sum, All, All-at, All-map, ok, ◌==◌, Bool-cases, Member,
}
use cashu_spilman_channels.Amounts.{
  KeysetInfo, OrderedListOfAmounts, div_ceil, nominal_total, value_after_fees,
  deterministic_value_after_fees, u64,
}
use cashu_spilman_channels.Amounts.Ceiling.{div_ceil_bounds}
use cashu_spilman_channels.Amounts.Greedy.{coins}
use cashu_spilman_channels.Amounts.Monotone.{charge, forward}
use cashu_spilman_channels.Amounts.Target.{
  IsPositive, IsOffered, from_target_complete, from_target-Represents,
}

-- The fee that the spending of the listed outputs costs: the ceiling of ppk * outputs / 1000.
pub IsFee : ℕ → OrderedListOfAmounts → Type 0
IsFee fee l =
    (l.input_fee_ppk * length l.amounts ≤ fee * 1000)
    × (fee * 1000 < l.input_fee_ppk * length l.amounts + 1000)

-- As long as ppk * outputs fits a `u64`, the value after fees is the total less the ceiling of
-- ppk * outputs / 1000, and 0 where the fee is larger; without a fee rate nothing is taken off.
pub value_after_fees_lem :
    (l : OrderedListOfAmounts)
    → l.input_fee_ppk * length l.amounts < 2 ^ 64
    → (fee : ℕ) × IsFee fee l × (value_after_fees l ≡ nominal_total l - fee)
unfolding value_after_fees IsFee
value_after_fees_lem l small = elim (Bool-cases (l.input_fee_ppk == 0)) [
  | inl free ↦ let e : l.input_fee_ppk ≡ 0 = ground arith in (0, free_fee e, rw free (omega arith))
  | inr paid ↦
      let n = l.input_fee_ppk * length l.amounts in
      let same : u64 n ≡ n = omega arith in
      (
        div_ceil n 1000,
        (omega (arith, div_ceil_bounds n), omega (arith, div_ceil_bounds n)),
        rw (paid, same),
      )
]
  where
    free_fee :
        l.input_fee_ppk ≡ 0
        → (l.input_fee_ppk * length l.amounts ≤ 0 * 1000)
          × (0 * 1000 < l.input_fee_ppk * length l.amounts + 1000)
    free_fee e = (grind arith, grind arith)

pub value_after_fees-le : (l : OrderedListOfAmounts) → value_after_fees l ≤ nominal_total l
unfolding value_after_fees
value_after_fees-le l = ground arith

value_after_fees_free :
    (l : OrderedListOfAmounts) → l.input_fee_ppk ≡ 0 → value_after_fees l ≡ nominal_total l
unfolding value_after_fees
value_after_fees_free l e = ground arith

-- What is lost to fees is less than the number of outputs allows at a rate below 1000.
pub value_after_fees-ge :
    (l : OrderedListOfAmounts)
    → l.input_fee_ppk < 1000
    → length l.amounts ≤ nominal_total l
    → 1000 * length l.amounts < 2 ^ 64
    → nominal_total l ≤ value_after_fees l * 1000 + 999
value_after_fees-ge l rate few small =
    let n : l.input_fee_ppk * length l.amounts ≤ 999 * length l.amounts = grind arith in
    let (fee, f, e) = value_after_fees_lem l (omega (arith, n)) in
    unfold IsFee in omega (arith, n, f, e)

value_after_fees-charge :
    (l : OrderedListOfAmounts) (n c ppk : ℕ)
    → nominal_total l ≡ n
    → length l.amounts ≡ c
    → l.input_fee_ppk ≡ ppk
    → value_after_fees l ≡ charge ppk c n
value_after_fees-charge l n c ppk t k p =
    subst (λ x. value_after_fees l ≡ charge x c n) p
      (subst (λ x. value_after_fees l ≡ charge l.input_fee_ppk x n) k
        (subst (λ x. value_after_fees l ≡ charge l.input_fee_ppk (length l.amounts) x) t
          (unfold value_after_fees charge in refl)))

one-IsOffered-length :
    (maximum_amount : ℕ) (info : KeysetInfo) (l : OrderedListOfAmounts)
    → IsPositive info.amounts_largest_first
    → All (IsOffered maximum_amount info) l.amounts
    → length l.amounts ≤ sum l.amounts
one-IsOffered-length maximum_amount info l positive offered = length-le-sum l.amounts (
    All-map (IsOffered maximum_amount info) (λ a. 1 ≤ a) l.amounts
      (λ a o. All-at (λ x. 1 ≤ x) info.amounts_largest_first a o.0 positive) offered)

-- What the forward fee calculation gives at a nominal value.
pub record Valued (info : KeysetInfo) (maximum_amount nominal : ℕ) : Type 0 where
  pub value : ℕ
  pub returns : deterministic_value_after_fees info nominal maximum_amount ≡ some (ok value)
  pub value_le : value ≤ nominal
  pub value_ge : info.input_fee_ppk < 1000 → 1000 * nominal < 2 ^ 64 → nominal ≤ value * 1000 + 999
  pub cost : value ≡ forward info maximum_amount nominal
  pub free : info.input_fee_ppk ≡ 0 → value ≡ nominal

pub deterministic_value_after_fees_lem :
    (info : KeysetInfo) (maximum_amount nominal : ℕ)
    → IsPositive info.amounts_largest_first
    → Member 1 info.amounts_largest_first
    → nominal < 2 ^ 64
    → Valued info maximum_amount nominal
deterministic_value_after_fees_lem info maximum_amount nominal positive one small =
    let (l, e, s) = from_target_complete nominal maximum_amount info positive one in
    let r = from_target-Represents nominal maximum_amount info positive small e in
    let few = one-IsOffered-length maximum_amount info l positive r.1 in
    record {
      value = value_after_fees l;
      returns = unfold deterministic_value_after_fees in rw e;
      value_le = omega (arith, value_after_fees-le l, r.0);
      value_ge = λ rate fits. omega (
        arith,
        value_after_fees-ge l (omega (arith, r.6)) (omega (arith, r.0, few, s))
            (omega (arith, few, s)),
        r.0,
      );
      cost =
          unfold forward in
          value_after_fees-charge l nominal
            (coins maximum_amount info.amounts_largest_first nominal) info.input_fee_ppk r.0 r.7
            r.6;
      free = λ e. value_after_fees_free l (r.6 ∙ e) ∙ r.0;
    }
