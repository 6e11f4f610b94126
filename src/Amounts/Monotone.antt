-- ===== src/Amounts/Monotone.antt =====
-- One more unit costs the greedy choice at most one more output.
use native.Mathlib.Nat.{le_trans, mul-le-mul_left, mul-le-mul_right, div-add-mod', mod-lt}
use cashu_spilman_channels.Prelude.{
  ℕ, zero, suc, ◌+◌, ◌-◌, ◌*◌, ◌^◌, ◌/◌, ◌%◌, ◌≤◌, ◌<◌, ◌≡◌, inl, inr, false, List, [], ◌∷◌, arith,
  All, Bool-cases, ltb, ◌==◌, if◌then◌else◌,
}
use cashu_spilman_channels.Amounts.{KeysetInfo, is_skipped, div_ceil, u64}
use cashu_spilman_channels.Amounts.Target.{coins_zero}
use cashu_spilman_channels.Amounts.Ceiling.{div_ceil_bounds}
use cashu_spilman_channels.Amounts.Greedy.{coins, coins_skip, coins_take}

next-coins :
    (maximum_amount r amount : ℕ) (rest : List ℕ)
    → 1 ≤ amount
    → is_skipped maximum_amount amount ≡ false
    → ((n : ℕ) → coins maximum_amount rest (n + 1) ≤ coins maximum_amount rest n + 1)
    → coins maximum_amount rest 0 ≡ 0
    → coins maximum_amount (amount ∷ rest) (r + 1) ≤ coins maximum_amount (amount ∷ rest) r + 1
next-coins maximum_amount r amount rest positive keep step zero_coins =
    let e : r % amount + r / amount * amount ≡ r = omega (arith, div-add-mod' r amount) in
    let lt : r % amount < amount = ground (arith, mod-lt r positive) in
    let now = coins_take maximum_amount r amount (r % amount) (r / amount) rest keep lt e in
    elim (Bool-cases (ltb (r % amount + 1) amount)) [
      | inl more ↦ omega (
        arith,
        now,
        coins_take maximum_amount (r + 1) amount (r % amount + 1) (r / amount) rest keep
            (ground arith) (omega (arith, e)),
        step (r % amount),
      )
      | inr full ↦ omega (
        arith,
        now,
        coins_take maximum_amount (r + 1) amount 0 (r / amount + 1) rest keep (omega arith)
            (carry amount (r % amount) (r / amount) e lt (ground arith)),
        zero_coins,
      )
    ]
  where
    carry : (a m q : ℕ) → m + q * a ≡ r → m < a → a ≤ m + 1 → 0 + (q + 1) * a ≡ r + 1
    carry a m q e lt ge = let p : a ≡ m + 1 = omega arith in grind arith

pub coins-step :
    (maximum_amount : ℕ) (denominations : List ℕ) (r : ℕ)
    → All (λ a. 1 ≤ a) denominations
    → coins maximum_amount denominations (r + 1) ≤ coins maximum_amount denominations r + 1
coins-step maximum_amount [] r positive = unfold coins in omega arith
coins-step maximum_amount (amount ∷ rest) r positive =
    elim (Bool-cases (is_skipped maximum_amount amount)) [
      | inl skip ↦ omega (
        arith,
        coins_skip maximum_amount r amount rest skip,
        coins_skip maximum_amount (r + 1) amount rest skip,
        coins-step maximum_amount rest r positive.1,
      )
      | inr keep ↦
          next-coins maximum_amount r amount rest positive.0 keep
            (λ n. coins-step maximum_amount rest n positive.1) (coins_zero maximum_amount rest)
    ]

pub coins-le :
    (maximum_amount : ℕ) (denominations : List ℕ) (r : ℕ)
    → All (λ a. 1 ≤ a) denominations
    → coins maximum_amount denominations r ≤ r
coins-le maximum_amount denominations zero positive =
    omega (arith, coins_zero maximum_amount denominations)
coins-le maximum_amount denominations (suc r) positive =
    let e : suc r ≡ r + 1 = omega arith in
    rw e (
      omega (
        arith,
        coins-step maximum_amount denominations r positive,
        coins-le maximum_amount denominations r positive,
      ))

-- What is left of `n` after the fee for `c` outputs at the rate `ppk`.
unfoldable pub charge : ℕ → ℕ → ℕ → ℕ
charge ppk c n = if ppk == 0 then n else n - div_ceil (u64 (ppk * c)) 1000

charge_mono :
    (ppk c c' n : ℕ)
    → ppk < 1000
    → c' ≤ c + 1
    → 1000 * c < 2 ^ 63
    → charge ppk c n ≤ charge ppk c' (n + 1)
unfolding charge
charge_mono ppk c c' n rate step small =
    let w : ppk * c' ≤ ppk * (c + 1) = mul-le-mul_left ppk step in
    let p : ppk * c' ≤ ppk * c + 999 = omega (arith, w) in
    let q : ppk * c ≤ 999 * c = mul-le-mul_right c (omega arith) in
    let u : u64 (ppk * c) ≡ ppk * c = omega arith in
    let v : u64 (ppk * c') ≡ ppk * c' = omega arith in
    elim (Bool-cases (ppk == 0)) [
      | inl free ↦ rw free (omega arith)
      | inr paid ↦
          rw (paid, u, v) (omega (arith, div_ceil_bounds (ppk * c), div_ceil_bounds (ppk * c')))
    ]

unfoldable pub forward : KeysetInfo → ℕ → ℕ → ℕ
unfolding charge
forward info maximum_amount n =
    charge info.input_fee_ppk (coins maximum_amount info.amounts_largest_first n) n

-- The forward fee calculation is monotone.
pub forward_mono :
    (info : KeysetInfo) (maximum_amount n k : ℕ)
    → All (λ a. 1 ≤ a) info.amounts_largest_first
    → info.input_fee_ppk < 1000
    → 1000 * (n + k) < 2 ^ 63
    → forward info maximum_amount n ≤ forward info maximum_amount (n + k)
forward_mono info maximum_amount n zero positive rate small =
    let e : n + 0 ≡ n = omega arith in rw e (omega arith)
forward_mono info maximum_amount n (suc k) positive rate small =
    let e : n + suc k ≡ n + k + 1 = omega arith in
    rw e (
      le_trans (forward_mono info maximum_amount n k positive rate (omega arith)) (
        unfold forward in
        charge_mono info.input_fee_ppk (coins maximum_amount info.amounts_largest_first (n + k))
          (coins maximum_amount info.amounts_largest_first (n + k + 1)) (n + k) rate
          (coins-step maximum_amount info.amounts_largest_first (n + k) positive)
          (omega (arith, coins-le maximum_amount info.amounts_largest_first (n + k) positive))))
