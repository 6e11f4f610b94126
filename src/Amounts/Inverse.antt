-- ===== src/Amounts/Inverse.antt =====
-- `inverse_deterministic_value_after_fees`: the upward search ends, and finds the least nominal value
-- that covers the target.
use cashu_spilman_channels.Prelude.{
  ℕ, zero, suc, ◌+◌, ◌*◌, ◌^◌, ◌≤◌, ◌<◌, ◌≡◌, refl, ap, ◌∙◌, inl, inr, true, false, Option, some,
  arith, Result, ok, leb, ◌==◌, Bool-cases, Member,
}
use cashu_spilman_channels.Amounts.{
  KeysetInfo, AmountError, InverseFeeResult, deterministic_value_after_fees, inverse_loop,
  inverse_deterministic_value_after_fees, u64,
}
use cashu_spilman_channels.Amounts.Target.{IsPositive}
use cashu_spilman_channels.Amounts.Fees.{Valued, deterministic_value_after_fees_lem}

-- Every nominal value from `low` to below `high` that can be represented at all leaves less than the
-- target after fees.
abbrev pub TooLow : KeysetInfo → ℕ → ℕ → ℕ → ℕ → Type 0
TooLow info target maximum_amount low high =
    (n w : ℕ)
    → low ≤ n
    → n < high
    → deterministic_value_after_fees info n maximum_amount ≡ some (ok w)
    → w < target

-- The search returns the least nominal value that covers the target.
pub record Least (run : Option (Result AmountError InverseFeeResult)) (info : KeysetInfo)
    (target maximum_amount low : ℕ) : Type 0 where
  pub result : InverseFeeResult
  pub returns : run ≡ some (ok result)
  pub exact :
      deterministic_value_after_fees info result.nominal_value maximum_amount
      ≡ some (ok result.actual_balance)
  pub covers : target ≤ result.actual_balance
  pub bounded : low ≤ result.nominal_value
  pub least : TooLow info target maximum_amount low result.nominal_value

stop :
    (fuel : ℕ) (info : KeysetInfo) (target maximum_amount nominal : ℕ) {w : ℕ}
    → deterministic_value_after_fees info nominal maximum_amount ≡ some (ok w)
    → leb target w ≡ true
    → inverse_loop (suc fuel) info target maximum_amount nominal
      ≡ some (ok (record { nominal_value = nominal; actual_balance = w }))
unfolding inverse_loop
stop fuel info target maximum_amount nominal e c = rw (e, c, inverse_loop)

go_on :
    (fuel : ℕ) (info : KeysetInfo) (target maximum_amount nominal : ℕ) {w : ℕ}
    → deterministic_value_after_fees info nominal maximum_amount ≡ some (ok w)
    → leb target w ≡ false
    → nominal + 1 < 2 ^ 64
    → inverse_loop (suc fuel) info target maximum_amount nominal
      ≡ inverse_loop fuel info target maximum_amount (nominal + 1)
go_on fuel info target maximum_amount nominal e c small =
    let next : u64 (nominal + 1) ≡ nominal + 1 = omega arith in
    unfold inverse_loop in
    rw (e, c, inverse_loop) (ap (inverse_loop fuel info target maximum_amount) next)

-- The nominal value just tried was too low, and so are all below it.
TooLow-step :
    (info : KeysetInfo) (target maximum_amount low high w : ℕ)
    → deterministic_value_after_fees info low maximum_amount ≡ some (ok w)
    → w < target
    → TooLow info target maximum_amount (low + 1) high
    → TooLow info target maximum_amount low high
TooLow-step info target maximum_amount low high w e lt above n v ge below h =
    elim (Bool-cases (low == n)) [
      | inl same ↦
          let p : low ≡ n = ground arith in
          let q : deterministic_value_after_fees info low maximum_amount ≡ some (ok v) = rw p h in
          ground arith
      | inr differ ↦ let p : low + 1 ≤ n = ground arith in above n v p below h
    ]

module _ (info : KeysetInfo) (target maximum_amount : ℕ)
    (positive : IsPositive info.amounts_largest_first)
    (one : Member 1 info.amounts_largest_first) where
  inverse_loop_lem :
      (fuel nominal top : ℕ) {w : ℕ}
      → nominal ≤ top
      → top < nominal + fuel
      → top + 1 < 2 ^ 64
      → deterministic_value_after_fees info top maximum_amount ≡ some (ok w)
      → target ≤ w
      → Least
          (inverse_loop fuel info target maximum_amount nominal)
          info
          target
          maximum_amount
          nominal
  inverse_loop_lem zero nominal top le fit small reach c = absurd (omega arith)
  inverse_loop_lem (suc fuel) nominal top {w} le fit small reach c =
      let v =
        deterministic_value_after_fees_lem info maximum_amount nominal positive one (omega arith) in
      elim (Bool-cases (leb target v.value)) [
        | inl enough ↦ record {
          result = record { nominal_value = nominal; actual_balance = v.value };
          returns = stop fuel info target maximum_amount nominal v.returns enough;
          exact = v.returns;
          covers = ground arith;
          bounded = omega arith;
          least = λ n u ge lt h. absurd (omega arith);
        }
        | inr short ↦
            let lt : v.value < target = ground arith in
            let below : nominal < top = beyond nominal top v.returns reach le lt c in
            let r =
              inverse_loop_lem fuel (nominal + 1) top {w = w} (omega arith) (omega arith) small
                reach c in
            record {
              result = r.result;
              returns =
                  go_on fuel info target maximum_amount nominal v.returns short (omega arith)
                  ∙ r.returns;
              exact = r.exact;
              covers = r.covers;
              bounded = omega (arith, r.bounded);
              least =
                  TooLow-step info target maximum_amount nominal r.result.nominal_value v.value
                    v.returns lt r.least;
            }
      ]
    where
      beyond :
          (n t : ℕ) {a b : ℕ}
          → deterministic_value_after_fees info n maximum_amount ≡ some (ok a)
          → deterministic_value_after_fees info t maximum_amount ≡ some (ok b)
          → n ≤ t
          → a < target
          → target ≤ b
          → n < t
      beyond n t {a} e f le lt ge = elim (Bool-cases (n == t)) [
        | inl same ↦
            let p : n ≡ t = ground arith in
            let q : deterministic_value_after_fees info t maximum_amount ≡ some (ok a) =
              rw (← p) e in
            absurd (ground arith)
        | inr differ ↦ ground arith
      ]

-- Whatever the fees, no nominal value below the target covers it.
TooLow-below :
    (info : KeysetInfo) (target maximum_amount : ℕ)
    → IsPositive info.amounts_largest_first
    → Member 1 info.amounts_largest_first
    → target < 2 ^ 64
    → TooLow info target maximum_amount 0 target
TooLow-below info target maximum_amount positive one small n w ge lt h =
    let v = deterministic_value_after_fees_lem info maximum_amount n positive one (omega arith) in
    let same : v.value ≡ w = ground (arith, v.returns) in omega (arith, v.value_le)

TooLow-join :
    (info : KeysetInfo) (target maximum_amount middle high : ℕ)
    → TooLow info target maximum_amount 0 middle
    → TooLow info target maximum_amount middle high
    → TooLow info target maximum_amount 0 high
TooLow-join info target maximum_amount middle high a b n w ge lt h =
    elim (Bool-cases (leb middle n)) [
      | inl le ↦ b n w (ground arith) lt h
      | inr gt ↦ a n w ge (ground arith) h
    ]

-- With a fee rate below 1000 the search has reached the target at 1000 times the target.
pub reached :
    (info : KeysetInfo) (target maximum_amount : ℕ)
    → IsPositive info.amounts_largest_first
    → Member 1 info.amounts_largest_first
    → info.input_fee_ppk < 1000
    → 1000 * (1000 * target) < 2 ^ 64
    → (w : ℕ) × (deterministic_value_after_fees info (1000 * target) maximum_amount ≡ some (ok w))
      × (target ≤ w)
reached info target maximum_amount positive one rate small =
    let v =
      deterministic_value_after_fees_lem info maximum_amount (1000 * target) positive one
        (omega arith) in
    (v.value, v.returns, omega (arith, v.value_ge rate small))

searched :
    (fuel : ℕ) (info : KeysetInfo) (target maximum_amount : ℕ)
    → IsPositive info.amounts_largest_first
    → Member 1 info.amounts_largest_first
    → info.input_fee_ppk < 1000
    → 1000 * (1000 * target) < 2 ^ 64
    → 1000 * target < fuel
    → Least (inverse_loop fuel info target maximum_amount target) info target maximum_amount 0
searched fuel info target maximum_amount positive one rate small enough =
    let (w, e, c) = reached info target maximum_amount positive one rate small in
    let r =
      inverse_loop_lem info target maximum_amount positive one fuel target (1000 * target) {w = w}
        (omega arith) (omega arith) (omega arith) e c in
    record {
      result = r.result;
      returns = r.returns;
      exact = r.exact;
      covers = r.covers;
      bounded = omega arith;
      least =
          TooLow-join info target maximum_amount target r.result.nominal_value
            (TooLow-below info target maximum_amount positive one (omega arith)) r.least;
    }

-- For a keyset of positive amounts that has the amount 1, a fee rate below 1000 and a target for which
-- 1000000 * target fits a `u64`, the inverse returns (within 1000 * target + 1 rounds): the actual
-- balance is the forward calculation of the nominal value and covers the target, and every smaller
-- nominal value leaves less than the target.
pub inverse_deterministic_value_after_fees-Least :
    (fuel : ℕ) (info : KeysetInfo) (target maximum_amount : ℕ)
    → IsPositive info.amounts_largest_first
    → Member 1 info.amounts_largest_first
    → info.input_fee_ppk < 1000
    → 1000 * (1000 * target) < 2 ^ 64
    → 1000 * target < fuel
    → Least
        (inverse_deterministic_value_after_fees fuel info target maximum_amount)
        info
        target
        maximum_amount
        0
unfolding inverse_deterministic_value_after_fees
inverse_deterministic_value_after_fees-Least fuel info target maximum_amount positive one rate small
      enough =
    let v =
      deterministic_value_after_fees_lem info maximum_amount target positive one (omega arith) in
    elim (Bool-cases (target == 0)) [
      | inl zero_target ↦
          let e : target ≡ 0 = ground arith in
          record {
            result = record { nominal_value = 0; actual_balance = 0 };
            returns = rw zero_target;
            exact = zero-exact e v;
            covers = omega arith;
            bounded = omega arith;
            least = λ n w ge lt h. absurd (omega arith);
          }
      | inr positive_target ↦ elim (Bool-cases (info.input_fee_ppk == 0)) [
        | inl free ↦
            let e : v.value ≡ target = v.free (ground arith) in
            record {
              result = record { nominal_value = target; actual_balance = target };
              returns = rw (positive_target, free);
              exact = v.returns ∙ rw e refl;
              covers = omega arith;
              bounded = omega arith;
              least = TooLow-below info target maximum_amount positive one (omega arith);
            }
        | inr paid ↦
            let r = searched fuel info target maximum_amount positive one rate small enough in
            record {
              result = r.result;
              returns = rw (positive_target, paid) r.returns;
              exact = r.exact;
              covers = r.covers;
              bounded = r.bounded;
              least = r.least;
            }
      ]
    ]
  where
    zero-exact :
        target ≡ 0
        → Valued info maximum_amount target
        → deterministic_value_after_fees info 0 maximum_amount ≡ some (ok 0)
    zero-exact e v =
        let z : v.value ≡ 0 = omega (arith, v.value_le) in
        let p : deterministic_value_after_fees info target maximum_amount ≡ some (ok 0) =
          v.returns ∙ rw z refl in
        rw e at p
