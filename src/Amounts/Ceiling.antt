-- ===== src/Amounts/Ceiling.antt =====
-- `u64::div_ceil`.
use native.Mathlib.Nat.{div-add-mod', mod-lt}
use cashu_spilman_channels.Prelude.{ℕ, ◌+◌, ◌*◌, ◌%◌, ◌≤◌, ◌<◌, arith, ltb, Bool-cases, inl, inr}
use cashu_spilman_channels.Amounts.{div_ceil}

-- `div_ceil` is the ceiling of the quotient.
pub div_ceil_bounds : (n : ℕ) → (n ≤ div_ceil n 1000 * 1000) × (div_ceil n 1000 * 1000 < n + 1000)
unfolding div_ceil
div_ceil_bounds n = ground arith

-- For any positive divisor.
pub div_ceil_least : (n d : ℕ) → 1 ≤ d → (n ≤ div_ceil n d * d) × (div_ceil n d * d < n + d)
unfolding div_ceil
div_ceil_least n d h =
    let split = div-add-mod' n d in
    let below = mod-lt n h in
    elim (Bool-cases (ltb 0 (n % d))) [
      | inl up ↦ rw up (grind (arith, split, below))
      | inr exact ↦ rw exact (grind (arith, split, below))
    ]
