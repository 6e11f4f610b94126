-- ===== src/Channel/Funding.antt =====
-- `get_minimum_funding_token_amount` is exact: it is the least funding token that
-- `ChannelParameters::new` accepts for the capacity.
use native.Mathlib.Nat.{le_trans}
use cashu_spilman_channels.Prelude.{
  ℕ, ◌+◌, ◌-◌, ◌*◌, ◌^◌, ◌≤◌, ◌<◌, String, ◌≡◌, subst, false, some, List, arith, ok, leb, ltb,
  Bool-cases, Member, inl, inr,
}
use cashu_spilman_channels.Prelude.Runs.{Run}
use cashu_spilman_channels.Amounts.{
  KeysetInfo, AmountError, InverseFeeResult, deterministic_value_after_fees,
  inverse_deterministic_value_after_fees,
}
use cashu_spilman_channels.Amounts.Target.{IsPositive}
use cashu_spilman_channels.Amounts.Monotone.{forward, forward_mono}
use cashu_spilman_channels.Amounts.Fees.{deterministic_value_after_fees_lem}
use cashu_spilman_channels.Amounts.Inverse.{
  Least, TooLow, reached, inverse_deterministic_value_after_fees-Least,
}
use cashu_spilman_channels.Channel.{
  ChannelParameters, ChannelError, value_after_fees_of, inverse_of, new, trim_end_slashes, ordinary,
  get_minimum_funding_token_amount,
}
use cashu_spilman_channels.Channel.Commitment.{IsAccepted}

-- The forward calculation covers the capacity twice over.
record Covers (info : KeysetInfo) (maximum_amount funding capacity : ℕ) : Type 0 where
  after_stage1 : ℕ
  max_capacity : ℕ
  stage1 : deterministic_value_after_fees info funding maximum_amount ≡ some (ok after_stage1)
  stage2 : deterministic_value_after_fees info after_stage1 maximum_amount ≡ some (ok max_capacity)
  fits : capacity ≤ max_capacity

new-Covers :
    (sender_pubkey receiver_pubkey mint unit : String) (capacity funding expiry setup : ℕ)
    (info : KeysetInfo) (maximum_amount : ℕ) (secret : List ℕ)
    → info.input_fee_ppk < 1000
    → Covers info maximum_amount funding capacity
    → (params : ChannelParameters) × (new sender_pubkey receiver_pubkey mint unit capacity funding
          expiry setup info maximum_amount secret
        ≡ some (ok params))
unfolding new value_after_fees_of
new-Covers sender_pubkey receiver_pubkey mint unit capacity funding expiry setup info maximum_amount
      secret rate c =
    let low : ltb 999 info.input_fee_ppk ≡ false = ground arith in
    let fits : ltb c.max_capacity capacity ≡ false = ground (arith, c.fits) in
    (
      record {
        commitment_mode = ordinary;
        sender_pubkey = sender_pubkey;
        receiver_pubkey = receiver_pubkey;
        mint = trim_end_slashes mint;
        unit = unit;
        capacity = capacity;
        funding_token_amount = funding;
        expiry_timestamp = expiry;
        setup_timestamp = setup;
        keyset_info = info;
        maximum_amount_for_one_output = maximum_amount;
        channel_secret = secret;
      },
      rw (low, c.stage1, c.stage2, fits),
    )

module _ (info : KeysetInfo) (maximum_amount : ℕ) (positive : IsPositive info.amounts_largest_first)
    (one : Member 1 info.amounts_largest_first) (rate : info.input_fee_ppk < 1000) where
  -- The least nominal value is at most 1000 times the target.
  Least-le :
      (target n : ℕ)
      → 1000 * (1000 * target) < 2 ^ 63
      → TooLow info target maximum_amount 0 n
      → n ≤ 1000 * target
  Least-le target n small low = elim (Bool-cases (leb n (1000 * target))) [
    | inl le ↦ ground arith
    | inr gt ↦
        let (w, e, c) = reached info target maximum_amount positive one rate (omega arith) in
        let below : 1000 * target < n = ground arith in
        absurd (omega (arith, low (1000 * target) w (omega arith) below e))
  ]

  -- A nominal value whose value after fees covers the target is no less than the least one.
  Least-covers :
      (target n m : ℕ) {w : ℕ}
      → TooLow info target maximum_amount 0 n
      → deterministic_value_after_fees info m maximum_amount ≡ some (ok w)
      → target ≤ w
      → n ≤ m
  Least-covers target n m {w} low e c = elim (Bool-cases (leb n m)) [
    | inl le ↦ ground arith
    | inr gt ↦ let lt : m < n = ground arith in absurd (omega (arith, low m w (omega arith) lt e))
  ]

  -- The forward calculation at two nominal values, the first no larger.
  Valued-mono :
      (n m : ℕ) {v w : ℕ}
      → n ≤ m
      → 1000 * m < 2 ^ 63
      → deterministic_value_after_fees info n maximum_amount ≡ some (ok v)
      → deterministic_value_after_fees info m maximum_amount ≡ some (ok w)
      → v ≤ w
  Valued-mono n m {v} {w} le small e f =
      let a = deterministic_value_after_fees_lem info maximum_amount n positive one (omega arith) in
      let b = deterministic_value_after_fees_lem info maximum_amount m positive one (omega arith) in
      let av : a.value ≡ v = ground (arith, a.returns) in
      let bw : b.value ≡ w = ground (arith, b.returns) in
      let k : n + (m - n) ≡ m = omega arith in
      let mono : forward info maximum_amount n ≤ forward info maximum_amount m =
        subst (λ x. forward info maximum_amount n ≤ forward info maximum_amount x) k
          (forward_mono info maximum_amount n (m - n) positive rate (omega arith)) in
      omega (arith, a.cost, b.cost, mono)

-- The funding token amount is enough for the capacity, and no smaller one is.
pub record Minimum (run : Run ChannelError ℕ) (info : KeysetInfo) (maximum_amount capacity : ℕ)
    : Type 0 where
  pub amount : ℕ
  pub returns : run ≡ some (ok amount)
  pub enough :
      (sender_pubkey receiver_pubkey mint unit : String) (expiry setup : ℕ) (secret : List ℕ)
      → (params : ChannelParameters) × (new sender_pubkey receiver_pubkey mint unit capacity amount
            expiry setup info maximum_amount secret
          ≡ some (ok params))
  pub least :
      (params : ChannelParameters)
      → IsAccepted params
      → params.keyset_info ≡ info
      → params.maximum_amount_for_one_output ≡ maximum_amount
      → params.capacity ≡ capacity
      → amount ≤ params.funding_token_amount

module _ (info : KeysetInfo) (maximum_amount : ℕ) (positive : IsPositive info.amounts_largest_first)
    (one : Member 1 info.amounts_largest_first) (rate : info.input_fee_ppk < 1000) where
  -- What the two inverses give covers the capacity, since the forward calculation is monotone.
  double-Covers :
      (fuel fuel' capacity : ℕ) {first second : Run AmountError InverseFeeResult}
      (a : Least first info capacity maximum_amount 0)
      (b : Least second info a.result.nominal_value maximum_amount 0)
      → 1000 * (1000 * a.result.nominal_value) < 2 ^ 63
      → Covers info maximum_amount b.result.nominal_value capacity
  double-Covers fuel fuel' capacity a b small =
      let le =
        Least-le info maximum_amount positive one rate a.result.nominal_value b.result.nominal_value
          small b.least in
      let f =
        deterministic_value_after_fees_lem info maximum_amount b.result.nominal_value positive one
          (omega arith) in
      let same : f.value ≡ b.result.actual_balance = ground (arith, f.returns, b.exact) in
      let g =
        deterministic_value_after_fees_lem info maximum_amount b.result.actual_balance positive one
          (omega (arith, f.value_le)) in
      record {
        after_stage1 = b.result.actual_balance;
        max_capacity = g.value;
        stage1 = b.exact;
        stage2 = g.returns;
        fits = le_trans a.covers (
            Valued-mono info maximum_amount positive one rate a.result.nominal_value
              b.result.actual_balance b.covers (omega (arith, f.value_le)) a.exact g.returns);
      }

  double-Least :
      (capacity : ℕ) {first second : Run AmountError InverseFeeResult}
      (a : Least first info capacity maximum_amount 0)
      (b : Least second info a.result.nominal_value maximum_amount 0) (params : ChannelParameters)
      → IsAccepted params
      → params.keyset_info ≡ info
      → params.maximum_amount_for_one_output ≡ maximum_amount
      → params.capacity ≡ capacity
      → b.result.nominal_value ≤ params.funding_token_amount
  double-Least capacity a b params accepted same_info same_maximum same_capacity =
      let fits = accepted.fits in
      let s1 : deterministic_value_after_fees info params.funding_token_amount maximum_amount
          ≡ some (ok accepted.after_stage1) =
        rw (← same_info, ← same_maximum) accepted.stage1 in
      let s2 : deterministic_value_after_fees info accepted.after_stage1 maximum_amount
          ≡ some (ok accepted.max_capacity) =
        rw (← same_info, ← same_maximum) accepted.stage2 in
      Least-covers info maximum_amount positive one rate a.result.nominal_value
        b.result.nominal_value params.funding_token_amount b.least s1
        (Least-covers info maximum_amount positive one rate capacity a.result.nominal_value
          accepted.after_stage1 a.least s2 (omega (arith, fits, same_capacity)))

minimum-eq :
    (fuel capacity : ℕ) (info : KeysetInfo) (maximum_amount : ℕ) (r s : InverseFeeResult)
    → inverse_deterministic_value_after_fees fuel info capacity maximum_amount ≡ some (ok r)
    → inverse_deterministic_value_after_fees fuel info r.nominal_value maximum_amount ≡ some (ok s)
    → get_minimum_funding_token_amount fuel capacity info maximum_amount ≡ some (ok s.nominal_value)
unfolding get_minimum_funding_token_amount inverse_of
minimum-eq fuel capacity info maximum_amount r s e f = rw (e, f)

-- Over a keyset of positive amounts with the amount 1, a fee rate below 1000 and a capacity below
-- 2^63 / 10^9, `get_minimum_funding_token_amount` returns (with more than 10^6 * capacity rounds): with
-- that funding token `ChannelParameters::new` accepts the capacity, whatever the other parameters, and
-- every accepted channel of that keyset, limit and capacity has a funding token at least as large.
pub get_minimum_funding_token_amount-Minimum :
    (fuel capacity : ℕ) (info : KeysetInfo) (maximum_amount : ℕ)
    → IsPositive info.amounts_largest_first
    → Member 1 info.amounts_largest_first
    → info.input_fee_ppk < 1000
    → 1000 * (1000 * (1000 * capacity)) < 2 ^ 63
    → 1000 * (1000 * capacity) < fuel
    → Minimum
        (get_minimum_funding_token_amount fuel capacity info maximum_amount)
        info
        maximum_amount
        capacity
get_minimum_funding_token_amount-Minimum fuel capacity info maximum_amount positive one rate small
      enough =
    let a =
      inverse_deterministic_value_after_fees-Least fuel info capacity maximum_amount positive one
        rate (omega arith) (omega arith) in
    let le =
      Least-le info maximum_amount positive one rate capacity a.result.nominal_value (omega arith)
        a.least in
    let b =
      inverse_deterministic_value_after_fees-Least fuel info a.result.nominal_value maximum_amount
        positive one rate (omega arith) (omega arith) in
    record {
      amount = b.result.nominal_value;
      returns = minimum-eq fuel capacity info maximum_amount a.result b.result a.returns b.returns;
      enough = λ sender_pubkey receiver_pubkey mint unit expiry setup secret.
          new-Covers sender_pubkey receiver_pubkey mint unit capacity b.result.nominal_value expiry
            setup info maximum_amount secret rate
            (double-Covers info maximum_amount positive one rate fuel fuel capacity a b
              (omega arith));
      least = double-Least info maximum_amount positive one rate capacity a b;
    }
