-- ===== src/Channel/Commitment.antt =====
-- `CommitmentOutputs::for_balance` on a channel that `ChannelParameters::new` accepts: every balance
-- up to the capacity can be committed, and the split loses nothing.
use cashu_spilman_channels.Prelude.{
  ℕ, ◌+◌, ◌-◌, ◌*◌, ◌^◌, ◌≤◌, ◌<◌, String, ◌≡◌, false, some, List, arith, sum, ok, err, leb, ltb,
  Bool-cases, lt→ltb, Member, inl, inr,
}
use cashu_spilman_channels.Prelude.Runs.{Run-cases}
use cashu_spilman_channels.Amounts.{
  KeysetInfo, OrderedListOfAmounts, InverseFeeResult, from_target, value_after_fees,
  deterministic_value_after_fees, inverse_deterministic_value_after_fees,
}
use cashu_spilman_channels.Amounts.Target.{IsPositive, from_target_complete}
use cashu_spilman_channels.Amounts.Fees.{deterministic_value_after_fees_lem}
use cashu_spilman_channels.Amounts.Inverse.{
  Least, TooLow, inverse_deterministic_value_after_fees-Least,
}
use cashu_spilman_channels.Channel.{
  ChannelParameters, value_after_fees_of, inverse_of, new, new_outputs, outputs_from, for_balance,
  CommitmentOutputs, receiver, sender, balance_exceeds_capacity,
}

-- What `new` has checked.
pub record IsAccepted (params : ChannelParameters) : Type 0 where
  pub after_stage1 : ℕ
  pub max_capacity : ℕ
  pub rate : params.keyset_info.input_fee_ppk < 1000
  pub stage1 :
      deterministic_value_after_fees params.keyset_info params.funding_token_amount
        params.maximum_amount_for_one_output
      ≡ some (ok after_stage1)
  pub stage2 :
      deterministic_value_after_fees params.keyset_info after_stage1
        params.maximum_amount_for_one_output
      ≡ some (ok max_capacity)
  pub fits : params.capacity ≤ max_capacity

pub new-IsAccepted :
    (sender_pubkey receiver_pubkey mint unit : String) (capacity funding expiry setup : ℕ)
    (info : KeysetInfo) (maximum_amount : ℕ) (secret : List ℕ) {params : ChannelParameters}
    → new sender_pubkey receiver_pubkey mint unit capacity funding expiry setup info maximum_amount
        secret
      ≡ some (ok params)
    → IsAccepted params
unfolding new value_after_fees_of
new-IsAccepted sender_pubkey receiver_pubkey mint unit capacity funding expiry setup info
      maximum_amount secret {params} h =
    elim (Bool-cases (ltb 999 info.input_fee_ppk)) [
      | inl high ↦ absurd (ground arith)
      | inr low ↦ elim (Run-cases (deterministic_value_after_fees info funding maximum_amount)) [
        | inl stopped ↦ absurd (ground arith)
        | inr first ↦
            let (v, e) = first in
            elim (Run-cases (deterministic_value_after_fees info v maximum_amount)) [
              | inl stopped ↦ absurd (ground arith)
              | inr second ↦
                  let (w, f) = second in
                  record {
                    after_stage1 = v;
                    max_capacity = w;
                    rate = ground arith;
                    stage1 = ground arith;
                    stage2 = ground arith;
                    fits = ground arith;
                  }
            ]
      ]
    ]

-- A split of the channel's value for a balance of the receiver.
pub record Split (params : ChannelParameters) (fuel receiver_balance after_stage1 : ℕ)
    : Type 0 where
  pub result : CommitmentOutputs
  pub returns : for_balance fuel receiver_balance params ≡ some (ok result)
  pub conserved :
      sum result.receiver_outputs.ordered_amounts.amounts
        + sum result.sender_outputs.ordered_amounts.amounts
      ≡ after_stage1
  pub receiver_covered : receiver_balance ≤ value_after_fees result.receiver_outputs.ordered_amounts
  pub receiver_least :
      TooLow params.keyset_info receiver_balance params.maximum_amount_for_one_output 0
        result.receiver_outputs.amount

-- The pieces of a split, once the amounts have been found.
split_of :
    (params : ChannelParameters) (fuel b v : ℕ) (r : InverseFeeResult)
    (lr ls : OrderedListOfAmounts)
    → b ≤ params.capacity
    → deterministic_value_after_fees params.keyset_info params.funding_token_amount
        params.maximum_amount_for_one_output
      ≡ some (ok v)
    → inverse_deterministic_value_after_fees fuel params.keyset_info b
        params.maximum_amount_for_one_output
      ≡ some (ok r)
    → r.nominal_value ≤ v
    → from_target r.nominal_value params.maximum_amount_for_one_output params.keyset_info
      ≡ some (ok lr)
    → from_target (v - r.nominal_value) params.maximum_amount_for_one_output params.keyset_info
      ≡ some (ok ls)
    → for_balance fuel b params
      ≡ some (
          ok (record {
            receiver_outputs = outputs_from receiver r.nominal_value params lr;
            sender_outputs = outputs_from sender (v - r.nominal_value) params ls;
          }))
unfolding for_balance value_after_fees_of inverse_of new_outputs
split_of params fuel b v r lr ls cap dv inv le er es =
    let c : ltb params.capacity b ≡ false = ground arith in
    let d : ltb v r.nominal_value ≡ false = ground arith in rw (c, dv, inv, d, er, es)

-- The least nominal value that covers the balance is available after stage 1.
available :
    (params : ChannelParameters) (b v w : ℕ) (r : InverseFeeResult)
    → deterministic_value_after_fees params.keyset_info v params.maximum_amount_for_one_output
      ≡ some (ok w)
    → b ≤ w
    → TooLow params.keyset_info b params.maximum_amount_for_one_output 0 r.nominal_value
    → r.nominal_value ≤ v
available params b v w r e le low = elim (Bool-cases (leb r.nominal_value v)) [
  | inl fits ↦ ground arith
  | inr beyond ↦
      let lt : v < r.nominal_value = ground arith in
      absurd (omega (arith, low v w (omega arith) lt e))
]

value-exact :
    (info : KeysetInfo) (n maximum_amount : ℕ) (l : OrderedListOfAmounts) {w : ℕ}
    → from_target n maximum_amount info ≡ some (ok l)
    → deterministic_value_after_fees info n maximum_amount ≡ some (ok w)
    → value_after_fees l ≡ w
unfolding deterministic_value_after_fees
value-exact info n maximum_amount l e h = ground arith

split_lem :
    (params : ChannelParameters) (fuel b : ℕ) (accepted : IsAccepted params)
    → IsPositive params.keyset_info.amounts_largest_first
    → Member 1 params.keyset_info.amounts_largest_first
    → accepted.after_stage1 < 2 ^ 64
    → b ≤ params.capacity
    → Least
        (inverse_deterministic_value_after_fees fuel params.keyset_info b
          params.maximum_amount_for_one_output)
        params.keyset_info
        b
        params.maximum_amount_for_one_output
        0
    → Split params fuel b accepted.after_stage1
split_lem params fuel b accepted positive one small le inv =
    let info = params.keyset_info in
    let m = params.maximum_amount_for_one_output in
    let v = accepted.after_stage1 in
    let n = inv.result.nominal_value in
    let fits =
      available params b v accepted.max_capacity inv.result accepted.stage2
        (omega (arith, accepted.fits)) inv.least in
    let (lr, er, sr) = from_target_complete n m info positive one in
    let (ls, es, ss) = from_target_complete (v - n) m info positive one in
    record {
      result = record {
        receiver_outputs = outputs_from receiver n params lr;
        sender_outputs = outputs_from sender (v - n) params ls;
      };
      returns = split_of params fuel b v inv.result lr ls le accepted.stage1 inv.returns fits er es;
      conserved = omega (arith, sr, ss, fits);
      receiver_covered = omega (arith, value-exact info n m lr er inv.exact, inv.covers);
      receiver_least = inv.least;
    }

-- A channel that `ChannelParameters::new` accepts, over a keyset of positive amounts with the amount 1,
-- and whose funding token is below 2^63 / 10^6, can commit every balance up to its capacity (the search
-- ends within 1000 * balance + 1 rounds): receiver and sender outputs together are exactly the value
-- after stage 1, what the receiver has after stage 2 covers the balance, and no smaller nominal value
-- would cover it.
pub for_balance_total :
    (params : ChannelParameters) (fuel receiver_balance : ℕ) (accepted : IsAccepted params)
    → IsPositive params.keyset_info.amounts_largest_first
    → Member 1 params.keyset_info.amounts_largest_first
    → 1000 * (1000 * params.funding_token_amount) < 2 ^ 63
    → receiver_balance ≤ params.capacity
    → 1000 * receiver_balance < fuel
    → Split params fuel receiver_balance accepted.after_stage1
for_balance_total params fuel b accepted positive one small le enough =
    let info = params.keyset_info in
    let m = params.maximum_amount_for_one_output in
    let first =
      deterministic_value_after_fees_lem info m params.funding_token_amount positive one
        (omega arith) in
    let v : first.value ≡ accepted.after_stage1 = ground (arith, first.returns, accepted.stage1) in
    let second =
      deterministic_value_after_fees_lem info m accepted.after_stage1 positive one
        (omega (arith, first.value_le)) in
    let w : second.value ≡ accepted.max_capacity =
      ground (arith, second.returns, accepted.stage2) in
    let bound : b ≤ params.funding_token_amount =
      omega (arith, first.value_le, second.value_le, accepted.fits) in
    split_lem params fuel b accepted positive one (omega (arith, first.value_le)) le (
      inverse_deterministic_value_after_fees-Least fuel info b m positive one accepted.rate
        (omega arith) enough)

-- For a balance above the capacity `for_balance` returns that error, whatever the channel.
pub for_balance_above_capacity :
    (params : ChannelParameters) (fuel receiver_balance : ℕ)
    → params.capacity < receiver_balance
    → for_balance fuel receiver_balance params
      ≡ some (err (balance_exceeds_capacity receiver_balance params.capacity))
unfolding for_balance
for_balance_above_capacity params fuel receiver_balance h = rw (lt→ltb _ _ h)
