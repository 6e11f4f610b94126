-- ===== src/Channel/Committed.antt =====
-- What a commitment of `CommitmentOutputs::for_balance` consists of, whenever it returns one.
use cashu_spilman_channels.Prelude.{ℕ, ◌-◌, ◌≤◌, ◌≡◌, some, arith, ok, subst, ltb}
use cashu_spilman_channels.Prelude.Runs.{>>=-ok, map_error}
use cashu_spilman_channels.Amounts.{OrderedListOfAmounts, InverseFeeResult, from_target}
use cashu_spilman_channels.Channel.{
  ChannelParameters, CommitmentOutputs, for_balance, get_value_after_stage1, inverse_of,
  new_outputs, outputs_from, OutputContext, sender, receiver, amounts, DeterministicOutputs,
  bail_if, balance_exceeds_capacity, nominal_exceeds_available,
}

-- The outputs of one side.
pub record IsListed (params : ChannelParameters) (context : OutputContext) (amount : ℕ)
    (outputs : DeterministicOutputs) : Type 0 where
  pub listed : OrderedListOfAmounts
  pub from :
      from_target amount params.maximum_amount_for_one_output params.keyset_info ≡ some (ok listed)
  pub same : outputs ≡ outputs_from context amount params listed

pub record IsCommitment (params : ChannelParameters) (fuel balance : ℕ) (c : CommitmentOutputs)
    : Type 0 where
  pub within : balance ≤ params.capacity
  pub after_stage1 : ℕ
  pub stage1 : get_value_after_stage1 params ≡ some (ok after_stage1)
  pub inverse : InverseFeeResult
  pub found :
      inverse_of fuel params.keyset_info balance params.maximum_amount_for_one_output
      ≡ some (ok inverse)
  pub fits : inverse.nominal_value ≤ after_stage1
  pub receiver_side : IsListed params receiver inverse.nominal_value c.receiver_outputs
  pub sender_side : IsListed params sender (after_stage1 - inverse.nominal_value) c.sender_outputs

pub new_outputs-IsListed :
    (context : OutputContext) (amount : ℕ) (params : ChannelParameters) {o : DeterministicOutputs}
    → new_outputs context amount params ≡ some (ok o)
    → IsListed params context amount o
unfolding new_outputs
new_outputs-IsListed context amount params {o} h =
    let m = params.maximum_amount_for_one_output in
    let (l, e, rest) = >>=-ok (map_error amounts (from_target amount m params.keyset_info)) _ h in
    record { listed = l; from = ground arith; same = ground arith }

pub for_balance-IsCommitment :
    (fuel balance : ℕ) (params : ChannelParameters) {c : CommitmentOutputs}
    → for_balance fuel balance params ≡ some (ok c)
    → IsCommitment params fuel balance c
unfolding for_balance
for_balance-IsCommitment fuel balance params {c} h =
    let (u, cap, after_cap) =
      >>=-ok
        (bail_if (ltb params.capacity balance) (balance_exceeds_capacity balance params.capacity)) _
        h in
    let (v, stage1, after_stage1) = >>=-ok (get_value_after_stage1 params) _ after_cap in
    let (r, found, after_found) =
      >>=-ok (inverse_of fuel params.keyset_info balance params.maximum_amount_for_one_output) _
        after_stage1 in
    let (w, fits, after_fits) =
      >>=-ok (bail_if (ltb v r.nominal_value) (nominal_exceeds_available balance r.nominal_value v))
        _ after_found in
    let (charlie, receiver_listed, after_charlie) =
      >>=-ok (new_outputs receiver r.nominal_value params) _ after_fits in
    let (alice, sender_listed, made) =
      >>=-ok (new_outputs sender (v - r.nominal_value) params) _ after_charlie in
    let c≡ : record { receiver_outputs = charlie; sender_outputs = alice } ≡ c =
      ground (arith, made) in
    record {
      within = ground (arith, cap);
      after_stage1 = v;
      stage1 = stage1;
      inverse = r;
      found = found;
      fits = ground (arith, fits);
      receiver_side =
          subst
            (λ (x : CommitmentOutputs). IsListed params receiver r.nominal_value x.receiver_outputs)
            c≡ (new_outputs-IsListed receiver r.nominal_value params receiver_listed);
      sender_side =
          subst
            (λ (x : CommitmentOutputs).
              IsListed params sender (v - r.nominal_value) x.sender_outputs)
            c≡ (new_outputs-IsListed sender (v - r.nominal_value) params sender_listed);
    }
