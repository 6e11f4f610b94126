-- ===== src/Examples/Keysets.antt =====
-- A keyset with the amounts 1, 2, 4 and 8, and channels over it.
use cashu_spilman_channels.Prelude.{
  ℕ, none, some, [], ◌∷◌, ok, err, ◌≡◌, ◌⊎◌, refl, inl, inr, arith, sum,
}
use cashu_spilman_channels.Amounts.{
  KeysetInfo, OrderedListOfAmounts, take_amount, unrepresentable, from_target, value_after_fees,
  inverse_deterministic_value_after_fees, deterministic_value_after_fees,
}
use cashu_spilman_channels.Amounts.Target.{
  Represents, IsPositive, from_target_total, from_target-Represents, from_target_complete,
}
use cashu_spilman_channels.Amounts.Inverse.{Least, inverse_deterministic_value_after_fees-Least}
use cashu_spilman_channels.Amounts.Divergence.{Enters, from_target_zero_amount}
use cashu_spilman_channels.Channel.{ChannelParameters, ordinary, get_minimum_funding_token_amount}
use cashu_spilman_channels.Channel.Commitment.{IsAccepted, Split, for_balance_total}
use cashu_spilman_channels.Channel.Funding.{Minimum, get_minimum_funding_token_amount-Minimum}

abbrev small : KeysetInfo
small = record {
  keyset_id = "00a1";
  unit = "sat";
  active_keys = (1, "k1") ∷ (2, "k2") ∷ (4, "k4") ∷ (8, "k8") ∷ [];
  amounts_largest_first = 8 ∷ 4 ∷ 2 ∷ 1 ∷ [];
  input_fee_ppk = 400;
  final_expiry = none;
}

small-IsPositive : IsPositive small.amounts_largest_first
small-IsPositive = (omega arith, (omega arith, (omega arith, (omega arith, tt))))

abbrev thirteen : OrderedListOfAmounts
thirteen = record {
  amounts = 8 ∷ 4 ∷ 1 ∷ [];
  count_by_amount = (1, 1) ∷ (4, 1) ∷ (8, 1) ∷ [];
  input_fee_ppk = 400;
}

thirteen_run : from_target 13 0 small ≡ some (ok thirteen)
unfolding from_target
thirteen_run = refl

from_target_total_example :
    ((l : OrderedListOfAmounts) × (from_target 13 4 small ≡ some (ok l)))
    ⊎ (from_target 13 4 small ≡ some (err (unrepresentable 13 4)))
from_target_total_example = from_target_total 13 4 small small-IsPositive

from_target-Represents_example : Represents 13 0 small thirteen
from_target-Represents_example =
    from_target-Represents 13 0 small small-IsPositive (omega arith) thirteen_run

from_target_complete_example :
    (l : OrderedListOfAmounts) × (from_target 29 0 small ≡ some (ok l)) × (sum l.amounts ≡ 29)
from_target_complete_example =
    from_target_complete 29 0 small small-IsPositive (inr (inr (inr (inl refl))))

-- Three outputs at 400 ppk cost 2.
thirteen_value : value_after_fees thirteen ≡ 11
unfolding value_after_fees
thirteen_value = refl

inverse_deterministic_value_after_fees-Least_example :
    Least (inverse_deterministic_value_after_fees 12000 small 11 0) small 11 0 0
inverse_deterministic_value_after_fees-Least_example =
    inverse_deterministic_value_after_fees-Least 12000 small 11 0 small-IsPositive
      (inr (inr (inr (inl refl)))) (omega arith) (omega arith) (omega arith)

-- The same keyset with a key for the amount 0.
abbrev with_zero : KeysetInfo
with_zero = record small {
  active_keys = (0, "k0") ∷ small.active_keys;
  amounts_largest_first = 8 ∷ 4 ∷ 2 ∷ 1 ∷ 0 ∷ [];
}

from_target_zero_amount_example :
    ((r : ℕ) × Enters 0 13 with_zero.amounts_largest_first r 0
      × ((fuel : ℕ) → take_amount fuel r 0 0 ≡ none))
    × (from_target 13 0 with_zero ≡ none)
from_target_zero_amount_example =
    from_target_zero_amount 13 0 with_zero (omega arith) (inr (inr (inr (inr (inl refl)))))

-- A channel of capacity 9: 15 leaves 13 after the first stage and 11 after the second.
abbrev nine : ChannelParameters
nine = record {
  commitment_mode = ordinary;
  sender_pubkey = "alice";
  receiver_pubkey = "charlie";
  mint = "https://mint";
  unit = "sat";
  capacity = 9;
  funding_token_amount = 15;
  expiry_timestamp = 2000;
  setup_timestamp = 1000;
  keyset_info = small;
  maximum_amount_for_one_output = 0;
  channel_secret = [];
}

nine-IsAccepted : IsAccepted nine
unfolding deterministic_value_after_fees
nine-IsAccepted = record {
  after_stage1 = 13;
  max_capacity = 11;
  rate = omega arith;
  stage1 = refl;
  stage2 = refl;
  fits = omega arith;
}

for_balance_total_example : Split nine 10000 9 nine-IsAccepted.after_stage1
for_balance_total_example =
    for_balance_total nine 10000 9 nine-IsAccepted small-IsPositive (inr (inr (inr (inl refl))))
      (omega arith) (omega arith) (omega arith)

get_minimum_funding_token_amount-Minimum_example :
    Minimum (get_minimum_funding_token_amount 10000000 9 small 0) small 0 9
get_minimum_funding_token_amount-Minimum_example =
    get_minimum_funding_token_amount-Minimum 10000000 9 small 0 small-IsPositive
      (inr (inr (inr (inl refl)))) (omega arith) (omega arith) (omega arith)
