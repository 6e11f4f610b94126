-- ===== src/Channel.antt =====
-- Channel parameters and the split of a channel's value into commitment outputs:
-- crates/cdk-spilman/src/params.rs and crates/cdk-spilman/src/deterministic.rs.
-- A public key is its text, a channel secret its 32 bytes.
pub mod Commitment
pub mod Committed
pub mod Funding
pub mod Parse
pub mod Parsed
pub mod Verification
use Prim.Native.Char.{Char, code}
use cashu_spilman_channels.Prelude.{
  ℕ, ◌-◌, String, Bool, true, false, ◌&&◌, Option, none, some, List, Result, ok, err, leb, ltb,
  ◌==◌, if◌then◌else◌,
}
use cashu_spilman_channels.Prelude.Runs.{Run, ◌>>=◌, ◌>>◌, map_error}
use cashu_spilman_channels.Amounts.{
  KeysetInfo, OrderedListOfAmounts, AmountError, InverseFeeResult, from_target, value_after_fees,
  deterministic_value_after_fees, inverse_deterministic_value_after_fees,
}

pub data CommitmentMode : Type 0 where
  ordinary rerandomized : CommitmentMode

pub record ChannelParameters : Type 0 where
  pub commitment_mode : CommitmentMode
  pub sender_pubkey : String
  pub receiver_pubkey : String
  pub mint : String
  pub unit : String
  pub capacity : ℕ
  pub funding_token_amount : ℕ
  pub expiry_timestamp : ℕ
  pub setup_timestamp : ℕ
  pub keyset_info : KeysetInfo
  pub maximum_amount_for_one_output : ℕ
  pub channel_secret : List ℕ

-- The `anyhow` errors of the two files, by what they say.
pub data ChannelError : Type 0 where
  amounts : AmountError → ChannelError
  input_fee_ppk_range : ℕ → ChannelError
  capacity_exceeds_maximum : ℕ → ℕ → ℕ → ChannelError
  balance_exceeds_capacity : ℕ → ℕ → ChannelError
  nominal_exceeds_available : ℕ → ℕ → ℕ → ChannelError

is_empty : String → Bool
is_empty String.[] = true
is_empty (String.◌∷◌ c s) = false

-- `mint.trim_end_matches('/')`
unfoldable pub trim_end_slashes : String → String
unfolding is_empty
trim_end_slashes String.[] = String.[]
trim_end_slashes (String.◌∷◌ c s) =
    let rest = trim_end_slashes s in
    if is_empty rest && code c == b'/' then String.[] else String.◌∷◌ c rest

-- `if test { bail!(e) }`
abbrev pub bail_if : Bool → ChannelError → Run ChannelError Unit
bail_if true e = some (err e)
bail_if false e = some (ok tt)

unfoldable pub value_after_fees_of : KeysetInfo → ℕ → ℕ → Run ChannelError ℕ
value_after_fees_of info nominal_value maximum_amount =
    map_error amounts (deterministic_value_after_fees info nominal_value maximum_amount)

unfoldable pub inverse_of : ℕ → KeysetInfo → ℕ → ℕ → Run ChannelError InverseFeeResult
inverse_of fuel info target_balance maximum_amount =
    map_error amounts
      (inverse_deterministic_value_after_fees fuel info target_balance maximum_amount)

-- `ChannelParameters::new`
unfoldable pub new :
    String
    → String
    → String
    → String
    → ℕ
    → ℕ
    → ℕ
    → ℕ
    → KeysetInfo
    → ℕ
    → List ℕ
    → Run ChannelError ChannelParameters
new sender_pubkey receiver_pubkey mint unit capacity funding_token_amount expiry_timestamp
      setup_timestamp keyset_info maximum_amount channel_secret =
    do
      bail_if (ltb 999 keyset_info.input_fee_ppk) (input_fee_ppk_range keyset_info.input_fee_ppk)
      after_stage1 ← value_after_fees_of keyset_info funding_token_amount maximum_amount
      max_capacity ← value_after_fees_of keyset_info after_stage1 maximum_amount
      bail_if (ltb max_capacity capacity)
          (capacity_exceeds_maximum capacity max_capacity funding_token_amount)
      some (
          ok (record {
            commitment_mode = ordinary;
            sender_pubkey = sender_pubkey;
            receiver_pubkey = receiver_pubkey;
            mint = trim_end_slashes mint;
            unit = unit;
            capacity = capacity;
            funding_token_amount = funding_token_amount;
            expiry_timestamp = expiry_timestamp;
            setup_timestamp = setup_timestamp;
            keyset_info = keyset_info;
            maximum_amount_for_one_output = maximum_amount;
            channel_secret = channel_secret;
          }))

unfoldable pub with_commitment_mode : ChannelParameters → CommitmentMode → ChannelParameters
with_commitment_mode params mode = record params { commitment_mode = mode }

unfoldable pub get_minimum_funding_token_amount : ℕ → ℕ → KeysetInfo → ℕ → Run ChannelError ℕ
get_minimum_funding_token_amount fuel capacity keyset_info max_amt = do
  first_inverse ← inverse_of fuel keyset_info capacity max_amt
  second_inverse ← inverse_of fuel keyset_info first_inverse.nominal_value max_amt
  some (ok second_inverse.nominal_value)

unfoldable pub get_value_after_stage1_with_keyset :
    ChannelParameters → KeysetInfo → Run ChannelError ℕ
get_value_after_stage1_with_keyset params keyset_info =
    value_after_fees_of keyset_info params.funding_token_amount params.maximum_amount_for_one_output

unfoldable pub get_value_after_stage1 : ChannelParameters → Run ChannelError ℕ
unfolding get_value_after_stage1_with_keyset
get_value_after_stage1 params = get_value_after_stage1_with_keyset params params.keyset_info

unfoldable pub get_de_facto_balance : ℕ → ChannelParameters → ℕ → Run ChannelError ℕ
get_de_facto_balance fuel params intended_balance = do
  inverse_result ←
      inverse_of fuel params.keyset_info intended_balance params.maximum_amount_for_one_output
  value_after_fees_of params.keyset_info inverse_result.nominal_value
      params.maximum_amount_for_one_output

pub data OutputContext : Type 0 where
  sender receiver funding : OutputContext

pub record DeterministicOutputs : Type 0 where
  pub context : OutputContext
  pub amount : ℕ
  pub ordered_amounts : OrderedListOfAmounts
  pub params : ChannelParameters

abbrev pub outputs_from :
    OutputContext → ℕ → ChannelParameters → OrderedListOfAmounts → DeterministicOutputs
outputs_from context amount params ordered_amounts = record {
  context = context;
  amount = amount;
  ordered_amounts = ordered_amounts;
  params = params;
}

-- `DeterministicOutputsForOneContext::new`
unfoldable pub new_outputs :
    OutputContext → ℕ → ChannelParameters → Run ChannelError DeterministicOutputs
new_outputs context amount params = do
  ordered_amounts ←
      map_error amounts (from_target amount params.maximum_amount_for_one_output params.keyset_info)
  some (ok (outputs_from context amount params ordered_amounts))

pub record CommitmentOutputs : Type 0 where
  pub receiver_outputs : DeterministicOutputs
  pub sender_outputs : DeterministicOutputs

-- `CommitmentOutputs::for_balance`
unfoldable pub for_balance : ℕ → ℕ → ChannelParameters → Run ChannelError CommitmentOutputs
unfolding get_value_after_stage1
for_balance fuel receiver_balance params = do
  bail_if (ltb params.capacity receiver_balance)
      (balance_exceeds_capacity receiver_balance params.capacity)
  amount_after_stage1 ← get_value_after_stage1 params
  inverse_result ←
      inverse_of fuel params.keyset_info receiver_balance params.maximum_amount_for_one_output
  bail_if (ltb amount_after_stage1 inverse_result.nominal_value)
      (nominal_exceeds_available receiver_balance inverse_result.nominal_value amount_after_stage1)
  charlie_outputs ← new_outputs receiver inverse_result.nominal_value params
  alice_outputs ← new_outputs sender (amount_after_stage1 - inverse_result.nominal_value) params
  some (ok (record { receiver_outputs = charlie_outputs; sender_outputs = alice_outputs }))
