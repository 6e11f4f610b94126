-- ===== src/Examples/Payments.antt =====
-- Payments, fundings and a close on the concrete server.
use cashu_spilman_channels.Prelude.{
  false, is_some, ◌+◌, ◌*◌, ◌≤◌, ◌<◌, ◌^◌, true, Option, none, some, [], ◌∷◌, Result, ok, err, ◌≡◌,
  refl, arith, get, insert, empty, from_entries, string_eq, pair_eq, unwrap_or,
}
use cashu_spilman_channels.Storage.{
  MemoryStorage, get_state, get_usage, increment_usage, should_update, update_balance,
  add_increments,
}
use cashu_spilman_channels.Storage.Records.{ChannelState, opened, same_state}
use cashu_spilman_channels.Json.{str_field, u64_field}
use cashu_spilman_channels.Host.{
  mark_channel_closing, mark_channel_closed, ConfigurableHost, UnitPricingConfig,
  receiver_key_is_acceptable, mint_and_keyset_is_acceptable, get_keyset_info, get_channel_policy,
  add_prices, apply_usage_increments, channel_unit, compute_amount_due, due_for, pricing_scale,
  record_payment,
}
use cashu_spilman_channels.Channel.Parse.{
  parse_keyset_info_from_json, parse_u64, from_json_with_channel_secret, read_fields,
}
use cashu_spilman_channels.Channel.{
  ordinary, ChannelParameters, value_after_fees_of, new_outputs, for_balance,
  get_value_after_stage1, get_value_after_stage1_with_keyset, inverse_of, trim_end_slashes,
  with_commitment_mode,
}
use cashu_spilman_channels.Amounts.{
  deterministic_value_after_fees, btree_insert, div_ceil, expand_rev, finish, from_target, greedy,
  insert_descending, inverse_deterministic_value_after_fees, inverse_loop, key_amounts,
  new_keyset_info, nominal_total, record_count, sort_descending, take_amount, unrepresentable,
  value_after_fees,
}
use cashu_spilman_channels.Channel.Verification.{
  verify_valid_channel, check_structure, check_total, check_zipped, establish,
  verify_sender_signature, get_secrets_with_blinding,
}
use cashu_spilman_channels.Bridge.Process.{
  fund_channel, fund_at, fund_guards, validate_existing_channel_funding, process_payment, first_use,
  paid_on, record_validated_new_channel, registered, settle,
}
use cashu_spilman_channels.Bridge.Validate.{
  exceeds, funding_terms, new_funding, new_params, stored_capacity, validate_new_channel_funding,
  validate_payment, validate_payment_request, verified, verify_signature,
}
use cashu_spilman_channels.Storage
use cashu_spilman_channels.Channel
use cashu_spilman_channels.Host
use cashu_spilman_channels.Bridge.Close.{
  PreparedClose, PreparedCloseTransition, CompletedClose, CloseSuccess, CloseError, not_closing,
  mark_prepared_close_closing, mark_completed_close,
}
use cashu_spilman_channels.Bridge.Close.Once.{
  Settled, mark_completed_close-Settled, mark_prepared_close_closing_lem,
}
use cashu_spilman_channels.Bridge.{
  channel_closing, FundChannelResult, BridgeError, PaymentSuccess, PaymentValidationResult,
  ValidatedNewChannel,
}
use cashu_spilman_channels.Bridge.Validate.{Terms}
use cashu_spilman_channels.Bridge.Backed.{IsBacked}
use cashu_spilman_channels.Prelude.{get, insert, empty, string_eq, pair_eq}
use cashu_spilman_channels.Bridge.Payments.{
  Accepted, Paid, validate_payment-Accepted, process_payment-Paid, Paid-IsBacked,
}
use cashu_spilman_channels.Bridge.Funded.{Allowed, Checked, validate_new_channel_funding-Fundable}
use cashu_spilman_channels.Channel.Commitment.{IsAccepted}
use cashu_spilman_channels.Channel.Parsed.{from_json-IsAccepted}
use cashu_spilman_channels.Channel.Verification.Sound.{Valid, verify_valid_channel-Valid}
use cashu_spilman_channels.Storage.Balance.{paid}
use cashu_spilman_channels.Host.Pricing.{
  raw_of, raw_total, NoWrap, record_payment_lem, compute_amount_due_lem,
}
use cashu_spilman_channels.Examples.Server.{
  Value, keys, listed_secrets, output_keyset, params_value, json, proofs, packages, host, store,
  store_of,
}

abbrev pub first_payment : Option (MemoryStorage × Result BridgeError PaymentSuccess)
first_payment =
    process_payment packages host 10000 1000 "channel" 5 "good" (some params_value) (some proofs)
      "three chars" store

abbrev pub first_success : PaymentSuccess
first_success = record { channel_id = "channel"; balance = 5; amount_due = 5; capacity = 9 }

-- The channel after it.
abbrev pub known_store : MemoryStorage
known_store = store_of first_payment

abbrev second : PaymentValidationResult
second = record {
  channel_id = "channel";
  balance = 9;
  amount_due = 9;
  capacity = 9;
  sender_signature = "good";
}

abbrev second_payment : Option (MemoryStorage × Result BridgeError PaymentSuccess)
second_payment =
    process_payment packages host 10000 1000 "channel" 9 "good" none none "three chars" known_store

abbrev second_success : PaymentSuccess
second_success = record { channel_id = "channel"; balance = 9; amount_due = 9; capacity = 9 }

abbrev sat_pricing : UnitPricingConfig
unfolding insert empty
sat_pricing = record {
  min_capacity = 5;
  max_amount_per_output = some 64;
  variables = insert empty "chars" 3;
}

abbrev value_of : {A : Type 0} → A → Option (Result BridgeError A) → A
value_of a (some (ok b)) = b
value_of a r = a

abbrev none_validated : ValidatedNewChannel
none_validated = record {
  channel_id = "";
  balance = 0;
  capacity = 0;
  sender_signature = "";
  funding = record {
    params_json = "";
    funding_proofs_json = "";
    channel_secret_hex = "";
    keyset_info_json = "";
  };
}

abbrev new_channel : Option (Result BridgeError ValidatedNewChannel)
new_channel =
    validate_new_channel_funding packages host 10000 1000 "channel" params_value proofs 5 "good"
      store

abbrev pub channel_params : ChannelParameters
channel_params = record {
  commitment_mode = ordinary;
  sender_pubkey = "alice";
  receiver_pubkey = "charlie";
  mint = "https://mint";
  unit = "sat";
  capacity = 9;
  funding_token_amount = 15;
  expiry_timestamp = 9000;
  setup_timestamp = 1000;
  keyset_info = record {
    keyset_id = "00a1";
    unit = "sat";
    active_keys = (1, "k1") ∷ (2, "k2") ∷ (4, "k4") ∷ (8, "k8") ∷ [];
    amounts_largest_first = 8 ∷ 4 ∷ 2 ∷ 1 ∷ [];
    input_fee_ppk = 400;
    final_expiry = none;
  };
  maximum_amount_for_one_output = 0;
  channel_secret = [];
}

abbrev again : FundChannelResult
again = record { channel_id = "channel"; capacity = 9; already_known = true }

abbrev pub prepared_close : PreparedClose Value
prepared_close = record {
  channel_id = "channel";
  balance = 5;
  mint_url = "https://mint";
  swap_request = keys;
  sig_all_message_hash = "hash";
  blinded_receiver_pubkey = "charlie";
  secrets_with_blinding = listed_secrets;
  output_keyset_info = output_keyset;
  params_json = "params";
  keyset_info_json = "keyset";
  channel_secret = "00";
}

abbrev pub transition : PreparedCloseTransition Value
transition = record {
  prepared_close = prepared_close;
  expiry_timestamp = 9000;
  payment = record { balance = 5; signature = "good" };
}

abbrev pub stored : Result CloseError MemoryStorage → MemoryStorage
stored (ok t) = t
stored (err e) = store

abbrev pub closing_store : MemoryStorage
closing_store = stored (mark_prepared_close_closing json host transition known_store)

abbrev completed : CompletedClose
completed = record {
  channel_id = "channel";
  expiry_timestamp = 9000;
  balance = 5;
  receiver_proofs_json = "[r]";
  sender_proofs_json = "[s]";
  receiver_sum = 7;
  sender_sum = 6;
}

abbrev completed_store : Result CloseError (MemoryStorage × CloseSuccess) → MemoryStorage
completed_store (ok (t, success)) = t
completed_store (err e) = store

abbrev closed_store : MemoryStorage
closed_store = completed_store (mark_completed_close json host completed closing_store)

abbrev close_success : CloseSuccess
close_success = record {
  channel_id = "channel";
  total_value = 13;
  receiver_sum = 7;
  sender_sum = 6;
  sender_proofs = "[s]";
  already_closed = false;
}

-- What the runs compute to.
runs :
    (first_payment ≡ some (store_of first_payment, ok first_success))
    × (get_state known_store "channel" ≡ some opened)
    × (validate_payment packages host 10000 1000 "channel" 9 "good" "three chars" known_store
        ≡ some (ok second))
    × (get host.config.pricing (unwrap_or (channel_unit json host "channel" known_store) "")
        ≡ some sat_pricing)
    × (NoWrap json host "channel" (some "three chars") known_store sat_pricing)
    × (raw_of json host "channel" (some "three chars") known_store sat_pricing < 2 ^ 64)
    × (new_channel ≡ some (ok (value_of none_validated new_channel)))
    × (from_json_with_channel_secret packages "params" channel_params.keyset_info []
        ≡ some (ok channel_params))
    × (verify_valid_channel packages proofs channel_params ≡ some [])
    × (is_some (get_state known_store "channel") ≡ true)
    × (second_payment ≡ some (store_of second_payment, ok second_success))
    × (fund_channel packages host 10000 1000 "channel" 5 "good" none none known_store
        ≡ some (known_store, ok again))
    × (mark_prepared_close_closing json host transition known_store ≡ ok closing_store)
    × (mark_completed_close json host completed closing_store ≡ ok (closed_store, close_success))
unfolding mark_prepared_close_closing mark_completed_close mark_channel_closing mark_channel_closed
    Storage.mark_closing Storage.mark_closed fund_channel fund_at fund_guards
    validate_existing_channel_funding get_state get_usage increment_usage Storage.new
    Storage.save_funding should_update update_balance add_increments same_state str_field u64_field
    receiver_key_is_acceptable mint_and_keyset_is_acceptable get_keyset_info get_channel_policy
    add_prices apply_usage_increments channel_unit compute_amount_due due_for pricing_scale
    record_payment Host.save_funding parse_keyset_info_from_json parse_u64
    from_json_with_channel_secret read_fields Channel.new value_after_fees_of new_outputs
    for_balance get_value_after_stage1 get_value_after_stage1_with_keyset inverse_of
    trim_end_slashes with_commitment_mode deterministic_value_after_fees btree_insert div_ceil
    expand_rev finish from_target greedy insert_descending inverse_deterministic_value_after_fees
    inverse_loop key_amounts new_keyset_info nominal_total record_count sort_descending take_amount
    unrepresentable value_after_fees verify_valid_channel check_structure check_total check_zipped
    establish verify_sender_signature get_secrets_with_blinding process_payment first_use paid_on
    record_validated_new_channel registered settle exceeds funding_terms new_funding new_params
    stored_capacity validate_new_channel_funding validate_payment validate_payment_request verified
    verify_signature get insert empty from_entries raw_total store host
runs = (
  refl,
  refl,
  refl,
  refl,
  (omega arith, tt),
  omega arith,
  refl,
  refl,
  refl,
  refl,
  refl,
  refl,
  refl,
  refl,
)

-- The store has no payment yet.
store-IsBacked : IsBacked packages host 10000 1000 "channel" store
unfolding store Storage.new get insert empty
store-IsBacked q h = absurd (ground (arith, h))

-- What the first payment leaves is what the second one needs.
known_store-IsBacked : IsBacked packages host 10000 1000 "channel" known_store
known_store-IsBacked = Paid-IsBacked packages host 10000 1000 "channel" 5 "good" store known_store (
    process_payment-Paid packages host 10000 1000 "channel" 5 "good" (some params_value)
      (some proofs) "three chars" store known_store store-IsBacked runs.0)

process_payment-Paid_example :
    Paid packages host 10000 1000 "channel" 9 "good" known_store
      (store_of second_payment)
      second_success
process_payment-Paid_example =
    process_payment-Paid packages host 10000 1000 "channel" 9 "good" none none "three chars"
      known_store (store_of second_payment) known_store-IsBacked runs.10

validate_payment-Accepted_example :
    Accepted packages host 10000 1000 "channel" 9 "good" "three chars" known_store second
validate_payment-Accepted_example =
    validate_payment-Accepted packages host 10000 1000 "channel" 9 "good" "three chars" known_store
      runs.2

record_payment_lem_example :
    (compute_amount_due json host "channel" none (
        record_payment json host "channel"
          (record { balance = 9; signature = "good" })
          "three chars"
          known_store)
      ≡ compute_amount_due json host "channel" (some "three chars") known_store)
    × (9
        ≤ paid (
            get
              (record_payment json host "channel"
                (record { balance = 9; signature = "good" })
                "three chars"
                known_store).balance
              "channel"))
    × (paid (get known_store.balance "channel")
        ≤ paid (
            get
              (record_payment json host "channel"
                (record { balance = 9; signature = "good" })
                "three chars"
                known_store).balance
              "channel"))
record_payment_lem_example =
    record_payment_lem json host "channel" "three chars"
      (record { balance = 9; signature = "good" }) known_store runs.1

compute_amount_due_lem_example :
    (raw_of json host "channel" (some "three chars") known_store sat_pricing
      ≤ compute_amount_due json host "channel" (some "three chars") known_store
        * pricing_scale host)
    × (compute_amount_due json host "channel" (some "three chars") known_store * pricing_scale host
        < raw_of json host "channel" (some "three chars") known_store sat_pricing
          + pricing_scale host)
compute_amount_due_lem_example =
    compute_amount_due_lem json host "channel" (some "three chars") known_store sat_pricing runs.3
      runs.4 runs.5

validate_new_channel_funding-Fundable_example :
    (terms : Terms) × Allowed packages host 10000 1000 params_value 5 store terms
    × (c : Checked packages host 10000 1000 "channel" params_value proofs 5 "good"
        (value_of none_validated new_channel))
    × IsAccepted c.params
    × Valid packages c.params proofs
validate_new_channel_funding-Fundable_example =
    validate_new_channel_funding-Fundable packages host 10000 1000 "channel" params_value proofs 5
      "good" store runs.6

from_json-IsAccepted_example : IsAccepted channel_params
from_json-IsAccepted_example =
    from_json-IsAccepted packages "params" channel_params.keyset_info [] runs.7

verify_valid_channel-Valid_example : Valid packages channel_params proofs
verify_valid_channel-Valid_example =
    verify_valid_channel-Valid packages channel_params proofs runs.8

mark_completed_close-Settled_example :
    Settled completed closing_store closed_store
    × (mark_completed_close json host completed closed_store ≡ err not_closing)
mark_completed_close-Settled_example =
    mark_completed_close-Settled json host completed completed closing_store closed_store refl
      runs.13

mark_prepared_close_closing_lem_example :
    (get_state closing_store "channel" ≡ some ChannelState.closing)
    × (get closing_store.closing "channel"
        ≡ some (record { expiry_timestamp = 9000; balance = 5; signature = "good" }))
    × (closing_store.balance ≡ known_store.balance)
    × (process_payment packages host 10000 1000 "channel" 9 "good" none none "three chars"
          closing_store
        ≡ some (closing_store, err channel_closing))
mark_prepared_close_closing_lem_example =
    mark_prepared_close_closing_lem packages host 10000 1000 transition known_store closing_store 9
      "good" "three chars" none none runs.12 refl refl
