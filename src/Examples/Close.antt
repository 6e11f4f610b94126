-- ===== src/Examples/Close.antt =====
-- A cooperative close of the concrete channel, with a mint that signs what it is sent. A point is the text of
-- its secret.
use cashu_spilman_channels.Prelude.{
  ℕ, ◌<◌, ◌^◌, true, false, Option, none, some, [], ◌∷◌, Result, ok, ◌≡◌, refl, ap, arith, get,
  insert, empty, from_entries, string_eq, pair_eq,
}
use cashu_spilman_channels.Channel.{ChannelParameters, ordinary}
use cashu_spilman_channels.Storage.{MemoryStorage}
use cashu_spilman_channels.Storage.Records.{ChannelFunding}
use cashu_spilman_channels.Swap.{complete_swap_response}
use cashu_spilman_channels.Bridge.Close.{Payment, PreparedClose, CloseSuccess, CloseError}
use cashu_spilman_channels.Bridge.Close.Execute.{World, execute_close_for_closing_channel}
use cashu_spilman_channels.Bridge.Close.Initiate.{execute_cooperative_close}
use cashu_spilman_channels.Examples.Server.{
  Value, requested, close_value, json, packages, host, store,
}
use cashu_spilman_channels.Examples.Payments.{
  known_store, channel_params, closing_store, prepared_close,
}
use cashu_spilman_channels.Amounts.Target.{IsPositive}
use cashu_spilman_channels.Bridge.Close.{CloseData, CompletedClose}
use cashu_spilman_channels.Bridge.Close.Prepared.{Prepared}
use cashu_spilman_channels.Bridge.Close.Completed.{Completed}
use cashu_spilman_channels.Bridge.Close.Complete.{prepared_params}
use cashu_spilman_channels.Bridge.Close.Attempts.{After}
use cashu_spilman_channels.Bridge.Close.Executed.{execute_close_for_closing_channel-After}
use cashu_spilman_channels.Bridge.Close.Cooperative.{
  Reads, CooperativelyClosed, execute_cooperative_close-CooperativelyClosed,
}
use cashu_spilman_channels.Bridge.{BridgeError}
use cashu_spilman_channels.Mint.Retry.{with_active_keyset_retry}
use cashu_spilman_channels.Mint.{permits_keyset_retry, rejection}
use cashu_spilman_channels.Bridge.Close.Transition.{
  prepare_close_for_closing_channel_with_keyset, prepare_cooperative_close_transition,
}
use cashu_spilman_channels.Bridge.Close.Select.{
  close_mint_unit_for_channel, first_usable, funding_params, is_usable,
  select_close_output_keyset_for_channel, select_close_output_keyset_from_funding,
  selected_output_keyset_info,
}
use cashu_spilman_channels.Bridge.Close.Prepare.{
  commitment_secrets, prepare_close_data, prepare_close_data_impl, wrap_close_data,
}
use cashu_spilman_channels.Bridge.Close.Unblind.{unblind_and_verify_stage1_swap_response}
use cashu_spilman_channels.Bridge.Close.Complete.{any_different, complete_prepared_close}
use cashu_spilman_channels.Bridge.Close.{
  close_expiry_timestamp, from_preparation_error, mark_completed_close, mark_prepared_close_closing,
  parse_mint_error_value,
}
use cashu_spilman_channels.Swap.Request.{
  attach_signature_to_first_input, create_swap_request, get_blinded_messages, sort_by,
}
use cashu_spilman_channels.Channel.Verification.Secrets.{smallest_first}
use cashu_spilman_channels.Host.{
  add_prices, apply_usage_increments, channel_unit, compute_amount_due, due_for, get_channel_policy,
  get_keyset_info, mark_channel_closed, mark_channel_closing, mint_and_keyset_is_acceptable,
  pricing_scale, receiver_key_is_acceptable, record_payment,
}
use cashu_spilman_channels.Bridge.Process.{
  first_use, fund_at, fund_channel, fund_guards, paid_on, process_payment,
  record_validated_new_channel, registered, settle, validate_existing_channel_funding,
}
use cashu_spilman_channels.Storage.{
  add_increments, get_active_keyset_ids, get_state, get_usage, increment_usage, should_update,
  update_balance,
}
use cashu_spilman_channels.Storage.Records.{same_state}
use cashu_spilman_channels.Json.{str_field, u64_field}
use cashu_spilman_channels.Channel.Parse.{
  from_json_with_channel_secret, parse_keyset_info_from_json, parse_u64, read_fields,
}
use cashu_spilman_channels.Channel.{
  for_balance, get_value_after_stage1, get_value_after_stage1_with_keyset, inverse_of, new_outputs,
  trim_end_slashes, value_after_fees_of, with_commitment_mode,
}
use cashu_spilman_channels.Amounts.{
  btree_insert, deterministic_value_after_fees, div_ceil, expand_rev, finish, from_target, greedy,
  insert_descending, inverse_deterministic_value_after_fees, inverse_loop, is_unexpired_at,
  key_amounts, new_keyset_info, nominal_total, record_count, sort_descending, take_amount,
  unrepresentable, value_after_fees,
}
use cashu_spilman_channels.Channel.Verification.{
  check_structure, check_total, check_zipped, establish, get_secrets_with_blinding,
  verify_sender_signature, verify_valid_channel,
}
use cashu_spilman_channels.Bridge.Validate.{
  exceeds, funding_terms, new_funding, new_params, stored_capacity, validate_new_channel_funding,
  validate_payment, validate_payment_request, verified, verify_signature,
}
use cashu_spilman_channels.Host.Pricing.{raw_total}
use cashu_spilman_channels.Examples.Server.{host, store}
use cashu_spilman_channels.Swap.{
  any_repeated, checked_sum, complete_exact_signatures, effective_outputs, swap_restore_request,
}
use cashu_spilman_channels.Channel
use cashu_spilman_channels.Host
use cashu_spilman_channels.Storage
use cashu_spilman_channels.Examples.Curve.{message, parts, network, no_payment_proof, world}
use cashu_spilman_channels.Bridge.{text, invalid_request}
use cashu_spilman_channels.Bridge.Response
use cashu_spilman_channels.Bridge.Response.Status.{
  close_status, Unproven, close_status-from_bridge_error,
}
use cashu_spilman_channels.Prelude.{◌⊎◌}

abbrev payment : Payment Value
payment = record {
  channel_id = "channel";
  balance = 5;
  signature = "good";
  params = none;
  funding_proofs = none;
}

abbrev cooperative : Option (Result CloseError CloseSuccess) × World Unit
cooperative =
    execute_cooperative_close packages parts no_payment_proof host 10000 1000 network "close"
      (world known_store)

abbrev close_success : CloseSuccess
close_success = record {
  channel_id = "channel";
  total_value = 13;
  receiver_sum = 6;
  sender_sum = 7;
  sender_proofs = "proofs";
  already_closed = false;
}

abbrev executed : Option (Result CloseError CloseSuccess) × World Unit
executed =
    execute_close_for_closing_channel packages parts no_payment_proof host 10000 1000 network
      "channel" (world closing_store)

abbrev funding : ChannelFunding
funding = record {
  params_json = "params";
  funding_proofs_json = "proofs";
  channel_secret_hex = "00";
  keyset_info_json = "keyset";
}

abbrev pub ok_or_else : {E A : Type 0} → A → Option (Result E A) → A
ok_or_else a (some (ok b)) = b
ok_or_else a r = a

abbrev pub closing_params : ChannelParameters
closing_params = ok_or_else channel_params (funding_params packages host 10000 1000 funding)

abbrev preparation : Option (Result BridgeError CloseData)
preparation =
    prepare_close_data_impl packages parts host 10000 1000 "channel" 5 "good" funding
      channel_params.keyset_info true known_store

abbrev no_close_data : CloseData
no_close_data = record {
  swap_request = record { inputs = []; outputs = []; is_rerandomized = false };
  sig_all_message_hash = "";
  blinded_receiver_pubkey = "";
  expected_total = 0;
  secrets_with_blinding = [];
  output_keyset_info = channel_params.keyset_info;
}

abbrev prep : PreparedClose Value
prep = record prepared_close {
  swap_request = requested (record {
    inputs = [];
    outputs =
        message 1 "s1" ∷ message 2 "r2" ∷ message 2 "s2" ∷ message 4 "r4" ∷ message 4 "s4" ∷ [];
    is_rerandomized = false;
  });
}

abbrev completed : CompletedClose
completed = record {
  channel_id = "channel";
  expiry_timestamp = 9000;
  balance = 5;
  receiver_proofs_json = "proofs";
  sender_proofs_json = "proofs";
  receiver_sum = 6;
  sender_sum = 7;
}

-- What the runs compute to.
runs :
    (cooperative.0 ≡ some (ok close_success))
    × (executed.0 ≡ some (ok close_success))
    × (funding_params packages host 10000 1000 funding ≡ some (ok closing_params))
    × (get_value_after_stage1 closing_params ≡ some (ok 13))
    × (IsPositive closing_params.keyset_info.amounts_largest_first)
    × (preparation ≡ some (ok (ok_or_else no_close_data preparation)))
    × (prepared_params packages parts host 10000 1000 prep
        ≡ some (ok (closing_params, closing_params.keyset_info)))
    × (complete_prepared_close packages parts host 10000 1000 "response" prep ≡ some (ok completed))
    × (str_field json close_value "channel_id" ≡ some "channel")
    × (u64_field json close_value "balance" ≡ some 5)
unfolding execute_cooperative_close execute_close_for_closing_channel with_active_keyset_retry
    rejection permits_keyset_retry prepare_cooperative_close_transition
    prepare_close_for_closing_channel_with_keyset select_close_output_keyset_for_channel
    funding_params first_usable is_usable close_mint_unit_for_channel selected_output_keyset_info
    commitment_secrets prepare_close_data_impl wrap_close_data prepare_close_data
    unblind_and_verify_stage1_swap_response complete_prepared_close close_expiry_timestamp
    from_preparation_error parse_mint_error_value complete_swap_response create_swap_request
    attach_signature_to_first_input sort_by smallest_first mark_prepared_close_closing
    mark_completed_close mark_channel_closing mark_channel_closed Storage.mark_closing
    Storage.mark_closed fund_channel fund_at fund_guards validate_existing_channel_funding get_state
    get_usage increment_usage Storage.new Storage.save_funding should_update update_balance
    add_increments same_state str_field u64_field receiver_key_is_acceptable
    mint_and_keyset_is_acceptable get_keyset_info get_channel_policy add_prices
    apply_usage_increments channel_unit compute_amount_due due_for pricing_scale record_payment
    Host.save_funding parse_keyset_info_from_json parse_u64 from_json_with_channel_secret
    read_fields Channel.new value_after_fees_of new_outputs for_balance get_value_after_stage1
    get_value_after_stage1_with_keyset inverse_of trim_end_slashes with_commitment_mode
    deterministic_value_after_fees btree_insert div_ceil expand_rev finish from_target greedy
    insert_descending inverse_deterministic_value_after_fees inverse_loop key_amounts
    new_keyset_info nominal_total record_count sort_descending take_amount unrepresentable
    value_after_fees verify_valid_channel check_structure check_total check_zipped establish
    verify_sender_signature get_secrets_with_blinding process_payment first_use paid_on
    record_validated_new_channel registered settle exceeds funding_terms new_funding new_params
    stored_capacity validate_new_channel_funding validate_payment validate_payment_request verified
    verify_signature get insert empty from_entries raw_total store host
    select_close_output_keyset_from_funding get_active_keyset_ids is_unexpired_at
    get_blinded_messages any_different effective_outputs swap_restore_request any_repeated
    complete_exact_signatures checked_sum
runs = (
  refl,
  refl,
  refl,
  refl,
  (omega arith, (omega arith, (omega arith, (omega arith, tt)))),
  refl,
  refl,
  refl,
  refl,
  refl,
)

pub value_bound : (v : ℕ) → get_value_after_stage1 closing_params ≡ some (ok v) → v < 2 ^ 64
value_bound v h = ground (arith, h, runs.3)

reads : Reads packages parts no_payment_proof host 10000 1000 "close" payment
reads = record {
  parsed = refl;
  value = close_value;
  decoded = refl;
  channel_id = runs.8;
  balance = runs.9;
}

execute_close_for_closing_channel-After_example :
    After "channel" closing_store executed.0 executed.1.store
execute_close_for_closing_channel-After_example =
    execute_close_for_closing_channel-After packages parts no_payment_proof host 10000 1000 network
      "channel" (world closing_store)

execute_cooperative_close-CooperativelyClosed_example :
    CooperativelyClosed packages parts no_payment_proof host 10000 1000 payment network known_store
      cooperative.1.store close_success
execute_cooperative_close-CooperativelyClosed_example =
    execute_cooperative_close-CooperativelyClosed packages parts no_payment_proof host 10000 1000
      network "close" payment (world known_store) cooperative.1 reads
      (ap (λ r. (r, cooperative.1)) runs.0)

-- The error of a unilateral close without a payment.
abbrev unproven : BridgeError
unproven = invalid_request (text "No payment proof")

close_status-from_bridge_error_example :
    (close_status no_payment_proof unproven ≡ (Response.from_bridge_error unproven).status)
    ⊎ Unproven no_payment_proof unproven
close_status-from_bridge_error_example = close_status-from_bridge_error no_payment_proof unproven
