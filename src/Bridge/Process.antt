-- ===== src/Bridge/Process.antt =====
-- The payments and fundings of crates/cdk-spilman/src/bridge.rs that change the store.
use cashu_spilman_channels.Prelude.{
  ℕ, String, Bool, true, false, Option, none, some, List, Result, ok, err, ok_or,
}
use cashu_spilman_channels.Prelude.Runs.{Run, ◌>>=◌, ◌>>◌, map_error}
use cashu_spilman_channels.Packages.{Packages, Proof}
use cashu_spilman_channels.Channel.Parse.{give}
use cashu_spilman_channels.Storage.Records.{ChannelFunding, ChannelState, opened}
use cashu_spilman_channels.Storage.{MemoryStorage, get_state, get_funding}
use cashu_spilman_channels.Host.{ConfigurableHost, save_funding, record_payment}
use cashu_spilman_channels.Bridge.{
  text, BridgeError, invalid_request, channel_closed, channel_closing, unknown_channel,
  invalid_signature, insufficient_balance, PaymentSuccess, PaymentValidationResult,
  FundChannelResult, ValidatedNewChannel,
}
use cashu_spilman_channels.Bridge.Validate.{
  payable, reject_empty, verify_signature, validate_payment_request, validate_payment,
  validate_new_channel_funding, stored_capacity,
}

module _ (p : Packages) (host : ConfigurableHost) (fuel now : ℕ) where
  unfoldable pub record_validated_new_channel : ValidatedNewChannel → MemoryStorage → MemoryStorage
  record_validated_new_channel validated s =
      save_funding p.json host validated.channel_id validated.funding
        (record { balance = validated.balance; signature = validated.sender_signature }) s

  -- The first use of a channel, when the store does not know it.
  unfoldable pub first_use :
      Option ChannelState
      → String
      → ℕ
      → String
      → Option p.json.Value
      → Option (List Proof)
      → MemoryStorage
      → Run BridgeError MemoryStorage
  unfolding validate_new_channel_funding record_validated_new_channel
  first_use (some state) channel_id balance signature params funding_proofs s = some (ok s)
  first_use none channel_id balance signature params funding_proofs s = do
    params_val ← give (ok_or params unknown_channel)
    proofs ← give (ok_or funding_proofs unknown_channel)
    validated ←
        validate_new_channel_funding p host fuel now channel_id params_val proofs balance signature
          s
    some (ok (record_validated_new_channel validated s))

  -- `host.record_payment` after a validation that has passed.
  unfoldable pub settle :
      String
      → MemoryStorage
      → Run BridgeError PaymentValidationResult
      → Option (MemoryStorage × Result BridgeError PaymentSuccess)
  settle context s none = none
  settle context s (some (err e)) = some (s, err e)
  settle context s (some (ok val)) = some (
    record_payment p.json host val.channel_id
        (record { balance = val.balance; signature = val.sender_signature }) context s,
    ok (record {
      channel_id = val.channel_id;
      balance = val.balance;
      amount_due = val.amount_due;
      capacity = val.capacity;
    }),
  )

  unfoldable pub registered :
      String
      → ℕ
      → String
      → Option p.json.Value
      → Option (List Proof)
      → MemoryStorage
      → Run BridgeError MemoryStorage
  unfolding validate_payment_request first_use
  registered channel_id balance signature params funding_proofs s = do
    state ← validate_payment_request p host fuel now channel_id signature s
    first_use state channel_id balance signature params funding_proofs s

  unfoldable pub paid_on :
      String
      → ℕ
      → String
      → String
      → MemoryStorage
      → Run BridgeError MemoryStorage
      → Option (MemoryStorage × Result BridgeError PaymentSuccess)
  unfolding settle validate_payment
  paid_on channel_id balance signature context s none = none
  paid_on channel_id balance signature context s (some (err e)) = some (s, err e)
  paid_on channel_id balance signature context s (some (ok t)) =
      settle context t (validate_payment p host fuel now channel_id balance signature context t)

  -- `process_payment`: the store afterwards and the result, `none` when a search does not end.
  unfoldable pub process_payment :
      String
      → ℕ
      → String
      → Option p.json.Value
      → Option (List Proof)
      → String
      → MemoryStorage
      → Option (MemoryStorage × Result BridgeError PaymentSuccess)
  unfolding registered paid_on
  process_payment channel_id balance signature params funding_proofs context s =
      paid_on channel_id balance signature context s
        (registered channel_id balance signature params funding_proofs s)

  unfoldable pub verify_payment_covers_amount_due :
      String → ℕ → String → String → MemoryStorage → Run BridgeError ℕ
  verify_payment_covers_amount_due channel_id balance signature context s = do
    val ← validate_payment p host fuel now channel_id balance signature context s
    some (ok val.amount_due)

  -- The three arms of `payment_covers_amount_due`.
  covered : Run BridgeError ℕ → Run BridgeError Bool
  covered none = none
  covered (some (ok due)) = some (ok true)
  covered (some (err (insufficient_balance balance due))) = some (ok false)
  covered (some (err e)) = some (err e)

  unfoldable pub payment_covers_amount_due :
      String → ℕ → String → String → MemoryStorage → Run BridgeError Bool
  unfolding covered verify_payment_covers_amount_due
  payment_covers_amount_due channel_id balance signature context s =
      covered (verify_payment_covers_amount_due channel_id balance signature context s)

  -- The states in which an existing channel can be funded again.
  abbrev fundable : Option ChannelState → Run BridgeError Unit
  fundable (some ChannelState.closed) = some (err channel_closed)
  fundable (some ChannelState.closing) = some (err channel_closing)
  fundable (some opened) = some (ok tt)
  fundable none = some (err unknown_channel)

  unfoldable pub validate_existing_channel_funding :
      String → ℕ → String → MemoryStorage → Run BridgeError FundChannelResult
  unfolding stored_capacity
  validate_existing_channel_funding channel_id balance signature s = do
    give (reject_empty channel_id "missing channel_id")
    give (reject_empty signature "missing signature")
    fundable (get_state s channel_id)
    funding ← give (ok_or (get_funding channel_id s) unknown_channel)
    capacity ← stored_capacity p host fuel now funding
    map_error invalid_signature (verify_signature p host fuel now funding balance signature)
    some (ok (record { channel_id = channel_id; capacity = capacity; already_known = true }))

  -- A result that leaves the store as it is.
  abbrev pub unchanged :
      MemoryStorage
      → Run BridgeError FundChannelResult
      → Option (MemoryStorage × Result BridgeError FundChannelResult)
  unchanged s none = none
  unchanged s (some r) = some (s, r)

  validated_new :
      String
      → ℕ
      → String
      → Option p.json.Value
      → Option (List Proof)
      → MemoryStorage
      → Run BridgeError ValidatedNewChannel
  validated_new channel_id balance signature params funding_proofs s = do
    params_val ← give (ok_or params (invalid_request (text "Missing params")))
    proofs ← give (ok_or funding_proofs (invalid_request (text "Missing proofs")))
    validate_new_channel_funding p host fuel now channel_id params_val proofs balance signature s

  -- The capacity is read back from the stored parameters.
  new_result : String → ChannelFunding → Run BridgeError FundChannelResult
  new_result channel_id funding = do
    capacity ← stored_capacity p host fuel now funding
    some (ok (record { channel_id = channel_id; capacity = capacity; already_known = false }))

  fund_new :
      String
      → MemoryStorage
      → Run BridgeError ValidatedNewChannel
      → Option (MemoryStorage × Result BridgeError FundChannelResult)
  unfolding record_validated_new_channel new_result
  fund_new channel_id s none = none
  fund_new channel_id s (some (err e)) = some (s, err e)
  fund_new channel_id s (some (ok validated)) =
      unchanged (record_validated_new_channel validated s) (new_result channel_id validated.funding)

  unfoldable pub fund_at :
      String
      → ℕ
      → String
      → Option p.json.Value
      → Option (List Proof)
      → MemoryStorage
      → Run BridgeError (Option ChannelState)
      → Option (MemoryStorage × Result BridgeError FundChannelResult)
  unfolding validate_existing_channel_funding validated_new fund_new
  fund_at channel_id balance signature params funding_proofs s none = none
  fund_at channel_id balance signature params funding_proofs s (some (err e)) = some (s, err e)
  fund_at channel_id balance signature params funding_proofs s (some (ok (some state))) =
      unchanged s (validate_existing_channel_funding channel_id balance signature s)
  fund_at channel_id balance signature params funding_proofs s (some (ok none)) =
      fund_new channel_id s (validated_new channel_id balance signature params funding_proofs s)

  -- The guards of `fund_channel`.
  unfoldable pub fund_guards :
      String → String → MemoryStorage → Run BridgeError (Option ChannelState)
  fund_guards channel_id signature s = do
    give (reject_empty channel_id "missing channel_id")
    give (reject_empty signature "missing signature")
    give (payable (get_state s channel_id))

  unfoldable pub fund_channel :
      String
      → ℕ
      → String
      → Option p.json.Value
      → Option (List Proof)
      → MemoryStorage
      → Option (MemoryStorage × Result BridgeError FundChannelResult)
  unfolding fund_guards fund_at
  fund_channel channel_id balance signature params funding_proofs s =
      fund_at channel_id balance signature params funding_proofs s
        (fund_guards channel_id signature s)
