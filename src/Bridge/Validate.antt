-- ===== src/Bridge/Validate.antt =====
-- The validations of crates/cdk-spilman/src/bridge.rs: a payment on a channel that the store knows, and
-- the funding of a new one.
use cashu_spilman_channels.Prelude.{
  ℕ, ◌+◌, String, Bool, true, false, not, ◌&&◌, Option, none, some, List, [], ◌∷◌, length, Result,
  ok, err, map_err, ok_or, reject_if, ltb, ◌==◌, if◌then◌else◌, str_eq, unwrap_or,
}
use cashu_spilman_channels.Prelude.Runs.{Run, ◌>>=◌, ◌>>◌, map_error}
use cashu_spilman_channels.Json.{str_field, u64_field}
use cashu_spilman_channels.Packages.{Packages, Proof}
use cashu_spilman_channels.Amounts.{u64}
use cashu_spilman_channels.Channel.{ChannelParameters}
use cashu_spilman_channels.Channel.Parse.{
  give, from_json_with_channel_secret, parse_keyset_info_from_json,
}
use cashu_spilman_channels.Channel.Verification.{
  ChannelVerificationError, establish, verify_sender_signature, verify_valid_channel,
}
use cashu_spilman_channels.Storage.Records.{ChannelFunding, ChannelState, opened}
use cashu_spilman_channels.Storage.{MemoryStorage, get_state, get_funding}
use cashu_spilman_channels.Host.{
  ConfigurableHost, compute_amount_due, receiver_key_is_acceptable, mint_and_keyset_is_acceptable,
  get_channel_policy, get_keyset_info,
}
use cashu_spilman_channels.Bridge.{
  Cause, text, unparsed, unestablished, unsigned, unverified, BridgeError, invalid_request,
  channel_closed, channel_closing, server_misconfigured, capacity_too_small, expiry_too_soon,
  max_amount_exceeded, balance_exceeds_capacity, unsupported_unit, channel_id_mismatch,
  validation_failed, unknown_channel, invalid_signature, insufficient_balance, internal,
  receiver_key_not_acceptable, mint_or_keyset_not_acceptable, PaymentValidationResult,
  ValidatedNewChannel, is_empty,
}

-- What the checks of the parameters hand on to the checks of the channel.
pub record Terms : Type 0 where
  pub capacity : ℕ
  pub sender_pubkey_hex : String
  pub keyset_info_json : String

-- `if let Some(max) = … { if max > 0 && maximum_amount > max { … } }`
unfoldable pub exceeds : Option ℕ → ℕ → Result BridgeError Unit
exceeds none amount = ok tt
exceeds (some max_allowed) amount =
    reject_if (ltb 0 max_allowed && ltb max_allowed amount) (max_amount_exceeded amount max_allowed)

-- The answer of `validate_payment_request` for a state.
abbrev pub payable : Option ChannelState → Result BridgeError (Option ChannelState)
payable (some ChannelState.closed) = err channel_closed
payable (some ChannelState.closing) = err channel_closing
payable (some opened) = ok (some opened)
payable none = ok none

abbrev pub reject_empty : String → String → Result BridgeError Unit
reject_empty s message = reject_if (is_empty s) (invalid_request (text message))

-- `hex::decode(…)?.try_into()?` to 32 bytes
abbrev pub sized : List ℕ → Result Cause (List ℕ)
sized bytes = if length bytes == 32 then ok bytes else err (text "Invalid secret length")

abbrev pub is_clean : List ChannelVerificationError → Bool
is_clean [] = true
is_clean (e ∷ errors) = false

module _ (p : Packages) (host : ConfigurableHost) (fuel now : ℕ) where
  pub decode_secret : String → Run Cause (List ℕ)
  decode_secret secret_hex = do
    bytes ← give (map_err text (p.hex_decode secret_hex))
    give (sized bytes)

  -- `parse_keyset_info_from_json` and then `from_json_with_channel_secret`
  stored_params : String → String → List ℕ → Run Cause ChannelParameters
  stored_params params_json keyset_json secret = do
    info ← map_error unparsed (parse_keyset_info_from_json p keyset_json)
    map_error unparsed (from_json_with_channel_secret p params_json info secret)

  unfoldable pub verify_signature : ChannelFunding → ℕ → String → Run Cause Unit
  unfolding decode_secret stored_params
  verify_signature funding balance signature = do
    secret ← decode_secret funding.channel_secret_hex
    params ← stored_params funding.params_json funding.keyset_info_json secret
    proofs ← give (map_err text (p.proofs_from_str funding.funding_proofs_json))
    channel ← give (map_err unestablished (establish params proofs))
    sig ← give (map_err text (p.parse_signature signature))
    map_error unsigned (verify_sender_signature p fuel balance sig channel)

  unfoldable pub validate_payment_request :
      String → String → MemoryStorage → Run BridgeError (Option ChannelState)
  validate_payment_request channel_id signature s = do
    give (reject_empty channel_id "missing channel_id")
    give (reject_empty signature "missing signature")
    give (payable (get_state s channel_id))

  -- `params_val["capacity"].as_u64().unwrap_or(0)` of the stored parameters
  unfoldable pub stored_capacity : ChannelFunding → Run BridgeError ℕ
  stored_capacity funding = do
    params_val ← give (map_err (λ e. internal (text e)) (p.json.from_str funding.params_json))
    some (ok (unwrap_or (u64_field p.json params_val "capacity") 0))

  abbrev known : Option ChannelState → Run BridgeError Unit
  known none = some (err unknown_channel)
  known (some state) = some (ok tt)

  unfoldable pub validate_payment :
      String → ℕ → String → String → MemoryStorage → Run BridgeError PaymentValidationResult
  unfolding validate_payment_request stored_capacity
  validate_payment channel_id balance signature context s = do
    state ← validate_payment_request channel_id signature s
    known state
    funding ← give (ok_or (get_funding channel_id s) unknown_channel)
    capacity ← stored_capacity funding
    give (reject_if (ltb capacity balance) (balance_exceeds_capacity balance capacity))
    map_error invalid_signature (verify_signature funding balance signature)
    let amount_due = compute_amount_due p.json host channel_id (some context) s
    give (reject_if (ltb balance amount_due) (insufficient_balance balance amount_due))
    some (
        ok (record {
          channel_id = channel_id;
          balance = balance;
          amount_due = amount_due;
          capacity = capacity;
          sender_signature = signature;
        }))

  abbrev require : {A : Type 0} → Option A → String → Run BridgeError A
  require o message = give (ok_or o (invalid_request (text message)))

  -- The parameters of a new channel, with the secret that the host computes.
  unfoldable pub new_params : p.json.Value → String → String → Run BridgeError ChannelParameters
  unfolding decode_secret
  new_params params_val channel_secret_hex keyset_info_json = do
    secret ← map_error internal (decode_secret channel_secret_hex)
    info ←
        map_error (λ e. invalid_request (unparsed e))
          (parse_keyset_info_from_json p keyset_info_json)
    map_error (λ e. internal (unparsed e))
        (from_json_with_channel_secret p (p.json.to_string params_val) info secret)

  unfoldable pub verified : List Proof → ChannelParameters → Run BridgeError Unit
  verified proofs params = elim (verify_valid_channel p proofs params) [
    | none ↦ none
    | some errors ↦ give (reject_if (not (is_clean errors)) (validation_failed (unverified errors)))
  ]

  -- The checks of a new channel's parameters against the host's configuration.
  unfoldable pub funding_terms : p.json.Value → ℕ → MemoryStorage → Run BridgeError Terms
  unfolding exceeds
  funding_terms params_val balance s = do
    unit ← require (str_field p.json params_val "unit") "Missing unit"
    capacity ← require (u64_field p.json params_val "capacity") "Missing capacity"
    expiry_timestamp ←
        require (u64_field p.json params_val "expiry_timestamp") "Missing expiry_timestamp"
    maximum_amount ←
        require (u64_field p.json params_val "maximum_amount_for_one_output")
          "Missing maximum_amount_for_one_output"
    receiver_pubkey_hex ←
        require (str_field p.json params_val "receiver_pubkey") "Missing receiver_pubkey"
    receiver_pubkey ←
        give (map_err (λ e. invalid_request (text e)) (p.public_key_from_hex receiver_pubkey_hex))
    give (
        reject_if (not (receiver_key_is_acceptable p.json host receiver_pubkey))
          receiver_key_not_acceptable)
    sender_pubkey_hex ←
        require (str_field p.json params_val "sender_pubkey") "Missing sender_pubkey"
    keyset_id_str ← require (str_field p.json params_val "keyset_id") "Missing keyset_id"
    keyset_id ← give (map_err (λ e. invalid_request (text e)) (p.parse_id keyset_id_str))
    mint ← require (str_field p.json params_val "mint") "Missing mint"
    give (
        reject_if (not (mint_and_keyset_is_acceptable p.json host mint keyset_id s))
          mint_or_keyset_not_acceptable)
    keyset_info_json ←
        give (ok_or (get_keyset_info p.json host mint keyset_id s) mint_or_keyset_not_acceptable)
    policy ← give (ok_or (get_channel_policy p.json host unit) (unsupported_unit unit))
    give (
        reject_if (ltb capacity policy.min_capacity)
          (capacity_too_small capacity policy.min_capacity))
    give (exceeds policy.max_amount_per_output maximum_amount)
    let min_expiry = u64 (now + policy.min_expiry_in_seconds)
    give (
        reject_if (ltb expiry_timestamp min_expiry)
          (expiry_too_soon expiry_timestamp min_expiry now))
    give (reject_if (ltb capacity balance) (balance_exceeds_capacity balance capacity))
    some (
        ok (record {
          capacity = capacity;
          sender_pubkey_hex = sender_pubkey_hex;
          keyset_info_json = keyset_info_json;
        }))

  -- The checks of the channel itself.
  unfoldable pub new_funding :
      String → p.json.Value → List Proof → ℕ → String → Terms → Run BridgeError ValidatedNewChannel
  unfolding new_params verified verify_signature
  new_funding channel_id params_val proofs balance signature terms = do
    channel_secret_hex ← give (
        map_err (λ e. server_misconfigured (text e))
          (p.channel_secret host.server_secret_hex terms.sender_pubkey_hex))
    params ← new_params params_val channel_secret_hex terms.keyset_info_json
    give (reject_if (not (str_eq (p.channel_id params) channel_id)) channel_id_mismatch)
    verified proofs params
    proofs_json ← give (map_err (λ e. internal (text e)) (p.proofs_to_string proofs))
    let funding : ChannelFunding = record {
      params_json = p.json.to_string params_val;
      funding_proofs_json = proofs_json;
      channel_secret_hex = channel_secret_hex;
      keyset_info_json = terms.keyset_info_json;
    }
    map_error invalid_signature (verify_signature funding balance signature)
    some (
        ok (record {
          channel_id = channel_id;
          balance = balance;
          capacity = terms.capacity;
          sender_signature = signature;
          funding = funding;
        }))

  unfoldable pub validate_new_channel_funding :
      String
      → p.json.Value
      → List Proof
      → ℕ
      → String
      → MemoryStorage
      → Run BridgeError ValidatedNewChannel
  unfolding funding_terms new_funding
  validate_new_channel_funding channel_id params_val proofs balance signature s = do
    terms ← funding_terms params_val balance s
    new_funding channel_id params_val proofs balance signature terms
