-- ===== src/Bridge/Funded.antt =====
-- What a funding is that `validate_new_channel_funding` accepts.
use cashu_spilman_channels.Prelude.{
  ℕ, ◌+◌, ◌≤◌, String, none, some, List, [], Result, ok, err, true, ◌<◌, ◌≡◌, arith, str_eq_iff,
  Option-cases, Result-cases, inl, inr, unwrap_or,
}
use cashu_spilman_channels.Prelude.Runs.{Run, map_error, Run-cases, >>=-ok}
use cashu_spilman_channels.Json.{str_field, u64_field}
use cashu_spilman_channels.Packages.{Packages, Proof}
use cashu_spilman_channels.Amounts.{u64}
use cashu_spilman_channels.Channel.{ChannelParameters}
use cashu_spilman_channels.Channel.Parse.{
  parse_keyset_info_from_json, from_json_with_channel_secret,
}
use cashu_spilman_channels.Channel.Parsed.{from_json-IsAccepted}
use cashu_spilman_channels.Channel.Commitment.{IsAccepted}
use cashu_spilman_channels.Channel.Verification.Sound.{Valid, verify_valid_channel-Valid}
use cashu_spilman_channels.Channel.Verification.{verify_valid_channel}
use cashu_spilman_channels.Storage.{MemoryStorage}
use cashu_spilman_channels.Host.{
  ConfigurableHost, ChannelPolicy, get_channel_policy, receiver_key_is_acceptable,
  mint_and_keyset_is_acceptable, get_keyset_info,
}
use cashu_spilman_channels.Bridge.{ValidatedNewChannel, internal, invalid_request, unparsed}
use cashu_spilman_channels.Bridge.Validate.{
  decode_secret, verify_signature, validate_new_channel_funding, new_params, verified, Terms,
  exceeds, funding_terms, new_funding,
}

abbrev or_empty : Result String String → String
or_empty (ok s) = s
or_empty (err e) = ""

module _ (p : Packages) (host : ConfigurableHost) (fuel now : ℕ) where
  -- Parameters that the receiver's configuration allows.
  pub record Allowed (params_val : p.json.Value) (balance : ℕ) (s : MemoryStorage) (terms : Terms)
      : Type 0 where
    pub capacity : u64_field p.json params_val "capacity" ≡ some terms.capacity
    pub within : balance ≤ terms.capacity
    pub unit : String
    pub has_unit : str_field p.json params_val "unit" ≡ some unit
    pub policy : ChannelPolicy
    pub has_policy : get_channel_policy p.json host unit ≡ some policy
    pub enough : policy.min_capacity ≤ terms.capacity
    pub expiry : ℕ
    pub has_expiry : u64_field p.json params_val "expiry_timestamp" ≡ some expiry
    pub late_enough : u64 (now + policy.min_expiry_in_seconds) ≤ expiry
    pub maximum_amount : ℕ
    pub has_maximum :
        u64_field p.json params_val "maximum_amount_for_one_output" ≡ some maximum_amount
    pub small_outputs :
        (max_allowed : ℕ)
        → policy.max_amount_per_output ≡ some max_allowed
        → 0 < max_allowed
        → maximum_amount ≤ max_allowed
    pub receiver_hex : String
    pub has_receiver : str_field p.json params_val "receiver_pubkey" ≡ some receiver_hex
    pub receiver : String
    pub is_key : p.public_key_from_hex receiver_hex ≡ ok receiver
    pub own_key : receiver_key_is_acceptable p.json host receiver ≡ true
    pub has_sender : str_field p.json params_val "sender_pubkey" ≡ some terms.sender_pubkey_hex
    pub mint : String
    pub has_mint : str_field p.json params_val "mint" ≡ some mint
    pub keyset_text : String
    pub has_keyset : str_field p.json params_val "keyset_id" ≡ some keyset_text
    pub keyset_id : String
    pub is_id : p.parse_id keyset_text ≡ ok keyset_id
    pub approved : mint_and_keyset_is_acceptable p.json host mint keyset_id s ≡ true
    pub keyset_info : get_keyset_info p.json host mint keyset_id s ≡ some terms.keyset_info_json

  funding_terms-Allowed :
      (params_val : p.json.Value) (balance : ℕ) (s : MemoryStorage) {terms : Terms}
      → funding_terms p host fuel now params_val balance s ≡ some (ok terms)
      → Allowed params_val balance s terms
  unfolding funding_terms
  funding_terms-Allowed params_val balance s h =
      elim (Option-cases (str_field p.json params_val "unit")) [
        | inl missing ↦ absurd (ground arith)
        | inr has_unit ↦ elim (Option-cases (get_channel_policy p.json host has_unit.0)) [
          | inl missing ↦ absurd (ground arith)
          | inr has_policy ↦ record {
            capacity = ground arith;
            within = ground arith;
            unit = has_unit.0;
            has_unit = has_unit.1;
            policy = has_policy.0;
            has_policy = has_policy.1;
            enough = ground arith;
            expiry = unwrap_or (u64_field p.json params_val "expiry_timestamp") 0;
            has_expiry = ground arith;
            late_enough = ground arith;
            maximum_amount =
                unwrap_or (u64_field p.json params_val "maximum_amount_for_one_output") 0;
            has_maximum = ground arith;
            small_outputs = λ max_allowed limited positive. unfold exceeds in ground arith;
            receiver_hex = unwrap_or (str_field p.json params_val "receiver_pubkey") "";
            has_receiver = ground arith;
            receiver = or_empty (
                p.public_key_from_hex
                  (unwrap_or (str_field p.json params_val "receiver_pubkey") ""));
            is_key = ground arith;
            own_key = ground arith;
            has_sender = ground arith;
            mint = unwrap_or (str_field p.json params_val "mint") "";
            has_mint = ground arith;
            keyset_text = unwrap_or (str_field p.json params_val "keyset_id") "";
            has_keyset = ground arith;
            keyset_id =
                or_empty (p.parse_id (unwrap_or (str_field p.json params_val "keyset_id") ""));
            is_id = ground arith;
            approved = ground arith;
            keyset_info = ground arith;
          }
        ]
      ]

  -- A channel whose funding has been checked.
  pub record Checked (id : String) (params_val : p.json.Value) (proofs : List Proof) (balance : ℕ)
      (signature : String) (v : ValidatedNewChannel) : Type 0 where
    pub same_id : v.channel_id ≡ id
    pub same_balance : v.balance ≡ balance
    pub same_signature : v.sender_signature ≡ signature
    pub params : ChannelParameters
    pub parsed :
        new_params p host fuel now params_val v.funding.channel_secret_hex
          v.funding.keyset_info_json
        ≡ some (ok params)
    pub derived : p.channel_id params ≡ id
    pub valid : verify_valid_channel p proofs params ≡ some []
    pub proofs_kept : p.proofs_to_string proofs ≡ ok v.funding.funding_proofs_json
    pub params_kept : v.funding.params_json ≡ p.json.to_string params_val
    pub signed : verify_signature p host fuel now v.funding balance signature ≡ some (ok tt)

  verified-valid :
      (proofs : List Proof) (params : ChannelParameters)
      → verified p host fuel now proofs params ≡ some (ok tt)
      → verify_valid_channel p proofs params ≡ some []
  unfolding verified
  verified-valid proofs params h = elim (Option-cases (verify_valid_channel p proofs params)) [
    | inl stopped ↦ absurd (ground arith)
    | inr found ↦ let (errors, e) = found in ground arith
  ]

  new_funding-Checked :
      (id : String) (params_val : p.json.Value) (proofs : List Proof) (balance : ℕ)
      (signature : String) (terms : Terms) {v : ValidatedNewChannel}
      → new_funding p host fuel now id params_val proofs balance signature terms ≡ some (ok v)
      → Checked id params_val proofs balance signature v
  unfolding new_funding
  new_funding-Checked id params_val proofs balance signature terms {v} h =
      elim (Result-cases (p.channel_secret host.server_secret_hex terms.sender_pubkey_hex)) [
        | inr failed ↦ absurd (ground arith)
        | inl secret ↦
            elim (Run-cases
              (new_params p host fuel now params_val secret.0 terms.keyset_info_json)) [
                | inl stopped ↦ absurd (ground arith)
                | inr params ↦ record {
                  same_id = ground arith;
                  same_balance = ground arith;
                  same_signature = ground arith;
                  params = params.0;
                  parsed =
                      let same_secret : v.funding.channel_secret_hex ≡ secret.0 = ground arith in
                      let same_keyset : v.funding.keyset_info_json ≡ terms.keyset_info_json =
                        ground arith in
                      rw (same_secret, same_keyset) params.1;
                  derived = ground (arith, str_eq_iff (p.channel_id params.0) id);
                  valid = verified-valid proofs params.0 (ground arith);
                  proofs_kept = ground arith;
                  params_kept = ground arith;
                  signed = ground arith;
                }
              ]
      ]

  map_error-ok :
      {E F A : Type 0} (f : E → F) (m : Run E A) {a : A}
      → map_error f m ≡ some (ok a)
      → m ≡ some (ok a)
  map_error-ok f none h = absurd (ground arith)
  map_error-ok f (some (err e)) h = absurd (ground arith)
  map_error-ok f (some (ok x)) h = ground arith

  new_params-IsAccepted :
      (params_val : p.json.Value) (secret_hex keyset_json : String) {params : ChannelParameters}
      → new_params p host fuel now params_val secret_hex keyset_json ≡ some (ok params)
      → IsAccepted params
  unfolding new_params
  new_params-IsAccepted params_val secret_hex keyset_json {params} h =
      let (secret, _, h1) =
        >>=-ok (map_error internal (decode_secret p host fuel now secret_hex)) _ h in
      let (info, _, h2) =
        >>=-ok
          (map_error (λ e. invalid_request (unparsed e))
            (parse_keyset_info_from_json p keyset_json))
          _ h1 in
      from_json-IsAccepted p (p.json.to_string params_val) info secret (
        map_error-ok (λ e. internal (unparsed e))
          (from_json_with_channel_secret p (p.json.to_string params_val) info secret) h2)

  -- A funding that `validate_new_channel_funding` accepts is allowed by the configuration: its unit has a policy,
  -- and its capacity, its expiry, its largest output and the first balance keep to it; its receiver key is
  -- acceptable; and its mint and keyset are, with keyset data that is known. It comes with parameters whose
  -- derived id is the channel's, that leave the capacity after the fees of both stages, with funding proofs
  -- that verify as exactly the deterministic outputs worth the funding token amount, and with a signature
  -- over the first balance that verifies against what will be stored.
  pub validate_new_channel_funding-Fundable :
      (id : String) (params_val : p.json.Value) (proofs : List Proof) (balance : ℕ)
      (signature : String) (s : MemoryStorage) {v : ValidatedNewChannel}
      → validate_new_channel_funding p host fuel now id params_val proofs balance signature s
        ≡ some (ok v)
      → (terms : Terms) × Allowed params_val balance s terms
        × (c : Checked id params_val proofs balance signature v) × IsAccepted c.params
        × Valid p c.params proofs
  unfolding validate_new_channel_funding
  validate_new_channel_funding-Fundable id params_val proofs balance signature s {v} h =
      let (terms, allowed, rest) =
        >>=-ok (funding_terms p host fuel now params_val balance s) _ h in
      let checked = new_funding-Checked id params_val proofs balance signature terms rest in
      (
        terms,
        funding_terms-Allowed params_val balance s allowed,
        checked,
        new_params-IsAccepted params_val v.funding.channel_secret_hex v.funding.keyset_info_json
            checked.parsed,
        verify_valid_channel-Valid p checked.params proofs checked.valid,
      )
