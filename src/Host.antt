-- ===== src/Host.antt =====
-- The receiver's host over the memory store: `ConfigurableHost` of
-- crates/cdk-spilman/src/configurable_host.rs. A method that only logs a storage error gives the store
-- that it leaves.
pub mod Pricing
use cashu_spilman_channels.Prelude.{
  ℕ, ◌+◌, ◌*◌, ◌/◌, ◌-◌, ◌^◌, min, max, String, Bool, true, false, not, ◌&&◌, ◌||◌, Option, none,
  some, List, [], ◌∷◌, Result, ok, err, ◌>>=◌, ◌>>◌, ok_or, reject_if, if◌then◌else◌, str_eq,
  is_some, unwrap_or, Map, get, empty, from_entries, Eq, string_eq, pair_eq,
}
use cashu_spilman_channels.Json.{Json, and_then, ok_of, str_field}
use cashu_spilman_channels.Amounts.{u64, div_ceil}
use cashu_spilman_channels.Storage.Records.{
  ChannelFunding, PaymentProof, ClosingData, ClosedDataView, KeysetCacheEntry, UsageMap,
  ChannelState,
}
use cashu_spilman_channels.Storage.{MemoryStorage, StorageError}
use cashu_spilman_channels.Storage

pub record UnitPricingConfig : Type 0 where
  pub min_capacity : ℕ
  pub max_amount_per_output : Option ℕ
  pub variables : Map String ℕ

pub record ConfigurableHostConfig : Type 0 where
  pub mints : Map String (List String)
  pub min_expiry_seconds : ℕ
  pub pricing_scale : ℕ
  pub pricing : Map String UnitPricingConfig

pub record ConfigurableHost : Type 0 where
  pub config : ConfigurableHostConfig
  pub server_pubkey : String
  pub server_secret_hex : String

pub record ChannelPolicy : Type 0 where
  pub min_expiry_in_seconds : ℕ
  pub min_capacity : ℕ
  pub max_amount_per_output : Option ℕ

pub data HostError : Type 0 where
  invalid_secret_key units_missing_from_pricing : HostError

-- `u64::saturating_add` and `u64::saturating_mul`
abbrev pub saturate : ℕ → ℕ
saturate n = min n (2 ^ 64 - 1)

-- A unit of the list without pricing, as `trusted_units.difference(&priced_units)` has it.
unpriced : Map String UnitPricingConfig → List String → Bool
unpriced pricing [] = false
unpriced pricing (unit ∷ units) = not (is_some (get pricing unit)) || unpriced pricing units

any_unpriced : Map String UnitPricingConfig → List (String × List String) → Bool
any_unpriced pricing [] = false
any_unpriced pricing ((mint, units) ∷ mints) = unpriced pricing units || any_unpriced pricing mints

-- `SecretKey::from_hex`, `.public_key()` is a parameter.
unfoldable pub with_storage :
    (String → Option String) → ConfigurableHostConfig → String → Result HostError ConfigurableHost
unfolding unpriced any_unpriced
with_storage public_key config secret_key_hex = do
  server_pubkey ← ok_or (public_key secret_key_hex) invalid_secret_key
  reject_if (any_unpriced config.pricing config.mints.entries) units_missing_from_pricing
  ok (record { config = config; server_pubkey = server_pubkey; server_secret_hex = secret_key_hex })

unfoldable pub pricing_scale : ConfigurableHost → ℕ
pricing_scale host = max host.config.pricing_scale 1

-- The sum over the priced variables, in the order of the map.
unfoldable pub add_prices : List (String × ℕ) → UsageMap → UsageMap → ℕ → ℕ
add_prices [] accumulated pending total = total
add_prices ((var_name, price) ∷ rest) accumulated pending total =
    let acc = unwrap_or (get accumulated var_name) 0 in
    let pend = unwrap_or (get pending var_name) 0 in
    add_prices rest accumulated pending (saturate (total + saturate (u64 (acc + pend) * price)))

-- `if let Err(e) = … { tracing::error!(…); return; }` and what follows it.
abbrev pub or_logged :
    MemoryStorage
    → Result StorageError MemoryStorage
    → (MemoryStorage → MemoryStorage)
    → MemoryStorage
or_logged s (ok t) rest = rest t
or_logged s (err e) rest = s

abbrev pub incremented : String → Option UsageMap → MemoryStorage → MemoryStorage
incremented id none s = s
incremented id (some increments) s = or_logged s (Storage.increment_usage id increments s) (λ t. t)

-- The amount for a unit's pricing: `match self.config.pricing.get(&unit)` and what follows it.
unfoldable pub due_for : ConfigurableHost → Option UnitPricingConfig → UsageMap → UsageMap → ℕ
unfolding pricing_scale add_prices
due_for host none accumulated pending = 0
due_for host (some unit_pricing) accumulated pending =
    div_ceil (add_prices unit_pricing.variables.entries accumulated pending 0) (pricing_scale host)

module _ (json : Json) (host : ConfigurableHost) where
  unfoldable pub channel_unit : String → MemoryStorage → Option String
  channel_unit id s = and_then (Storage.get_funding id s) (λ funding.
      and_then (ok_of (json.from_str funding.params_json)) (λ params. str_field json params "unit"))

  -- `serde_json::from_str(context_json).ok()`
  abbrev pub context_usage : String → Option UsageMap
  context_usage context_json =
      and_then (json.usage_entries context_json) (λ l. some (from_entries l))

  unfoldable pub compute_amount_due : String → Option String → MemoryStorage → ℕ
  unfolding channel_unit
  compute_amount_due id context_json s =
      due_for host (get host.config.pricing (unwrap_or (channel_unit id s) ""))
        (unwrap_or (Storage.get_usage id s) empty)
        (unwrap_or (and_then context_json context_usage) empty)

  unfoldable pub apply_usage_increments : String → String → MemoryStorage → MemoryStorage
  apply_usage_increments id context_json s = incremented id (context_usage context_json) s

  unfoldable pub receiver_key_is_acceptable : String → Bool
  receiver_key_is_acceptable receiver_pubkey = str_eq receiver_pubkey host.server_pubkey

  any_eq : List String → String → Bool
  any_eq [] unit = false
  any_eq (u ∷ units) unit = str_eq u unit || any_eq units unit

  unfoldable pub mint_and_keyset_is_acceptable : String → String → MemoryStorage → Bool
  unfolding any_eq
  mint_and_keyset_is_acceptable mint keyset_id s = elim (get host.config.mints mint) [
    | none ↦ false
    | some trusted_units ↦ elim (Storage.get_keyset mint keyset_id s) [
      | none ↦ false
      | some entry ↦ entry.active && any_eq trusted_units entry.unit
    ]
  ]

  unfoldable pub save_funding :
      String → ChannelFunding → PaymentProof → MemoryStorage → MemoryStorage
  save_funding id funding initial_payment s =
      or_logged s (Storage.save_funding id funding s)
        (λ t. or_logged t (Storage.update_balance id initial_payment t) (λ u. u))

  unfoldable pub record_payment : String → PaymentProof → String → MemoryStorage → MemoryStorage
  unfolding apply_usage_increments
  record_payment id payment context s =
      or_logged s (Storage.update_balance id payment s) (λ t. apply_usage_increments id context t)

  unfoldable pub mark_channel_closing :
      String → ℕ → PaymentProof → MemoryStorage → Result StorageError MemoryStorage
  mark_channel_closing id expiry_timestamp payment s =
      Storage.mark_closing id
        (record {
          expiry_timestamp = expiry_timestamp;
          balance = payment.balance;
          signature = payment.signature;
        })
        s

  unfoldable pub get_channel_policy : String → Option ChannelPolicy
  get_channel_policy unit = elim (get host.config.pricing unit) [
    | none ↦ none
    | some cfg ↦ some (record {
      min_expiry_in_seconds = host.config.min_expiry_seconds;
      min_capacity = cfg.min_capacity;
      max_amount_per_output = cfg.max_amount_per_output;
    })
  ]

  unfoldable pub has_keysets_for_unit : String → String → MemoryStorage → Bool
  has_keysets_for_unit mint unit s = elim (Storage.list_keysets_for_unit mint unit s) [
    | [] ↦ false
    | _ ∷ _ ↦ true
  ]

  unfoldable pub get_keyset_info : String → String → MemoryStorage → Option String
  get_keyset_info mint keyset_id s = elim (Storage.get_keyset mint keyset_id s) [
    | none ↦ none
    | some entry ↦ some entry.info_json
  ]

  unfoldable pub mark_channel_closed :
      String → ℕ → ℕ → String → String → ℕ → ℕ → MemoryStorage → Result StorageError MemoryStorage
  mark_channel_closed id expiry_timestamp balance receiver_proofs_json sender_proofs_json
        receiver_sum sender_sum s =
      Storage.mark_closed id
        (record {
          expiry_timestamp = expiry_timestamp;
          closed_amount = balance;
          value_after_stage1 = u64 (receiver_sum + sender_sum);
          receiver_sum = receiver_sum;
          sender_sum = sender_sum;
          receiver_proofs_json = receiver_proofs_json;
          sender_proofs_json = sender_proofs_json;
        })
        s
