-- ===== src/Bridge/Close/Select.antt =====
-- The keyset of a close's outputs: `select_close_output_keyset_from_funding`,
-- `close_mint_unit_for_channel` and `select_close_output_keyset_for_channel` of
-- crates/cdk-spilman/src/bridge.rs.
use cashu_spilman_channels.Prelude.{
  ℕ, String, Bool, ◌&&◌, Option, none, some, List, [], ◌∷◌, ok, err, map_err, ok_or, if◌then◌else◌,
  str_eq,
}
use cashu_spilman_channels.Prelude.Runs.{Run, ◌>>=◌, map_error}
use cashu_spilman_channels.Packages.{Packages}
use cashu_spilman_channels.Amounts.{KeysetInfo, is_unexpired_at}
use cashu_spilman_channels.Channel.{ChannelParameters}
use cashu_spilman_channels.Channel.Parse.{
  ParseError, give, from_json_with_channel_secret, parse_keyset_info_from_json,
}
use cashu_spilman_channels.Mint.Retry.{SelectedOutputKeyset}
use cashu_spilman_channels.Storage.Records.{ChannelFunding}
use cashu_spilman_channels.Storage.{MemoryStorage, get_funding, get_active_keyset_ids}
use cashu_spilman_channels.Host.{ConfigurableHost, get_keyset_info}
use cashu_spilman_channels.Bridge.{Cause, text, unparsed, BridgeError, internal}
use cashu_spilman_channels.Bridge.Validate.{decode_secret}
use cashu_spilman_channels.Bridge.Close.{
  CloseParts, ClosePreparationError, because, internal_error, from_bridge_error,
}

abbrev pub no_usable_keyset : BridgeError
no_usable_keyset = internal (text "No usable active close keysets")

abbrev pub missing_funding : ClosePreparationError
missing_funding = internal_error (because (text "Missing funding"))

module _ (p : Packages) (host : ConfigurableHost) (fuel now : ℕ) where
  -- The parameters of a stored funding.
  unfoldable pub funding_params : ChannelFunding → Run Cause ChannelParameters
  funding_params funding = do
    secret ← decode_secret p host fuel now funding.channel_secret_hex
    info ← map_error unparsed (parse_keyset_info_from_json p funding.keyset_info_json)
    map_error unparsed (from_json_with_channel_secret p funding.params_json info secret)

  unfoldable pub is_usable : ChannelParameters → String → KeysetInfo → Bool
  is_usable params id info =
      str_eq info.keyset_id id && (str_eq info.unit params.unit && is_unexpired_at info now)

  -- `.then_some(info)`, or the next id's keyset
  usable_or :
      ChannelParameters
      → String
      → Run ParseError KeysetInfo
      → Run BridgeError KeysetInfo
      → Run BridgeError KeysetInfo
  unfolding is_usable
  usable_or params id none rest = none
  usable_or params id (some (err e)) rest = rest
  usable_or params id (some (ok info)) rest =
      if is_usable params id info then some (ok info) else rest

  listed_or :
      ChannelParameters
      → String
      → Option String
      → Run BridgeError KeysetInfo
      → Run BridgeError KeysetInfo
  unfolding usable_or
  listed_or params id none rest = rest
  listed_or params id (some json) rest =
      usable_or params id (parse_keyset_info_from_json p json) rest

  -- `active.iter().filter_map(…).next()`
  unfoldable pub first_usable :
      ChannelParameters → MemoryStorage → List String → Run BridgeError KeysetInfo
  unfolding listed_or
  first_usable params s [] = some (err no_usable_keyset)
  first_usable params s (id ∷ ids) =
      let rest = first_usable params s ids in
      listed_or params id (get_keyset_info p.json host params.mint id s) rest

  unfoldable pub select_close_output_keyset_from_funding :
      ChannelFunding → MemoryStorage → Run BridgeError KeysetInfo
  unfolding funding_params first_usable
  select_close_output_keyset_from_funding funding s = do
    params ← map_error internal (funding_params funding)
    first_usable params s (get_active_keyset_ids params.mint params.unit s)

  unfoldable pub close_mint_unit_for_channel :
      String → MemoryStorage → Run ClosePreparationError (String × String)
  close_mint_unit_for_channel channel_id s = do
    funding ← give (ok_or (get_funding channel_id s) missing_funding)
    params ← map_error (λ e. internal_error (because e)) (funding_params funding)
    some (ok (params.mint, params.unit))

module _ (p : Packages) (parts : CloseParts p) (no_payment_proof : Cause → Bool)
    (host : ConfigurableHost) (fuel now : ℕ) where
  unfoldable pub select_close_output_keyset_for_channel :
      String → MemoryStorage → Run ClosePreparationError SelectedOutputKeyset
  select_close_output_keyset_for_channel channel_id s = do
    funding ← give (ok_or (get_funding channel_id s) missing_funding)
    keyset ←
        map_error (from_bridge_error no_payment_proof)
          (select_close_output_keyset_from_funding p host fuel now funding s)
    info_json ←
        give (map_err (λ e. internal_error (because (text e))) (parts.keyset_to_string keyset))
    some (ok (record { id = keyset.keyset_id; info_json = info_json }))

  unfoldable pub selected_output_keyset_info :
      SelectedOutputKeyset → Run ClosePreparationError KeysetInfo
  selected_output_keyset_info selected =
      map_error (λ e. internal_error (because (unparsed e)))
        (parse_keyset_info_from_json p selected.info_json)
