-- ===== src/Bridge.antt =====
-- The receiver's bridge: payments and first-use funding of crates/cdk-spilman/src/bridge.rs, over
-- `ConfigurableHost`. `now` is the host's clock and `fuel` bounds the search for an output split.
pub mod Validate
pub mod Process
pub mod Backed
pub mod Payments
pub mod Funded
pub mod Refused
pub mod Close
pub mod Response
use cashu_spilman_channels.Prelude.{
  ℕ, ◌+◌, String, Bool, true, false, not, ◌&&◌, ◌||◌, Option, none, some, List, [], ◌∷◌, length,
  Result, ok, err, map_err, ok_or, reject_if, leb, ltb, ◌==◌, ◌!=◌, if◌then◌else◌, str_eq,
  unwrap_or,
}
use cashu_spilman_channels.Prelude.Runs.{Run, ◌>>=◌, ◌>>◌, map_error}
use cashu_spilman_channels.Json.{Json, str_field, u64_field}
use cashu_spilman_channels.Packages.{Packages, Proof}
use cashu_spilman_channels.Amounts.{u64}
use cashu_spilman_channels.Channel.{ChannelParameters, ChannelError}
use cashu_spilman_channels.Swap.Request.{RequestError}
use cashu_spilman_channels.Channel.Parse.{
  ParseError, give, from_json_with_channel_secret, parse_keyset_info_from_json,
}
use cashu_spilman_channels.Channel.Verification.{
  ChannelVerificationError, EstablishedChannel, EstablishError, SignatureError, establish,
  verify_sender_signature, verify_valid_channel,
}
use cashu_spilman_channels.Storage.Records.{
  ChannelFunding, PaymentProof, ChannelState, opened, closing, closed,
}
use cashu_spilman_channels.Storage.{MemoryStorage, get_state, get_funding}
use cashu_spilman_channels.Host.{
  ConfigurableHost, ChannelPolicy, compute_amount_due, receiver_key_is_acceptable,
  mint_and_keyset_is_acceptable, save_funding, record_payment, get_channel_policy, get_keyset_info,
}

-- An error's text is kept as the value that it is made from.
pub data Cause : Type 0 where
  text : String → Cause
  unparsed : ParseError → Cause
  unestablished : EstablishError → Cause
  unsigned : SignatureError → Cause
  unverified : List ChannelVerificationError → Cause
  uncommitted : ChannelError → Cause
  unrequested : RequestError → Cause

pub data BridgeError : Type 0 where
  invalid_request : Cause → BridgeError
  channel_closed channel_closing : BridgeError
  server_misconfigured : Cause → BridgeError
  capacity_too_small : ℕ → ℕ → BridgeError
  expiry_too_soon : ℕ → ℕ → ℕ → BridgeError
  max_amount_exceeded : ℕ → ℕ → BridgeError
  balance_exceeds_capacity : ℕ → ℕ → BridgeError
  unsupported_unit : String → BridgeError
  channel_id_mismatch : BridgeError
  validation_failed : Cause → BridgeError
  unknown_channel : BridgeError
  invalid_signature : Cause → BridgeError
  insufficient_balance balance_mismatch : ℕ → ℕ → BridgeError
  internal : Cause → BridgeError
  receiver_key_not_acceptable mint_or_keyset_not_acceptable : BridgeError

pub record PaymentSuccess : Type 0 where
  pub channel_id : String
  pub balance : ℕ
  pub amount_due : ℕ
  pub capacity : ℕ

pub record PaymentValidationResult : Type 0 where
  pub channel_id : String
  pub balance : ℕ
  pub amount_due : ℕ
  pub capacity : ℕ
  pub sender_signature : String

pub record FundChannelResult : Type 0 where
  pub channel_id : String
  pub capacity : ℕ
  pub already_known : Bool

pub record ValidatedNewChannel : Type 0 where
  pub channel_id : String
  pub balance : ℕ
  pub capacity : ℕ
  pub sender_signature : String
  pub funding : ChannelFunding

abbrev pub is_empty : String → Bool
is_empty s = str_eq s ""
