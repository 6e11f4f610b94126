-- ===== src/Storage/Records.antt =====
-- The records of crates/cdk-spilman/src/bridge.rs and crates/cdk-spilman/src/configurable_host.rs that
-- a receiver stores for a channel.
use cashu_spilman_channels.Prelude.{ℕ, String, Bool, true, false, Option, none, some, Map}

pub record ChannelFunding : Type 0 where
  pub params_json : String
  pub funding_proofs_json : String
  pub channel_secret_hex : String
  pub keyset_info_json : String

pub record PaymentProof : Type 0 where
  pub balance : ℕ
  pub signature : String

pub data ChannelState : Type 0 where
  opened closing closed : ChannelState

pub record ClosingData : Type 0 where
  pub expiry_timestamp : ℕ
  pub balance : ℕ
  pub signature : String

pub record ClosedDataView : Type 0 where
  pub expiry_timestamp : ℕ
  pub closed_amount : ℕ
  pub value_after_stage1 : ℕ
  pub receiver_sum : ℕ
  pub sender_sum : ℕ
  pub receiver_proofs_json : String
  pub sender_proofs_json : String

pub record KeysetCacheEntry : Type 0 where
  pub info_json : String
  pub active : Bool
  pub unit : String

abbrev pub UsageMap : Type 0
UsageMap = Map String ℕ

state_eq : ChannelState → ChannelState → Bool
state_eq opened opened = true
state_eq closing closing = true
state_eq closed closed = true
state_eq _ _ = false

-- `state == Some(expected)`
unfoldable pub same_state : Option ChannelState → ChannelState → Bool
unfolding state_eq
same_state none expected = false
same_state (some state) expected = state_eq state expected
