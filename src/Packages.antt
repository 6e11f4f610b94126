-- ===== src/Packages.antt =====
-- The functions of the packages that the sources call, as an interface: `cashu`, `serde_json`, `hex` and
-- the derivations and signatures over secp256k1. A public key, a keyset id, a unit and a signature are
-- the texts that the packages print for them.
use cashu_spilman_channels.Prelude.{ℕ, String, Bool, Option, List, Result}
use cashu_spilman_channels.Json.{Json}
use cashu_spilman_channels.Channel.{
  CommitmentMode, ChannelParameters, OutputContext, CommitmentOutputs,
}

-- `DleqProof`: the fields but the blinding factor stay with the package.
pub record Dleq : Type 0 where
  pub e : String
  pub s : String
  pub r : String

-- `Proof` of the `cashu` package.
pub record Proof : Type 0 where
  pub amount : ℕ
  pub keyset_id : String
  pub secret : String
  pub c : String
  pub witness : Option String
  pub dleq : Option Dleq
  pub p2pk_e : Option String

pub record Packages : Type 1 where
  pub json : Json
  -- `serde_json::from_value::<CommitmentMode>`
  pub commitment_mode : json.Value → Option CommitmentMode
  -- `Value::as_object`: the entries in the order of the iteration
  pub as_object : json.Value → Option (List (String × json.Value))
  -- `Id::from_str`, `CurrencyUnit::from_str`, `PublicKey::from_str` and `PublicKey::from_hex`
  pub parse_id : String → Result String String
  pub parse_unit : String → Result String String
  pub parse_public_key : String → Result String String
  pub public_key_from_hex : String → Result String String
  -- `schnorr::Signature::from_str`
  pub parse_signature : String → Result String String
  -- `hex::decode`
  pub hex_decode : String → Result String (List ℕ)
  -- `serde_json::from_str::<Vec<Proof>>` and `serde_json::to_string`
  pub proofs_from_str : String → Result String (List Proof)
  pub proofs_to_string : List Proof → Result String String
  -- `Id::v1_from_keys` or `Id::v2_from_data`, by the version of the expected id
  pub keyset_id_of : String → List (ℕ × String) → String → ℕ → Option ℕ → String
  -- `Proof::verify_dleq`
  pub verify_dleq : Proof → String → Result String Unit
  -- SHA-256 over the channel's parameters: the channel id, and an output's secret and blinding factor
  pub channel_id : ChannelParameters → String
  pub output_secret : ChannelParameters → OutputContext → ℕ → ℕ → Result String (String × String)
  -- the hashed ECDH of the server's secret key with a public key
  pub channel_secret : String → String → Result String String
  -- the sender's signature over the swap of the funding proofs for the outputs
  pub swap_signed : CommitmentOutputs → List Proof → ChannelParameters → String → Bool
