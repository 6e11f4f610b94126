-- ===== src/Channel/Parse.antt =====
-- Channel parameters and keysets from JSON: `ChannelParameters::from_json_with_channel_secret` of
-- crates/cdk-spilman/src/params.rs and `parse_keyset_info_from_json` of crates/cdk-spilman/src/bindings.rs.
use Prim.Native.Char.{code}
use cashu_spilman_channels.Prelude.{
  ℕ, ◌+◌, ◌-◌, ◌*◌, ◌^◌, String, not, ◌&&◌, Option, none, some, List, [], ◌∷◌, Result, ok, err,
  ok_or, map_err, reject_if, leb, ltb, ◌==◌, ◌!=◌, if◌then◌else◌, str_eq,
}
use cashu_spilman_channels.Prelude.Runs.{Run, ◌>>=◌, ◌>>◌, map_error}
use cashu_spilman_channels.Json.{str_field, u64_field}
use cashu_spilman_channels.Packages.{Packages}
use cashu_spilman_channels.Amounts.{KeysetInfo, btree_insert, new_keyset_info}
use cashu_spilman_channels.Channel.{
  ChannelParameters, ChannelError, CommitmentMode, ordinary, new, with_commitment_mode,
}

-- What the two parsers refuse, by the field.
pub data ParseError : Type 0 where
  invalid_json : String → ParseError
  invalid_commitment_mode : ParseError
  missing_field : String → ParseError
  invalid_field : String → String → ParseError
  keyset_id_mismatch : String → String → ParseError
  input_fee_ppk_mismatch : ℕ → ℕ → ParseError
  invalid_amount : String → ParseError
  invalid_key : ℕ → ParseError
  refused : ChannelError → ParseError

-- The fields of the text, checked against the keyset.
pub record ParamsFields : Type 0 where
  pub mode : CommitmentMode
  pub mint : String
  pub unit : String
  pub capacity : ℕ
  pub funding_token_amount : ℕ
  pub maximum_amount : ℕ
  pub setup_timestamp : ℕ
  pub sender_pubkey : String
  pub receiver_pubkey : String
  pub expiry_timestamp : ℕ

abbrev pub or_else {ℓ} : {A : Type ℓ} → Option A → Option A → Option A
or_else (some a) other = some a
or_else none other = other

abbrev pub give : {E A : Type 0} → Result E A → Run E A
give r = some r

-- `str::parse::<u64>`: an optional plus sign, then decimal digits, within the range
digits : String → ℕ → Option ℕ
digits String.[] n = some n
digits (String.◌∷◌ c s) n =
    let next = n * 10 + (code c - b'0') in
    let rest = digits s next in
    if leb b'0' (code c) && (leb (code c) b'9' && ltb next (2 ^ 64)) then rest else none

some_digits : String → Option ℕ
unfolding digits
some_digits String.[] = none
some_digits (String.◌∷◌ c s) = digits (String.◌∷◌ c s) 0

unfoldable pub parse_u64 : String → Option ℕ
unfolding some_digits
parse_u64 String.[] = none
parse_u64 (String.◌∷◌ c s) = if code c == b'+' then some_digits s else some_digits (String.◌∷◌ c s)

module _ (p : Packages) where
  abbrev Value : Type 0
  Value = p.json.Value

  -- `json[field].as_str().ok_or(…)` and `json[field].as_u64().ok_or(…)`
  abbrev pub require_str : Value → String → Result ParseError String
  require_str value key = ok_or (str_field p.json value key) (missing_field key)

  abbrev pub require_u64 : Value → String → Result ParseError ℕ
  require_u64 value key = ok_or (u64_field p.json value key) (missing_field key)

  -- A field under either of two spellings.
  abbrev pub either_str : Value → String → String → Result ParseError String
  either_str value key other =
      ok_or (or_else (str_field p.json value key) (str_field p.json value other))
        (missing_field key)

  abbrev pub either_u64 : Value → String → String → Result ParseError ℕ
  either_u64 value key other =
      ok_or (or_else (u64_field p.json value key) (u64_field p.json value other))
        (missing_field key)

  abbrev pub parsed : String → Result String String → Result ParseError String
  parsed key r = map_err (invalid_field key) r

  read_mode : Option Value → Result ParseError CommitmentMode
  read_mode none = ok ordinary
  read_mode (some value) = ok_or (p.commitment_mode value) invalid_commitment_mode

  unfoldable pub read_fields : String → KeysetInfo → Run ParseError ParamsFields
  unfolding read_mode
  read_fields json_str keyset_info = do
    json ← give (map_err invalid_json (p.json.from_str json_str))
    mode ← give (read_mode (p.json.get json "commitment_mode"))
    keyset_id_str ← give (either_str json "keyset_id" "keysetId")
    json_keyset_id ← give (parsed "keyset_id" (p.parse_id keyset_id_str))
    json_input_fee_ppk ← give (either_u64 json "input_fee_ppk" "inputFeePpk")
    give (
        reject_if (not (str_eq keyset_info.keyset_id json_keyset_id))
          (keyset_id_mismatch json_keyset_id keyset_info.keyset_id))
    give (
        reject_if (keyset_info.input_fee_ppk != json_input_fee_ppk)
          (input_fee_ppk_mismatch json_input_fee_ppk keyset_info.input_fee_ppk))
    mint ← give (require_str json "mint")
    unit_str ← give (require_str json "unit")
    unit ← give (parsed "unit" (p.parse_unit unit_str))
    capacity ← give (require_u64 json "capacity")
    funding_token_amount ← give (require_u64 json "funding_token_amount")
    maximum_amount ← give (require_u64 json "maximum_amount_for_one_output")
    setup_timestamp ← give (require_u64 json "setup_timestamp")
    sender_pubkey_hex ← give (require_str json "sender_pubkey")
    sender_pubkey ← give (parsed "sender_pubkey" (p.parse_public_key sender_pubkey_hex))
    receiver_pubkey_hex ← give (require_str json "receiver_pubkey")
    receiver_pubkey ← give (parsed "receiver_pubkey" (p.parse_public_key receiver_pubkey_hex))
    expiry_timestamp ← give (require_u64 json "expiry_timestamp")
    some (
        ok (record {
          mode = mode;
          mint = mint;
          unit = unit;
          capacity = capacity;
          funding_token_amount = funding_token_amount;
          maximum_amount = maximum_amount;
          setup_timestamp = setup_timestamp;
          sender_pubkey = sender_pubkey;
          receiver_pubkey = receiver_pubkey;
          expiry_timestamp = expiry_timestamp;
        }))

  unfoldable pub from_json_with_channel_secret :
      String → KeysetInfo → List ℕ → Run ParseError ChannelParameters
  unfolding read_fields
  from_json_with_channel_secret json_str keyset_info secret = do
    f ← read_fields json_str keyset_info
    params ← map_error refused (
        new f.sender_pubkey f.receiver_pubkey f.mint f.unit f.capacity f.funding_token_amount
          f.expiry_timestamp f.setup_timestamp keyset_info f.maximum_amount secret)
    some (ok (with_commitment_mode params f.mode))

  -- The loop over `keys`, into a `BTreeMap`.
  read_keys : List (String × Value) → List (ℕ × String) → Result ParseError (List (ℕ × String))
  read_keys [] keys_map = ok keys_map
  read_keys ((amount_str, pubkey_val) ∷ rest) keys_map = elim (parse_u64 amount_str) [
    | none ↦ err (invalid_amount amount_str)
    | some amount ↦ elim (p.json.as_str pubkey_val) [
      | none ↦ err (invalid_key amount)
      | some pubkey_hex ↦ elim (p.parse_public_key pubkey_hex) [
        | err e ↦ err (invalid_key amount)
        | ok pubkey ↦ read_keys rest (btree_insert amount pubkey keys_map)
      ]
    ]
  ]

  object_field : Value → String → Result ParseError (List (String × Value))
  object_field value key = elim (p.json.get value key) [
    | none ↦ err (missing_field key)
    | some field ↦ ok_or (p.as_object field) (missing_field key)
  ]

  unfoldable pub parse_keyset_info_from_json : String → Run ParseError KeysetInfo
  unfolding read_keys object_field new_keyset_info
  parse_keyset_info_from_json json_str = do
    json ← give (map_err invalid_json (p.json.from_str json_str))
    keyset_id_str ← give (either_str json "keysetId" "keyset_id")
    keyset_id ← give (parsed "keysetId" (p.parse_id keyset_id_str))
    unit_str ← give (require_str json "unit")
    unit ← give (parsed "unit" (p.parse_unit unit_str))
    input_fee_ppk ← give (either_u64 json "inputFeePpk" "input_fee_ppk")
    keys_obj ← give (object_field json "keys")
    keys_map ← give (read_keys keys_obj [])
    some (
        ok (
          new_keyset_info keyset_id unit keys_map input_fee_ppk
            (or_else (u64_field p.json json "finalExpiry") (u64_field p.json json "final_expiry"))))
