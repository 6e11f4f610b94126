-- ===== src/Json.antt =====
-- The functions of the `serde_json` package that the sources call, as an interface: a value is whatever
-- the package makes of a text.
use cashu_spilman_channels.Prelude.{ℕ, String, Option, none, some, List, Result, ok, err}

pub record Json : Type 1 where
  -- `serde_json::Value`
  pub Value : Type 0
  -- `serde_json::from_str::<Value>`
  pub from_str : String → Result String Value
  -- `value.to_string()`
  pub to_string : Value → String
  -- `value.get(key)`
  pub get : Value → String → Option Value
  pub as_str : Value → Option String
  pub as_u64 : Value → Option ℕ
  -- `serde_json::from_str::<HashMap<String, u64>>`, as the entries in the order of the text
  pub usage_entries : String → Option (List (String × ℕ))

abbrev pub and_then {ℓ} : {A B : Type ℓ} → Option A → (A → Option B) → Option B
and_then none f = none
and_then (some a) f = f a

-- `Result::ok`
abbrev pub ok_of : {E A : Type 0} → Result E A → Option A
ok_of (ok a) = some a
ok_of (err e) = none

module _ (json : Json) where
  -- `value[key].as_str()`: indexing gives `Null` for a missing key, which is no text
  unfoldable pub str_field : json.Value → String → Option String
  str_field value key = and_then (json.get value key) json.as_str

  -- `value[key].as_u64()`
  unfoldable pub u64_field : json.Value → String → Option ℕ
  u64_field value key = and_then (json.get value key) json.as_u64
