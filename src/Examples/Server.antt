-- ===== src/Examples/Server.antt =====
-- A receiver with concrete packages: a value is a list of fields that is its own text by number, the
-- signature that verifies is "good".
use cashu_spilman_channels.Prelude.{
  ℕ, String, true, Option, none, some, List, [], ◌∷◌, ok, err, insert, empty, string_eq, pair_eq,
  str_eq, if◌then◌else◌, ◌==◌,
}
use cashu_spilman_channels.Packages.{Packages, Proof}
use cashu_spilman_channels.Swap.{SwapRequest}
use cashu_spilman_channels.Channel.{OutputContext, receiver, sender, funding}
use cashu_spilman_channels.Storage.{
  MemoryStorage, get_state, get_usage, increment_usage, should_update, update_balance,
  add_increments,
}
use cashu_spilman_channels.Json.{Json}
use cashu_spilman_channels.Host.{ConfigurableHost}
use cashu_spilman_channels.Storage

-- The values: texts, numbers and objects.
pub data Value : Type 0 where
  text_value : String → Value
  number : ℕ → Value
  fields : List (String × ℕ) → List (String × String) → Value
  keys : Value
  requested : SwapRequest → Value
  listed_secrets output_keyset : Value

abbrev pub find : {A : Type 0} → String → List (String × A) → Option A
find key [] = none
find key ((k, a) ∷ rest) = let later = find key rest in if str_eq k key then some a else later

abbrev pub params_value : Value
params_value =
    fields
      (("capacity", 9)
        ∷ ("funding_token_amount", 15)
        ∷ ("expiry_timestamp", 9000)
        ∷ ("setup_timestamp", 1000)
        ∷ ("maximum_amount_for_one_output", 0)
        ∷ ("input_fee_ppk", 400)
        ∷ [])
      (("unit", "sat")
        ∷ ("receiver_pubkey", "charlie")
        ∷ ("sender_pubkey", "alice")
        ∷ ("keyset_id", "00a1")
        ∷ ("mint", "https://mint")
        ∷ [])

abbrev pub keyset_value : Value
keyset_value = fields (("inputFeePpk", 400) ∷ []) (("keysetId", "00a1") ∷ ("unit", "sat") ∷ [])

abbrev pub get_value : Value → String → Option Value
get_value (fields numbers texts) key = elim (find key numbers) [
  | some n ↦ some (number n)
  | none ↦ elim (find key texts) [
    | some t ↦ some (text_value t)
    | none ↦ if str_eq key "keys" then some keys else none
  ]
]
get_value v key = none

abbrev pub as_text : Value → Option String
as_text (text_value t) = some t
as_text v = none

abbrev pub as_number : Value → Option ℕ
as_number (number n) = some n
as_number v = none

abbrev pub entries : Value → Option (List (String × Value))
entries keys = some (
    ("1", text_value "k1")
    ∷ ("2", text_value "k2")
    ∷ ("4", text_value "k4")
    ∷ ("8", text_value "k8")
    ∷ [])
entries v = none

-- A request for the close at 5.
abbrev pub close_value : Value
close_value = fields (("balance", 5) ∷ []) (("channel_id", "channel") ∷ ("signature", "good") ∷ [])

abbrev text_of : Value → String
text_of (fields numbers texts) = "params"
text_of (text_value t) = t
text_of (number n) = "number"
text_of keys = "keys"
text_of (requested r) = "request"
text_of listed_secrets = "secrets"
text_of output_keyset = "keyset"

-- The secrets of a side by their amounts.
abbrev secret_of : OutputContext → ℕ → String
secret_of receiver amount = if amount == 2 then "r2" else "r4"
secret_of sender amount = if amount == 1 then "s1" else if amount == 2 then "s2" else "s4"
secret_of funding amount = "secret"

abbrev pub json : Json
json = record {
  Value = Value;
  from_str = λ s.
      if str_eq s "params"
      then ok params_value
      else if str_eq s "keyset"
      then ok keyset_value
      else if str_eq s "close"
      then ok close_value
      else err "no JSON";
  to_string = text_of;
  get = get_value;
  as_str = as_text;
  as_u64 = as_number;
  usage_entries = λ s. if str_eq s "three chars" then some (("chars", 3) ∷ []) else none;
}

abbrev pub the_proof : ℕ → Proof
the_proof amount = record {
  amount = amount;
  keyset_id = "00a1";
  secret = "secret";
  c = "c";
  witness = none;
  dleq = some (record { e = "e"; s = "s"; r = "r" });
  p2pk_e = none;
}

-- The funding proofs of 15, smallest first.
abbrev pub proofs : List Proof
proofs = the_proof 1 ∷ the_proof 2 ∷ the_proof 4 ∷ the_proof 8 ∷ []

abbrev pub packages : Packages
packages = record {
  json = json;
  commitment_mode = λ v. none;
  as_object = entries;
  parse_id = λ s. ok s;
  parse_unit = λ s. ok s;
  parse_public_key = λ s. ok s;
  public_key_from_hex = λ s. ok s;
  parse_signature = λ s. ok s;
  hex_decode = λ s. ok (
      0 ∷ 0 ∷ 0 ∷ 0 ∷ 0 ∷ 0 ∷ 0 ∷ 0 ∷ 0 ∷ 0 ∷ 0 ∷ 0 ∷ 0 ∷ 0 ∷ 0 ∷ 0 ∷ 0 ∷ 0 ∷ 0 ∷ 0 ∷ 0 ∷ 0 ∷ 0 ∷ 0
      ∷ 0 ∷ 0 ∷ 0 ∷ 0 ∷ 0 ∷ 0 ∷ 0 ∷ 0 ∷ []);
  proofs_from_str = λ s. ok proofs;
  proofs_to_string = λ l. ok "proofs";
  keyset_id_of = λ id ks unit fee expiry. "00a1";
  verify_dleq = λ proof key. ok tt;
  channel_id = λ params. "channel";
  output_secret = λ params context amount index. ok (secret_of context amount, "r");
  channel_secret = λ secret pubkey. ok "00";
  swap_signed = λ outputs l params signature. str_eq signature "good";
}

unfoldable pub host : ConfigurableHost
unfolding insert empty
host = record {
  config = record {
    mints = insert empty "https://mint" ("sat" ∷ []);
    min_expiry_seconds = 3600;
    pricing_scale = 2;
    pricing = insert empty "sat" (record {
      min_capacity = 5;
      max_amount_per_output = some 64;
      variables = insert empty "chars" 3;
    });
  };
  server_pubkey = "charlie";
  server_secret_hex = "01";
}

unfoldable pub store : MemoryStorage
unfolding insert empty Storage.new
store = record Storage.new {
  keysets =
      insert empty ("https://mint", "00a1")
        (record { info_json = "keyset"; active = true; unit = "sat" });
}

abbrev pub store_of : {A : Type 0} → Option (MemoryStorage × A) → MemoryStorage
store_of none = store
store_of (some (t, a)) = t
