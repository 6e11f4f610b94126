-- ===== src/Amounts.antt =====
-- Keyset metadata, the greedy choice of output amounts and the fee arithmetic of
-- crates/cdk-spilman/src/keysets_and_amounts.rs. A `u64` is a natural number whose wrap-around is
-- written out; a loop takes fuel, and `none` means that the fuel ran out.
pub mod BTree
pub mod Greedy
pub mod Target
pub mod Ceiling
pub mod Monotone
pub mod Fees
pub mod Inverse
pub mod Divergence
use cashu_spilman_channels.Prelude.{
  ℕ, zero, suc, ◌+◌, ◌-◌, ◌*◌, ◌/◌, ◌%◌, ◌^◌, String, Bool, true, false, ◌&&◌, Option, none, some,
  List, [], ◌∷◌, ◌++◌, length, sum, replicate, Result, ok, err, leb, ltb, ◌==◌, if◌then◌else◌,
}

-- Arithmetic on `u64`.
abbrev pub u64 : ℕ → ℕ
u64 n = n % 2 ^ 64

-- `u64::div_ceil`
unfoldable pub div_ceil : ℕ → ℕ → ℕ
div_ceil n d = if ltb 0 (n % d) then n / d + 1 else n / d

-- `BTreeMap<u64, V>`: entries in ascending order of the key, a later insert replaces.
unfoldable pub btree_insert {ℓ} : {V : Type ℓ} → ℕ → V → List (ℕ × V) → List (ℕ × V)
btree_insert k v [] = (k, v) ∷ []
btree_insert k v ((j, w) ∷ m) =
    let rest = btree_insert k v m in
    if ltb k j then (k, v) ∷ (j, w) ∷ m else if k == j then (k, v) ∷ m else (j, w) ∷ rest

-- The loop over `count_by_amount.iter().rev()`.
unfoldable pub expand_rev : List (ℕ × ℕ) → List ℕ
expand_rev [] = []
expand_rev ((amount, count) ∷ m) = expand_rev m ++ replicate count amount

pub record KeysetInfo : Type 0 where
  pub keyset_id : String
  pub unit : String
  pub active_keys : List (ℕ × String)
  pub amounts_largest_first : List ℕ
  pub input_fee_ppk : ℕ
  pub final_expiry : Option ℕ

pub record OrderedListOfAmounts : Type 0 where
  pub amounts : List ℕ
  pub count_by_amount : List (ℕ × ℕ)
  pub input_fee_ppk : ℕ

pub data AmountError : Type 0 where
  cannot_represent : ℕ → AmountError
  cannot_represent_max : ℕ → ℕ → AmountError

-- `while remaining >= amount { remaining -= amount; count += 1 }`
unfoldable pub take_amount : ℕ → ℕ → ℕ → ℕ → Option (ℕ × ℕ)
take_amount zero remaining amount count = none
take_amount (suc fuel) remaining amount count =
    let again = take_amount fuel (remaining - amount) amount (count + 1) in
    if leb amount remaining then again else some (remaining, count)

-- `maximum_amount > 0 && amount > maximum_amount`
abbrev pub is_skipped : ℕ → ℕ → Bool
is_skipped maximum_amount amount = ltb 0 maximum_amount && ltb maximum_amount amount

unfoldable pub record_count : ℕ → ℕ → List (ℕ × ℕ) → List (ℕ × ℕ)
unfolding btree_insert
record_count amount count m = if ltb 0 count then btree_insert amount count m else m

-- The loop over `amounts_largest_first`: what remains, and the counts. The inner loop is entered
-- with one more unit of fuel than what remains.
unfoldable pub greedy : ℕ → ℕ → List ℕ → List (ℕ × ℕ) → Option (ℕ × List (ℕ × ℕ))
unfolding take_amount record_count
greedy maximum_amount remaining [] counts = some (remaining, counts)
greedy maximum_amount remaining (amount ∷ rest) counts = elim (is_skipped maximum_amount amount) [
  | true ↦ greedy maximum_amount remaining rest counts
  | false ↦ elim (take_amount (suc remaining) remaining amount 0) [
    | none ↦ none
    | some (remaining', count) ↦
        greedy maximum_amount remaining' rest (record_count amount count counts)
  ]
]

unfoldable pub unrepresentable : ℕ → ℕ → AmountError
unrepresentable target maximum_amount =
    if maximum_amount == 0
    then cannot_represent target
    else cannot_represent_max target maximum_amount

unfoldable pub finish :
    ℕ
    → ℕ
    → KeysetInfo
    → Option (ℕ × List (ℕ × ℕ))
    → Option (Result AmountError OrderedListOfAmounts)
unfolding unrepresentable expand_rev
finish target maximum_amount keyset_info none = none
finish target maximum_amount keyset_info (some (remaining, counts)) =
    if remaining == 0
    then some (
        ok (record {
          amounts = expand_rev counts;
          count_by_amount = counts;
          input_fee_ppk = keyset_info.input_fee_ppk;
        }))
    else some (err (unrepresentable target maximum_amount))

unfoldable pub from_target : ℕ → ℕ → KeysetInfo → Option (Result AmountError OrderedListOfAmounts)
unfolding greedy finish
from_target target maximum_amount keyset_info =
    if target == 0
    then some (
        ok (record {
          amounts = [];
          count_by_amount = [];
          input_fee_ppk = keyset_info.input_fee_ppk;
        }))
    else finish target maximum_amount keyset_info
        (greedy maximum_amount target keyset_info.amounts_largest_first [])

-- `self.amounts.iter().sum()`
unfoldable pub nominal_total : OrderedListOfAmounts → ℕ
nominal_total l = u64 (sum l.amounts)

unfoldable pub value_after_fees : OrderedListOfAmounts → ℕ
unfolding nominal_total div_ceil
value_after_fees l =
    let total = nominal_total l in
    if l.input_fee_ppk == 0
    then total
    else total - div_ceil (u64 (l.input_fee_ppk * length l.amounts)) 1000

unfoldable pub is_unexpired_at : KeysetInfo → ℕ → Bool
is_unexpired_at info now = elim info.final_expiry [ none ↦ true | some expiry ↦ leb now expiry ]

-- `sort_unstable_by(|a, b| b.cmp(a))`: a sort of numbers has one result, whatever the algorithm.
unfoldable pub insert_descending : ℕ → List ℕ → List ℕ
insert_descending x [] = x ∷ []
insert_descending x (y ∷ ys) =
    let rest = insert_descending x ys in if leb y x then x ∷ y ∷ ys else y ∷ rest

unfoldable pub sort_descending : List ℕ → List ℕ
unfolding insert_descending
sort_descending [] = []
sort_descending (x ∷ xs) = insert_descending x (sort_descending xs)

unfoldable pub key_amounts : List (ℕ × String) → List ℕ
key_amounts [] = []
key_amounts ((amount, key) ∷ keys) = amount ∷ key_amounts keys

-- `KeysetInfo::new`
unfoldable pub new_keyset_info : String → String → List (ℕ × String) → ℕ → Option ℕ → KeysetInfo
unfolding sort_descending key_amounts
new_keyset_info keyset_id unit active_keys input_fee_ppk final_expiry = record {
  keyset_id = keyset_id;
  unit = unit;
  active_keys = active_keys;
  amounts_largest_first = sort_descending (key_amounts active_keys);
  input_fee_ppk = input_fee_ppk;
  final_expiry = final_expiry;
}

abbrev pub after_fees :
    Option (Result AmountError OrderedListOfAmounts) → Option (Result AmountError ℕ)
after_fees none = none
after_fees (some (err e)) = some (err e)
after_fees (some (ok l)) = some (ok (value_after_fees l))

unfoldable pub deterministic_value_after_fees : KeysetInfo → ℕ → ℕ → Option (Result AmountError ℕ)
unfolding from_target value_after_fees
deterministic_value_after_fees info nominal_value maximum_amount =
    after_fees (from_target nominal_value maximum_amount info)

pub record InverseFeeResult : Type 0 where
  pub nominal_value : ℕ
  pub actual_balance : ℕ

-- The `loop` of the inverse, from `nominal` upwards.
unfoldable pub inverse_loop :
    ℕ → KeysetInfo → ℕ → ℕ → ℕ → Option (Result AmountError InverseFeeResult)
inverse_loop zero info target_balance maximum_amount nominal = none
inverse_loop (suc fuel) info target_balance maximum_amount nominal =
    elim (deterministic_value_after_fees info nominal maximum_amount) [
      | none ↦ none
      | some (err e) ↦ some (err e)
      | some (ok actual_balance) ↦ elim (leb target_balance actual_balance) [
        | true ↦ some (ok (record { nominal_value = nominal; actual_balance = actual_balance }))
        | false ↦ inverse_loop fuel info target_balance maximum_amount (u64 (nominal + 1))
      ]
    ]

unfoldable pub inverse_deterministic_value_after_fees :
    ℕ → KeysetInfo → ℕ → ℕ → Option (Result AmountError InverseFeeResult)
unfolding inverse_loop
inverse_deterministic_value_after_fees fuel info target_balance maximum_amount =
    if target_balance == 0
    then some (ok (record { nominal_value = 0; actual_balance = 0 }))
    else if info.input_fee_ppk == 0
    then some (ok (record { nominal_value = target_balance; actual_balance = target_balance }))
    else inverse_loop fuel info target_balance maximum_amount target_balance
