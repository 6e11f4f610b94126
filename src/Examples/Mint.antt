-- ===== src/Examples/Mint.antt =====
-- A mint that rejects the first keyset, and a sender's store.
use cashu_spilman_channels.Prelude.{
  ℕ, String, Bool, true, false, Option, none, some, [], Result, ok, err, ◌≡◌, ◌≢◌, refl, arith,
  str_eq, str_eq_iff, if◌then◌else◌, get, insert, empty, string_eq,
}
use cashu_spilman_channels.Mint.{
  MintResponse, MintRequestError, rejected, permits_keyset_retry, from_callback,
}
use cashu_spilman_channels.Mint.Evidence.{KeysetRejection, from_callback-KeysetRejection}
use cashu_spilman_channels.Mint.Retry.{Callbacks, with_active_keyset_retry}
use cashu_spilman_channels.Mint.Log.{logged, Orderly, with_active_keyset_retry-Orderly}
use cashu_spilman_channels.ClientStorage.{
  MemoryClientStorage, ClientStorageError, ClientChannelOpeningFromSwap, new,
  save_opening_from_swap, set_open, different_proofs,
}
use cashu_spilman_channels.ClientStorage.Consistent.{
  apply, saves_opening, opens, Consistent, Reached, start, step, Reached-Consistent,
}
use cashu_spilman_channels.ClientStorage.Idempotent.{set_open_again}

abbrev nut00 : String → Option (ℕ × String)
nut00 body = if str_eq body "stale" then some (12002, "keyset inactive") else none

abbrev envelope : String → Option MintResponse
envelope wire = if str_eq wire "wire" then some (record { status = 400; body = "stale" }) else none

abbrev stale : MintRequestError
stale = rejected (record { status = 400; code = 12002; detail = "keyset inactive" })

rejected_run :
    (from_callback nut00 envelope (ok "wire") ≡ err stale) × (permits_keyset_retry stale ≡ true)
unfolding from_callback permits_keyset_retry
rejected_run = (refl, refl)

from_callback-KeysetRejection_example :
    (wire : String) × (◌≡◌ {A = Result String String} (ok "wire") (ok wire))
    × KeysetRejection nut00 envelope wire
from_callback-KeysetRejection_example =
    from_callback-KeysetRejection nut00 envelope (ok "wire") stale rejected_run.0 rejected_run.1

-- The first selection gives "old" until a refresh, which gives "new"; only "new" is taken by the mint.
abbrev callbacks : Callbacks Bool String ℕ String String
callbacks = record {
  select = λ fresh. (ok (record { id = if fresh then "new" else "old"; info_json = "" }), fresh);
  prepare = λ k fresh. (ok k.id, fresh);
  submit = λ a fresh. (if str_eq a "new" then ok 1 else err "stale", fresh);
  should_retry = λ s fresh. (str_eq s "stale", fresh);
  refresh = λ fresh. (ok tt, true);
  cleanup = λ a s fresh. (ok tt, fresh);
}

with_active_keyset_retry-Orderly_example :
    Orderly (with_active_keyset_retry (logged callbacks) ([], false))
with_active_keyset_retry-Orderly_example = with_active_keyset_retry-Orderly callbacks false

abbrev opening : ClientChannelOpeningFromSwap
opening = record {
  params_json = "{}";
  channel_secret_hex = "00";
  keyset_info_json = "{}";
  sender_pubkey_hex = "alice";
  receiver_pubkey_hex = "charlie";
  capacity = 9;
  funding_token_amount = 15;
  mint_url = "https://mint";
  unit = "sat";
  input_token = "token";
  change_secrets_json = "";
  change_amount_raw = 0;
  created_at = 1000;
}

abbrev result_of :
    MemoryClientStorage → Result ClientStorageError MemoryClientStorage → MemoryClientStorage
result_of s (ok t) = t
result_of s (err e) = s

abbrev opening_store : MemoryClientStorage
opening_store = result_of new (apply (saves_opening "a" opening) new)

abbrev open_store : MemoryClientStorage
open_store = result_of opening_store (apply (opens "a" "[proof]") opening_store)

client_runs :
    (apply (saves_opening "a" opening) new ≡ ok opening_store)
    × (apply (opens "a" "[proof]") opening_store ≡ ok open_store)
    × (set_open "a" "[proof]" opening_store ≡ ok open_store)
unfolding apply save_opening_from_swap set_open new get insert empty
client_runs = (refl, refl, refl)

open-Reached : Reached open_store
open-Reached =
    step (opens "a" "[proof]") opening_store open_store
      (step (saves_opening "a" opening) new opening_store start refl client_runs.0) refl
      client_runs.1

Reached-Consistent_example : Consistent "a" open_store
Reached-Consistent_example = Reached-Consistent open_store open-Reached "a"

other_proofs : ◌≢◌ {A = String} "[]" "[proof]"
other_proofs e = ground (arith, str_eq_iff "[]" "[proof]")

set_open_again_example :
    (set_open "a" "[proof]" open_store ≡ ok open_store)
    × (set_open "a" "[]" open_store ≡ err (different_proofs "a"))
set_open_again_example =
    set_open_again "a" "[proof]" "[]" opening_store open_store client_runs.2 other_proofs
