-- ===== src/Examples/Stores.antt =====
-- Histories of a small store: two channels, one of them closing under a journal.
use cashu_spilman_channels.Prelude.{
  ℕ, ◌+◌, String, true, none, some, List, [], ◌∷◌, ok, err, ◌≡◌, ◌≢◌, ◌⊎◌, ◌↔◌, refl, inr, arith,
  get, insert, map, from_entries, is_some, string_eq, empty, str_eq_iff,
}
use cashu_spilman_channels.Amounts.{u64}
use cashu_spilman_channels.Storage.Records.{
  ChannelFunding, PaymentProof, ClosingData, ClosedDataView, opened, same_state,
}
use cashu_spilman_channels.Storage.{
  MemoryStorage, new, compare_payment, freeze_close, advance_close, payment_snapshot_conflict,
  payment_state_conflict, close_journal_conflict, get_state, update_balance, save_funding,
}
use cashu_spilman_channels.Storage.Operations.{
  Operation, apply, run, saves, updates, freezes, advances, marks_closing, increments, compares,
}
use cashu_spilman_channels.Storage.Lifecycle.{Forward, run-Forward}
use cashu_spilman_channels.Storage.Balance.{
  Kept, run-Kept, compare_payment_once, paid, greatest, update_balance-greatest,
}
use cashu_spilman_channels.Storage.Journal.{Journaled, run-Journaled}
use cashu_spilman_channels.Storage.Frozen.{
  MayFreeze, freeze_close_iff, advance_close_once, Same, run-Same,
}
use cashu_spilman_channels.Storage.Usage.{used, added_by, run-added_by}

abbrev funding : ChannelFunding
funding = record {
  params_json = "{}";
  funding_proofs_json = "[]";
  channel_secret_hex = "00";
  keyset_info_json = "{}";
}

abbrev pay : ℕ → String → PaymentProof
pay balance signature = record { balance = balance; signature = signature }

abbrev close_at : ℕ → String → ClosingData
close_at balance signature = record {
  expiry_timestamp = 2000;
  balance = balance;
  signature = signature;
}

abbrev view : ClosedDataView
view = record {
  expiry_timestamp = 2000;
  closed_amount = 5;
  value_after_stage1 = 13;
  receiver_sum = 6;
  sender_sum = 7;
  receiver_proofs_json = "[]";
  sender_proofs_json = "[]";
}

-- Channel "a" is funded and paid, frozen at 5 and closed; "b" is funded; one payment is stale, one late.
abbrev history : List Operation
history =
    saves "a" funding
    ∷ updates "a" (pay 5 "s5")
    ∷ updates "a" (pay 3 "s3")
    ∷ saves "b" funding
    ∷ increments "a" (from_entries (("chars", 7) ∷ []))
    ∷ freezes "a" (pay 5 "s5") (close_at 5 "s5") "j1"
    ∷ updates "a" (pay 9 "s9")
    ∷ marks_closing "a" (close_at 9 "s9")
    ∷ advances "a" "j1" "j2" (some view)
    ∷ []

run-Forward_example : Forward new (run history new) "a"
run-Forward_example = run-Forward "a" history new

run-Kept_example : Kept new (run history new) "a"
run-Kept_example = run-Kept "a" history new

run-Journaled_example : Journaled "a" (run history new)
run-Journaled_example = run-Journaled "a" history

run-added_by_example :
    u64 (used (run history new) "a" "chars")
    ≡ u64 (used new "a" "chars" + added_by "a" "chars" history)
run-added_by_example = run-added_by "a" "chars" history new

-- Channel "a" open with the payment 5.
abbrev open_store : MemoryStorage
open_store = run (saves "a" funding ∷ updates "a" (pay 5 "s5") ∷ []) new

open_state : get_state open_store "a" ≡ some opened
unfolding run apply get_state save_funding update_balance new get same_state empty insert
open_state = refl

update_balance-greatest_example :
    paid (get (run (map (updates "a") (pay 8 "s8" ∷ pay 6 "s6" ∷ [])) open_store).balance "a")
    ≡ greatest (pay 8 "s8" ∷ pay 6 "s6" ∷ []) (paid (get open_store.balance "a"))
update_balance-greatest_example =
    update_balance-greatest "a" (pay 8 "s8" ∷ pay 6 "s6" ∷ []) open_store open_state

abbrev paid_store : MemoryStorage
paid_store = record open_store { balance = insert open_store.balance "a" (pay 8 "s8") }

compared : compare_payment "a" (pay 5 "s5") (pay 8 "s8") open_store ≡ ok paid_store
unfolding run apply compare_payment get_state save_funding update_balance new get same_state empty
    insert
compared = refl

compare_payment_once_example :
    (compare_payment "a" (pay 5 "s5") (pay 9 "s9") paid_store ≡ err payment_snapshot_conflict)
    ⊎ (compare_payment "a" (pay 5 "s5") (pay 9 "s9") paid_store ≡ err payment_state_conflict)
compare_payment_once_example =
    compare_payment_once "a" (pay 5 "s5") (pay 8 "s8") (pay 9 "s9") open_store paid_store compared

freeze_close_iff_example :
    ((t : MemoryStorage) × (freeze_close "a" (pay 5 "s5") (close_at 5 "s5") "j1" open_store ≡ ok t))
    ↔ MayFreeze "a" (pay 5 "s5") (close_at 5 "s5") open_store
freeze_close_iff_example = freeze_close_iff "a" "j1" (pay 5 "s5") (close_at 5 "s5") open_store

abbrev frozen_store : MemoryStorage
frozen_store = record open_store {
  closing = insert open_store.closing "a" (close_at 5 "s5");
  close_journals = insert open_store.close_journals "a" "j1";
}

abbrev advanced_store : MemoryStorage
advanced_store = record frozen_store {
  close_journals = insert frozen_store.close_journals "a" "j2";
}

advanced : advance_close "a" "j1" "j2" none frozen_store ≡ ok advanced_store
unfolding run apply advance_close get_state save_funding update_balance new get same_state empty
    insert
advanced = refl

different : ◌≢◌ {A = String} "j2" "j1"
different e = ground (arith, str_eq_iff "j2" "j1")

advance_close_once_example :
    advance_close "a" "j1" "j3" (some view) advanced_store ≡ err close_journal_conflict
advance_close_once_example =
    advance_close_once "a" "j1" "j2" "j3" none (some view) frozen_store advanced_store advanced
      different

frozen-Journaled : Journaled "a" frozen_store
unfolding run apply Journaled save_funding update_balance new get_state get same_state empty insert
frozen-Journaled h = inr refl

frozen_journal : is_some (get frozen_store.close_journals "a") ≡ true
unfolding run apply save_funding update_balance new get_state get same_state empty insert
frozen_journal = refl

abbrev late : List Operation
late =
    updates "a" (pay 9 "s9")
    ∷ marks_closing "a" (close_at 9 "s9")
    ∷ compares "a" (pay 5 "s5") (pay 9 "s9")
    ∷ []

run-Same_example : Same frozen_store (run late frozen_store) "a"
run-Same_example =
    run-Same "a" late frozen_store frozen-Journaled frozen_journal (refl, (refl, (refl, tt)))
