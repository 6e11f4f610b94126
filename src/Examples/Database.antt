-- ===== src/Examples/Database.antt =====
-- A history on an empty database whose stored records are the texts of their fields one after the other: an
-- "x" before every character and a full stop at a field's end.
use cashu_spilman_channels.Prelude.{
  All, inl, sym, subst, Bool, true, false, Option, none, some, List, [], ◌∷◌, Result, ok, err,
  str_eq, get, insert, empty, string_eq, pair_eq, ◌≡◌, refl, ap,
}
use Prim.Native.String.{String}
use cashu_spilman_channels.Storage.Records.{
  ChannelFunding, PaymentProof, ClosingData, ClosedDataView, KeysetCacheEntry,
}
use cashu_spilman_channels.Storage
use cashu_spilman_channels.Storage.Operations.{
  Operation, saves, updates, compares, freezes, advances,
}
use cashu_spilman_channels.Storage.Sqlite.{
  Formats, SqliteStorage, SqliteError, reopened, init_schema, update_row, get_funding,
  compare_payment, freeze_close, advance_close, save_funding, update_balance,
}
use cashu_spilman_channels.Storage.Sqlite.Refines.{RoundTrips, new-Agree}
use cashu_spilman_channels.Storage.Sqlite.Cache.{Fits, reopened-Coherent}
use cashu_spilman_channels.Storage.Sqlite.Steps.{saved, updated, compared, frozen, advanced}
use cashu_spilman_channels.Storage.Sqlite.Simulation.{
  Steps, ended, followed, looked_up, Simulated, Steps-Simulated,
}
use cashu_spilman_channels.Examples.Fields.{write, read, read-write, ones, count, count-ones}

abbrev then_read : {A : Type 0} → Option (String × String) → (String → String → Option A) → Option A
then_read none k = none
then_read (some (s, rest)) k = k s rest

then_read-write :
    {A : Type 0} (s rest : String) (k : String → String → Option A)
    → then_read (read (write s rest)) k ≡ k s rest
then_read-write s rest k = ap (λ o. then_read o k) (read-write s rest)

abbrev flag : Bool → String
flag true = "yes"
flag false = "no"

abbrev funding_to_text : ChannelFunding → String
funding_to_text a =
    write a.params_json
      (write a.funding_proofs_json (write a.channel_secret_hex (write a.keyset_info_json "")))

abbrev funding_from_text : String → Option ChannelFunding
funding_from_text t = then_read (read t) (λ params_json rest1.
    then_read (read rest1) (λ funding_proofs_json rest2.
      then_read (read rest2) (λ channel_secret_hex rest3.
        then_read (read rest3) (λ keyset_info_json rest4. some (record {
          params_json = params_json;
          funding_proofs_json = funding_proofs_json;
          channel_secret_hex = channel_secret_hex;
          keyset_info_json = keyset_info_json;
        })))))

abbrev closing_to_text : ClosingData → String
closing_to_text a = write (ones a.expiry_timestamp) (write (ones a.balance) (write a.signature ""))

abbrev closing_from_text : String → Option ClosingData
closing_from_text t = then_read (read t) (λ expiry_timestamp rest1.
    then_read (read rest1) (λ balance rest2. then_read (read rest2) (λ signature rest3.
      some (record {
        expiry_timestamp = count expiry_timestamp;
        balance = count balance;
        signature = signature;
      }))))

abbrev closed_to_text : ClosedDataView → String
closed_to_text a = write (ones a.expiry_timestamp) (
    write (ones a.closed_amount) (
      write (ones a.value_after_stage1) (
        write (ones a.receiver_sum) (
          write (ones a.sender_sum)
            (write a.receiver_proofs_json (write a.sender_proofs_json ""))))))

abbrev closed_from_text : String → Option ClosedDataView
closed_from_text t = then_read (read t) (λ expiry_timestamp rest1.
    then_read (read rest1) (λ closed_amount rest2.
      then_read (read rest2) (λ value_after_stage1 rest3.
        then_read (read rest3) (λ receiver_sum rest4. then_read (read rest4) (λ sender_sum rest5.
          then_read (read rest5) (λ receiver_proofs_json rest6.
            then_read (read rest6) (λ sender_proofs_json rest7. some (record {
              expiry_timestamp = count expiry_timestamp;
              closed_amount = count closed_amount;
              value_after_stage1 = count value_after_stage1;
              receiver_sum = count receiver_sum;
              sender_sum = count sender_sum;
              receiver_proofs_json = receiver_proofs_json;
              sender_proofs_json = sender_proofs_json;
            }))))))))

abbrev keyset_to_text : KeysetCacheEntry → String
keyset_to_text a = write a.info_json (write (flag a.active) (write a.unit ""))

abbrev keyset_from_text : String → Option KeysetCacheEntry
keyset_from_text t = then_read (read t) (λ info_json rest1. then_read (read rest1) (λ active rest2.
    then_read (read rest2) (λ unit rest3.
      some (record { info_json = info_json; active = str_eq active "yes"; unit = unit }))))

abbrev formats : Formats
formats = record {
  funding = record { to_text = funding_to_text; from_text = funding_from_text };
  closing = record { to_text = closing_to_text; from_text = closing_from_text };
  closed = record { to_text = closed_to_text; from_text = closed_from_text };
  keyset = record { to_text = keyset_to_text; from_text = keyset_from_text };
}

flag-true : (b : Bool) → str_eq (flag b) "yes" ≡ b
flag-true true = refl
flag-true false = refl

funding-round_trip : (a : ChannelFunding) → funding_from_text (funding_to_text a) ≡ some a
funding-round_trip a = simp (read-write) refl

closing-round_trip : (a : ClosingData) → closing_from_text (closing_to_text a) ≡ some a
closing-round_trip a = simp (read-write, count-ones) refl

closed-round_trip : (a : ClosedDataView) → closed_from_text (closed_to_text a) ≡ some a
closed-round_trip a = simp (read-write, count-ones) refl

keyset-round_trip : (a : KeysetCacheEntry) → keyset_from_text (keyset_to_text a) ≡ some a
keyset-round_trip a = simp (read-write, flag-true) refl

formats-RoundTrips : RoundTrips formats
formats-RoundTrips = record {
  funding = funding-round_trip;
  closing = closing-round_trip;
  closed = closed-round_trip;
  keyset = keyset-round_trip;
}

abbrev next : Result SqliteError SqliteStorage → SqliteStorage
next (ok s) = s
next (err e) = reopened init_schema

abbrev funding : ChannelFunding
funding = record {
  params_json = "params";
  funding_proofs_json = "proofs";
  channel_secret_hex = "00";
  keyset_info_json = "keyset";
}

abbrev first : PaymentProof
first = record { balance = 3; signature = "first" }

abbrev second : PaymentProof
second = record { balance = 5; signature = "second" }

abbrev closing_data : ClosingData
closing_data = record { expiry_timestamp = 9; balance = 5; signature = "second" }

abbrev view : ClosedDataView
view = record {
  expiry_timestamp = 9;
  closed_amount = 5;
  value_after_stage1 = 13;
  receiver_sum = 6;
  sender_sum = 7;
  receiver_proofs_json = "r";
  sender_proofs_json = "s";
}

abbrev after_funding : SqliteStorage
after_funding = next (save_funding formats "channel" funding (reopened init_schema))

abbrev after_first : SqliteStorage
after_first = next (update_balance formats "channel" first after_funding)

abbrev after_second : SqliteStorage
after_second = next (compare_payment "channel" first second after_first)

abbrev after_freeze : SqliteStorage
after_freeze = next (freeze_close formats "channel" second closing_data "frozen" after_second)

abbrev after_close : SqliteStorage
after_close = next (advance_close formats "channel" "frozen" "completed" (some view) after_freeze)

abbrev payments_and_close : List Operation
payments_and_close =
    updates "channel" first
    ∷ compares "channel" first second
    ∷ freezes "channel" second closing_data "frozen"
    ∷ advances "channel" "frozen" "completed" (some view)
    ∷ []

abbrev history : List Operation
history = saves "channel" funding ∷ payments_and_close

runs :
    (save_funding formats "channel" funding (reopened init_schema) ≡ ok after_funding)
    × (update_balance formats "channel" first after_funding ≡ ok after_first)
    × (compare_payment "channel" first second after_first ≡ ok after_second)
    × (freeze_close formats "channel" second closing_data "frozen" after_second ≡ ok after_freeze)
    × (advance_close formats "channel" "frozen" "completed" (some view) after_freeze
        ≡ ok after_close)
unfolding save_funding update_balance compare_payment freeze_close advance_close update_row
    init_schema get insert empty
runs = (refl, refl, refl, refl, refl)

-- The funding is looked up after it is saved.
looked : (get_funding formats "channel" after_funding).0 ≡ after_funding
unfolding get_funding save_funding init_schema get insert empty
looked = refl

after_lookup : Steps formats payments_and_close after_funding after_close
after_lookup = followed _ _ _ _ _ (updated _ _ _ _ refl runs.1) (
    followed _ _ _ _ _ (compared _ _ _ _ _ refl refl runs.2) (
      followed _ _ _ _ _ (frozen _ _ _ _ _ _ refl runs.3)
        (followed _ _ _ _ _ (advanced _ _ _ _ _ _ runs.4) (ended _))))

steps : Steps formats history (reopened init_schema) after_close
steps = followed _ _ _ _ _ (saved _ _ _ _ runs.0) (
    looked_up "channel" _ _ _
      (subst (λ s. Steps formats payments_and_close s after_close) (sym looked) after_lookup))

fits : All (Fits formats (reopened init_schema)) history
unfolding init_schema get empty
fits = (inl refl, (tt, (tt, (tt, (tt, tt)))))

Steps-Simulated_example : Simulated formats history after_close Storage.new
Steps-Simulated_example =
    Steps-Simulated formats formats-RoundTrips Storage.new (reopened-Coherent formats init_schema)
      fits steps (new-Agree formats)
