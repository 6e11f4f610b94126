-- ===== src/Bridge/Close/Once.antt =====
-- A close is marked before the swap, completed once after it, and takes no more payments.
use cashu_spilman_channels.Prelude.{
  ℕ, ◌+◌, String, false, Option, some, List, ok, err, ◌≡◌, arith, get, string_eq, str_eq_iff,
  get-insert,
}
use cashu_spilman_channels.Json.{Json}
use cashu_spilman_channels.Amounts.{u64}
use cashu_spilman_channels.Packages.{Packages, Proof}
use cashu_spilman_channels.Storage.Records.{ClosingData, ClosedDataView, ChannelState, same_state}
use cashu_spilman_channels.Storage.{MemoryStorage, get_state}
use cashu_spilman_channels.Storage
use cashu_spilman_channels.Host.{ConfigurableHost, mark_channel_closing, mark_channel_closed}
use cashu_spilman_channels.Bridge.{channel_closing, is_empty}
use cashu_spilman_channels.Bridge.Validate.{validate_payment_request}
use cashu_spilman_channels.Bridge.Process.{process_payment, registered, paid_on}
use cashu_spilman_channels.Bridge.Close.{
  PreparedCloseTransition, CompletedClose, CloseSuccess, not_closing, mark_prepared_close_closing,
  mark_completed_close,
}

-- The record of a completed close.
abbrev pub closed_view : CompletedClose → ClosedDataView
closed_view completed = record {
  expiry_timestamp = completed.expiry_timestamp;
  closed_amount = completed.balance;
  value_after_stage1 = u64 (completed.receiver_sum + completed.sender_sum);
  receiver_sum = completed.receiver_sum;
  sender_sum = completed.sender_sum;
  receiver_proofs_json = completed.receiver_proofs_json;
  sender_proofs_json = completed.sender_proofs_json;
}

-- What a completed close leaves.
pub record Settled (completed : CompletedClose) (s t : MemoryStorage) : Type 0 where
  pub before : get_state s completed.channel_id ≡ some ChannelState.closing
  pub after : get_state t completed.channel_id ≡ some ChannelState.closed
  pub recorded : get t.closed completed.channel_id ≡ some (closed_view completed)
  pub payment : get t.balance completed.channel_id ≡ get s.balance completed.channel_id

module _ (json : Json) (host : ConfigurableHost) where
  -- A close that `mark_completed_close` completes was closing and is closed then, with a record of exactly what
  -- was completed: its expiry, balance, sums and proofs, and the sum of the two sums, wrapped at 64 bits, as the
  -- value after stage 1. The stored payment is as it was. It is completed once: a second completion of the same
  -- channel is refused with status 400.
  pub mark_completed_close-Settled :
      (completed again : CompletedClose) (s t : MemoryStorage) {success : CloseSuccess}
      → again.channel_id ≡ completed.channel_id
      → mark_completed_close json host completed s ≡ ok (t, success)
      → Settled completed s t × (mark_completed_close json host again t ≡ err not_closing)
  unfolding mark_completed_close mark_channel_closed Storage.mark_closed same_state get_state
  mark_completed_close-Settled completed again s t same h =
      let id = completed.channel_id in
      let v = closed_view completed in
      let written = get-insert s.closed id id v in
      let recorded : get t.closed id ≡ some v = ground (arith, written, str_eq_iff id id) in
      (
        record {
          before = ground arith;
          after = ground (arith, recorded);
          recorded = recorded;
          payment = ground arith;
        },
        rw same (ground (arith, recorded)),
      )

module _ (p : Packages) (host : ConfigurableHost) (fuel now : ℕ) where
  refused_at :
      (id : String) (balance : ℕ) (signature context : String) (params : Option p.json.Value)
      (proofs : Option (List Proof)) (t : MemoryStorage)
      → get_state t id ≡ some ChannelState.closing
      → is_empty id ≡ false
      → is_empty signature ≡ false
      → registered p host fuel now id balance signature params proofs t ≡ some (err channel_closing)
  unfolding registered validate_payment_request
  refused_at id balance signature context params proofs t h i j = ground arith

  -- Once `mark_prepared_close_closing` has succeeded, the channel is closing with the transition's balance and
  -- signature as its authorization, the stored payments are as they were, and every payment on it that names
  -- the channel and a signature at all, with funding or without, is refused as closing and changes nothing.
  pub mark_prepared_close_closing_lem :
      (transition : PreparedCloseTransition p.json.Value) (s t : MemoryStorage) (balance : ℕ)
      (signature context : String) (params : Option p.json.Value) (proofs : Option (List Proof))
      → mark_prepared_close_closing p.json host transition s ≡ ok t
      → is_empty transition.prepared_close.channel_id ≡ false
      → is_empty signature ≡ false
      → (get_state t transition.prepared_close.channel_id ≡ some ChannelState.closing)
        × (get t.closing transition.prepared_close.channel_id
            ≡ some (record {
              expiry_timestamp = transition.expiry_timestamp;
              balance = transition.payment.balance;
              signature = transition.payment.signature;
            }))
        × (t.balance ≡ s.balance)
        × (process_payment p host fuel now transition.prepared_close.channel_id balance signature
              params proofs context t
            ≡ some (t, err channel_closing))
  unfolding mark_prepared_close_closing mark_channel_closing Storage.mark_closing get_state
  mark_prepared_close_closing_lem transition s t balance signature context params proofs h i j =
      let id = transition.prepared_close.channel_id in
      let d : ClosingData = record {
        expiry_timestamp = transition.expiry_timestamp;
        balance = transition.payment.balance;
        signature = transition.payment.signature;
      } in
      let written = get-insert s.closing id id d in
      let stored : get t.closing id ≡ some d = ground (arith, written, str_eq_iff id id) in
      let state : get_state t id ≡ some ChannelState.closing = ground (arith, stored) in
      (
        state,
        stored,
        ground arith,
        unfold process_payment in
            unfold paid_on in
            rw (refused_at id balance signature context params proofs t state i j),
      )
