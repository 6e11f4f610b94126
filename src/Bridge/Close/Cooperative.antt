-- ===== src/Bridge/Close/Cooperative.antt =====
-- A cooperative close from end to end: `execute_cooperative_close`.
use cashu_spilman_channels.Prelude.{
  ℕ, String, Bool, true, none, some, ok, err, map_err, ok_or, unwrap_or, ◌≡◌, refl, sym, subst, ◌∙◌,
  inl, inr, arith, get, string_eq, str_eq_iff, get-insert,
}
use cashu_spilman_channels.Prelude.Runs.{Run, >>=-ok, map_error}
use cashu_spilman_channels.Json.{str_field, u64_field}
use cashu_spilman_channels.Packages.{Packages}
use cashu_spilman_channels.Channel.Parse.{give}
use cashu_spilman_channels.Storage.Records.{ChannelState, ClosingData, ClosedDataView}
use cashu_spilman_channels.Storage.{MemoryStorage, get_state, get_funding}
use cashu_spilman_channels.Storage
use cashu_spilman_channels.Host.{ConfigurableHost, compute_amount_due, mark_channel_closing}
use cashu_spilman_channels.Bridge.{Cause, text, invalid_request, unknown_channel}
use cashu_spilman_channels.Bridge.Validate.{reject_empty}
use cashu_spilman_channels.Bridge.Close.{
  CloseParts, CloseData, Payment, PreparedCloseTransition, CloseSuccess, CloseError, because,
  bad_request, from_preparation_error, from_bridge_error, mark_prepared_close_closing,
}
use cashu_spilman_channels.Bridge.Close.Select.{
  select_close_output_keyset_from_funding, missing_funding,
}
use cashu_spilman_channels.Bridge.Close.Prepare.{prepare_close_data, closable}
use cashu_spilman_channels.Bridge.Close.Prepared.{prepare_close_data_impl-Stages}
use cashu_spilman_channels.Bridge.Close.Transition.{
  validate_and_prepare_cooperative_close, prepare_cooperative_close_for_execution,
  prepare_cooperative_close_transition,
}
use cashu_spilman_channels.Bridge.Close.Execute.{Network, World, or_stop}
use cashu_spilman_channels.Bridge.Close.Executed.{execute_close_for_closing_channel-After}
use cashu_spilman_channels.Bridge.Close.Attempts.{Closed, After, wrapped}
use cashu_spilman_channels.Bridge.Close.Initiate.{
  stored, first_use_of, record_cooperative_close_first_use_funding, execute_transition,
  execute_cooperative_close,
}

-- Inversions of the steps of an execution that ends well.
or_stop-run :
    {W A B C : Type 0} (f : C → CloseError) (r : Run C A) (w : W) (k : A → W → Run CloseError B × W)
    {b : B} {w' : W}
    → or_stop (map_error f r, w) k ≡ (some (ok b), w')
    → (a : A) × (r ≡ some (ok a)) × (k a w ≡ (some (ok b), w'))
or_stop-run f none w k h = absurd (ground arith)
or_stop-run f (some (err e)) w k h = absurd (ground arith)
or_stop-run f (some (ok a)) w k h = (a, refl, h)

module _ (p : Packages) (parts : CloseParts p) (no_payment_proof : Cause → Bool)
    (host : ConfigurableHost) (fuel now : ℕ) where
  or_stop-stored :
      {E B : Type 0} (network : Network E) (w : World E) (r : Run CloseError MemoryStorage)
      (k : Unit {0} → World E → Run CloseError B × World E) {b : B} {w' : World E}
      → or_stop (stored p parts no_payment_proof host fuel now network w r) k ≡ (some (ok b), w')
      → (t : MemoryStorage) × (r ≡ some (ok t))
        × (k tt (record w { store = t }) ≡ (some (ok b), w'))
  or_stop-stored network w none k h = absurd (ground arith)
  or_stop-stored network w (some (err e)) k h = absurd (ground arith)
  or_stop-stored network w (some (ok t)) k h = (t, refl, h)

  -- The amount due, of a close that was validated.
  cooperative_due :
      (json : String) (payment : Payment p.json.Value) (s : MemoryStorage) {close_data : CloseData}
      → parts.payment_from_str json ≡ ok payment
      → validate_and_prepare_cooperative_close p parts no_payment_proof host fuel now json s
        ≡ some (ok close_data)
      → payment.balance ≡ compute_amount_due p.json host payment.channel_id none s
  unfolding validate_and_prepare_cooperative_close prepare_close_data
  cooperative_due json payment s parsed h =
      let (q, read, after_read) =
        >>=-ok (give (map_err (λ e. invalid_request (text e)) (parts.payment_from_str json))) _ h in
      let (u, i, after_i) =
        >>=-ok (give (reject_empty q.channel_id "missing channel_id")) _ after_read in
      let (v, j, after_j) =
        >>=-ok (give (reject_empty q.signature "missing signature")) _ after_i in
      let (x, open_, after_open) =
        >>=-ok (closable p parts host fuel now (get_state s q.channel_id)) _ after_j in
      let (funding, funded, after_funded) =
        >>=-ok (give (ok_or (get_funding q.channel_id s) unknown_channel)) _ after_open in
      let (keyset, chosen, made) =
        >>=-ok (select_close_output_keyset_from_funding p host fuel now funding s) _ after_funded in
      let st =
        prepare_close_data_impl-Stages p parts host fuel now q.channel_id q.balance q.signature
          funding keyset true s made in
      let same : q ≡ payment = ground (arith, read, parsed) in
      let due : q.balance ≡ compute_amount_due p.json host q.channel_id none s = elim st.terms.due [
        | inl e ↦ absurd (cc)
        | inr e ↦ e
      ] in
      subst
        (λ (x : Payment p.json.Value).
          x.balance ≡ compute_amount_due p.json host x.channel_id none s)
        same due

  -- `serde` reads the same fields into a payment as into a value.
  pub record Reads (json : String) (payment : Payment p.json.Value) : Type 0 where
    pub parsed : parts.payment_from_str json ≡ ok payment
    pub value : p.json.Value
    pub decoded : p.json.from_str json ≡ ok value
    pub channel_id : str_field p.json value "channel_id" ≡ some payment.channel_id
    pub balance : u64_field p.json value "balance" ≡ some payment.balance

  record Transition (payment : Payment p.json.Value) (s : MemoryStorage)
      (transition : PreparedCloseTransition p.json.Value) : Type 0 where
    pub due : payment.balance ≡ compute_amount_due p.json host payment.channel_id none s
    pub channel_id : transition.prepared_close.channel_id ≡ payment.channel_id
    pub balance : transition.payment.balance ≡ payment.balance

  prepare_cooperative-Transition :
      (json : String) (payment : Payment p.json.Value) (s : MemoryStorage)
      {transition : PreparedCloseTransition p.json.Value}
      → Reads json payment
      → prepare_cooperative_close_transition p parts no_payment_proof host fuel now json s
        ≡ some (ok transition)
      → Transition payment s transition
  unfolding prepare_cooperative_close_transition prepare_cooperative_close_for_execution
  prepare_cooperative-Transition json payment s {transition} reads h =
      let (prep, prepared, built) =
        >>=-ok
          (prepare_cooperative_close_for_execution p parts no_payment_proof host fuel now json s) _
          h in
      let (value, read, after_read) =
        >>=-ok (give (map_err (λ e. bad_request (because (text e))) (p.json.from_str json))) _
          prepared in
      let (id, named, after_named) =
        >>=-ok
          (give (
            ok_or (str_field p.json value "channel_id")
              (bad_request (because (text "Missing ID")))))
          _ after_read in
      let (close_data, validated, after_validated) =
        >>=-ok
          (map_error (from_bridge_error no_payment_proof)
            (validate_and_prepare_cooperative_close p parts no_payment_proof host fuel now json s))
          _ after_named in
      let (funding, funded, wrapping) =
        >>=-ok (give (ok_or (get_funding id s) missing_funding)) _ after_validated in
      let balance = unwrap_or (u64_field p.json value "balance") 0 in
      let names =
        wrapped p parts no_payment_proof host fuel now close_data id balance funding prep
          (ground (arith, wrapping)) in
      let same : value ≡ reads.value = ground (arith, read, reads.decoded) in
      let id≡ : id ≡ payment.channel_id = ground (arith, named, same, reads.channel_id) in
      let b≡ : balance ≡ payment.balance =
        subst (λ v. unwrap_or (u64_field p.json v "balance") 0 ≡ payment.balance) (sym same)
          (rw reads.balance) in
      let validated_ok : validate_and_prepare_cooperative_close p parts no_payment_proof host fuel
            now json s
          ≡ some (ok close_data) =
        ground (arith, validated) in
      record {
        due = cooperative_due json payment s reads.parsed validated_ok;
        channel_id = ground (arith, built, names, id≡);
        balance = ground (arith, built, names, b≡);
      }

  -- The store after the transition has been written.
  marked-closing :
      (transition : PreparedCloseTransition p.json.Value) (s t : MemoryStorage)
      → mark_prepared_close_closing p.json host transition s ≡ ok t
      → get t.closing transition.prepared_close.channel_id
        ≡ some (record {
          expiry_timestamp = transition.expiry_timestamp;
          balance = transition.payment.balance;
          signature = transition.payment.signature;
        })
  unfolding mark_prepared_close_closing mark_channel_closing Storage.mark_closing
  marked-closing transition s t h =
      let id = transition.prepared_close.channel_id in
      let d : ClosingData = record {
        expiry_timestamp = transition.expiry_timestamp;
        balance = transition.payment.balance;
        signature = transition.payment.signature;
      } in
      ground (arith, get-insert s.closing id id d, str_eq_iff id id)

  -- What a cooperative close leaves.
  pub record CooperativelyClosed {E : Type 0} (payment : Payment p.json.Value) (network : Network E)
      (s t : MemoryStorage) (success : CloseSuccess) : Type 0 where
    pub funded : MemoryStorage
    pub first_use :
        first_use_of p parts no_payment_proof host fuel now network payment s ≡ some (ok funded)
    pub due : payment.balance ≡ compute_amount_due p.json host payment.channel_id none funded
    pub state : get_state t payment.channel_id ≡ some ChannelState.closed
    pub view : ClosedDataView
    pub recorded : get t.closed payment.channel_id ≡ some view
    pub amount : view.closed_amount ≡ payment.balance
    pub receiver_sum : view.receiver_sum ≡ success.receiver_sum
    pub sender_sum : view.sender_sum ≡ success.sender_sum

  cooperative_from :
      {E : Type 0} (network : Network E) (payment : Payment p.json.Value)
      (transition : PreparedCloseTransition p.json.Value) (s f u : MemoryStorage)
      (success : CloseSuccess) (t : MemoryStorage)
      → first_use_of p parts no_payment_proof host fuel now network payment s ≡ some (ok f)
      → Transition payment f transition
      → mark_prepared_close_closing p.json host transition f ≡ ok u
      → Closed transition.prepared_close.channel_id u t success
      → CooperativelyClosed payment network s t success
  cooperative_from network payment transition s f u success t first tr marked closed =
      let e = tr.channel_id in
      let stored : closed.authorization.balance ≡ transition.payment.balance =
        ground (arith, closed.stored, marked-closing transition f u marked) in
      record {
        funded = f;
        first_use = first;
        due = tr.due;
        state = subst (λ id. get_state t id ≡ some ChannelState.closed) e closed.state;
        view = closed.view;
        recorded = subst (λ id. get t.closed id ≡ some closed.view) e closed.recorded;
        amount = closed.amount ∙ stored ∙ tr.balance;
        receiver_sum = closed.receiver_sum;
        sender_sum = closed.sender_sum;
      }

  first_use_at :
      {E : Type 0} (network : Network E) (json : String) (payment : Payment p.json.Value)
      (s : MemoryStorage) {f : MemoryStorage}
      → parts.payment_from_str json ≡ ok payment
      → record_cooperative_close_first_use_funding p parts no_payment_proof host fuel now network
          json s
        ≡ some (ok f)
      → first_use_of p parts no_payment_proof host fuel now network payment s ≡ some (ok f)
  unfolding record_cooperative_close_first_use_funding
  first_use_at network json payment s parsed h = ground (arith, h, parsed)

  -- A cooperative close that succeeds settles the channel at exactly the amount due: the balance that the
  -- request names is what the channel owes, no pending usage counted, once the request's first-use funding, if
  -- any, is recorded; and the channel that the request names is closed then, with that balance as the closed
  -- amount and the sums that the result reports. The JSON package reads the channel id and the balance of
  -- the request's text into a payment as it reads them into a value.
  pub execute_cooperative_close-CooperativelyClosed :
      {E : Type 0} (network : Network E) (json : String) (payment : Payment p.json.Value)
      (w w' : World E) {success : CloseSuccess}
      → Reads json payment
      → execute_cooperative_close p parts no_payment_proof host fuel now network json w
        ≡ (some (ok success), w')
      → CooperativelyClosed payment network w.store w'.store success
  unfolding execute_cooperative_close execute_transition
  execute_cooperative_close-CooperativelyClosed network json payment w w' {success} reads h =
      let (f, first, after_first) =
        or_stop-stored network w
          (record_cooperative_close_first_use_funding p parts no_payment_proof host fuel now network
            json w.store)
          _ h in
      let (transition, prepared, after_prepared) =
        or_stop-run from_preparation_error
          (prepare_cooperative_close_transition p parts no_payment_proof host fuel now json f)
          (record w { store = f }) _ after_first in
      let (u, marked, executed) =
        or_stop-stored network (record w { store = f })
          (give (mark_prepared_close_closing p.json host transition f)) _ after_prepared in
      let id = transition.prepared_close.channel_id in
      let closed : Closed id u w'.store success =
        subst (λ r. After id u r.0 r.1.store) executed
          (execute_close_for_closing_channel-After p parts no_payment_proof host fuel now network id
            (record w { store = u })) in
      cooperative_from network payment transition w.store f u success w'.store
        (first_use_at network json payment w.store reads.parsed first)
        (prepare_cooperative-Transition json payment f reads prepared) (ground (arith, marked))
        closed
