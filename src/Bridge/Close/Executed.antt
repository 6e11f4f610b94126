-- ===== src/Bridge/Close/Executed.antt =====
-- What the execution of a close leaves in the store: the channel closed, or nothing but refreshed keysets.
use cashu_spilman_channels.Prelude.{
  ℕ, ◌+◌, String, Bool, true, false, Option, none, some, Result, ok, err, ◌≡◌, refl, ◌∙◌, arith,
  get, insert, remove, string_eq, str_eq, str_eq_iff, get-insert, get-remove, Bool-cases, inl, inr,
}
use cashu_spilman_channels.Prelude.Runs.{Run, map_error, >>=-past}
use cashu_spilman_channels.Packages.{Packages}
use cashu_spilman_channels.Mint.{MintRequestError}
use cashu_spilman_channels.Mint.Retry.{
  KeysetRetrySuccess, KeysetRetryError, with_active_keyset_retry,
}
use cashu_spilman_channels.Mint.Keeps.{Good, with_active_keyset_retry-Good}
use cashu_spilman_channels.Storage.Records.{ClosingData, ClosedDataView, ChannelState, same_state}
use cashu_spilman_channels.Storage.{MemoryStorage, get_state, get_funding, get_closing_data}
use cashu_spilman_channels.Storage
use cashu_spilman_channels.Host.{ConfigurableHost, mark_channel_closed}
use cashu_spilman_channels.Amounts.{u64}
use cashu_spilman_channels.Bridge.{Cause}
use cashu_spilman_channels.Bridge.Close.{
  CloseParts, PreparedClose, CompletedClose, CloseSuccess, CloseError, ClosePreparationError,
  from_preparation_error, mark_completed_close,
}
use cashu_spilman_channels.Bridge.Close.Select.{close_mint_unit_for_channel}
use cashu_spilman_channels.Bridge.Close.Complete.{
  complete_prepared_close, or_failed, unblinded, sign_all,
}
use cashu_spilman_channels.Bridge.Close.Execute.{
  Network, World, Attempt, Failure, or_stop, start, close_retry_result, ensure_close_keysets_cached,
  close_callbacks, finalize_close, finish, execute_with, execute_close_for_closing_channel, Keysets,
  cached, cache_miss, marked, selected,
}
use cashu_spilman_channels.Bridge.Close.Attempts.{
  SameChannels, SameChannels-refreshed, Closed, After, Names, Unchanged, kept_by_callbacks,
}

module _ (p : Packages) (parts : CloseParts p) (no_payment_proof : Cause → Bool)
    (host : ConfigurableHost) (fuel now : ℕ) where
  completed-Names :
      (resp_json : String) (prep : PreparedClose p.json.Value) {completed : CompletedClose}
      → complete_prepared_close p parts host fuel now resp_json prep ≡ some (ok completed)
      → (completed.channel_id ≡ prep.channel_id) × (completed.balance ≡ prep.balance)
  unfolding complete_prepared_close
  completed-Names resp_json prep {completed} h =
      let Q : CompletedClose → Type 0 =
        λ c. (c.channel_id ≡ prep.channel_id) × (c.balance ≡ prep.balance) in
      >>=-past Q (or_failed (parts.response_from_str resp_json) "Invalid close swap response") _
        (λ response h.
          >>=-past Q (unblinded p parts host fuel now response prep) _
            (λ r h.
              >>=-past Q (sign_all p parts host fuel now r.0 r.1.receiver_proofs) _
                (λ signed h. (ground (arith, h), ground (arith, h))) h)
            h)
        h

  mark-Closed :
      (id : String) (cd : ClosingData) (completed : CompletedClose) (s u t : MemoryStorage)
      {success : CloseSuccess}
      → SameChannels s u
      → get s.closing id ≡ some cd
      → completed.channel_id ≡ id
      → completed.balance ≡ cd.balance
      → mark_completed_close p.json host completed u ≡ ok (t, success)
      → Closed id s t success
  unfolding mark_completed_close mark_channel_closed Storage.mark_closed get_state
  mark-Closed id cd completed s u t same stored named balance h =
      let v : ClosedDataView = record {
        expiry_timestamp = completed.expiry_timestamp;
        closed_amount = completed.balance;
        value_after_stage1 = u64 (completed.receiver_sum + completed.sender_sum);
        receiver_sum = completed.receiver_sum;
        sender_sum = completed.sender_sum;
        receiver_proofs_json = completed.receiver_proofs_json;
        sender_proofs_json = completed.sender_proofs_json;
      } in
      let written : t ≡ record s {
        keysets = u.keysets;
        closed = insert s.closed completed.channel_id v;
        closing = remove s.closing completed.channel_id;
      } =
        ground (arith, h, same) in
      let closed_at = λ (j : String). get-insert s.closed completed.channel_id j v in
      let recorded : get t.closed id ≡ some v =
        ground (arith, written, named, closed_at id, str_eq_iff completed.channel_id id) in
      record {
        authorization = cd;
        stored = stored;
        state = ground (arith, recorded);
        view = v;
        recorded = recorded;
        amount = balance;
        receiver_sum = ground (arith, h);
        sender_sum = ground (arith, h);
        payment = ground (arith, written);
        funding = ground (arith, written);
        others = λ j other.
            let o : str_eq completed.channel_id j ≡ false = rw named other in
            ground (arith, o, written, closed_at j, get-remove s.closing completed.channel_id j);
      }

  module _ {E : Type 0} (network : Network E) where
    -- The store after a step of the execution.
    abbrev AfterStep : String → MemoryStorage → Run CloseError CloseSuccess × World E → Type 0
    AfterStep id s r = After id s r.0 r.1.store

    marked-After :
        (id : String) (cd : ClosingData) (s : MemoryStorage) (completed : CompletedClose)
        (w : World E) (r : Result CloseError (MemoryStorage × CloseSuccess))
        → mark_completed_close p.json host completed w.store ≡ r
        → SameChannels s w.store
        → get s.closing id ≡ some cd
        → completed.channel_id ≡ id
        → completed.balance ≡ cd.balance
        → AfterStep id s (marked p parts no_payment_proof host fuel now network w r)
    marked-After id cd s completed w (err e) h same stored named balance = same
    marked-After id cd s completed w (ok (t, success)) h same stored named balance =
        mark-Closed id cd completed s w.store t same stored named balance h

    completed-After :
        (id : String) (cd : ClosingData) (s : MemoryStorage) (resp_json : String)
        (prep : PreparedClose p.json.Value) (w : World E) (r : Run CloseError CompletedClose)
        → complete_prepared_close p parts host fuel now resp_json prep ≡ r
        → SameChannels s w.store
        → get s.closing id ≡ some cd
        → Names p parts no_payment_proof host fuel now id cd.balance prep
        → AfterStep id s (
            or_stop
              (r, w)
              (λ completed w.
                marked p parts no_payment_proof host fuel now network w
                  (mark_completed_close p.json host completed w.store)))
    completed-After id cd s resp_json prep w none h same stored names = same
    completed-After id cd s resp_json prep w (some (err e)) h same stored names = same
    completed-After id cd s resp_json prep w (some (ok completed)) h same stored names =
        let (named, balance) = completed-Names resp_json prep h in
        marked-After id cd s completed w (mark_completed_close p.json host completed w.store) refl
          same stored (named ∙ names.0) (balance ∙ names.1)

    finish-After :
        (id : String) (cd : ClosingData) (s : MemoryStorage)
        (r : Result
          (KeysetRetryError (PreparedClose p.json.Value) Failure MintRequestError)
          (KeysetRetrySuccess (PreparedClose p.json.Value) String))
        (a : Attempt E)
        → Good
            (close_callbacks p parts no_payment_proof host fuel now network id cd)
            (Unchanged p parts no_payment_proof host fuel now network s)
            (Names p parts no_payment_proof host fuel now id cd.balance)
            (r, a)
        → get s.closing id ≡ some cd
        → AfterStep id s (finish p parts no_payment_proof host fuel now network (r, a))
    unfolding finish finalize_close close_retry_result
    finish-After id cd s (ok success) a good stored =
        completed-After id cd s success.value success.attempt a.world
          (complete_prepared_close p parts host fuel now success.value success.attempt) refl good.0
          stored good.1
    finish-After id cd s (err (KeysetRetryError.select_failed none)) a good stored = good
    finish-After id cd s (err (KeysetRetryError.select_failed (some e))) a good stored = good
    finish-After id cd s (err (KeysetRetryError.prepare_failed none)) a good stored = good
    finish-After id cd s (err (KeysetRetryError.prepare_failed (some e))) a good stored = good
    finish-After id cd s (err (KeysetRetryError.refresh_failed none)) a good stored = good
    finish-After id cd s (err (KeysetRetryError.refresh_failed (some e))) a good stored = good
    finish-After id cd s (err (KeysetRetryError.cleanup_failed none)) a good stored = good
    finish-After id cd s (err (KeysetRetryError.cleanup_failed (some e))) a good stored = good
    finish-After id cd s (err (KeysetRetryError.submit_failed prep error false)) a good stored =
        good
    finish-After id cd s (err (KeysetRetryError.submit_failed prep error true)) a good stored = good
    finish-After id cd s (err (KeysetRetryError.retry_keyset_unchanged prep error key)) a good
          stored =
        good

    cached-Unchanged :
        (s : MemoryStorage) (w : World E) (x : Result String Unit × (Keysets × E))
        → SameChannels s w.store
        → SameChannels s (cached p parts no_payment_proof host fuel now network w x).1.store
    cached-Unchanged s w (ok u, (keysets, outside)) same =
        SameChannels-refreshed s w.store keysets same
    cached-Unchanged s w (err e, (keysets, outside)) same =
        SameChannels-refreshed s w.store keysets same

    cache_miss-Unchanged :
        {A : Type 0} (mint : String) (s : MemoryStorage) (w : World E) (r : Run CloseError A)
        → SameChannels s w.store
        → SameChannels s
            (cache_miss p parts no_payment_proof host fuel now network mint w r).1.store
    cache_miss-Unchanged mint s w none same = same
    cache_miss-Unchanged mint s w (some (ok a)) same = same
    cache_miss-Unchanged mint s w (some (err e)) same =
        cached-Unchanged s w (network.refresh mint w.store.keysets w.outside) same

    -- A step that leaves the channels, and what follows it.
    or_stop-After :
        {B : Type 0} (id : String) (s : MemoryStorage) (x : Run CloseError B × World E)
        (k : B → World E → Run CloseError CloseSuccess × World E)
        → SameChannels s x.1.store
        → ((b : B) (w : World E) → SameChannels s w.store → AfterStep id s (k b w))
        → AfterStep id s (or_stop x k)
    or_stop-After id s (none, w) k same f = same
    or_stop-After id s (some (err e), w) k same f = same
    or_stop-After id s (some (ok b), w) k same f = f b w same

    ensured :
        (s : MemoryStorage) (id : String) (w : World E)
        (r : Run ClosePreparationError (String × String))
        → SameChannels s w.store
        → SameChannels s
            (or_stop
              (map_error from_preparation_error r, w)
              (λ found w.
                cache_miss p parts no_payment_proof host fuel now network found.0 w
                  (selected p parts no_payment_proof host fuel now network id w.store))).1.store
    ensured s id w none same = same
    ensured s id w (some (err e)) same = same
    ensured s id w (some (ok found)) same =
        cache_miss-Unchanged found.0 s w
          (selected p parts no_payment_proof host fuel now network id w.store) same

    execute_with-After :
        (id : String) (cd : Option ClosingData) (w : World E)
        → get_closing_data id w.store ≡ cd
        → AfterStep id w.store (execute_with p parts no_payment_proof host fuel now network id cd w)
    unfolding execute_with ensure_close_keysets_cached
    execute_with-After id none w h = refl
    execute_with-After id (some cd) w h =
        or_stop-After id w.store _ _
          (ensured w.store id w (close_mint_unit_for_channel p host fuel now id w.store) refl)
          (λ _ u same.
            let x =
              with_active_keyset_retry
                (close_callbacks p parts no_payment_proof host fuel now network id cd) (start u) in
            finish-After id cd w.store x.0 x.1
              (with_active_keyset_retry-Good _ _ _
                (kept_by_callbacks p parts no_payment_proof host fuel now network id cd w.store)
                (start u) same)
              h)

    -- Executing a close is all or nothing in the receiver's store, whatever the mint and the refresher
    -- answer. On success the channel is closed, its record has the balance of the stored authorization and
    -- the sums that the result reports, its funding and its payment are as they were, and no other channel's
    -- state has changed. In all other cases nothing has changed but the cached keysets, so that the channel
    -- is still closing under the same authorization.
    pub execute_close_for_closing_channel-After :
        (id : String) (w : World E)
        → AfterStep id w.store
            (execute_close_for_closing_channel p parts no_payment_proof host fuel now network id w)
    unfolding execute_close_for_closing_channel
    execute_close_for_closing_channel-After id w =
        elim (Bool-cases (same_state (get_state w.store id) ChannelState.closing)) [
          | inl closing ↦ rw closing (execute_with-After id (get_closing_data id w.store) w refl)
          | inr other ↦ rw other refl
        ]
