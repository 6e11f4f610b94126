-- ===== src/Bridge/Close/Execute.antt =====
-- The execution of a close in crates/cdk-spilman/src/bridge.rs: selection, swap with one retry, completion
-- and the write of the closed channel. The mint client and the keyset refresher are arguments that act on
-- a state `E` of their own; a refresher may also write the cached keysets, and nothing else of the store.
-- The host's clock stands still during an execution.
use cashu_spilman_channels.Prelude.{
  ℕ, String, Bool, true, false, Option, none, some, Result, ok, err, if◌then◌else◌, is_some, Map,
}
use cashu_spilman_channels.Prelude.Runs.{Run, map_error}
use cashu_spilman_channels.Packages.{Packages}
use cashu_spilman_channels.Mint.{MintRequestError, rejection, permits_keyset_retry}
use cashu_spilman_channels.Mint.Retry.{
  SelectedOutputKeyset, KeysetRetrySuccess, KeysetRetryError, Callbacks, select_failed,
  prepare_failed, refresh_failed, cleanup_failed, submit_failed, retry_keyset_unchanged,
  with_active_keyset_retry,
}
use cashu_spilman_channels.Storage.Records.{ClosingData, KeysetCacheEntry, ChannelState, same_state}
use cashu_spilman_channels.Storage.{MemoryStorage, get_state, get_closing_data}
use cashu_spilman_channels.Host.{ConfigurableHost}
use cashu_spilman_channels.Bridge.{Cause, text}
use cashu_spilman_channels.Bridge.Close.{
  CloseParts, PreparedClose, CloseSuccess, CloseError, MintErrorValue, null, because,
  refresh_before_close, validation_failed, mint_rejected, mint_rejected_after_retry,
  mint_request_failed, storage_failed, not_closing, from_preparation_error, parse_mint_error_value,
  mark_completed_close,
}
use cashu_spilman_channels.Bridge.Close.Select.{
  close_mint_unit_for_channel, select_close_output_keyset_for_channel,
}
use cashu_spilman_channels.Bridge.Close.Transition.{prepare_close_for_closing_channel_with_keyset}
use cashu_spilman_channels.Bridge.Close.Complete.{complete_prepared_close}

abbrev pub Keysets : Type 0
Keysets = Map (String × String) KeysetCacheEntry

-- `SpilmanMintClient` and `SpilmanKeysetRefresher`
pub record Network (E : Type 0) : Type 0 where
  pub call_mint_swap : String → String → E → Result MintRequestError String × E
  pub refresh : String → Keysets → E → Result String Unit × (Keysets × E)

pub record World (E : Type 0) : Type 0 where
  pub store : MemoryStorage
  pub outside : E

-- What the callbacks of the retry share.
pub record Attempt (E : Type 0) : Type 0 where
  pub world : World E
  pub first_rejection : Option MintRequestError
  pub retry_mint_url : Option String

-- A step that may stop, and what follows it.
abbrev pub or_stop : {W E A B : Type 0} → Run E A × W → (A → W → Run E B × W) → Run E B × W
or_stop (none, w) k = (none, w)
or_stop (some (err e), w) k = (some (err e), w)
or_stop (some (ok a), w) k = k a w

-- A callback's failure: `none` stands for a search that did not end.
abbrev pub Failure : Type 0
Failure = Option CloseError

abbrev pub callback_result : {A : Type 0} → Run CloseError A → Result Failure A
callback_result none = err none
callback_result (some (err e)) = err (some e)
callback_result (some (ok a)) = ok a

abbrev pub stopped : {A : Type 0} → Failure → Run CloseError A
stopped none = none
stopped (some e) = some (err e)

-- The refusal of a first submission, and of a retry.
abbrev first_refusal : MintRequestError → CloseError
first_refusal error =
    if is_some (rejection error)
    then mint_rejected (parse_mint_error_value error)
    else mint_request_failed error none

abbrev first_value : Option MintRequestError → MintErrorValue
first_value none = null
first_value (some error) = parse_mint_error_value error

abbrev retry_refusal : MintRequestError → Option MintRequestError → CloseError
retry_refusal error first_rejection =
    if is_some (rejection error)
    then mint_rejected_after_retry (first_value first_rejection) (parse_mint_error_value error)
    else mint_request_failed error first_rejection

unfoldable pub close_retry_result :
    {V : Type 0}
    → Result
        (KeysetRetryError (PreparedClose V) Failure MintRequestError)
        (KeysetRetrySuccess (PreparedClose V) String)
    → Option MintRequestError
    → Run CloseError (KeysetRetrySuccess (PreparedClose V) String)
close_retry_result (ok success) first_rejection = some (ok success)
close_retry_result (err (select_failed e)) first_rejection = stopped e
close_retry_result (err (prepare_failed e)) first_rejection = stopped e
close_retry_result (err (refresh_failed e)) first_rejection = stopped e
close_retry_result (err (cleanup_failed e)) first_rejection = stopped e
close_retry_result (err (submit_failed attempt error false)) first_rejection =
    some (err (first_refusal error))
close_retry_result (err (submit_failed attempt error true)) first_rejection =
    some (err (retry_refusal error first_rejection))
close_retry_result (err (retry_keyset_unchanged attempt error id)) first_rejection =
    some (err (mint_rejected (parse_mint_error_value error)))

abbrev pub start : {E : Type 0} → World E → Attempt E
start w = record { world = w; first_rejection = none; retry_mint_url = none }

module _ (p : Packages) (parts : CloseParts p) (no_payment_proof : Cause → Bool)
    (host : ConfigurableHost) (fuel now : ℕ) where
  -- The world after the refresher.
  abbrev pub refreshed : {E : Type 0} → World E → Result String Unit × (Keysets × E) → World E
  refreshed w (r, (keysets, outside)) = record {
    store = record w.store { keysets = keysets };
    outside = outside;
  }

  module _ {E : Type 0} (network : Network E) where
    abbrev pub cached : World E → Result String Unit × (Keysets × E) → Run CloseError Unit × World E
    cached w (ok u, (keysets, outside)) = (some (ok tt), refreshed w (ok u, (keysets, outside)))
    cached w (err e, (keysets, outside)) = (
      some (err (storage_failed (refresh_before_close e))),
      refreshed w (err e, (keysets, outside)),
    )

    -- `if self.select_close_output_keyset_for_channel(channel_id).is_err()`
    abbrev pub cache_miss :
        {A : Type 0} → String → World E → Run CloseError A → Run CloseError Unit × World E
    cache_miss mint w none = (none, w)
    cache_miss mint w (some (ok a)) = (some (ok tt), w)
    cache_miss mint w (some (err e)) = cached w (network.refresh mint w.store.keysets w.outside)

    unfoldable pub selected : String → MemoryStorage → Run CloseError SelectedOutputKeyset
    selected channel_id s =
        map_error from_preparation_error (
          select_close_output_keyset_for_channel p parts no_payment_proof host fuel now channel_id
            s)

    unfoldable pub ensure_close_keysets_cached : String → World E → Run CloseError Unit × World E
    unfolding selected
    ensure_close_keysets_cached channel_id w =
        or_stop
          (
            map_error from_preparation_error
                (close_mint_unit_for_channel p host fuel now channel_id w.store),
            w,
          )
          (λ found w. cache_miss found.0 w (selected channel_id w.store))

    -- The mint's answer, and the world with the client's state.
    abbrev answered :
        Attempt E → Result MintRequestError String × E → Result MintRequestError String × Attempt E
    answered a (r, outside) = (r, record a { world = record a.world { outside = outside } })

    abbrev pub decide : MintRequestError → Attempt E → Bool → Bool × Attempt E
    decide error a true = (true, record a { first_rejection = some error })
    decide error a false = (false, a)

    -- A failed refresh is ignored.
    abbrev pub refresh_all : Attempt E → Option String → Result Failure Unit × Attempt E
    refresh_all a none = (ok tt, a)
    refresh_all a (some mint_url) = (
      ok tt,
      record a {
        world = refreshed a.world (network.refresh mint_url a.world.store.keysets a.world.outside);
      },
    )

    unfoldable pub close_callbacks :
        String
        → ClosingData
        → Callbacks (Attempt E) (PreparedClose p.json.Value) String Failure MintRequestError
    unfolding selected
    close_callbacks channel_id cd = record {
      select = λ a. (callback_result (selected channel_id a.world.store), a);
      prepare = λ keyset a. (
        callback_result (
            map_error from_preparation_error (
              prepare_close_for_closing_channel_with_keyset p parts no_payment_proof host fuel now
                channel_id cd.balance cd.signature keyset a.world.store)),
        a,
      );
      submit = λ prep a. answered a (
          network.call_mint_swap prep.mint_url (p.json.to_string prep.swap_request)
            a.world.outside);
      should_retry = λ error a. decide error a (permits_keyset_retry error);
      refresh = λ a. refresh_all a a.retry_mint_url;
      cleanup = λ prep error a. (ok tt, record a { retry_mint_url = some prep.mint_url });
    }

    -- The store with the channel closed, or as it was.
    abbrev pub marked :
        World E
        → Result CloseError (MemoryStorage × CloseSuccess)
        → Run CloseError CloseSuccess × World E
    marked w (err e) = (some (err e), w)
    marked w (ok (t, success)) = (some (ok success), record w { store = t })

    unfoldable pub finalize_close :
        String → PreparedClose p.json.Value → World E → Run CloseError CloseSuccess × World E
    finalize_close resp_json prep w =
        or_stop (complete_prepared_close p parts host fuel now resp_json prep, w)
          (λ completed w. marked w (mark_completed_close p.json host completed w.store))

    unfoldable pub finish :
        Result
            (KeysetRetryError (PreparedClose p.json.Value) Failure MintRequestError)
            (KeysetRetrySuccess (PreparedClose p.json.Value) String)
          × Attempt E
        → Run CloseError CloseSuccess × World E
    unfolding close_retry_result finalize_close
    finish (r, a) =
        or_stop (close_retry_result r a.first_rejection, a.world)
          (λ success w. finalize_close success.value success.attempt w)

    -- `execute_close_for_closing_channel` with the closing data that it finds.
    unfoldable pub execute_with :
        String → Option ClosingData → World E → Run CloseError CloseSuccess × World E
    unfolding ensure_close_keysets_cached close_callbacks finish
    execute_with channel_id none w =
        (some (err (validation_failed (because (text "Missing closing data")) 500 none none)), w)
    execute_with channel_id (some cd) w =
        or_stop (ensure_close_keysets_cached channel_id w)
          (λ _ w. finish (with_active_keyset_retry (close_callbacks channel_id cd) (start w)))

    unfoldable pub execute_close_for_closing_channel :
        String → World E → Run CloseError CloseSuccess × World E
    unfolding execute_with
    execute_close_for_closing_channel channel_id w =
        if same_state (get_state w.store channel_id) ChannelState.closing
        then execute_with channel_id (get_closing_data channel_id w.store) w
        else (some (err not_closing), w)
