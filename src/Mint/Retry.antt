-- ===== src/Mint/Retry.antt =====
-- One attempt with the active keyset, and one more after a refresh: `with_active_keyset_retry` of
-- crates/cdk-spilman/src/keyset_retry.rs. The callbacks act on a state `W`. The asynchronous version awaits
-- the same callbacks in the same order.
use cashu_spilman_channels.Prelude.{
  String, Bool, true, false, Result, ok, err, if◌then◌else◌, str_eq,
}

pub record SelectedOutputKeyset : Type 0 where
  pub id : String
  pub info_json : String

pub record KeysetRetrySuccess (A T : Type 0) : Type 0 where
  pub attempt : A
  pub value : T
  pub retried : Bool

pub data KeysetRetryError (A P S : Type 0) : Type 0 where
  select_failed prepare_failed refresh_failed cleanup_failed : P → KeysetRetryError A P S
  submit_failed : A → S → Bool → KeysetRetryError A P S
  retry_keyset_unchanged : A → S → String → KeysetRetryError A P S

-- The callbacks, each from the state to a result and the next state.
pub record Callbacks (W A T P S : Type 0) : Type 0 where
  pub select : W → Result P SelectedOutputKeyset × W
  pub prepare : SelectedOutputKeyset → W → Result P A × W
  pub submit : A → W → Result S T × W
  pub should_retry : S → W → Bool × W
  pub refresh : W → Result P Unit × W
  pub cleanup : A → S → W → Result P Unit × W

-- `f().map_err(e)?` and what follows it.
abbrev pub or_fail :
    {W E F A B : Type 0} → (E → F) → Result E A × W → (A → W → Result F B × W) → Result F B × W
or_fail e (ok a, w) k = k a w
or_fail e (err x, w) k = (err (e x), w)

module _ {W A T P S : Type 0} (c : Callbacks W A T P S) where
  -- The second submission.
  unfoldable pub resubmitted :
      A → Result S T × W → Result (KeysetRetryError A P S) (KeysetRetrySuccess A T) × W
  resubmitted attempt (ok value, w) =
      (ok (record { attempt = attempt; value = value; retried = true }), w)
  resubmitted attempt (err error, w) = (err (submit_failed attempt error true), w)

  -- The retry, with the keyset that is now selected.
  unfoldable pub resend :
      String
      → A
      → S
      → SelectedOutputKeyset
      → W
      → Result (KeysetRetryError A P S) (KeysetRetrySuccess A T) × W
  unfolding resubmitted
  resend keyset_id attempt error retry_keyset w =
      if str_eq retry_keyset.id keyset_id
      then (err (retry_keyset_unchanged attempt error keyset_id), w)
      else or_fail prepare_failed (c.prepare retry_keyset w)
          (λ again w. resubmitted again (c.submit again w))

  -- After a rejection that may be retried.
  unfoldable pub retry :
      String → A → S → W → Result (KeysetRetryError A P S) (KeysetRetrySuccess A T) × W
  unfolding resend
  retry keyset_id attempt error w = or_fail cleanup_failed (c.cleanup attempt error w) (λ _ w.
      or_fail refresh_failed (c.refresh w) (λ _ w.
        or_fail select_failed (c.select w) (λ keyset w. resend keyset_id attempt error keyset w)))

  unfoldable pub decided :
      String → A → S → Bool × W → Result (KeysetRetryError A P S) (KeysetRetrySuccess A T) × W
  unfolding retry
  decided keyset_id attempt error (true, w) = retry keyset_id attempt error w
  decided keyset_id attempt error (false, w) = (err (submit_failed attempt error false), w)

  unfoldable pub submitted :
      String → A → Result S T × W → Result (KeysetRetryError A P S) (KeysetRetrySuccess A T) × W
  unfolding decided
  submitted keyset_id attempt (ok value, w) =
      (ok (record { attempt = attempt; value = value; retried = false }), w)
  submitted keyset_id attempt (err error, w) =
      decided keyset_id attempt error (c.should_retry error w)

  unfoldable pub with_active_keyset_retry :
      W → Result (KeysetRetryError A P S) (KeysetRetrySuccess A T) × W
  unfolding submitted
  with_active_keyset_retry w = or_fail select_failed (c.select w) (λ keyset w.
      or_fail prepare_failed (c.prepare keyset w)
        (λ attempt w. submitted keyset.id attempt (c.submit attempt w)))
