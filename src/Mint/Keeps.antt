-- ===== src/Mint/Keeps.antt =====
-- What every callback keeps, `with_active_keyset_retry` keeps, and the attempt of a success was prepared.
use cashu_spilman_channels.Prelude.{
  String, Bool, true, false, Result, ok, err, str_eq, Bool-cases, inl, inr,
}
use cashu_spilman_channels.Mint.Retry.{
  SelectedOutputKeyset, KeysetRetrySuccess, KeysetRetryError, Callbacks, or_fail,
  with_active_keyset_retry, submitted, decided, retry, resubmitted, resend,
}

module _ {W A T P S : Type 0} (c : Callbacks W A T P S) (I : W → Type 0) (Made : A → Type 0) where
  abbrev pub Prepared : Result P A × W → Type 0
  Prepared (ok a, w) = I w × Made a
  Prepared (err e, w) = I w

  abbrev pub Good : Result (KeysetRetryError A P S) (KeysetRetrySuccess A T) × W → Type 0
  Good (ok success, w) = I w × Made success.attempt
  Good (err e, w) = I w

  pub record Kept : Type 0 where
    pub select : (w : W) → I w → I (c.select w).1
    pub prepare : (k : SelectedOutputKeyset) (w : W) → I w → Prepared (c.prepare k w)
    pub submit : (a : A) (w : W) → I w → I (c.submit a w).1
    pub should_retry : (e : S) (w : W) → I w → I (c.should_retry e w).1
    pub refresh : (w : W) → I w → I (c.refresh w).1
    pub cleanup : (a : A) (e : S) (w : W) → I w → I (c.cleanup a e w).1

  module _ (kept : Kept) where
    -- A step that keeps the invariant, and what follows it.
    or_fail-Good :
        {B : Type 0} (e : P → KeysetRetryError A P S) (x : Result P B × W)
        (k : B → W → Result (KeysetRetryError A P S) (KeysetRetrySuccess A T) × W)
        → I x.1
        → ((b : B) (w : W) → I w → Good (k b w))
        → Good (or_fail e x k)
    or_fail-Good e (ok b, w) k i f = f b w i
    or_fail-Good e (err y, w) k i f = i

    or_fail-Prepared :
        (e : P → KeysetRetryError A P S) (x : Result P A × W)
        (k : A → W → Result (KeysetRetryError A P S) (KeysetRetrySuccess A T) × W)
        → Prepared x
        → ((a : A) (w : W) → I w → Made a → Good (k a w))
        → Good (or_fail e x k)
    or_fail-Prepared e (ok a, w) k i f = f a w i.0 i.1
    or_fail-Prepared e (err y, w) k i f = i

    resubmitted-Good : (a : A) (x : Result S T × W) → Made a → I x.1 → Good (resubmitted c a x)
    unfolding resubmitted
    resubmitted-Good a (ok value, w) m i = (i, m)
    resubmitted-Good a (err error, w) m i = i

    resend-Good :
        (id : String) (a : A) (e : S) (k : SelectedOutputKeyset) (w : W)
        → I w
        → Good (resend c id a e k w)
    unfolding resend
    resend-Good id a e k w i = elim (Bool-cases (str_eq k.id id)) [
      | inl same ↦ rw same i
      | inr other ↦ rw other (
          or_fail-Prepared KeysetRetryError.prepare_failed (c.prepare k w)
            (λ again w. resubmitted c again (c.submit again w)) (kept.prepare k w i)
            (λ again w i m. resubmitted-Good again (c.submit again w) m (kept.submit again w i)))
    ]

    retry-Good : (id : String) (a : A) (e : S) (w : W) → I w → Good (retry c id a e w)
    unfolding retry
    retry-Good id a e w i =
        or_fail-Good KeysetRetryError.cleanup_failed (c.cleanup a e w) _ (kept.cleanup a e w i)
          (λ _ w i.
            or_fail-Good KeysetRetryError.refresh_failed (c.refresh w) _ (kept.refresh w i)
              (λ _ w i.
                or_fail-Good KeysetRetryError.select_failed (c.select w) _ (kept.select w i)
                  (λ k w i. resend-Good id a e k w i)))

    decided-Good : (id : String) (a : A) (e : S) (x : Bool × W) → I x.1 → Good (decided c id a e x)
    unfolding decided
    decided-Good id a e (true, w) i = retry-Good id a e w i
    decided-Good id a e (false, w) i = i

    submitted-Good :
        (id : String) (a : A) (x : Result S T × W) → Made a → I x.1 → Good (submitted c id a x)
    unfolding submitted
    submitted-Good id a (ok value, w) m i = (i, m)
    submitted-Good id a (err error, w) m i =
        decided-Good id a error (c.should_retry error w) (kept.should_retry error w i)

    pub with_active_keyset_retry-Good : (w : W) → I w → Good (with_active_keyset_retry c w)
    unfolding with_active_keyset_retry
    with_active_keyset_retry-Good w i =
        or_fail-Good KeysetRetryError.select_failed (c.select w) _ (kept.select w i) (λ k w i.
          or_fail-Prepared KeysetRetryError.prepare_failed (c.prepare k w) _ (kept.prepare k w i)
            (λ a w i m. submitted-Good k.id a (c.submit a w) m (kept.submit a w i)))
