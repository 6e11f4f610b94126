-- ===== src/Mint/Log.antt =====
-- What `with_active_keyset_retry` does, as a log of its callbacks: the state is the callbacks' own with the
-- events so far, the latest first.
use cashu_spilman_channels.Prelude.{
  ℕ, String, Bool, true, false, List, [], ◌∷◌, Result, ok, err, ◌≡◌, ◌≢◌, ◌⊎◌, refl, arith, inl,
  inr, str_eq, str_eq_iff, Bool-cases, ap, sym, subst, ◌≤◌, ◌+◌, ◌∙◌,
}
use cashu_spilman_channels.Mint.Retry.{
  SelectedOutputKeyset, KeysetRetrySuccess, KeysetRetryError, Callbacks, select_failed,
  prepare_failed, refresh_failed, cleanup_failed, submit_failed, retry_keyset_unchanged, or_fail,
  with_active_keyset_retry, submitted, decided, retry, resubmitted, resend,
}

pub data Event : Type 0 where
  chose : String → Event
  sent cleaned refreshed : Event

abbrev chosen :
    {V P : Type 0}
    → List Event
    → Result P SelectedOutputKeyset × V
    → Result P SelectedOutputKeyset × (List Event × V)
chosen es (ok k, v) = (ok k, (chose k.id ∷ es, v))
chosen es (err e, v) = (err e, (es, v))

abbrev noted : {V B : Type 0} → List Event → B × V → B × (List Event × V)
noted es (b, v) = (b, (es, v))

-- The same callbacks, with a log.
abbrev pub logged : {V A T P S : Type 0} → Callbacks V A T P S → Callbacks (List Event × V) A T P S
logged c = record {
  select = λ w. chosen w.0 (c.select w.1);
  prepare = λ k w. noted w.0 (c.prepare k w.1);
  submit = λ a w. noted (sent ∷ w.0) (c.submit a w.1);
  should_retry = λ s w. noted w.0 (c.should_retry s w.1);
  refresh = λ w. noted (refreshed ∷ w.0) (c.refresh w.1);
  cleanup = λ a s w. noted (cleaned ∷ w.0) (c.cleanup a s w.1);
}

abbrev pub count_sent : List Event → ℕ
count_sent [] = 0
count_sent (sent ∷ es) = count_sent es + 1
count_sent (_ ∷ es) = count_sent es

-- Whether a result says that it is the retry's.
abbrev pub is_retried :
    {A T P S : Type 0} → Result (KeysetRetryError A P S) (KeysetRetrySuccess A T) → Bool
is_retried (ok success) = success.retried
is_retried (err (submit_failed attempt error retried)) = retried
is_retried (err e) = false

-- At most one submission, or two: then with another keyset, chosen after a cleanup and a refresh, and the
-- result says so.
abbrev pub Orderly :
    {A T P S V : Type 0}
    → Result (KeysetRetryError A P S) (KeysetRetrySuccess A T) × (List Event × V)
    → Type 0
Orderly r =
    ((count_sent r.1.0 ≤ 1) × (is_retried r.0 ≡ false))
    ⊎ ((a : String) × (b : String) × (r.1.0
          ≡ sent ∷ chose b ∷ refreshed ∷ cleaned ∷ sent ∷ chose a ∷ [])
        × (a ≢ b)
        × (is_retried r.0 ≡ true))

-- A step that fails stops, and one that succeeds goes on.
or_fail-past :
    {W E F A B : Type 0} (Q : Result F B × W → Type 0) (e : E → F) (x : Result E A × W)
    (k : A → W → Result F B × W)
    → ((y : E) (w : W) → x ≡ (err y, w) → Q (err (e y), w))
    → ((a : A) (w : W) → x ≡ (ok a, w) → Q (k a w))
    → Q (or_fail e x k)
or_fail-past Q e (ok a, w) k f g = g a w refl
or_fail-past Q e (err y, w) k f g = f y w refl

noted-events :
    {V B : Type 0} (es : List Event) (x : B × V) {b : B} {w : List Event × V}
    → noted es x ≡ (b, w)
    → w.0 ≡ es
noted-events es x h = sym (ap (λ y. y.1.0) h)

-- The events after a choice.
chosen-ok :
    {V P : Type 0} (es : List Event) (x : Result P SelectedOutputKeyset × V)
    {k : SelectedOutputKeyset} {w : List Event × V}
    → chosen es x ≡ (ok k, w)
    → w.0 ≡ chose k.id ∷ es
chosen-ok es (ok j, v) h = ground arith
chosen-ok es (err y, v) h = absurd (ground arith)

chosen-err :
    {V P : Type 0} (es : List Event) (x : Result P SelectedOutputKeyset × V) {y : P}
    {w : List Event × V}
    → chosen es x ≡ (err y, w)
    → w.0 ≡ es
chosen-err es (ok j, v) h = absurd (ground arith)
chosen-err es (err y, v) h = ground arith

module _ {V A T P S : Type 0} (c : Callbacks V A T P S) where
  resubmitted-Orderly :
      (a b : String) (again : A) (x : Result S T × (List Event × V))
      → a ≢ b
      → x.1.0 ≡ sent ∷ chose b ∷ refreshed ∷ cleaned ∷ sent ∷ chose a ∷ []
      → Orderly (resubmitted (logged c) again x)
  unfolding resubmitted
  resubmitted-Orderly a b again (ok value, w) ne e = inr (a, b, e, ne, refl)
  resubmitted-Orderly a b again (err error, w) ne e = inr (a, b, e, ne, refl)

  -- A failure with at most one submission.
  stopped :
      (x : KeysetRetryError A P S) (w : List Event × V) (es : List Event)
      → w.0 ≡ es
      → count_sent es ≤ 1
      → is_retried {T = T} (err x) ≡ false
      → Orderly {T = T} (err x, w)
  stopped x w es e n f = inl (subst (λ l. count_sent l ≤ 1) (sym e) n, f)

  resend-Orderly :
      (a : String) (attempt : A) (error : S) (k : SelectedOutputKeyset) (w : List Event × V)
      → w.0 ≡ chose k.id ∷ refreshed ∷ cleaned ∷ sent ∷ chose a ∷ []
      → Orderly (resend (logged c) a attempt error k w)
  unfolding resend
  resend-Orderly a attempt error k w n = elim (Bool-cases (str_eq k.id a)) [
    | inl same ↦ rw same (stopped (retry_keyset_unchanged attempt error a) w _ n (omega arith) refl)
    | inr other ↦
        let differ : a ≢ k.id = λ e. ground (arith, str_eq_iff k.id a) in
        rw other (
          or_fail-past Orderly prepare_failed ((logged c).prepare k w)
            (λ again w. resubmitted (logged c) again ((logged c).submit again w))
            (λ y w4 e4.
              stopped (prepare_failed y) w4 _ (noted-events w.0 (c.prepare k w.1) e4 ∙ n)
                (omega arith) refl)
            (λ again w4 e4.
              let n4 = noted-events w.0 (c.prepare k w.1) e4 ∙ n in
              resubmitted-Orderly a k.id again ((logged c).submit again w4) differ
                (ap (λ es. sent ∷ es) n4)))
  ]

  retry-Orderly :
      (a : String) (attempt : A) (error : S) (w : List Event × V)
      → w.0 ≡ sent ∷ chose a ∷ []
      → Orderly (retry (logged c) a attempt error w)
  unfolding retry
  retry-Orderly a attempt error w h =
      or_fail-past Orderly cleanup_failed ((logged c).cleanup attempt error w) _
        (λ y w1 e1.
          let n1 =
            noted-events (cleaned ∷ w.0) (c.cleanup attempt error w.1) e1
            ∙ ap (λ es. cleaned ∷ es) h in
          stopped (cleanup_failed y) w1 _ n1 (omega arith) refl)
        (λ u w1 e1.
          let n1 =
            noted-events (cleaned ∷ w.0) (c.cleanup attempt error w.1) e1
            ∙ ap (λ es. cleaned ∷ es) h in
          or_fail-past Orderly refresh_failed ((logged c).refresh w1) _
            (λ y w2 e2.
              let n2 =
                noted-events (refreshed ∷ w1.0) (c.refresh w1.1) e2
                ∙ ap (λ es. refreshed ∷ es) n1 in
              stopped (refresh_failed y) w2 _ n2 (omega arith) refl)
            (λ u w2 e2.
              let n2 =
                noted-events (refreshed ∷ w1.0) (c.refresh w1.1) e2
                ∙ ap (λ es. refreshed ∷ es) n1 in
              or_fail-past Orderly select_failed ((logged c).select w2) _
                (λ y w3 e3.
                  stopped (select_failed y) w3 _ (chosen-err w2.0 (c.select w2.1) e3 ∙ n2)
                    (omega arith) refl)
                (λ k w3 e3.
                  resend-Orderly a attempt error k w3
                    (chosen-ok w2.0 (c.select w2.1) e3 ∙ ap (λ es. chose k.id ∷ es) n2))))

  decided-Orderly :
      (a : String) (attempt : A) (error : S) (x : Bool × (List Event × V))
      → x.1.0 ≡ sent ∷ chose a ∷ []
      → Orderly (decided (logged c) a attempt error x)
  unfolding decided
  decided-Orderly a attempt error (true, w) h = retry-Orderly a attempt error w h
  decided-Orderly a attempt error (false, w) h =
      stopped (submit_failed attempt error false) w _ h (omega arith) refl

  submitted-Orderly :
      (a : String) (attempt : A) (x : Result S T × (List Event × V))
      → x.1.0 ≡ sent ∷ chose a ∷ []
      → Orderly (submitted (logged c) a attempt x)
  unfolding submitted
  submitted-Orderly a attempt (ok value, w) h =
      inl (subst (λ l. count_sent l ≤ 1) (sym h) (omega arith), refl)
  submitted-Orderly a attempt (err error, w) h =
      decided-Orderly a attempt error ((logged c).should_retry error w) h

  -- Whatever the callbacks answer, `with_active_keyset_retry` submits at most once, or exactly twice: then
  -- the second submission follows a cleanup, a refresh and a new choice of a keyset with another id, and the
  -- result says that it is the retry's; otherwise it does not say so.
  pub with_active_keyset_retry-Orderly :
      (v : V) → Orderly (with_active_keyset_retry (logged c) ([], v))
  unfolding with_active_keyset_retry
  with_active_keyset_retry-Orderly v =
      or_fail-past Orderly select_failed ((logged c).select ([], v)) _
        (λ y w1 e1.
          stopped (select_failed y) w1 _ (chosen-err [] (c.select v) e1) (omega arith) refl)
        (λ k w1 e1.
          let n1 = chosen-ok [] (c.select v) e1 in
          or_fail-past Orderly prepare_failed ((logged c).prepare k w1) _
            (λ y w2 e2.
              stopped (prepare_failed y) w2 _ (noted-events w1.0 (c.prepare k w1.1) e2 ∙ n1)
                (omega arith) refl)
            (λ attempt w2 e2.
              let n2 = noted-events w1.0 (c.prepare k w1.1) e2 ∙ n1 in
              submitted-Orderly k.id attempt ((logged c).submit attempt w2)
                (ap (λ es. sent ∷ es) n2)))
