-- ===== src/Storage/Frozen.antt =====
-- What a frozen close excludes: `freeze_close` and `advance_close` against the other operations.
use cashu_spilman_channels.Prelude.{
  String, Option, none, some, List, [], ◌∷◌, ok, err, ◌≡◌, ◌≢◌, refl, arith, get, insert, string_eq,
  str_eq, str_eq_iff, is_some, get-insert, get-remove, true, false, inl, inr, Bool, ◌∙◌, ◌↔◌, All,
  Result-cases, Option-cases, sym, subst, ap,
}
use cashu_spilman_channels.Storage.Records.{
  PaymentProof, ClosingData, ClosedDataView, opened, same_state,
}
use cashu_spilman_channels.Storage.{
  MemoryStorage, compare_payment, freeze_close, advance_close, save_funding, update_balance,
  increment_usage, mark_closing, mark_closed, set_keyset, get_state, completed_close, is_journal,
  close_journal_conflict,
}
use cashu_spilman_channels.Storage.Operations.{
  Operation, apply, after, run, compares, freezes, advances, saves, updates, increments,
  marks_closing, marks_closed, sets_keyset,
}
use cashu_spilman_channels.Storage.Journal.{Journaled, apply-Journaled}

-- What `freeze_close` asks for.
pub record MayFreeze (id : String) (expected : PaymentProof) (d : ClosingData) (s : MemoryStorage)
    : Type 0 where
  pub stored : get s.balance id ≡ some expected
  pub balance : d.balance ≡ expected.balance
  pub signature : d.signature ≡ expected.signature
  pub state : get_state s id ≡ some opened
  pub journal : get s.close_journals id ≡ none

payment-ext : (p q : PaymentProof) → p.balance ≡ q.balance → p.signature ≡ q.signature → p ≡ q
payment-ext p q e f = λ i. record { balance = e i; signature = f i }

-- The guards that passed.
freeze_close-MayFreeze :
    (id journal : String) (expected : PaymentProof) (d : ClosingData) (s t : MemoryStorage)
    → freeze_close id expected d journal s ≡ ok t
    → MayFreeze id expected d s
unfolding freeze_close same_state
freeze_close-MayFreeze id journal expected d s t h = elim (Option-cases (get s.balance id)) [
  | inl missing ↦ absurd (ground arith)
  | inr stored ↦
      let (p, e) = stored in
      let same : p.signature ≡ expected.signature =
        ground (arith, str_eq_iff p.signature expected.signature) in
      record {
        stored = e ∙ ap some (payment-ext p expected (ground arith) same);
        balance = ground arith;
        signature = ground (arith, str_eq_iff d.signature expected.signature);
        state = ground arith;
        journal = ground arith;
      }
]

MayFreeze-freeze_close :
    (id journal : String) (expected : PaymentProof) (d : ClosingData) (s : MemoryStorage)
    → MayFreeze id expected d s
    → freeze_close id expected d journal s
      ≡ ok (record s {
        closing = insert s.closing id d;
        close_journals = insert s.close_journals id journal;
      })
unfolding freeze_close same_state get_state
MayFreeze-freeze_close id journal expected d s m = ground (
  arith,
  m.stored,
  m.balance,
  m.signature,
  m.state,
  m.journal,
  str_eq_iff d.signature expected.signature,
  str_eq_iff expected.signature expected.signature,
)

-- `freeze_close` succeeds exactly on an open channel without a journal whose stored payment is the
-- expected one and is what the closing data authorizes.
pub freeze_close_iff :
    (id journal : String) (expected : PaymentProof) (d : ClosingData) (s : MemoryStorage)
    → (((t : MemoryStorage) × (freeze_close id expected d journal s ≡ ok t))
        ↔ MayFreeze id expected d s)
freeze_close_iff id journal expected d s = (
  λ r. freeze_close-MayFreeze id journal expected d s r.0 r.1,
  λ m. (
    record s {
      closing = insert s.closing id d;
      close_journals = insert s.close_journals id journal;
    },
    MayFreeze-freeze_close id journal expected d s m,
  ),
)

-- Of two callers that advance the same journal, one succeeds: the other's `advance_close` with the same
-- expected journal is refused, provided the first one wrote another text.
pub advance_close_once :
    (id expected first second : String) (completed also_completed : Option ClosedDataView)
    (s t : MemoryStorage)
    → advance_close id expected first completed s ≡ ok t
    → first ≢ expected
    → advance_close id expected second also_completed t ≡ err close_journal_conflict
unfolding advance_close is_journal completed_close
advance_close_once id expected first second none also s t h ne =
    ground
      (arith, get-insert s.close_journals id id first, str_eq_iff id id, str_eq_iff first expected)
advance_close_once id expected first second (some c) also s t h ne =
    ground
      (arith, get-insert s.close_journals id id first, str_eq_iff id id, str_eq_iff first expected)

-- `advance_close` on this channel.
abbrev pub is_advance : String → Operation → Bool
is_advance id (advances j expected journal completed) = str_eq j id
is_advance id op = false

-- The parts of the store that a close of the channel reads are as they were.
abbrev pub Same : MemoryStorage → MemoryStorage → String → Type 0
Same s t id =
    (get t.close_journals id ≡ get s.close_journals id)
    × (get t.closing id ≡ get s.closing id)
    × (get t.closed id ≡ get s.closed id)
    × (get t.balance id ≡ get s.balance id)

apply-Same :
    (id : String) (op : Operation) (s t : MemoryStorage)
    → Journaled id s
    → is_some (get s.close_journals id) ≡ true
    → is_advance id op ≡ false
    → apply op s ≡ ok t
    → Same s t id
unfolding apply save_funding increment_usage set_keyset Journaled compare_payment freeze_close
    advance_close update_balance mark_closing mark_closed same_state get_state completed_close
apply-Same id (compares j e p) s t inv k a h =
    ground (arith, get-insert s.balance j id p, str_eq_iff j id)
apply-Same id (freezes j e d w) s t inv k a h =
    ground (arith, get-insert s.closing j id d, get-insert s.close_journals j id w, str_eq_iff j id)
apply-Same id (advances j e w none) s t inv k a h =
    ground (arith, get-insert s.close_journals j id w, str_eq_iff j id)
apply-Same id (advances j e w (some c)) s t inv k a h = ground (
  arith,
  get-insert s.close_journals j id w,
  get-insert s.closed j id c,
  get-remove s.closing j id,
  str_eq_iff j id,
)
apply-Same id (saves j g) s t inv k a h = ground arith
apply-Same id (updates j p) s t inv k a h =
    ground (arith, get-insert s.balance j id p, str_eq_iff j id)
apply-Same id (increments j u) s t inv k a h = ground arith
apply-Same id (marks_closing j d) s t inv k a h =
    ground (arith, get-insert s.closing j id d, str_eq_iff j id)
apply-Same id (marks_closed j c) s t inv k a h =
    ground (arith, get-insert s.closed j id c, get-remove s.closing j id, str_eq_iff j id)
apply-Same id (sets_keyset m n e) s t inv k a h = ground arith

Same-trans : (id : String) (s t u : MemoryStorage) → Same s t id → Same t u id → Same s u id
Same-trans id s t u (a, b, c, d) (e, f, g, h) = (e ∙ a, f ∙ b, g ∙ c, h ∙ d)

-- Once a channel has a close journal, no operation but `advance_close` on that channel changes the
-- journal, the closing authorization, the record of the close or the stored payment: this holds of every
-- history of such operations.
pub run-Same :
    (id : String) (ops : List Operation) (s : MemoryStorage)
    → Journaled id s
    → is_some (get s.close_journals id) ≡ true
    → All (λ op. is_advance id op ≡ false) ops
    → Same s (run ops s) id
unfolding run
run-Same id [] s inv k a = (refl, refl, refl, refl)
run-Same id (op ∷ ops) s inv k a = elim (Result-cases (apply op s)) [
  | inl done ↦
      let (t, e) = done in
      let step = apply-Same id op s t inv k a.0 e in
      let kept : is_some (get t.close_journals id) ≡ true = ap is_some step.0 ∙ k in
      let rest = run-Same id ops t (apply-Journaled id op s t e inv) kept a.1 in
      let next : after (apply op s) s ≡ t = ap (λ r. after r s) e in
      subst (λ w. Same s (run ops w) id) (sym next) (Same-trans id s t (run ops t) step rest)
  | inr failed ↦
      let (x, e) = failed in
      let next : after (apply op s) s ≡ s = ap (λ r. after r s) e in
      subst (λ w. Same s (run ops w) id) (sym next) (run-Same id ops s inv k a.1)
]
