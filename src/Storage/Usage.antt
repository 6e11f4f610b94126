-- ===== src/Storage/Usage.antt =====
-- The usage counters of a channel: `increment_usage`.
use cashu_spilman_channels.Prelude.{
  ℕ, ◌+◌, String, none, some, List, [], ◌∷◌, Result, ok, err, ◌≡◌, refl, arith, get, insert,
  string_eq, str_eq, str_eq_iff, get-insert, empty, unwrap_or, total, if◌then◌else◌, ◌∙◌, ap,
  Bool-cases, inl, inr, sym,
}
use cashu_spilman_channels.Amounts.{u64}
use cashu_spilman_channels.Storage.Records.{UsageMap}
use cashu_spilman_channels.Storage.{
  MemoryStorage, StorageError, increment_usage, add_increments, compare_payment, freeze_close,
  advance_close, save_funding, update_balance, mark_closing, mark_closed, set_keyset,
  completed_close,
}
use cashu_spilman_channels.Storage.Operations.{
  Operation, apply, after, run, increments, compares, freezes, advances, saves, updates,
  marks_closing, marks_closed, sets_keyset,
}

-- The counter of a variable of a channel.
unfoldable pub used : MemoryStorage → String → String → ℕ
used s id variable = unwrap_or (get (unwrap_or (get s.usage id) empty) variable) 0

wrap-inside : (a b c : ℕ) → u64 (u64 (a + b) + c) ≡ u64 (a + (b + c))
unfolding u64
wrap-inside a b c = omega arith

pub add_increments-total :
    (variable : String) (incs : List (String × ℕ)) (usage : UsageMap)
    → u64 (unwrap_or (get (add_increments incs usage) variable) 0)
      ≡ u64 (unwrap_or (get usage variable) 0 + total variable incs)
unfolding add_increments total
add_increments-total variable [] usage = ap u64 (omega arith)
add_increments-total variable ((v, delta) ∷ rest) usage =
    let inner = u64 (unwrap_or (get usage v) 0 + delta) in
    add_increments-total variable rest (insert usage v inner)
    ∙ (elim (Bool-cases (str_eq v variable)) [
      | inl same ↦ rw (
        get-insert usage v variable inner,
        same,
        (str_eq_iff v variable).0 same,
        wrap-inside (unwrap_or (get usage variable) 0) delta (total variable rest),
      )
      | inr other ↦ rw (get-insert usage v variable inner, other)
    ])

-- What the increments of a history add to a variable of a channel.
pub added_by : String → String → List Operation → ℕ
unfolding total
added_by id variable [] = 0
added_by id variable (increments j usage ∷ ops) =
    let more = added_by id variable ops in
    if str_eq j id then total variable usage.entries + more else more
added_by id variable (op ∷ ops) = added_by id variable ops

one : String → String → Operation → ℕ
one id variable (increments j usage) = if str_eq j id then total variable usage.entries else 0
one id variable op = 0

added_by-cons :
    (id variable : String) (op : Operation) (ops : List Operation)
    → added_by id variable (op ∷ ops) ≡ one id variable op + added_by id variable ops
unfolding added_by one
added_by-cons id variable (compares j e p) ops = omega arith
added_by-cons id variable (freezes j e d w) ops = omega arith
added_by-cons id variable (advances j e w c) ops = omega arith
added_by-cons id variable (saves j g) ops = omega arith
added_by-cons id variable (updates j p) ops = omega arith
added_by-cons id variable (increments j u) ops = ground arith
added_by-cons id variable (marks_closing j d) ops = omega arith
added_by-cons id variable (marks_closed j c) ops = omega arith
added_by-cons id variable (sets_keyset m n e) ops = omega arith

increment-one :
    (id variable j : String) (u : UsageMap) (s : MemoryStorage)
    → u64 (used (after (increment_usage j u s) s) id variable)
      ≡ u64 (used s id variable + (if str_eq j id then total variable u.entries else 0))
unfolding increment_usage used
increment-one id variable j u s = elim (Bool-cases (str_eq j id)) [
  | inl same ↦
      let before = unwrap_or (get s.usage j) empty in
      rw (
        get-insert s.usage j id (add_increments u.entries before),
        same,
        add_increments-total variable u.entries before,
        (str_eq_iff j id).0 same,
      )
  | inr other ↦
      rw
        (
          get-insert s.usage j id (add_increments u.entries (unwrap_or (get s.usage j) empty)),
          other,
        )
        (ap u64 (omega arith))
]

-- An operation that is no increment.
unchanged :
    (id variable : String) (s : MemoryStorage) (r : Result StorageError MemoryStorage)
    → ((t : MemoryStorage) → r ≡ ok t → t.usage ≡ s.usage)
    → u64 (used (after r s) id variable) ≡ u64 (used s id variable + 0)
unfolding used
unchanged id variable s (ok t) h = rw (h t refl) (ap u64 (omega arith))
unchanged id variable s (err e) h = ap u64 (omega arith)

apply-one :
    (id variable : String) (op : Operation) (s : MemoryStorage)
    → u64 (used (after (apply op s) s) id variable) ≡ u64 (used s id variable + one id variable op)
unfolding apply one save_funding set_keyset compare_payment freeze_close advance_close
    update_balance mark_closing mark_closed completed_close
apply-one id variable (compares j e p) s =
    unchanged id variable s (compare_payment j e p s) (λ t h. ground arith)
apply-one id variable (freezes j e d w) s =
    unchanged id variable s (freeze_close j e d w s) (λ t h. ground arith)
apply-one id variable (advances j e w none) s =
    unchanged id variable s (advance_close j e w none s) (λ t h. ground arith)
apply-one id variable (advances j e w (some c)) s =
    unchanged id variable s (advance_close j e w (some c) s) (λ t h. ground arith)
apply-one id variable (saves j g) s =
    unchanged id variable s (save_funding j g s) (λ t h. ground arith)
apply-one id variable (updates j p) s =
    unchanged id variable s (update_balance j p s) (λ t h. ground arith)
apply-one id variable (increments j u) s = increment-one id variable j u s
apply-one id variable (marks_closing j d) s =
    unchanged id variable s (mark_closing j d s) (λ t h. ground arith)
apply-one id variable (marks_closed j c) s =
    unchanged id variable s (mark_closed j c s) (λ t h. ground arith)
apply-one id variable (sets_keyset m n e) s =
    unchanged id variable s (set_keyset m n e s) (λ t h. ground arith)

combine : (a b c d : ℕ) → u64 a ≡ u64 (b + c) → u64 (a + d) ≡ u64 (b + (c + d))
unfolding u64
combine a b c d h = omega arith

-- No increment is lost: after any history of the store's operations, a usage counter is, modulo 2^64, what
-- it was plus all that the history's increments of that channel and that variable add.
pub run-added_by :
    (id variable : String) (ops : List Operation) (s : MemoryStorage)
    → u64 (used (run ops s) id variable) ≡ u64 (used s id variable + added_by id variable ops)
unfolding run added_by
run-added_by id variable [] s = ap u64 (omega arith)
run-added_by id variable (op ∷ ops) s =
    run-added_by id variable ops (after (apply op s) s)
    ∙ (combine (used (after (apply op s) s) id variable) (used s id variable) (one id variable op)
          (added_by id variable ops) (apply-one id variable op s)
        ∙ ap (λ n. u64 (used s id variable + n)) (sym (added_by-cons id variable op ops)))
