-- ===== src/Storage/Journal.antt =====
-- The application's close journal: `freeze_close` and `advance_close`.
use cashu_spilman_channels.Prelude.{
  String, Option, none, some, List, ok, ◌≡◌, arith, get, string_eq, str_eq, str_eq_iff, is_some,
  get-insert, get-remove, get-empty, true, false, ◌⊎◌, inl, inr, ◌==◌, Bool, ◌&&◌, Option-cases,
}
use cashu_spilman_channels.Storage.Records.{PaymentProof, ClosingData, ClosedDataView, same_state}
use cashu_spilman_channels.Storage.{
  MemoryStorage, new, compare_payment, freeze_close, advance_close, save_funding, update_balance,
  increment_usage, mark_closing, mark_closed, set_keyset, get_state, completed_close, should_update,
  is_journal,
}
use cashu_spilman_channels.Storage.Operations.{
  Operation, apply, run, run-preserves, compares, freezes, advances, saves, updates, increments,
  marks_closing, marks_closed, sets_keyset,
}

-- A closing authorization is the stored payment's balance and signature.
abbrev pub authorizes : Option PaymentProof → Option ClosingData → Bool
authorizes none _ = false
authorizes (some p) none = false
authorizes (some p) (some d) = (d.balance == p.balance) && str_eq d.signature p.signature

-- A channel with a journal is closed, or is closing with the stored payment as its authorization.
unfoldable pub Journaled : String → MemoryStorage → Type 0
Journaled id s =
    is_some (get s.close_journals id) ≡ true
    → (is_some (get s.closed id) ≡ true) ⊎ (authorizes (get s.balance id) (get s.closing id) ≡ true)

compare_payment-Journaled :
    (id j : String) (expected payment : PaymentProof) (s t : MemoryStorage)
    → compare_payment j expected payment s ≡ ok t
    → Journaled id s
    → Journaled id t
unfolding compare_payment Journaled same_state get_state
compare_payment-Journaled id j expected payment s t h inv k =
    ground (arith, get-insert s.balance j id payment, str_eq_iff j id)

update_balance-Journaled :
    (id j : String) (payment : PaymentProof) (s t : MemoryStorage)
    → update_balance j payment s ≡ ok t
    → Journaled id s
    → Journaled id t
unfolding update_balance Journaled same_state get_state should_update
update_balance-Journaled id j payment s t h inv k =
    ground (arith, get-insert s.balance j id payment, str_eq_iff j id)

freeze_close-Journaled :
    (id j journal : String) (expected : PaymentProof) (d : ClosingData) (s t : MemoryStorage)
    → freeze_close j expected d journal s ≡ ok t
    → Journaled id s
    → Journaled id t
unfolding freeze_close Journaled
freeze_close-Journaled id j journal expected d s t h inv k =
    elim (Option-cases (get s.balance id)) [
      | inl missing ↦ ground (
        arith,
        get-insert s.closing j id d,
        get-insert s.close_journals j id journal,
        str_eq_iff j id,
      )
      | inr stored ↦
          let (p, e) = stored in
          ground (
            arith,
            get-insert s.closing j id d,
            get-insert s.close_journals j id journal,
            str_eq_iff j id,
            str_eq_iff d.signature expected.signature,
            str_eq_iff p.signature expected.signature,
            str_eq_iff d.signature p.signature,
          )
    ]

advance_close-Journaled :
    (id j expected journal : String) (completed : Option ClosedDataView) (s t : MemoryStorage)
    → advance_close j expected journal completed s ≡ ok t
    → Journaled id s
    → Journaled id t
unfolding advance_close completed_close Journaled is_journal
advance_close-Journaled id j expected journal none s t h inv k =
    ground (arith, get-insert s.close_journals j id journal, str_eq_iff j id)
advance_close-Journaled id j expected journal (some c) s t h inv k = ground (
  arith,
  get-insert s.close_journals j id journal,
  get-insert s.closed j id c,
  get-remove s.closing j id,
  str_eq_iff j id,
)

mark_closing-Journaled :
    (id j : String) (d : ClosingData) (s t : MemoryStorage)
    → mark_closing j d s ≡ ok t
    → Journaled id s
    → Journaled id t
unfolding mark_closing Journaled
mark_closing-Journaled id j d s t h inv k =
    ground (arith, get-insert s.closing j id d, str_eq_iff j id)

mark_closed-Journaled :
    (id j : String) (c : ClosedDataView) (s t : MemoryStorage)
    → mark_closed j c s ≡ ok t
    → Journaled id s
    → Journaled id t
unfolding mark_closed Journaled
mark_closed-Journaled id j c s t h inv k =
    ground (arith, get-insert s.closed j id c, get-remove s.closing j id, str_eq_iff j id)

pub apply-Journaled :
    (id : String) (op : Operation) (s t : MemoryStorage)
    → apply op s ≡ ok t
    → Journaled id s
    → Journaled id t
unfolding apply save_funding increment_usage set_keyset Journaled
apply-Journaled id (compares j e p) s t h inv = compare_payment-Journaled id j e p s t h inv
apply-Journaled id (freezes j e d w) s t h inv = freeze_close-Journaled id j w e d s t h inv
apply-Journaled id (advances j e w c) s t h inv = advance_close-Journaled id j e w c s t h inv
apply-Journaled id (saves j g) s t h inv = λ k. ground arith
apply-Journaled id (updates j p) s t h inv = update_balance-Journaled id j p s t h inv
apply-Journaled id (increments j u) s t h inv = λ k. ground arith
apply-Journaled id (marks_closing j d) s t h inv = mark_closing-Journaled id j d s t h inv
apply-Journaled id (marks_closed j c) s t h inv = mark_closed-Journaled id j c s t h inv
apply-Journaled id (sets_keyset m k e) s t h inv = λ w. ground arith

new-Journaled : (id : String) → Journaled id new
unfolding Journaled new
new-Journaled id h = ground (arith, get-empty {V = String} id)

-- In every store that operations lead to from the empty one, a channel with a close journal is closed,
-- or its closing authorization is exactly the stored payment.
pub run-Journaled : (id : String) (ops : List Operation) → Journaled id (run ops new)
run-Journaled id ops = run-preserves (Journaled id) (apply-Journaled id) ops new (new-Journaled id)
