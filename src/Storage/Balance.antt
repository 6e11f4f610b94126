-- ===== src/Storage/Balance.antt =====
-- The stored payment of a channel: `compare_payment` and `update_balance`.
use cashu_spilman_channels.Prelude.{
  ℕ, ◌≤◌, ◌<◌, max, String, Option, none, some, List, [], ◌∷◌, ok, err, ◌≡◌, refl, if◌then◌else◌,
  arith, get, insert, string_eq, str_eq_iff, get-insert, ◌⊎◌, inr, map, ◌∙◌, sym, ap, subst,
}
use cashu_spilman_channels.Storage.Records.{PaymentProof, ClosedDataView, opened, same_state}
use cashu_spilman_channels.Storage.{
  MemoryStorage, compare_payment, freeze_close, advance_close, save_funding, update_balance,
  increment_usage, mark_closing, mark_closed, set_keyset, get_state, completed_close, should_update,
  payment_snapshot_conflict, payment_state_conflict,
}
use cashu_spilman_channels.Storage.Operations.{
  Operation, apply, after, run, run-keeps, compares, freezes, advances, saves, updates, increments,
  marks_closing, marks_closed, sets_keyset,
}
use cashu_spilman_channels.Storage.Lifecycle.{rank, Forward, apply-Forward}

-- A stored payment is replaced by one of a greater balance, or stays.
abbrev pub Grown : Option PaymentProof → Option PaymentProof → Type 0
Grown none q = Unit
Grown (some p) none = ⊥
Grown (some p) (some q) = (p.balance < q.balance) ⊎ (p ≡ q)

-- And from the time that the channel closes it stays.
pub record Kept (s t : MemoryStorage) (id : String) : Type 0 where
  pub grown : Grown (get s.balance id) (get t.balance id)
  pub frozen : 2 ≤ rank (get_state s id) → get t.balance id ≡ get s.balance id

Grown-refl : (p : Option PaymentProof) → Grown p p
Grown-refl none = tt
Grown-refl (some p) = inr refl

Grown-trans : (p q r : Option PaymentProof) → Grown p q → Grown q r → Grown p r
Grown-trans none q r f g = tt
Grown-trans (some p) none r f g = absurd f
Grown-trans (some p) (some q) none f g = absurd g
Grown-trans (some p) (some q) (some r) f g = ground arith

same_balance :
    (id : String) (s t : MemoryStorage) → get t.balance id ≡ get s.balance id → Kept s t id
same_balance id s t e = record {
  grown = subst (λ b. Grown (get s.balance id) b) (sym e) (Grown-refl (get s.balance id));
  frozen = λ h. e;
}

compare_payment-Kept :
    (id j : String) (expected payment : PaymentProof) (s t : MemoryStorage)
    → compare_payment j expected payment s ≡ ok t
    → Kept s t id
unfolding compare_payment rank same_state
compare_payment-Kept id j expected payment s t h = record {
  grown = ground (arith, get-insert s.balance j id payment, str_eq_iff j id);
  frozen = λ closing. ground (arith, get-insert s.balance j id payment, str_eq_iff j id);
}

update_balance-Kept :
    (id j : String) (payment : PaymentProof) (s t : MemoryStorage)
    → update_balance j payment s ≡ ok t
    → Kept s t id
unfolding update_balance rank same_state should_update
update_balance-Kept id j payment s t h = record {
  grown = ground (arith, get-insert s.balance j id payment, str_eq_iff j id);
  frozen = λ closing. ground (arith, get-insert s.balance j id payment, str_eq_iff j id);
}

advance_close-Kept :
    (id j expected journal : String) (completed : Option ClosedDataView) (s t : MemoryStorage)
    → advance_close j expected journal completed s ≡ ok t
    → Kept s t id
unfolding advance_close completed_close
advance_close-Kept id j expected journal none s t h = same_balance id s t (ground arith)
advance_close-Kept id j expected journal (some c) s t h = same_balance id s t (ground arith)

apply-Kept : (id : String) (op : Operation) (s t : MemoryStorage) → apply op s ≡ ok t → Kept s t id
unfolding apply freeze_close save_funding increment_usage mark_closing mark_closed set_keyset
apply-Kept id (compares j e p) s t h = compare_payment-Kept id j e p s t h
apply-Kept id (freezes j e d w) s t h = same_balance id s t (ground arith)
apply-Kept id (advances j e w c) s t h = advance_close-Kept id j e w c s t h
apply-Kept id (saves j g) s t h = same_balance id s t (ground arith)
apply-Kept id (updates j p) s t h = update_balance-Kept id j p s t h
apply-Kept id (increments j u) s t h = same_balance id s t (ground arith)
apply-Kept id (marks_closing j d) s t h = same_balance id s t (ground arith)
apply-Kept id (marks_closed j c) s t h = same_balance id s t (ground arith)
apply-Kept id (sets_keyset m k e) s t h = same_balance id s t (ground arith)

-- The relation that histories keep: the state goes forward as well.
Keeps : (s t : MemoryStorage) (id : String) → Type 0
Keeps s t id = Forward s t id × Kept s t id

transitive : (id : String) (s t u : MemoryStorage) → Keeps s t id → Keeps t u id → Keeps s u id
unfolding Keeps
transitive id s t u (f, k) (g, l) = (
  record {
    state = omega (arith, f.state, g.state);
    funding = λ x e. g.funding x (f.funding x e);
    closed = λ v e. g.closed v (f.closed v e);
  },
  record {
    grown = Grown-trans (get s.balance id) (get t.balance id) (get u.balance id) k.grown l.grown;
    frozen = λ h. l.frozen (omega (arith, f.state)) ∙ k.frozen h;
  },
)

run-Keeps : (id : String) (ops : List Operation) (s : MemoryStorage) → Keeps s (run ops s) id
unfolding Keeps
run-Keeps id ops s =
    run-keeps (λ u v. Keeps u v id)
      (λ u. (
        record { state = omega arith; funding = λ f e. e; closed = λ v e. e },
        same_balance id u u refl,
      ))
      (transitive id) (λ op u v e. (apply-Forward id op u v e, apply-Kept id op u v e)) ops s

-- Whatever operations the store is given, a channel's stored payment is only ever replaced by one of a
-- greater balance, and from the time that the channel is closing it does not change at all.
pub run-Kept : (id : String) (ops : List Operation) (s : MemoryStorage) → Kept s (run ops s) id
unfolding Keeps
run-Kept id ops s = (run-Keeps id ops s).1

-- Of two callers that have read the same payment and want to replace it, one succeeds: after a
-- `compare_payment` that succeeded, a second one that expects what the first expected is refused.
pub compare_payment_once :
    (id : String) (expected first second : PaymentProof) (s t : MemoryStorage)
    → compare_payment id expected first s ≡ ok t
    → (compare_payment id expected second t ≡ err payment_snapshot_conflict)
      ⊎ (compare_payment id expected second t ≡ err payment_state_conflict)
unfolding compare_payment get_state
compare_payment_once id expected first second s t h =
    ground (arith, get-insert s.balance id id first, str_eq_iff id id)

-- The greatest balance of some payments, and of a stored one.
abbrev pub paid : Option PaymentProof → ℕ
paid none = 0
paid (some p) = p.balance

abbrev pub greatest : List PaymentProof → ℕ → ℕ
greatest [] b = b
greatest (p ∷ ps) b = greatest ps (max b p.balance)

update_balance-paid :
    (id : String) (p : PaymentProof) (s : MemoryStorage)
    → get_state s id ≡ some opened
    → (get_state (after (update_balance id p s) s) id ≡ some opened)
      × (paid (get (after (update_balance id p s) s).balance id)
          ≡ max (paid (get s.balance id)) p.balance)
unfolding update_balance same_state should_update get_state
update_balance-paid id p s h =
    (ground arith, ground (arith, get-insert s.balance id id p, str_eq_iff id id))

-- In an open channel, payments that are recorded in any order, stale ones among them, leave the greatest
-- balance of all.
pub update_balance-greatest :
    (id : String) (ps : List PaymentProof) (s : MemoryStorage)
    → get_state s id ≡ some opened
    → paid (get (run (map (updates id) ps) s).balance id) ≡ greatest ps (paid (get s.balance id))
unfolding run apply
update_balance-greatest id [] s h = refl
update_balance-greatest id (p ∷ ps) s h =
    let (still, more) = update_balance-paid id p s h in
    update_balance-greatest id ps (after (update_balance id p s) s) still ∙ ap (greatest ps) more

-- What `update_balance` gives on an open channel.
pub record Updated (id : String) (p : PaymentProof) (s : MemoryStorage) : Type 0 where
  pub store : MemoryStorage
  pub returns : update_balance id p s ≡ ok store
  pub funding : store.funding ≡ s.funding
  pub usage : store.usage ≡ s.usage
  pub journals : store.close_journals ≡ s.close_journals
  pub covers : p.balance ≤ paid (get store.balance id)
  pub keeps : paid (get s.balance id) ≤ paid (get store.balance id)
  pub still : get_state store id ≡ some opened

pub update_balance-Updated :
    (id : String) (p : PaymentProof) (s : MemoryStorage)
    → get_state s id ≡ some opened
    → Updated id p s
unfolding update_balance same_state should_update get_state
update_balance-Updated id p s h = record {
  store =
      if should_update (get s.balance id) p
      then record s { balance = insert s.balance id p }
      else s;
  returns = ground arith;
  funding = ground arith;
  usage = ground arith;
  journals = ground arith;
  covers = ground (arith, get-insert s.balance id id p, str_eq_iff id id);
  keeps = ground (arith, get-insert s.balance id id p, str_eq_iff id id);
  still = ground arith;
}
