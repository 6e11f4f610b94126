-- ===== src/Storage/Lifecycle.antt =====
-- The life of a channel in the store: unknown, open, closing, closed, in that order.
use cashu_spilman_channels.Prelude.{
  ℕ, ◌≤◌, String, Option, none, some, List, ok, ◌≡◌, arith, get, string_eq, str_eq_iff, get-insert,
  get-remove,
}
use cashu_spilman_channels.Storage.Records.{
  ChannelFunding, PaymentProof, ClosingData, ClosedDataView, KeysetCacheEntry, UsageMap,
  ChannelState, opened, same_state,
}
use cashu_spilman_channels.Storage.{
  MemoryStorage, compare_payment, freeze_close, advance_close, save_funding, update_balance,
  increment_usage, mark_closing, mark_closed, set_keyset, get_state, completed_close,
}
use cashu_spilman_channels.Storage.Operations.{
  Operation, apply, run, run-keeps, compares, freezes, advances, saves, updates, increments,
  marks_closing, marks_closed, sets_keyset,
}

unfoldable pub rank : Option ChannelState → ℕ
rank none = 0
rank (some opened) = 1
rank (some ChannelState.closing) = 2
rank (some ChannelState.closed) = 3

-- What is settled about a channel stays settled, and its state does not go back.
pub record Forward (s t : MemoryStorage) (id : String) : Type 0 where
  pub state : rank (get_state s id) ≤ rank (get_state t id)
  pub funding : (f : ChannelFunding) → get s.funding id ≡ some f → get t.funding id ≡ some f
  pub closed : (v : ClosedDataView) → get s.closed id ≡ some v → get t.closed id ≡ some v

compare_payment-Forward :
    (id j : String) (expected payment : PaymentProof) (s t : MemoryStorage)
    → compare_payment j expected payment s ≡ ok t
    → Forward s t id
unfolding compare_payment get_state
compare_payment-Forward id j expected payment s t h = record {
  state = ground arith;
  funding = λ f e. ground arith;
  closed = λ v e. ground arith;
}

freeze_close-Forward :
    (id j journal : String) (expected : PaymentProof) (d : ClosingData) (s t : MemoryStorage)
    → freeze_close j expected d journal s ≡ ok t
    → Forward s t id
unfolding freeze_close get_state rank same_state
freeze_close-Forward id j journal expected d s t h = record {
  state = ground (arith, get-insert s.closing j id d, str_eq_iff j id);
  funding = λ f e. ground arith;
  closed = λ v e. ground arith;
}

advance_close-Forward :
    (id j expected journal : String) (completed : Option ClosedDataView) (s t : MemoryStorage)
    → advance_close j expected journal completed s ≡ ok t
    → Forward s t id
unfolding advance_close get_state rank same_state completed_close
advance_close-Forward id j expected journal none s t h = record {
  state = ground arith;
  funding = λ f e. ground arith;
  closed = λ v e. ground arith;
}
advance_close-Forward id j expected journal (some c) s t h = record {
  state = ground (arith, get-insert s.closed j id c, get-remove s.closing j id, str_eq_iff j id);
  funding = λ f e. ground arith;
  closed = λ v e. ground (arith, get-insert s.closed j id c, str_eq_iff j id);
}

save_funding-Forward :
    (id j : String) (g : ChannelFunding) (s t : MemoryStorage)
    → save_funding j g s ≡ ok t
    → Forward s t id
unfolding save_funding get_state rank
save_funding-Forward id j g s t h = record {
  state = ground (arith, get-insert s.funding j id g, str_eq_iff j id);
  funding = λ f e. ground (arith, get-insert s.funding j id g, str_eq_iff j id);
  closed = λ v e. ground arith;
}

update_balance-Forward :
    (id j : String) (payment : PaymentProof) (s t : MemoryStorage)
    → update_balance j payment s ≡ ok t
    → Forward s t id
unfolding update_balance get_state
update_balance-Forward id j payment s t h = record {
  state = ground arith;
  funding = λ f e. ground arith;
  closed = λ v e. ground arith;
}

mark_closing-Forward :
    (id j : String) (d : ClosingData) (s t : MemoryStorage)
    → mark_closing j d s ≡ ok t
    → Forward s t id
unfolding mark_closing get_state rank
mark_closing-Forward id j d s t h = record {
  state = ground (arith, get-insert s.closing j id d, str_eq_iff j id);
  funding = λ f e. ground arith;
  closed = λ v e. ground arith;
}

mark_closed-Forward :
    (id j : String) (c : ClosedDataView) (s t : MemoryStorage)
    → mark_closed j c s ≡ ok t
    → Forward s t id
unfolding mark_closed get_state rank
mark_closed-Forward id j c s t h = record {
  state = ground (arith, get-insert s.closed j id c, get-remove s.closing j id, str_eq_iff j id);
  funding = λ f e. ground arith;
  closed = λ v e. ground (arith, get-insert s.closed j id c, str_eq_iff j id);
}

increment_usage-Forward :
    (id j : String) (u : UsageMap) (s t : MemoryStorage)
    → increment_usage j u s ≡ ok t
    → Forward s t id
unfolding increment_usage get_state
increment_usage-Forward id j u s t h = record {
  state = ground arith;
  funding = λ f e. ground arith;
  closed = λ v e. ground arith;
}

set_keyset-Forward :
    (id mint keyset_id : String) (entry : KeysetCacheEntry) (s t : MemoryStorage)
    → set_keyset mint keyset_id entry s ≡ ok t
    → Forward s t id
unfolding set_keyset get_state
set_keyset-Forward id mint keyset_id entry s t h = record {
  state = ground arith;
  funding = λ f e. ground arith;
  closed = λ v e. ground arith;
}

pub apply-Forward :
    (id : String) (op : Operation) (s t : MemoryStorage) → apply op s ≡ ok t → Forward s t id
unfolding apply
apply-Forward id (compares j e p) s t h = compare_payment-Forward id j e p s t h
apply-Forward id (freezes j e d w) s t h = freeze_close-Forward id j w e d s t h
apply-Forward id (advances j e w c) s t h = advance_close-Forward id j e w c s t h
apply-Forward id (saves j g) s t h = save_funding-Forward id j g s t h
apply-Forward id (updates j p) s t h = update_balance-Forward id j p s t h
apply-Forward id (increments j u) s t h = increment_usage-Forward id j u s t h
apply-Forward id (marks_closing j d) s t h = mark_closing-Forward id j d s t h
apply-Forward id (marks_closed j c) s t h = mark_closed-Forward id j c s t h
apply-Forward id (sets_keyset m k e) s t h = set_keyset-Forward id m k e s t h

reflexive : (id : String) (s : MemoryStorage) → Forward s s id
reflexive id s = record { state = omega arith; funding = λ f e. e; closed = λ v e. e }

transitive :
    (id : String) (s t u : MemoryStorage) → Forward s t id → Forward t u id → Forward s u id
transitive id s t u f g = record {
  state = omega (arith, f.state, g.state);
  funding = λ x e. g.funding x (f.funding x e);
  closed = λ v e. g.closed v (f.closed v e);
}

-- Whatever operations the store is given, in any order, on any channels, failing or not: a channel's
-- state never goes back in the order unknown, open, closing, closed, the funding once stored for it
-- stays as it was first stored, and the record of its close, once written, never changes.
pub run-Forward :
    (id : String) (ops : List Operation) (s : MemoryStorage) → Forward s (run ops s) id
run-Forward id ops s =
    run-keeps (λ u v. Forward u v id) (reflexive id) (transitive id) (apply-Forward id) ops s
