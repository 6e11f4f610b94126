-- ===== src/Storage/Operations.antt =====
-- The operations of the channel store as data, so that a history is a list of them: an operation that
-- fails leaves the store as it is.
use cashu_spilman_channels.Prelude.{
  String, Option, List, [], ◌∷◌, Result, ok, err, ◌≡◌, refl, Result-cases, inl, inr, subst, sym,
}
use cashu_spilman_channels.Storage.Records.{
  ChannelFunding, PaymentProof, ClosingData, ClosedDataView, KeysetCacheEntry, UsageMap,
}
use cashu_spilman_channels.Storage.{
  MemoryStorage, StorageError, compare_payment, freeze_close, advance_close, save_funding,
  update_balance, increment_usage, mark_closing, mark_closed, set_keyset,
}

pub data Operation : Type 0 where
  compares : String → PaymentProof → PaymentProof → Operation
  freezes : String → PaymentProof → ClosingData → String → Operation
  advances : String → String → String → Option ClosedDataView → Operation
  saves : String → ChannelFunding → Operation
  updates : String → PaymentProof → Operation
  increments : String → UsageMap → Operation
  marks_closing : String → ClosingData → Operation
  marks_closed : String → ClosedDataView → Operation
  sets_keyset : String → String → KeysetCacheEntry → Operation

unfoldable pub apply : Operation → MemoryStorage → Result StorageError MemoryStorage
apply (compares id expected payment) s = compare_payment id expected payment s
apply (freezes id expected data_to_close journal) s =
    freeze_close id expected data_to_close journal s
apply (advances id expected journal completed) s = advance_close id expected journal completed s
apply (saves id funding) s = save_funding id funding s
apply (updates id payment) s = update_balance id payment s
apply (increments id usage) s = increment_usage id usage s
apply (marks_closing id data_to_close) s = mark_closing id data_to_close s
apply (marks_closed id view) s = mark_closed id view s
apply (sets_keyset mint keyset_id entry) s = set_keyset mint keyset_id entry s

abbrev pub after : Result StorageError MemoryStorage → MemoryStorage → MemoryStorage
after (ok next) s = next
after (err e) s = s

unfoldable pub run : List Operation → MemoryStorage → MemoryStorage
run [] s = s
run (op ∷ ops) s = run ops (after (apply op s) s)

-- A relation between a store and a later one that single successful operations keep holds of histories.
pub run-keeps :
    (R : MemoryStorage → MemoryStorage → Type 0)
    → ((s : MemoryStorage) → R s s)
    → ((s t u : MemoryStorage) → R s t → R t u → R s u)
    → ((op : Operation) (s t : MemoryStorage) → apply op s ≡ ok t → R s t)
    → (ops : List Operation) (s : MemoryStorage) → R s (run ops s)
unfolding run
run-keeps R reflexive transitive step [] s = reflexive s
run-keeps R reflexive transitive step (op ∷ ops) s = elim (Result-cases (apply op s)) [
  | inl done ↦
      let (t, e) = done in
      let next : after (apply op s) s ≡ t = subst (λ r. after r s ≡ t) (sym e) refl in
      let rest = run-keeps R reflexive transitive step ops t in
      subst (λ w. R s (run ops w)) (sym next) (transitive s t (run ops t) (step op s t e) rest)
  | inr failed ↦
      let (x, e) = failed in
      let next : after (apply op s) s ≡ s = subst (λ r. after r s ≡ s) (sym e) refl in
      let rest = run-keeps R reflexive transitive step ops s in
      subst (λ w. R s (run ops w)) (sym next) rest
]

-- So does a property of stores.
pub run-preserves :
    (P : MemoryStorage → Type 0)
    → ((op : Operation) (s t : MemoryStorage) → apply op s ≡ ok t → P s → P t)
    → (ops : List Operation) (s : MemoryStorage) → P s
    → P (run ops s)
run-preserves P step ops s h =
    run-keeps (λ u v. P u → P v) (λ u p. p) (λ u v w f g p. g (f p)) (λ op u v e p. step op u v e p)
      ops s h
