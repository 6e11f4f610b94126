-- ===== src/ClientStorage/Consistent.antt =====
-- The maps of the sender's store agree with each channel's state.
use cashu_spilman_channels.Prelude.{
  String, Bool, true, not, ◌&&◌, Option, none, some, Result, ok, ◌≡◌, arith, is_some, get, insert,
  string_eq, str_eq_iff, get-insert, get-remove, get-empty, Option-cases, inl, inr, subst,
}
use cashu_spilman_channels.ClientStorage.{
  MemoryClientStorage, ClientStorageError, ClientChannelOpeningFromSwap, ClientOpeningFailure,
  ClientPaymentState, ClientChannelState, ClientChannelFunding, opening_from_swap, opening_failed,
  opened, closing, closed, new, save_opening_from_swap, set_open, set_opening_failed,
  save_payment_state, set_closed, set_closing, delete, funding_of,
}

-- The operations that change the store.
pub data Operation : Type 0 where
  saves_opening : String → ClientChannelOpeningFromSwap → Operation
  opens : String → String → Operation
  fails : String → ClientOpeningFailure → Operation
  pays : String → ClientPaymentState → Operation
  closes marks_closing deletes : String → Operation

unfoldable pub apply :
    Operation → MemoryClientStorage → Result ClientStorageError MemoryClientStorage
apply (saves_opening id opening) s = save_opening_from_swap id opening s
apply (opens id proofs) s = set_open id proofs s
apply (fails id failure) s = set_opening_failed id failure s
apply (pays id state) s = save_payment_state id state s
apply (closes id) s = set_closed id s
apply (marks_closing id) s = set_closing id s
apply (deletes id) s = delete id s

-- The parts that are stored for a channel, by its state.
abbrev pub agree : Option ClientChannelState → Bool → Bool → Bool → Bool
agree none opening funding failure = not opening && (not funding && not failure)
agree (some opening_from_swap) opening funding failure = opening && (not funding && not failure)
agree (some opening_failed) opening funding failure = opening && (not funding && failure)
agree (some state) opening funding failure = not opening && (funding && not failure)

unfoldable pub Consistent : String → MemoryClientStorage → Type 0
Consistent id s =
    agree (get s.states id) (is_some (get s.opening id)) (is_some (get s.funding id))
      (is_some (get s.failures id))
    ≡ true

-- The store's user closes only channels that have funding.
abbrev pub closes_funded : Operation → MemoryClientStorage → Bool
closes_funded (closes id) s = is_some (get s.funding id)
closes_funded (marks_closing id) s = is_some (get s.funding id)
closes_funded op s = true

save_at-Consistent :
    (id j : String) (o : ClientChannelOpeningFromSwap) (s t : MemoryClientStorage)
    → save_opening_from_swap j o s ≡ ok t
    → Consistent id s
    → Consistent j s
    → Consistent id t
unfolding save_opening_from_swap Consistent
save_at-Consistent id j o s t h c d = elim (Option-cases (get s.states j)) [
  | inl unknown ↦ ground (
    arith,
    get-insert s.opening j id o,
    get-insert s.states j id opening_from_swap,
    str_eq_iff j id,
  )
  | inr known ↦ ground (
    arith,
    get-remove s.failures j id,
    get-insert s.states j id opening_from_swap,
    str_eq_iff j id,
  )
]

set_open-Consistent :
    (id j proofs : String) (s t : MemoryClientStorage)
    → set_open j proofs s ≡ ok t
    → Consistent id s
    → Consistent j s
    → Consistent id t
unfolding set_open Consistent
set_open-Consistent id j proofs s t h c d = elim (Option-cases (get s.opening j)) [
  | inl unopened ↦ elim (Option-cases (get s.states j)) [
    | inl unknown ↦ absurd (ground arith)
    | inr known ↦ elim (Option-cases (get s.funding j)) [
      | inl unfunded ↦ absurd (ground arith)
      | inr funded ↦ let same : s ≡ t = ground arith in subst (λ u. Consistent id u) same c
    ]
  ]
  | inr some_opening ↦
      let (o, e) = some_opening in
      ground (
        arith,
        get-insert s.funding j id (funding_of o proofs),
        get-remove s.opening j id,
        get-remove s.failures j id,
        get-insert s.states j id opened,
        str_eq_iff j id,
      )
]

set_opening_failed-Consistent :
    (id j : String) (failure : ClientOpeningFailure) (s t : MemoryClientStorage)
    → set_opening_failed j failure s ≡ ok t
    → Consistent id s
    → Consistent j s
    → Consistent id t
unfolding set_opening_failed Consistent
set_opening_failed-Consistent id j failure s t h c d = ground (
  arith,
  get-insert s.failures j id failure,
  get-insert s.states j id opening_failed,
  str_eq_iff j id,
)

set_state-Consistent :
    (id j : String) (s : MemoryClientStorage)
    → is_some (get s.funding j) ≡ true
    → Consistent id s
    → Consistent j s
    → Consistent id (record s { states = insert s.states j closing })
      × Consistent id (record s { states = insert s.states j closed })
unfolding Consistent
set_state-Consistent id j s f c d = (
  ground (arith, get-insert s.states j id closing, str_eq_iff j id),
  ground (arith, get-insert s.states j id closed, str_eq_iff j id),
)

delete-Consistent :
    (id j : String) (s t : MemoryClientStorage)
    → delete j s ≡ ok t
    → Consistent id s
    → Consistent id t
unfolding delete Consistent
delete-Consistent id j s t h c = ground (
  arith,
  get-remove s.opening j id,
  get-remove s.funding j id,
  get-remove s.failures j id,
  get-remove s.states j id,
  str_eq_iff j id,
)

ok-injective : {E A : Type 0} {a b : A} → ◌≡◌ {A = Result E A} (ok a) (ok b) → a ≡ b
ok-injective h = ground arith

apply-Consistent :
    (id : String) (op : Operation) (s t : MemoryClientStorage)
    → closes_funded op s ≡ true
    → apply op s ≡ ok t
    → ((i : String) → Consistent i s)
    → Consistent id t
unfolding apply set_closed set_closing
apply-Consistent id (saves_opening j o) s t f h c = save_at-Consistent id j o s t h (c id) (c j)
apply-Consistent id (opens j proofs) s t f h c = set_open-Consistent id j proofs s t h (c id) (c j)
apply-Consistent id (fails j failure) s t f h c =
    set_opening_failed-Consistent id j failure s t h (c id) (c j)
apply-Consistent id (pays j state) s t f h c =
    unfold save_payment_state in unfold Consistent in let d = c id in ground arith
apply-Consistent id (closes j) s t f h c =
    subst (λ u. Consistent id u) (ok-injective h) (set_state-Consistent id j s f (c id) (c j)).1
apply-Consistent id (marks_closing j) s t f h c =
    subst (λ u. Consistent id u) (ok-injective h) (set_state-Consistent id j s f (c id) (c j)).0
apply-Consistent id (deletes j) s t f h c = delete-Consistent id j s t h (c id)

-- Stores that histories lead to, from the empty one, in which only funded channels are closed.
pub data Reached : MemoryClientStorage → Type 0 where
  start : Reached new
  step :
      (op : Operation) (s t : MemoryClientStorage)
      → Reached s
      → closes_funded op s ≡ true
      → apply op s ≡ ok t
      → Reached t

-- In every store that is reached from the empty one by operations that succeed, closing only channels that
-- have funding, the maps agree with the states: an opening is kept exactly while the channel opens or has
-- failed to open, a failure exactly when it has failed, and the funding exactly once it is open.
pub Reached-Consistent : (s : MemoryClientStorage) → Reached s → (id : String) → Consistent id s
Reached-Consistent s start id =
    unfold Consistent in
    unfold new in
    ground (
      arith,
      get-empty {V = ClientChannelState} id,
      get-empty {V = ClientChannelOpeningFromSwap} id,
      get-empty {V = ClientChannelFunding} id,
      get-empty {V = ClientOpeningFailure} id,
    )
Reached-Consistent u (step op s t r f h) id =
    apply-Consistent id op s t f h (λ i. Reached-Consistent s r i)
