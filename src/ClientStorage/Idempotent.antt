-- ===== src/ClientStorage/Idempotent.antt =====
-- Retries of the operations that open a channel.
use cashu_spilman_channels.Prelude.{
  String, ok, err, ◌≡◌, ◌≢◌, arith, get, string_eq, str_eq_iff, get-insert, Option-cases, inl, inr,
}
use cashu_spilman_channels.ClientStorage.{
  MemoryClientStorage, opened, corrupt_opening, corrupt_funding, different_proofs, set_open,
  funding_of, get_opening_from_swap,
}
use cashu_spilman_channels.ClientStorage.Consistent.{Consistent}

-- Opening is idempotent and settled by its proofs: once `set_open` has succeeded, it succeeds again with the
-- same proofs and then changes nothing, and it refuses any others.
pub set_open_again :
    (id proofs others : String) (s t : MemoryClientStorage)
    → set_open id proofs s ≡ ok t
    → others ≢ proofs
    → (set_open id proofs t ≡ ok t) × (set_open id others t ≡ err (different_proofs id))
unfolding set_open
set_open_again id proofs others s t h ne = elim (Option-cases (get s.opening id)) [
  | inl unopened ↦ elim (Option-cases (get s.funding id)) [
    | inl unfunded ↦ absurd (ground arith)
    | inr funded ↦
        let (f, e) = funded in
        (
          ground (arith, str_eq_iff f.funding_proofs_json proofs),
          ground (
            arith,
            str_eq_iff f.funding_proofs_json proofs,
            str_eq_iff f.funding_proofs_json others,
          ),
        )
  ]
  | inr some_opening ↦
      let (o, e) = some_opening in
      let made = get-insert s.funding id id (funding_of o proofs) in
      let state = get-insert s.states id id opened in
      elim (Option-cases (get s.funding id)) [
        | inl unfunded ↦ (
          ground (arith, made, state, str_eq_iff id id, str_eq_iff proofs proofs),
          ground (arith, made, state, str_eq_iff id id, str_eq_iff proofs others),
        )
        | inr funded ↦
            let (f, x) = funded in
            (
              ground (
                arith,
                made,
                state,
                str_eq_iff id id,
                str_eq_iff proofs proofs,
                str_eq_iff f.funding_proofs_json proofs,
              ),
              ground (
                arith,
                made,
                state,
                str_eq_iff id id,
                str_eq_iff proofs others,
                str_eq_iff f.funding_proofs_json proofs,
                str_eq_iff f.funding_proofs_json others,
              ),
            )
      ]
]

-- In a store whose maps agree with the states no operation finds it corrupt.
pub Consistent-uncorrupt :
    (id proofs : String) (s : MemoryClientStorage)
    → Consistent id s
    → (set_open id proofs s ≢ err (corrupt_opening id))
      × (set_open id proofs s ≢ err (corrupt_funding id))
      × (get_opening_from_swap id s ≢ err (corrupt_opening id))
unfolding set_open get_opening_from_swap Consistent
Consistent-uncorrupt id proofs s c = (λ e. ground arith, λ e. ground arith, λ e. ground arith)
