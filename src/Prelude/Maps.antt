-- ===== src/Prelude/Maps.antt =====
-- `HashMap` and `BTreeMap` as a sealed association list. Clients have `map_laws`.
use Prim.Native.Nat.{ℕ, ◌+◌}
use mathlib.Core.Path.{◌≡◌, refl, subst}
use mathlib.Core.Logic.{inl, inr}
use mathlib.Core.Option.{Option, none, some}
use mathlib.Core.List.{List, [], ◌∷◌}
use native.Mathlib.Omega.{arith}
use cashu_spilman_channels.Prelude.Tests.{if◌then◌else◌, Bool-cases, unwrap_or}
use cashu_spilman_channels.Prelude.Equality.{Eq}

pub record Map {ℓ} (K V : Type ℓ) : Type ℓ where
  pub entries : List (K × V)

unfoldable pub empty {ℓ} : {K V : Type ℓ} → Map K V
empty = record { entries = [] }

module _ {ℓ} {K V : Type ℓ} ⦃e : Eq K⦄ where
  lookup : K → List (K × V) → Option V
  lookup k [] = none
  lookup k ((j, v) ∷ m) = let rest = lookup k m in if e.beq j k then some v else rest

  without : K → List (K × V) → List (K × V)
  without k [] = []
  without k ((j, v) ∷ m) = let rest = without k m in if e.beq j k then rest else (j, v) ∷ rest

  unfoldable pub get : Map K V → K → Option V
  unfolding lookup
  get m k = lookup k m.entries

  unfoldable pub insert : Map K V → K → V → Map K V
  unfolding without
  insert m k v = record { entries = (k, v) ∷ without k m.entries }

  unfoldable pub remove : Map K V → K → Map K V
  unfolding without
  remove m k = record { entries = without k m.entries }

  lookup-without :
      (k j : K) (m : List (K × V))
      → lookup j (without k m) ≡ (if e.beq k j then none else lookup j m)
  unfolding lookup without
  lookup-without k j [] = ground arith
  lookup-without k j ((i, v) ∷ m) =
      ground (arith, lookup-without k j m, e.beq_iff i k, e.beq_iff i j, e.beq_iff k j)

  pub get-remove :
      (m : Map K V) (k j : K) → get (remove m k) j ≡ (if e.beq k j then none else get m j)
  unfolding get remove
  get-remove m k j = lookup-without k j m.entries

  pub get-insert :
      (m : Map K V) (k j : K) (v : V)
      → get (insert m k v) j ≡ (if e.beq k j then some v else get m j)
  unfolding get insert
  get-insert m k j v = simp lookup-without (ground arith)

pub get-empty {ℓ} : {K V : Type ℓ} ⦃e : Eq K⦄ (k : K) → get (empty {V = V}) k ≡ none
unfolding get empty
get-empty k = refl

pub ruleset map_laws = (get-empty, get-remove, get-insert)

-- `collect` into a map: of two entries with one key the later stays.
module _ {ℓ} {K V : Type ℓ} ⦃e : Eq K⦄ where
  insert_all : List (K × V) → Map K V → Map K V
  unfolding insert
  insert_all [] m = m
  insert_all ((k, v) ∷ rest) m = insert_all rest (insert m k v)

  unfoldable pub from_entries : List (K × V) → Map K V
  unfolding insert_all
  from_entries l = insert_all l (record { entries = [] })

  -- No key stands twice.
  Distinct : List (K × V) → Type ℓ
  Distinct [] = Unit
  Distinct ((k, v) ∷ m) = (lookup k m ≡ none) × Distinct m

  without-Distinct : (k : K) (m : List (K × V)) → Distinct m → Distinct (without k m)
  unfolding Distinct without
  without-Distinct k [] d = tt
  without-Distinct k ((j, v) ∷ m) d = elim (Bool-cases (e.beq j k)) [
    | inl same ↦ rw same (without-Distinct k m d.1)
    | inr other ↦ rw other ((ground (arith, lookup-without k j m, d.0), without-Distinct k m d.1))
  ]

  insert_all-Distinct :
      (l : List (K × V)) (m : Map K V) → Distinct m.entries → Distinct (insert_all l m).entries
  unfolding Distinct insert_all
  insert_all-Distinct [] m d = d
  insert_all-Distinct ((k, v) ∷ rest) m d = insert_all-Distinct rest (insert m k v) (
      unfold insert in
      (ground (arith, lookup-without k k m.entries, e.beq_iff k k), without-Distinct k m.entries d))

-- The numbers that a list of entries holds for a key.
unfoldable pub total {ℓ} : {K : Type ℓ} ⦃e : Eq K⦄ → K → List (K × ℕ) → ℕ
total k [] = 0
total ⦃e⦄ k ((j, n) ∷ m) = let more = total k m in if e.beq j k then n + more else more

module _ {K : Type 0} ⦃e : Eq K⦄ where
  total-none : (k : K) (m : List (K × ℕ)) → lookup k m ≡ none → total k m ≡ 0
  unfolding lookup total
  total-none k [] h = refl
  total-none k ((j, n) ∷ m) h = ground (arith, total-none k m)

  total-lookup : (k : K) (m : List (K × ℕ)) → Distinct m → total k m ≡ unwrap_or (lookup k m) 0
  unfolding lookup total Distinct
  total-lookup k [] d = refl
  total-lookup k ((j, n) ∷ m) d = elim (Bool-cases (e.beq j k)) [
    | inl same ↦
        let j≡k : j ≡ k = (e.beq_iff j k).0 same in
        rw same (ground (arith, total-none k m (subst (λ x. lookup x m ≡ none) j≡k d.0)))
    | inr other ↦ rw other (total-lookup k m d.1)
  ]

  pub total-get :
      (l : List (K × ℕ)) (k : K)
      → total k (from_entries l).entries ≡ unwrap_or (get (from_entries l) k) 0
  unfolding get from_entries Distinct
  total-get l k =
      total-lookup k (from_entries l).entries (insert_all-Distinct l (record { entries = [] }) tt)
