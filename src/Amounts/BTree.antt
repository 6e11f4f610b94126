-- ===== src/Amounts/BTree.antt =====
-- The counts that the greedy loop keeps: an ascending map, its weight, and its expansion.
use cashu_spilman_channels.Prelude.{
  ℕ, zero, suc, ◌+◌, ◌*◌, ◌≤◌, ◌<◌, ◌≡◌, refl, List, [], ◌∷◌, ◌++◌, arith, All, All-append,
  All-replicate, length, length-append, length-replicate, sum, sum-append, sum-replicate, replicate,
}
use cashu_spilman_channels.Amounts.{btree_insert, expand_rev}

unfoldable pub weight : List (ℕ × ℕ) → ℕ
weight [] = 0
weight ((amount, count) ∷ m) = count * amount + weight m

-- The number of outputs.
unfoldable pub outputs : List (ℕ × ℕ) → ℕ
outputs [] = 0
outputs ((amount, count) ∷ m) = count + outputs m

-- Keys strictly ascend, and all lie above `lo`.
abbrev pub AscendingFrom : ℕ → List (ℕ × ℕ) → Type 0
AscendingFrom lo [] = Unit
AscendingFrom lo ((amount, count) ∷ m) = (lo < amount) × AscendingFrom amount m

abbrev pub Descending : List ℕ → Type 0
Descending [] = Unit
Descending (x ∷ xs) = All (λ y. y ≤ x) xs × Descending xs

pub AscendingFrom-le :
    {lo hi : ℕ} (m : List (ℕ × ℕ)) → lo ≤ hi → AscendingFrom hi m → AscendingFrom lo m
AscendingFrom-le [] h a = tt
AscendingFrom-le ((amount, count) ∷ m) h a = (omega arith, a.1)

-- A key below all others is put in front.
pub btree_insert_front :
    (k v lo : ℕ) (m : List (ℕ × ℕ)) → k ≤ lo → AscendingFrom lo m → btree_insert k v m ≡ (k, v) ∷ m
unfolding btree_insert
btree_insert_front k v lo [] h a = refl
btree_insert_front k v lo ((j, w) ∷ m) h a = ground arith

pub weight-btree_insert :
    (k v lo : ℕ) (m : List (ℕ × ℕ))
    → k ≤ lo
    → AscendingFrom lo m
    → weight (btree_insert k v m) ≡ v * k + weight m
unfolding weight
weight-btree_insert k v lo m h a = rw (btree_insert_front k v lo m h a)

pub outputs-btree_insert :
    (k v lo : ℕ) (m : List (ℕ × ℕ))
    → k ≤ lo
    → AscendingFrom lo m
    → outputs (btree_insert k v m) ≡ v + outputs m
unfolding outputs
outputs-btree_insert k v lo m h a = rw (btree_insert_front k v lo m h a)

pub length-expand_rev : (m : List (ℕ × ℕ)) → length (expand_rev m) ≡ outputs m
unfolding expand_rev outputs
length-expand_rev [] = refl
length-expand_rev ((amount, count) ∷ m) = omega (
  arith,
  length-append (expand_rev m) (replicate count amount),
  length-replicate count amount,
  length-expand_rev m,
)

pub sum-expand_rev : (m : List (ℕ × ℕ)) → sum (expand_rev m) ≡ weight m
unfolding expand_rev weight
sum-expand_rev [] = refl
sum-expand_rev ((amount, count) ∷ m) = omega (
  arith,
  sum-append (expand_rev m) (replicate count amount),
  sum-replicate count amount,
  sum-expand_rev m,
)

pub All-expand_rev : (P : ℕ → Type 0) (m : List (ℕ × ℕ)) → All (λ e. P e.0) m → All P (expand_rev m)
unfolding expand_rev
All-expand_rev P [] h = tt
All-expand_rev P ((amount, count) ∷ m) h =
    All-append P (expand_rev m) (replicate count amount) (All-expand_rev P m h.1)
      (All-replicate P count amount h.0)

All-above : (lo : ℕ) (m : List (ℕ × ℕ)) → AscendingFrom lo m → All (λ y. lo ≤ y) (expand_rev m)
unfolding expand_rev
All-above lo [] h = tt
All-above lo ((amount, count) ∷ m) h =
    All-append (λ y. lo ≤ y) (expand_rev m) (replicate count amount)
      (All-above lo m (AscendingFrom-le m (omega arith) h.1))
      (All-replicate (λ y. lo ≤ y) count amount (omega arith))

Descending-replicate : (n a : ℕ) → Descending (replicate n a)
Descending-replicate zero a = tt
Descending-replicate (suc n) a =
    (All-replicate (λ y. y ≤ a) n a (omega arith), Descending-replicate n a)

-- Everything in front is at least `a`, and the rest is copies of `a`.
Descending-append :
    (a n : ℕ) (xs : List ℕ) → Descending xs → All (λ y. a ≤ y) xs → Descending (xs ++ replicate n a)
Descending-append a n [] d h = Descending-replicate n a
Descending-append a n (x ∷ xs) d h = (
  All-append (λ y. y ≤ x) xs (replicate n a) d.0 (All-replicate (λ y. y ≤ x) n a h.0),
  Descending-append a n xs d.1 h.1,
)

pub expand_rev-Descending :
    (lo : ℕ) (m : List (ℕ × ℕ)) → AscendingFrom lo m → Descending (expand_rev m)
unfolding expand_rev
expand_rev-Descending lo [] h = tt
expand_rev-Descending lo ((amount, count) ∷ m) h =
    Descending-append amount count (expand_rev m) (expand_rev-Descending amount m h.1)
      (All-above amount m h.1)
