-- ===== src/Swap/Restore/Reordered.antt =====
-- The order in which a restore lists its outputs: `match_restore_response` of
-- crates/cdk-spilman/src/bindings.rs does not depend on it.
use cashu_spilman_channels.Prelude.{
  ℕ, zero, suc, false, Option, none, some, List, [], ◌∷◌, length, replicate, ok, ok_or, reject_if,
  ◌!=◌, ◌≡◌, refl, ◌∙◌, ap, arith,
}
use cashu_spilman_channels.Channel.Verification.Secrets.{Result->>=-ok}
use cashu_spilman_channels.Swap.{BlindedMessage, BlindSignature}
use cashu_spilman_channels.Swap.Restore.{
  unknown_output, position, at, put, is_set, replaced, match_outputs, match_restore_response,
  output_signature_count, restore_count,
}

-- The same outputs beside the same signatures, in another order.
pub data Reordered
    : List BlindedMessage
      → List BlindSignature
      → List BlindedMessage
      → List BlindSignature
      → Type 0 where
  same : (os : List BlindedMessage) (ss : List BlindSignature) → Reordered os ss os ss
  kept :
      (o : BlindedMessage) (s : BlindSignature) (os us : List BlindedMessage)
      (ss ts : List BlindSignature)
      → Reordered os ss us ts
      → Reordered (o ∷ os) (s ∷ ss) (o ∷ us) (s ∷ ts)
  swapped :
      (o u : BlindedMessage) (s t : BlindSignature) (os : List BlindedMessage)
      (ss : List BlindSignature)
      → Reordered (o ∷ u ∷ os) (s ∷ t ∷ ss) (u ∷ o ∷ os) (t ∷ s ∷ ss)
  chained :
      (os us xs : List BlindedMessage) (ss ts ys : List BlindSignature)
      → Reordered os ss us ts
      → Reordered us ts xs ys
      → Reordered os ss xs ys

-- Two writes to places that are free commute.
puts_commute :
    (m : List (Option BlindSignature)) (i j : ℕ) (s t : BlindSignature)
    → is_set (at m i) ≡ false
    → is_set (at (put m i s) j) ≡ false
    → (is_set (at m j) ≡ false)
      × (is_set (at (put m j t) i) ≡ false)
      × (put (put m j t) i s ≡ put (put m i s) j t)
unfolding at put is_set
puts_commute [] i j s t a b = (refl, refl, refl)
puts_commute (x ∷ m) zero zero s t a b = absurd (ground (arith, b))
puts_commute (x ∷ m) zero (suc j) s t a b = (b, a, refl)
puts_commute (x ∷ m) (suc i) zero s t a b = (b, a, refl)
puts_commute (x ∷ m) (suc i) (suc j) s t a b =
    let (c, d, e) = puts_commute m i j s t a b in (c, d, ap (λ l. x ∷ l) e)

replaced-put :
    (m : List (Option BlindSignature)) (i : ℕ) (s : BlindSignature)
    → is_set (at m i) ≡ false
    → replaced m i s ≡ ok (put m i s)
unfolding replaced
replaced-put m i s h = rw h refl

replaced-free :
    (m : List (Option BlindSignature)) (i : ℕ) (s : BlindSignature)
    {n : List (Option BlindSignature)}
    → replaced m i s ≡ ok n
    → (is_set (at m i) ≡ false) × (put m i s ≡ n)
unfolding replaced
replaced-free m i s h = (ground (arith, h), ground (arith, h))

match_outputs_first :
    (expected outputs : List BlindedMessage) (o : BlindedMessage) (s : BlindSignature)
    (signatures : List BlindSignature) (m : List (Option BlindSignature)) (i : ℕ)
    → position expected o ≡ some i
    → is_set (at m i) ≡ false
    → match_outputs expected (o ∷ outputs) (s ∷ signatures) m
      ≡ match_outputs expected outputs signatures (put m i s)
unfolding match_outputs
match_outputs_first expected outputs o s signatures m i e h = rw e (rw (replaced-put m i s h) refl)

-- What a successful match has done with the first output.
record First (expected outputs : List BlindedMessage) (o : BlindedMessage) (s : BlindSignature)
    (signatures : List BlindSignature) (m done : List (Option BlindSignature)) : Type 0 where
  place : ℕ
  placed : position expected o ≡ some place
  free : is_set (at m place) ≡ false
  rest : match_outputs expected outputs signatures (put m place s) ≡ ok done

match_outputs-First :
    (expected outputs : List BlindedMessage) (o : BlindedMessage) (s : BlindSignature)
    (signatures : List BlindSignature) (m : List (Option BlindSignature))
    {done : List (Option BlindSignature)}
    → match_outputs expected (o ∷ outputs) (s ∷ signatures) m ≡ ok done
    → First expected outputs o s signatures m done
unfolding match_outputs
match_outputs-First expected outputs o s signatures m {done} h =
    let (i, placed, after) = Result->>=-ok (ok_or (position expected o) unknown_output) _ h in
    let (next, wrote, rest) = Result->>=-ok (replaced m i s) _ after in
    let (free, written) = replaced-free m i s {n = next} wrote in
    record { place = i; placed = ground (arith, placed); free = free; rest = rw written rest }

-- Whatever has been matched in one order is matched in the other.
match_outputs-Reordered :
    {os us : List BlindedMessage} {ss ts : List BlindSignature} (expected : List BlindedMessage)
    (m : List (Option BlindSignature)) {done : List (Option BlindSignature)}
    → Reordered os ss us ts
    → match_outputs expected os ss m ≡ ok done
    → match_outputs expected us ts m ≡ ok done
match_outputs-Reordered expected m (same os ss) h = h
match_outputs-Reordered expected m (kept o s os us ss ts r) h =
    let f = match_outputs-First expected os o s ss m h in
    match_outputs_first expected us o s ts m f.place f.placed f.free
    ∙ match_outputs-Reordered expected (put m f.place s) r f.rest
match_outputs-Reordered expected m (swapped o u s t os ss) h =
    let f = match_outputs-First expected (u ∷ os) o s (t ∷ ss) m h in
    let g = match_outputs-First expected os u t ss (put m f.place s) f.rest in
    let (a, b, e) = puts_commute m f.place g.place s t f.free g.free in
    match_outputs_first expected (o ∷ os) u t (s ∷ ss) m g.place g.placed a
    ∙ (match_outputs_first expected os o s ss (put m g.place t) f.place f.placed b
        ∙ (ap (match_outputs expected os ss) e ∙ g.rest))
match_outputs-Reordered expected m (chained os us xs ss ts ys q r) h =
    match_outputs-Reordered expected m r (match_outputs-Reordered expected m q h)

pub Reordered-length :
    {os us : List BlindedMessage} {ss ts : List BlindSignature}
    → Reordered os ss us ts
    → (length us ≡ length os) × (length ts ≡ length ss)
Reordered-length (same os ss) = (refl, refl)
Reordered-length (kept o s os us ss ts r) = let (a, b) = Reordered-length r in (ap suc a, ap suc b)
Reordered-length (swapped o u s t os ss) = (refl, refl)
Reordered-length (chained os us xs ss ts ys q r) =
    let (a, b) = Reordered-length q in let (c, d) = Reordered-length r in (c ∙ a, d ∙ b)

-- A restore that is accepted in one order is accepted in every other, with the same signatures.
pub match_restore_response-Reordered :
    {os us : List BlindedMessage} {ss ts : List BlindSignature} (expected : List BlindedMessage)
    {signatures : List BlindSignature}
    → Reordered os ss us ts
    → match_restore_response (record { outputs = os; signatures = ss }) expected ≡ ok signatures
    → match_restore_response (record { outputs = us; signatures = ts }) expected ≡ ok signatures
unfolding match_restore_response
match_restore_response-Reordered {os = os} {us = us} {ss = ss} {ts = ts} expected r h =
    let (a, b) = Reordered-length r in
    let (u, paired, after_paired) =
      Result->>=-ok
        (reject_if (length os != length ss) (output_signature_count (length os) (length ss))) _ h in
    let (v, counted, after_counted) =
      Result->>=-ok
        (reject_if (length os != length expected) (restore_count (length expected) (length os))) _
        after_paired in
    let (matched, found, collected) =
      Result->>=-ok (match_outputs expected os ss (replicate (length expected) none)) _
        after_counted in
    let moved = match_outputs-Reordered expected (replicate (length expected) none) r found in
    rw a (rw b (rw paired (rw counted (rw moved collected))))
