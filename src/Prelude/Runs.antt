-- ===== src/Prelude/Runs.antt =====
-- A computation with loops on fuel that may fail: `none` means that the fuel ran out.
use mathlib.Core.Path.{◌≡◌, refl}
use mathlib.Core.Logic.{◌⊎◌, inl, inr}
use mathlib.Core.Option.{Option, none, some}
use native.Mathlib.Omega.{arith}
use cashu_spilman_channels.Prelude.Results.{Result, ok, err}

abbrev pub Run : Type 0 → Type 0 → Type 0
Run E A = Option (Result E A)

infixl 5 ◌>>=◌ ◌>>◌
abbrev pub ◌>>=◌ : {E A B : Type 0} → Run E A → (A → Run E B) → Run E B
none >>= f = none
some (err e) >>= f = some (err e)
some (ok a) >>= f = f a

abbrev pub ◌>>◌ : {E A B : Type 0} → Run E A → Run E B → Run E B
m >> k = m >>= λ _. k

abbrev pub map_error : {E F A : Type 0} → (E → F) → Run E A → Run F A
map_error f none = none
map_error f (some (err e)) = some (err (f e))
map_error f (some (ok a)) = some (ok a)

-- It gave a value, or it stopped.
pub Run-cases :
    {E A : Type 0} (m : Run E A)
    → ((m ≡ none) ⊎ ((e : E) × (m ≡ some (err e)))) ⊎ ((a : A) × (m ≡ some (ok a)))
Run-cases none = inl (inl refl)
Run-cases (some (err e)) = inl (inr (e, refl))
Run-cases (some (ok a)) = inr (a, refl)

-- What every continuation's value satisfies, the value of the whole satisfies.
pub >>=-past :
    {E A B : Type 0} (P : B → Type 0) (m : Run E A) (f : A → Run E B) {b : B}
    → ((a : A) → f a ≡ some (ok b) → P b)
    → (m >>= f) ≡ some (ok b)
    → P b
>>=-past P none f h e = absurd (ground arith)
>>=-past P (some (err x)) f h e = absurd (ground arith)
>>=-past P (some (ok a)) f h e = h a e

-- Inversion of a bind that gives a value.
pub >>=-ok :
    {E A B : Type 0} (m : Run E A) (f : A → Run E B) {b : B}
    → (m >>= f) ≡ some (ok b)
    → (a : A) × (m ≡ some (ok a)) × (f a ≡ some (ok b))
>>=-ok none f h = absurd (ground arith)
>>=-ok (some (err e)) f h = absurd (ground arith)
>>=-ok (some (ok a)) f h = (a, refl, h)
