-- ===== src/Examples/Fields.antt =====
-- Texts one after the other in a text: an "x" before every character, and a full stop at a text's end.
use Prim.Native.String.{String, [], ◌∷◌}
use Prim.Native.Char.{Char}
use cashu_spilman_channels.Prelude.{
  ℕ, zero, suc, Bool, Option, none, some, if◌then◌else◌, str_eq, ◌≡◌, refl, ap,
}

unfoldable pub write : String → String → String
write [] rest = "." ∷ rest
write (c ∷ s) rest = "x" ∷ (c ∷ write s rest)

abbrev is_stop : Char → Bool
is_stop d = str_eq (d ∷ []) "."

abbrev push : Char → Option (String × String) → Option (String × String)
push c none = none
push c (some (s, rest)) = some (c ∷ s, rest)

unfoldable pub read : String → Option (String × String)
read [] = none
read (d ∷ []) = if is_stop d then some ([], []) else none
read (d ∷ (c ∷ s)) = let later = read s in if is_stop d then some ([], c ∷ s) else push c later

pub read-write : (s rest : String) → read (write s rest) ≡ some (s, rest)
unfolding read write
read-write [] [] = refl
read-write [] (c ∷ rest) = refl
read-write (c ∷ s) rest = ap (push c) (read-write s rest)

-- A number by as many ones.
unfoldable pub ones : ℕ → String
ones zero = []
ones (suc n) = "1" ∷ ones n

unfoldable pub count : String → ℕ
count [] = 0
count (c ∷ s) = suc (count s)

pub count-ones : (n : ℕ) → count (ones n) ≡ n
unfolding count ones
count-ones zero = refl
count-ones (suc n) = ap suc (count-ones n)
