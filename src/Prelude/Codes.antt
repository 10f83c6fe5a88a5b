-- ===== src/Prelude/Codes.antt =====
-- A string as the list of its characters, and of their codes.
use Prim.Native.Nat.{ℕ}
use Prim.Native.Char.{Char, code}
use Prim.Native.String.{String, [], ◌∷◌}
use mathlib.Core.List.{List, [] as nil, ◌∷◌ as ◌∷ᴸ◌}
use mathlib.Core.Path.{◌≡◌, refl, ap}
use text.Mathlib.TextEquality.{Char-path}

unfoldable pub codes : String → List ℕ
codes [] = nil
codes (c ∷ s) = code c ∷ᴸ codes s

unfoldable pub chars : String → List Char
chars [] = nil
chars (c ∷ s) = c ∷ᴸ chars s

unfoldable pub of_chars : List Char → String
of_chars nil = []
of_chars (c ∷ᴸ cs) = c ∷ of_chars cs

tail_of : List ℕ → List ℕ
tail_of nil = nil
tail_of (n ∷ᴸ ns) = ns

head_of : ℕ → List ℕ → ℕ
head_of d nil = d
head_of d (n ∷ᴸ ns) = n

-- Strings with the same codes are the same.
pub codes_inj : (s t : String) → codes s ≡ codes t → s ≡ t
unfolding codes tail_of head_of
codes_inj [] [] h = refl
codes_inj (c ∷ s) (d ∷ t) h =
    λ i. Char-path c d (ap (head_of 0) h) i ∷ codes_inj s t (ap tail_of h) i
codes_inj [] (d ∷ t) h = cc
codes_inj (c ∷ s) [] h = cc
