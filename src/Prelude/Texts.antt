-- ===== src/Prelude/Texts.antt =====
-- Texts of the program as lists of character codes, with the searches of `std::string`.
use Prim.Native.Char.{code}
use Prim.Native.String.{String}
use Prim.Native.Nat.{ℕ}
use mathlib.Core.Path.{◌≡◌, refl, ap}
use mathlib.Core.Bool.{Bool, true, false, ◌&&◌, ◌||◌}
use mathlib.Core.List.{List, [], ◌∷◌}
use native.Mathlib.Omega.{arith}
use kan_mine.Prelude.Tests.{◌==◌}

abbrev pub Text : Type 0
Text = List ℕ

-- The codes of a literal. `String` has its own `[]` and `∷`.
abbrev pub codes : String → Text
codes String.[] = []
codes (String.◌∷◌ c s) = code c ∷ codes s

-- `a == b`.
abbrev pub same_text : Text → Text → Bool
same_text [] [] = true
same_text [] (d ∷ t) = false
same_text (c ∷ s) [] = false
same_text (c ∷ s) (d ∷ t) = c == d && same_text s t

abbrev pub starts_with : Text → Text → Bool
starts_with [] s = true
starts_with (c ∷ pat) [] = false
starts_with (c ∷ pat) (d ∷ s) = c == d && starts_with pat s

-- `s.find(pat) != npos`.
unfoldable pub contains_text : Text → Text → Bool
contains_text pat [] = starts_with pat []
contains_text pat (d ∷ s) = starts_with pat (d ∷ s) || contains_text pat s

pub same_text_sound : (s t : Text) → same_text s t ≡ true → s ≡ t
same_text_sound [] [] h = refl
same_text_sound [] (d ∷ t) h = absurd (ground (arith, h))
same_text_sound (c ∷ s) [] h = absurd (ground (arith, h))
same_text_sound (c ∷ s) (d ∷ t) h =
    let head : c ≡ d = ground (arith, h) in
    rw head (ap (◌∷◌ d) (same_text_sound s t (ground (arith, h))))

pub same_text_self : (s : Text) → same_text s s ≡ true
same_text_self [] = refl
same_text_self (c ∷ s) = ground (arith, same_text_self s)
