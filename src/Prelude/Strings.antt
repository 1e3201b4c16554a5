-- ===== src/Prelude/Strings.antt =====
-- Python's `str` as the list of its code points.
use Prim.Native.Char.{code}
use Prim.Native.String.{String}
use Prim.Native.Nat.{ℕ}
use mathlib.Core.Path.{◌≡◌, refl}
use mathlib.Core.Logic.{◌↔◌}
use mathlib.Core.Bool.{Bool, true, false, ◌&&◌}
use mathlib.Core.List.{List, [], ◌∷◌}
use native.Mathlib.Omega.{arith}
use toy_brain.Prelude.Tests.{◌==◌}

abbrev pub Text : Type 0
Text = List ℕ

-- The code points of a literal.
abbrev pub codes : String → Text
codes String.[] = []
codes (String.◌∷◌ c s) = code c ∷ codes s

unfoldable pub eq_text : Text → Text → Bool
eq_text [] [] = true
eq_text (a ∷ s) (b ∷ t) = (a == b) && eq_text s t
eq_text _ _ = false

pub eq_text_refl : (s : Text) → eq_text s s ≡ true
unfolding eq_text
eq_text_refl [] = refl
eq_text_refl (a ∷ s) = ground (arith, eq_text_refl s)

eq_of_eq_text : (s t : Text) → eq_text s t ≡ true → s ≡ t
unfolding eq_text
eq_of_eq_text [] [] h = refl
eq_of_eq_text [] (b ∷ t) h = ground arith
eq_of_eq_text (a ∷ s) [] h = ground arith
eq_of_eq_text (a ∷ s) (b ∷ t) h = ground (arith, eq_of_eq_text s t)

pub eq_text_iff : (s t : Text) → (eq_text s t ≡ true) ↔ (s ≡ t)
eq_text_iff s t = (eq_of_eq_text s t, λ e. ground (arith, eq_text_refl t))
