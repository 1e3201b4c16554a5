-- ===== src/Prelude/Decimal.antt =====
-- Python's `str` of a non-negative `int`, and `math.gcd`, which brings a fraction to lowest terms.
use Prim.Native.Nat.{ℕ, zero, suc, ◌+◌, ◌-◌, ◌*◌, ◌/◌, ◌%◌, ◌^◌, ◌≤◌, ◌<◌}
use mathlib.Core.Path.{◌≡◌, refl}
use mathlib.Core.Logic.{inl, inr}
use mathlib.Core.Bool.{Bool, true, false, ◌&&◌}
use mathlib.Core.List.{[], ◌∷◌, ◌++◌}
use native.Mathlib.Omega.{arith}
use native.Mathlib.Nat.{pow-suc}
use toy_brain.Prelude.Tests.{if◌then◌else◌, ltb, leb, ◌==◌, Bool-cases}
use toy_brain.Prelude.Lists.{length, all, length-append}
use toy_brain.Prelude.Strings.{Text}

-- The digits of `n` on fuel; a number has fewer digits than its successor.
decimal_from : ℕ → ℕ → Text
decimal_from zero n = []
decimal_from (suc f) n =
    let rest = decimal_from f (n / 10) in (if ltb n 10 then [] else rest) ++ (48 + n % 10) ∷ []

unfoldable pub decimal : ℕ → Text
unfolding decimal_from
decimal n = decimal_from (suc n) n

gcd_from : ℕ → ℕ → ℕ → ℕ
gcd_from zero a b = a
gcd_from (suc f) a b = elim (b == 0) [ true ↦ a | false ↦ gcd_from f b (a % b) ]

unfoldable pub gcd : ℕ → ℕ → ℕ
unfolding gcd_from
gcd a b = gcd_from (suc b) a b

-- The number that a text of digits stands for.
abbrev pub value_of : ℕ → Text → ℕ
value_of acc [] = acc
value_of acc (c ∷ s) = value_of (acc * 10 + (c - 48)) s

value_of-append :
    (acc : ℕ) (s : Text) (c : ℕ) → value_of acc (s ++ c ∷ []) ≡ value_of acc s * 10 + (c - 48)
value_of-append acc [] c = refl
value_of-append acc (d ∷ s) c = value_of-append (acc * 10 + (d - 48)) s c

value_of-decimal_from : (f n : ℕ) → n < f → value_of 0 (decimal_from f n) ≡ n
unfolding decimal_from
value_of-decimal_from zero n h = absurd (omega arith)
value_of-decimal_from (suc f) n h = elim (Bool-cases (ltb n 10)) [
  | inl small ↦ rw small (ground (arith, small))
  | inr large ↦
      rw (large, value_of-append 0 (decimal_from f (n / 10)) (48 + n % 10))
        (ground (arith, large, value_of-decimal_from f (n / 10)))
]

-- The fuel is enough: the digits stand for the number.
pub value_of-decimal : (n : ℕ) → value_of 0 (decimal n) ≡ n
unfolding decimal
value_of-decimal n = value_of-decimal_from (suc n) n (omega arith)

all-append_one :
    (p : ℕ → Bool) (s : Text) (c : ℕ) → all p s ≡ true → p c ≡ true → all p (s ++ c ∷ []) ≡ true
all-append_one p [] c h k = ground arith
all-append_one p (d ∷ s) c h k = ground (arith, all-append_one p s c)

abbrev pub is_digit : ℕ → Bool
is_digit c = leb 48 c && leb c 57

digits_from : (f n : ℕ) → all is_digit (decimal_from f n) ≡ true
unfolding decimal_from
digits_from zero n = refl
digits_from (suc f) n = elim (Bool-cases (ltb n 10)) [
  | inl small ↦ rw small (ground arith)
  | inr large ↦ rw large (
      all-append_one is_digit (decimal_from f (n / 10)) (48 + n % 10) (digits_from f (n / 10))
        (ground arith))
]

pub all-decimal : (n : ℕ) → all is_digit (decimal n) ≡ true
unfolding decimal
all-decimal n = digits_from (suc n) n

length_from : (k f n : ℕ) → n < 10 ^ suc k → length (decimal_from f n) ≤ suc k
unfolding decimal_from
length_from k zero n h = omega arith
length_from zero (suc f) n h = let small : ltb n 10 ≡ true = ground arith in rw small (omega arith)
length_from (suc k) (suc f) n h =
    let shorter : n / 10 < 10 ^ suc k = omega (arith, pow-suc 10 (suc k)) in
    ground (
      arith,
      length-append (decimal_from f (n / 10)) ((48 + n % 10) ∷ []),
      length_from k f (n / 10) shorter,
    )

-- A number below 10 ^ k has at most k digits.
pub length-decimal-le : (k n : ℕ) → n < 10 ^ suc k → length (decimal n) ≤ suc k
unfolding decimal
length-decimal-le k n h = length_from k (suc n) n h
