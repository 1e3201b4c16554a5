-- ===== src/Fraction.antt =====
-- Python's `fractions.Fraction`, as the source uses it: exact comparison, difference, sum and
-- absolute value. A value is (plus - minus) / (den_pred + 1), so the denominator is positive and no
-- operation has to look at a sign. It is not brought to lowest terms: Python's `==`, `<` and `<=`
-- on two fractions are the cross-multiplied tests below, which do not depend on that.
pub mod Order
pub mod Arithmetic
use toy_brain.Prelude.{ℕ, suc, ◌+◌, ◌-◌, ◌*◌, Bool, ltb, leb, ◌==◌, if◌then◌else◌}
use toy_brain.Prelude.Decimal.{gcd}
use Prim.Native.Nat.{◌/◌}

pub record Fraction : Type 0 where
  pub plus : ℕ
  pub minus : ℕ
  pub den_pred : ℕ

abbrev pub den : Fraction → ℕ
den q = suc q.den_pred

-- `Fraction(n)`, and `Fraction(n, d)` for a positive `d`
abbrev pub whole : ℕ → Fraction
whole n = record { plus = n; minus = 0; den_pred = 0 }

abbrev pub ratio : ℕ → ℕ → Fraction
ratio n d = record { plus = n; minus = 0; den_pred = d - 1 }

-- `a <= b` is `cross a b <= cross b a`.
abbrev pub cross : Fraction → Fraction → ℕ
cross a b = a.plus * den b + b.minus * den a

unfoldable pub leq : Fraction → Fraction → Bool
leq a b = leb (cross a b) (cross b a)

unfoldable pub less : Fraction → Fraction → Bool
less a b = ltb (cross a b) (cross b a)

unfoldable pub eq_fraction : Fraction → Fraction → Bool
eq_fraction a b = cross a b == cross b a

unfoldable pub sub : Fraction → Fraction → Fraction
sub a b = record {
  plus = a.plus * den b + b.minus * den a;
  minus = a.minus * den b + b.plus * den a;
  den_pred = a.den_pred * den b + b.den_pred;
}

unfoldable pub add : Fraction → Fraction → Fraction
add a b = record {
  plus = a.plus * den b + b.plus * den a;
  minus = a.minus * den b + b.minus * den a;
  den_pred = a.den_pred * den b + b.den_pred;
}

unfoldable pub mul : Fraction → Fraction → Fraction
mul a b = record {
  plus = a.plus * b.plus + a.minus * b.minus;
  minus = a.plus * b.minus + a.minus * b.plus;
  den_pred = a.den_pred * den b + b.den_pred;
}

-- `abs(q)`
unfoldable pub abs : Fraction → Fraction
abs q = if leb q.minus q.plus then q else record q { plus = q.minus; minus = q.plus }

-- `q.numerator` and `q.denominator`, for a fraction that is not negative
unfoldable pub numerator : Fraction → ℕ
unfolding gcd
numerator q = let n = q.plus - q.minus in n / gcd n (den q)

unfoldable pub denominator : Fraction → ℕ
unfolding gcd
denominator q = den q / gcd (q.plus - q.minus) (den q)
