-- ===== src/Fraction/Order.antt =====
-- The comparisons of fractions are a total order up to equality of value.
use native.Mathlib.Nat.{mul-le-mul_right, le_of_mul-le-mul_right}
use toy_brain.Prelude.{
  ℕ, suc, ◌+◌, ◌-◌, ◌*◌, ◌≤◌, ◌<◌, ◌≡◌, true, false, not, ◌&&◌, arith, leb→le, le→leb,
}
use toy_brain.Fraction.{Fraction, ratio, den, cross, leq, less, eq_fraction}

-- `a/d <= b/e` and `b/e <= c/f`, each a difference of two numbers over a denominator.
cross_trans :
    (ap am d bp bm e cp cm f : ℕ)
    → 0 < e
    → ap * e + bm * d ≤ bp * d + am * e
    → bp * f + cm * e ≤ cp * e + bm * f
    → ap * f + cm * d ≤ cp * d + am * f
cross_trans ap am d bp bm e cp cm f pos h k =
    le_of_mul-le-mul_right {k = e} (omega (arith, mul-le-mul_right f h, mul-le-mul_right d k)) pos

pub less-eq-not : (a b : Fraction) → less a b ≡ not (leq b a)
unfolding less leq
less-eq-not a b = ground arith

pub eq_fraction-eq-leq : (a b : Fraction) → eq_fraction a b ≡ (leq a b && leq b a)
unfolding eq_fraction leq
eq_fraction-eq-leq a b = ground arith

pub leq_refl : (a : Fraction) → leq a a ≡ true
unfolding leq
leq_refl a = ground arith

pub leq_total : (a b : Fraction) → leq a b ≡ false → leq b a ≡ true
unfolding leq
leq_total a b h = ground arith

pub leq_trans : (a b c : Fraction) → leq a b ≡ true → leq b c ≡ true → leq a c ≡ true
unfolding leq
leq_trans a b c h k = le→leb (cross a c) (cross c a) (
    cross_trans a.plus a.minus (den a) b.plus b.minus (den b) c.plus c.minus (den c) (omega arith)
      (leb→le (cross a b) (cross b a) h) (leb→le (cross b c) (cross c b) k))

pub less-of_leq : (a b c : Fraction) → less a b ≡ true → leq b c ≡ true → less a c ≡ true
less-of_leq a b c h k = ground (arith, less-eq-not a b, less-eq-not a c, leq_trans b c a k)

pub leq-ratio : (a b d : ℕ) → a ≤ b → leq (ratio a d) (ratio b d) ≡ true
unfolding leq
leq-ratio a b d h =
    le→leb (cross (ratio a d) (ratio b d)) (cross (ratio b d) (ratio a d))
      (omega (arith, mul-le-mul_right (suc (d - 1)) h))
