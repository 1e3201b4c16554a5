-- ===== src/Fraction/Arithmetic.antt =====
-- Sums, differences and absolute values of fractions against their order.
use toy_brain.Prelude.{◌≡◌, true, arith}
use toy_brain.Fraction.{Fraction, whole, cross, leq, sub, abs}

-- Equal in value, as an equation of numbers.
abbrev pub SameValue : Fraction → Fraction → Type 0
SameValue a b = cross a b ≡ cross b a

pub abs_nonneg : (a : Fraction) → leq (whole 0) (abs a) ≡ true
unfolding leq abs
abs_nonneg a = ground arith

pub abs-sub_comm : (a b : Fraction) → SameValue (abs (sub a b)) (abs (sub b a))
unfolding abs sub
abs-sub_comm a b = ground arith
