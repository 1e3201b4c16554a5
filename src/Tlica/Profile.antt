-- ===== src/Tlica/Profile.antt =====
-- brain/tlica/profile.py: `ScalarProfile`, with the checks of its `__post_init__`.
use toy_brain.Prelude.{◌≡◌, refl, ◌↔◌, true, [], ◌∷◌, arith, Text, codes, if◌then◌else◌, All}
use toy_brain.Prelude.Outcome.{Result, ok, raise, ◌>>◌, require, profile_keys, i_prof_01, i_prof_02}
use toy_brain.Prelude.FrozenSet.{FrozenSet, contains, set_eq, contains-set_eq}
use toy_brain.Prelude.Dict.{Dict, is_some, get, item, keys, contains-keys}
use toy_brain.Fraction.{Fraction, whole, leq, less}
use toy_brain.Fraction.Order.{less-eq-not}

unfoldable pub cogito_id : Text
cogito_id = codes "__cogito__"

pub record ScalarProfile : Type 0 where
  pub domain : FrozenSet
  pub values : Dict Fraction

-- the loop over `self.values.items()`
unfoldable pub check_values : Dict Fraction → Result (Unit {0})
unfolding less
check_values [] = ok tt
check_values ((k, v) ∷ rest) =
    let others = check_values rest in
    if less v (whole 0)
    then raise i_prof_01
    else if less (whole 1) v
    then raise i_prof_02
    else others

unfoldable pub scalar_profile : FrozenSet → Dict Fraction → Result ScalarProfile
unfolding check_values
scalar_profile domain values = do
  require (set_eq (keys values) domain) profile_keys
  check_values values
  ok (record { domain = domain; values = values })

unfoldable pub zero_extend : ScalarProfile → Text → Result Fraction
zero_extend p x = if contains x p.domain then item x p.values else ok (whole 0)

abbrev pub InUnit : Fraction → Type 0
InUnit v = (leq (whole 0) v ≡ true) × (leq v (whole 1) ≡ true)

abbrev pub ValueInUnit : Text × Fraction → Type 0
ValueInUnit (k, v) = InUnit v

pub record IsValid (p : ScalarProfile) : Type 0 where
  pub same_keys : set_eq (keys p.values) p.domain ≡ true
  pub in_unit : All ValueInUnit p.values

pub check_values-All :
    (values : Dict Fraction) → (check_values values ≡ ok tt) ↔ All ValueInUnit values
unfolding check_values
check_values-All [] = (λ h. tt, λ h. refl)
check_values-All ((k, v) ∷ rest) =
    ground (arith, check_values-All rest, less-eq-not v (whole 0), less-eq-not (whole 1) v)

-- A key is in the domain exactly when it has a value.
pub contains-domain :
    (p : ScalarProfile) (x : Text) → IsValid p → contains x p.domain ≡ is_some (get x p.values)
contains-domain p x h =
    ground (arith, contains-keys x p.values, contains-set_eq x (keys p.values) p.domain h.same_keys)

pub scalar_profile-of_IsValid :
    (p : ScalarProfile) → IsValid p → scalar_profile p.domain p.values ≡ ok p
unfolding scalar_profile
scalar_profile-of_IsValid p h = ground (arith, h.same_keys, h.in_unit, check_values-All p.values)

-- If the constructor of `ScalarProfile` returns, it returns its arguments unchanged, the keys of
-- the values are the domain, and every value lies in [0, 1].
pub scalar_profile-IsValid :
    (domain : FrozenSet) (values : Dict Fraction) {p : ScalarProfile}
    → scalar_profile domain values ≡ ok p
    → (p ≡ record { domain = domain; values = values }) × IsValid p
unfolding scalar_profile
scalar_profile-IsValid domain values e = ground (arith, check_values-All values)
