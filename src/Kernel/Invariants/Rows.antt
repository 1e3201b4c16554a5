-- ===== src/Kernel/Invariants/Rows.antt =====
-- The facts about a valid state that the rows test.
use toy_brain.Prelude.{
  ◌≡◌, refl, true, false, Option, none, some, arith, Text, Bool-cases, inl, inr, eq_text,
  eq_text_iff,
}
use toy_brain.Prelude.Outcome.{ok}
use toy_brain.Prelude.FrozenSet.{contains}
use toy_brain.Prelude.Dict.{get, item, All-get, item-ok, is_some-witness}
use toy_brain.Fraction.{Fraction, whole, leq, less}
use toy_brain.Fraction.Order.{eq_fraction-eq-leq, leq_trans, less-of_leq}
use toy_brain.Tlica.Profile
use toy_brain.Tlica.Profile.{ScalarProfile, cogito_id, InUnit, ValueInUnit, contains-domain}
use toy_brain.Tlica.Msi
use toy_brain.Tlica.Msi.{Msi, is_one, is_dense, at_least}

-- A content of the domain has a value, which lies in the unit interval.
pub domain_value :
    (p : ScalarProfile) (x : Text)
    → Profile.IsValid p
    → contains x p.domain ≡ true
    → (v : Fraction) × (get x p.values ≡ some v) × (item x p.values ≡ ok v) × InUnit v
domain_value p x h k =
    let (v, e) = is_some-witness (get x p.values) (ground (arith, contains-domain p x h)) in
    (v, e, item-ok x p.values e, All-get ValueInUnit x v p.values h.in_unit e)

at_one :
    (o : Option Fraction)
    → is_one o ≡ true
    → (v : Fraction) × (o ≡ some v) × (leq (whole 1) v ≡ true)
unfolding is_one
at_one none h = ground arith
at_one (some v) h = (v, refl, ground (arith, eq_fraction-eq-leq v (whole 1)))

-- The cogito has a value, and no value in the unit interval is above it.
pub cogito_top :
    (p : ScalarProfile)
    → is_one (get cogito_id p.values) ≡ true
    → (v : Fraction) × (get cogito_id p.values ≡ some v)
      × (item cogito_id p.values ≡ ok v)
      × ((u : Fraction) → InUnit u → leq u v ≡ true)
cogito_top p h =
    let (v, e, one) = at_one (get cogito_id p.values) h in
    (v, e, item-ok cogito_id p.values e, λ u k. leq_trans u (whole 1) v k.1 one)

at_least-witness :
    (t : Fraction) (o : Option Fraction)
    → at_least t o ≡ true
    → (v : Fraction) × (o ≡ some v) × (leq t v ≡ true)
at_least-witness t none h = ground arith
at_least-witness t (some v) h = (v, refl, h)

module _ (m : Msi) (h : Msi.IsValid m) (c : Text) (there : contains c m.contents ≡ true) where
  pub member_in_domain : contains c m.profile.domain ≡ true
  unfolding is_dense
  member_in_domain = ground (arith, h.density c there)

  -- A member other than the cogito meets the threshold.
  pub member_value :
      eq_text c cogito_id ≡ false
      → (v : Fraction) × (item c m.profile.values ≡ ok v) × (leq m.threshold v ≡ true)
  unfolding is_dense
  member_value other =
      let (v, e, meets) =
        at_least-witness m.threshold (get c m.profile.values) (ground (arith, h.density c there)) in
      (v, item-ok c m.profile.values e, meets)

  -- Every member has a positive value.
  pub member_positive :
      (v : Fraction) × (item c m.profile.values ≡ ok v) × (less (whole 0) v ≡ true)
  member_positive = elim (Bool-cases (eq_text c cogito_id)) [
    | inl is_cogito ↦
        let (v, e, one) = at_one (get cogito_id m.profile.values) h.cogito_value in
        (
          v,
          rw ((eq_text_iff c cogito_id).0 is_cogito) (item-ok cogito_id m.profile.values e),
          less-of_leq (whole 0) (whole 1) v (unfold less in refl) one,
        )
    | inr other ↦
        let (v, e, meets) = member_value other in
        (v, e, less-of_leq (whole 0) m.threshold v h.above_zero meets)
  ]
