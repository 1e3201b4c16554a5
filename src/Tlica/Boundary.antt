-- ===== src/Tlica/Boundary.antt =====
-- brain/tlica/iboundary.py, and `assert_partition` and `profile_equiv` of brain/validation.py.
use mathlib.Core.Path.{subst}
use toy_brain.Prelude.{
  ◌≡◌, refl, Bool, true, false, ◌&&◌, ◌||◌, Option, [], ◌∷◌, arith, Text, if◌then◌else◌,
  eq_text_iff, ℕ, ◌+◌, ap, some, none, ◌↔◌,
}
use toy_brain.Prelude.Outcome.{Result, ok, raise, ◌>>=◌, i_ptc_02, i_ptc_03}
use toy_brain.Prelude.FrozenSet.{
  FrozenSet, contains, union, inter, set_eq, non_empty, contains-union, contains-inter, set_eq_of,
  contains-set_eq, Distinct,
}
use toy_brain.Prelude.Dict.{get, item, keys, contains-keys, Dict, is_some}
use toy_brain.Fraction.{eq_fraction}
use toy_brain.Tlica.Profile.{ScalarProfile, cogito_id}
use toy_brain.Tlica.Msi.{Msi}
use toy_brain.Tlica.PtCns.{
  ConsistencyEval, damage, neutral, preserve, PtCns, IsValid, positive_contents, negative_contents,
  neutral_contents, contents_with, contains-contents_with, holds_eval, ptcns, ptcns-IsValid,
}

-- `del msi`: the boundary depends on the evaluations alone.
unfoldable pub boundary : Msi → PtCns → FrozenSet
unfolding union
boundary m p = union (positive_contents p) (negative_contents p)

unfoldable pub contestable_boundary : Msi → PtCns → FrozenSet
unfolding boundary
contestable_boundary m p = boundary m p

unfoldable pub assert_partition : FrozenSet → FrozenSet → FrozenSet → FrozenSet → Result (Unit {0})
unfolding union inter set_eq
assert_partition pos neg neu domain =
    if non_empty (inter pos neg)
    then raise i_ptc_02
    else if non_empty (inter pos neu)
    then raise i_ptc_02
    else if non_empty (inter neg neu)
    then raise i_ptc_02
    else if set_eq (union (union pos neg) neu) domain
    then ok tt
    else raise i_ptc_03

-- the loop `for k in p.domain`
unfoldable pub same_values : ScalarProfile → ScalarProfile → FrozenSet → Result Bool
unfolding item
same_values p q [] = ok true
same_values p q (k ∷ rest) =
    let others = same_values p q rest in
    do a ← item k p.values; b ← item k q.values; if eq_fraction a b then others else ok false

unfoldable pub profile_equiv : ScalarProfile → ScalarProfile → Result Bool
unfolding same_values set_eq
profile_equiv p q = if set_eq p.domain q.domain then same_values p q p.domain else ok false

-- A set with no member is empty.
pub non_empty_of : (s : FrozenSet) → ((x : Text) → contains x s ≡ false) → non_empty s ≡ false
unfolding contains
non_empty_of [] h = refl
non_empty_of (x ∷ s) h = ground (arith, h x, eq_text_iff x x)

module _ (p : PtCns) (h : IsValid p) where
  -- For a valid `PtCns`, a content is in the boundary exactly when its evaluation is PRESERVE or
  -- DAMAGE, whatever MSI is passed.
  pub contains-boundary :
      (m : Msi) (x : Text)
      → contains x (boundary m p)
        ≡ (holds_eval preserve (get x p.eval_map) || holds_eval damage (get x p.eval_map))
  unfolding boundary
  contains-boundary m x = ground (
    arith,
    contains-union x (positive_contents p) (negative_contents p),
    contains-contents_with preserve x p.eval_map h.distinct,
    contains-contents_with damage x p.eval_map h.distinct,
  )

  disjoint :
      (e f : ConsistencyEval)
      → ((o : Option ConsistencyEval) → (holds_eval e o && holds_eval f o) ≡ false)
      → non_empty (inter (contents_with e p.eval_map) (contents_with f p.eval_map)) ≡ false
  disjoint e f apart =
      non_empty_of (inter (contents_with e p.eval_map) (contents_with f p.eval_map)) (λ x. ground (
        arith,
        apart (get x p.eval_map),
        contains-inter x (contents_with e p.eval_map) (contents_with f p.eval_map),
        contains-contents_with e x p.eval_map h.distinct,
        contains-contents_with f x p.eval_map h.distinct,
      ))

  cover :
      (domain : FrozenSet)
      → set_eq (keys p.eval_map) domain ≡ true
      → set_eq
          (union (union (positive_contents p) (negative_contents p)) (neutral_contents p))
          domain
        ≡ true
  cover domain same =
      set_eq_of (union (union (positive_contents p) (negative_contents p)) (neutral_contents p))
        domain
        (λ x. ground (
          arith,
          contains-union x (union (positive_contents p) (negative_contents p)) (neutral_contents p),
          contains-union x (positive_contents p) (negative_contents p),
          contains-contents_with preserve x p.eval_map h.distinct,
          contains-contents_with damage x p.eval_map h.distinct,
          contains-contents_with neutral x p.eval_map h.distinct,
          contains-keys x p.eval_map,
          contains-set_eq x (keys p.eval_map) domain same,
        ))

  -- The three content sets of a valid `PtCns` are disjoint and cover any domain that has the same
  -- members as its keys, so `assert_partition` returns.
  pub assert_partition_valid :
      (domain : FrozenSet)
      → set_eq (keys p.eval_map) domain ≡ true
      → assert_partition (positive_contents p) (negative_contents p) (neutral_contents p) domain
        ≡ ok tt
  unfolding assert_partition
  assert_partition_valid domain same = ground (
    arith,
    disjoint preserve damage (λ o. ground arith),
    disjoint preserve neutral (λ o. ground arith),
    disjoint damage neutral (λ o. ground arith),
    cover domain same,
  )

-- one if the test holds
abbrev pub count_if : Bool → ℕ
count_if true = 1
count_if false = 0

count_evals :
    (o : Option ConsistencyEval)
    → count_if (holds_eval preserve o)
        + count_if (holds_eval damage o)
        + count_if (holds_eval neutral o)
      ≡ count_if (is_some o)
count_evals none = refl
count_evals (some damage) = refl
count_evals (some neutral) = refl
count_evals (some preserve) = refl

module _ (p : PtCns) (h : IsValid p) where
  count_contents :
      (x : Text)
      → count_if (contains x (positive_contents p))
          + count_if (contains x (negative_contents p))
          + count_if (contains x (neutral_contents p))
        ≡ count_if (contains x p.msi.profile.domain)
  count_contents x =
      rw
        (
          contains-contents_with preserve x p.eval_map h.distinct,
          contains-contents_with damage x p.eval_map h.distinct,
          contains-contents_with neutral x p.eval_map h.distinct,
          ← contains-set_eq x (keys p.eval_map) p.msi.profile.domain h.same_keys,
          contains-keys x p.eval_map,
        )
        (count_evals (get x p.eval_map))

  cogito_positive : contains cogito_id (positive_contents p) ≡ true
  cogito_positive =
      rw (contains-contents_with preserve cogito_id p.eval_map h.distinct, h.cogito_preserve) refl

holds_eval_iff :
    (e : ConsistencyEval) (o : Option ConsistencyEval) → (holds_eval e o ≡ true) ↔ (o ≡ some e)
holds_eval_iff e none = ground arith
holds_eval_iff damage (some f) = ground arith
holds_eval_iff neutral (some f) = ground arith
holds_eval_iff preserve (some f) = ground arith

contents_with_iff :
    (e : ConsistencyEval) (x : Text) (m : Dict ConsistencyEval)
    → Distinct (keys m)
    → (contains x (contents_with e m) ≡ true) ↔ (get x m ≡ some e)
contents_with_iff e x m d = rw (contains-contents_with e x m d) (holds_eval_iff e (get x m))

-- If the constructor of `PtCns` returns on a map with distinct keys, then a content is in the
-- positive, the negative or the neutral set of the result exactly when the map has PRESERVE, DAMAGE
-- or NEUTRAL for it; it is in exactly one of the three if it is in the profile's domain, and in
-- none otherwise; the cogito is positive; and `assert_partition` accepts the three sets with the
-- domain.
pub ptcns_partition :
    (m : Msi) (eval_map : Dict ConsistencyEval) {p : PtCns} (x : Text)
    → Distinct (keys eval_map)
    → ptcns m eval_map ≡ ok p
    → ((contains x (positive_contents p) ≡ true) ↔ (get x eval_map ≡ some preserve))
      × ((contains x (negative_contents p) ≡ true) ↔ (get x eval_map ≡ some damage))
      × ((contains x (neutral_contents p) ≡ true) ↔ (get x eval_map ≡ some neutral))
      × (count_if (contains x (positive_contents p))
            + count_if (contains x (negative_contents p))
            + count_if (contains x (neutral_contents p))
          ≡ count_if (contains x m.profile.domain))
      × (contains cogito_id (positive_contents p) ≡ true)
      × (assert_partition
            (positive_contents p)
            (negative_contents p)
            (neutral_contents p)
            m.profile.domain
          ≡ ok tt)
ptcns_partition m eval_map {p} x d made =
    let (same, v) = ptcns-IsValid m eval_map d made in
    let msi = ap (λ (p : PtCns). p.msi) same in
    let domain = ap (λ (m : Msi). m.profile.domain) msi in
    let evals = ap (λ (p : PtCns). p.eval_map) same in
    let read : (e : ConsistencyEval)
        → (contains x (contents_with e p.eval_map) ≡ true) ↔ (get x eval_map ≡ some e) =
      λ e. rw evals (contents_with_iff e x eval_map d) in
    (
      read preserve,
      read damage,
      read neutral,
      rw (← domain) (count_contents p v x),
      cogito_positive p v,
      assert_partition_valid p v m.profile.domain
          (subst (λ d. set_eq (keys p.eval_map) d ≡ true) domain v.same_keys),
    )
