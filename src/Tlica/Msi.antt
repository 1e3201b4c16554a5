-- ===== src/Tlica/Msi.antt =====
-- brain/tlica/msi.py: `MSI`, with the checks of its `__post_init__`.
use toy_brain.Prelude.{
  ◌≡◌, refl, ◌↔◌, Bool, true, false, ◌&&◌, ◌||◌, Option, none, some, [], ◌∷◌, arith, Text,
  if◌then◌else◌, all, eq_text,
}
use toy_brain.Prelude.Outcome.{
  Result, ok, raise, ◌>>=◌, ◌>>◌, require, i_msi_01, i_msi_02, i_msi_03, i_msi_04,
  msi_contents_domain,
}
use toy_brain.Prelude.FrozenSet.{FrozenSet, contains, all-contains, all_of}
use toy_brain.Prelude.Dict.{get, item}
use toy_brain.Fraction.{Fraction, whole, leq, less, eq_fraction}
use toy_brain.Fraction.Order.{less-eq-not}
use toy_brain.Tlica.Profile.{ScalarProfile, cogito_id}

pub record Msi : Type 0 where
  pub profile : ScalarProfile
  pub contents : FrozenSet
  pub threshold : Fraction

-- `profile.values.get(COGITO_ID) == Fraction(1)`; `None` is not equal to it
unfoldable pub is_one : Option Fraction → Bool
is_one none = false
is_one (some v) = eq_fraction v (whole 1)

-- the body of `for c in self.contents`
unfoldable pub check_content : ScalarProfile → Fraction → Text → Result (Unit {0})
unfolding contains less item
check_content p threshold c =
    if contains c p.domain
    then (if eq_text c cogito_id
        then ok tt
        else do v ← item c p.values; if less v threshold then raise i_msi_03 else ok tt)
    else raise msi_contents_domain

unfoldable pub check_contents : ScalarProfile → Fraction → FrozenSet → Result (Unit {0})
unfolding check_content
check_contents p threshold [] = ok tt
check_contents p threshold (c ∷ rest) =
    let others = check_contents p threshold rest in check_content p threshold c >> others

unfoldable pub msi : ScalarProfile → FrozenSet → Fraction → Result Msi
unfolding check_contents is_one
msi profile contents threshold = do
  require (less (whole 0) threshold && less threshold (whole 1)) i_msi_04
  require (contains cogito_id contents) i_msi_02
  require (is_one (get cogito_id profile.values)) i_msi_01
  check_contents profile threshold contents
  ok (record { profile = profile; contents = contents; threshold = threshold })

abbrev pub at_least : Fraction → Option Fraction → Bool
at_least t none = false
at_least t (some v) = leq t v

-- What the loop asks of one member.
unfoldable pub is_dense : ScalarProfile → Fraction → Text → Bool
is_dense p t c = contains c p.domain && (eq_text c cogito_id || at_least t (get c p.values))

pub record IsValid (m : Msi) : Type 0 where
  pub above_zero : less (whole 0) m.threshold ≡ true
  pub below_one : less m.threshold (whole 1) ≡ true
  pub cogito_in : contains cogito_id m.contents ≡ true
  pub cogito_value : is_one (get cogito_id m.profile.values) ≡ true
  pub density : (c : Text) → contains c m.contents ≡ true → is_dense m.profile m.threshold c ≡ true

check_content-dense :
    (p : ScalarProfile) (t : Fraction) (c : Text)
    → (check_content p t c ≡ ok tt) ↔ (is_dense p t c ≡ true)
unfolding check_content is_dense
check_content-dense p t c = grind (arith, less-eq-not)

check_contents-dense :
    (p : ScalarProfile) (t : Fraction) (s : FrozenSet)
    → (check_contents p t s ≡ ok tt) ↔ (all (is_dense p t) s ≡ true)
unfolding check_contents
check_contents-dense p t [] = (λ h. refl, λ h. refl)
check_contents-dense p t (c ∷ s) =
    ground (arith, check_content-dense p t c, check_contents-dense p t s)

module _ (p : ScalarProfile) (s : FrozenSet) (t : Fraction) where
  -- What the constructor accepts.
  abbrev pub candidate : Msi
  candidate = record { profile = p; contents = s; threshold = t }

  pub msi-of_IsValid : IsValid candidate → msi p s t ≡ ok candidate
  unfolding msi
  msi-of_IsValid h = ground (
    arith,
    h.above_zero,
    h.below_one,
    h.cogito_in,
    h.cogito_value,
    check_contents-dense p t s,
    all_of (is_dense p t) s h.density,
  )

  msi_tests :
      {m : Msi}
      → msi p s t ≡ ok m
      → (m ≡ candidate)
        × (less (whole 0) t ≡ true)
        × (less t (whole 1) ≡ true)
        × (contains cogito_id s ≡ true)
        × (is_one (get cogito_id p.values) ≡ true)
        × (all (is_dense p t) s ≡ true)
  unfolding msi
  msi_tests e = ground (arith, check_contents-dense p t s)

  -- If the constructor of `MSI` returns, it returns its arguments unchanged, and they satisfy the
  -- rows: the threshold lies strictly between 0 and 1, the cogito is a member with value 1, and
  -- every other member has a value that meets the threshold.
  pub msi-IsValid : {m : Msi} → msi p s t ≡ ok m → (m ≡ candidate) × IsValid m
  msi-IsValid e =
      let (same, above, below, cogito, one, dense) = msi_tests e in
      (
        same,
        rw same (record {
          above_zero = above;
          below_one = below;
          cogito_in = cogito;
          cogito_value = one;
          density = λ c h. all-contains (is_dense p t) c s dense h;
        }),
      )
