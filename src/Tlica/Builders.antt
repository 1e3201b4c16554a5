-- ===== src/Tlica/Builders.antt =====
-- brain/tlica/builders.py. Numbers that are not fractions enter as `Value`: a float by its `str`,
-- which is what the source parses; the parser of `Fraction(str)` is a parameter.
use toy_brain.Prelude.{ℕ, ◌≡◌, Bool, ◌&&◌, ◌||◌, [], ◌∷◌, arith, Text, if◌then◌else◌}
use toy_brain.Prelude.Outcome.{
  Result, ok, raise, ◌>>=◌, ◌>>◌, require, rho_range, rho_type, cogito_missing, i_msi_01, i_msi_02,
  i_msi_04, ptcns_keys, i_ptc_01,
}
use toy_brain.Prelude.FrozenSet.{FrozenSet, contains, set_eq}
use toy_brain.Prelude.Dict.{Dict, get, put, keys}
use toy_brain.Fraction.{Fraction, whole, less}
use toy_brain.Tlica.Profile.{ScalarProfile, cogito_id, scalar_profile}
use toy_brain.Tlica.Msi
use toy_brain.Tlica.Msi.{Msi, is_one, msi, candidate, msi-of_IsValid}
use toy_brain.Tlica.PtCns
use toy_brain.Tlica.PtCns.{ConsistencyEval, preserve, PtCns, ptcns, holds_eval, ptcns-of_IsValid}

pub data Value : Type 0 where
  fraction : Fraction → Value
  boolean : Bool → Value
  -- an integer, as a difference
  integer : ℕ → ℕ → Value
  float : Text → Value
  string : Text → Value

module _ (parse_fraction : Text → Result Fraction) where
  normalize : Value → Result Fraction
  normalize (fraction v) = ok v
  normalize (boolean b) = raise rho_type
  normalize (integer n m) = ok (record { plus = n; minus = m; den_pred = 0 })
  normalize (float s) = parse_fraction s
  normalize (string s) = parse_fraction s

  -- It never clamps: what lies outside [0, 1] is refused.
  unfoldable pub rho : Value → Result Fraction
  unfolding normalize less
  rho value = do
    v ← normalize value
    if less v (whole 0) || less (whole 1) v then raise rho_range else ok v

  -- the loop over `values.items()`
  unfoldable pub normalize_values : Dict Value → Dict Fraction → Result (Dict Fraction)
  unfolding rho put
  normalize_values [] normalized = ok normalized
  normalize_values ((k, v) ∷ rest) normalized = do
    q ← rho v
    normalize_values rest (put k q normalized)

  unfoldable pub make_profile_with_cogito : Dict Value → Result ScalarProfile
  unfolding normalize_values scalar_profile contains
  make_profile_with_cogito values = do
    require (contains cogito_id (keys values)) cogito_missing
    normalized ← normalize_values values []
    require (is_one (get cogito_id normalized)) i_msi_01
    scalar_profile (keys normalized) normalized

  threshold_of : Value → Result Fraction
  threshold_of (fraction q) = ok q
  threshold_of other = rho other

  unfoldable pub make_msi : ScalarProfile → FrozenSet → Value → Result Msi
  unfolding threshold_of rho msi
  make_msi profile contents threshold = do
    t ← threshold_of threshold
    require (less (whole 0) t && less t (whole 1)) i_msi_04
    require (contains cogito_id contents) i_msi_02
    msi profile contents t

-- `normalized` is a copy of the argument.
unfoldable pub make_ptcns : Msi → Dict ConsistencyEval → Result PtCns
unfolding ptcns
make_ptcns m eval_map = do
  require (set_eq (keys eval_map) m.profile.domain) ptcns_keys
  require (holds_eval preserve (get cogito_id eval_map)) i_ptc_01
  ptcns m eval_map

-- A valid MSI passes the builder's own tests and the constructor's.
pub make_msi_valid :
    (parse_fraction : Text → Result Fraction) (p : ScalarProfile) (s : FrozenSet) (t : Fraction)
    → Msi.IsValid (candidate p s t)
    → make_msi parse_fraction p s (fraction t) ≡ ok (candidate p s t)
unfolding make_msi
make_msi_valid parse_fraction p s t h =
    ground (arith, h.above_zero, h.below_one, h.cogito_in, msi-of_IsValid p s t h)

pub make_ptcns_valid : (p : PtCns) → PtCns.IsValid p → make_ptcns p.msi p.eval_map ≡ ok p
unfolding make_ptcns
make_ptcns_valid p h = ground (arith, h.same_keys, h.cogito_preserve, ptcns-of_IsValid p h)
