-- ===== src/Kernel/Invariants.antt =====
-- `assert_state_invariants` of brain/tick.py: the rows that are checked again on the state after a
-- tick, each check with its trace event.
pub mod Rules
pub mod Rows
pub mod Sound
use toy_brain.Prelude.{
  ℕ, ◌≡◌, refl, Bool, true, false, ◌&&◌, ◌||◌, not, Option, none, some, List, [], ◌∷◌, ◌++◌, arith,
  Text, if◌then◌else◌, eq_text,
}
use toy_brain.Prelude.Outcome.{
  Error, Result, ok, raise, i_prof_01, i_prof_02, i_msi_01, i_msi_02, i_msi_03, i_msi_04, i_msi_05,
  i_msi_06, i_ptc_01, i_rt_04, i_ptc_02, i_ptc_03, i_ptc_04, i_ptc_05, i_mod_04, i_ibnd_01,
  i_ibnd_03, i_pres_01, i_pres_02, i_pres_03, i_pres_04,
}
use toy_brain.Prelude.FrozenSet.{FrozenSet, contains, inter, set_eq, non_empty}
use toy_brain.Prelude.Dict.{Dict, get, item, keys}
use toy_brain.Fraction.{Fraction, whole, leq, less, eq_fraction}
use toy_brain.Tlica.Profile.{ScalarProfile, cogito_id}
use toy_brain.Tlica.Msi.{Msi, is_one}
use toy_brain.Tlica.PtCns.{
  ConsistencyEval, damage, neutral, preserve, is_eval, ModeOp, mode_c, mode_a, mode_b, from_eval,
  PtCns, eval, positive_contents, negative_contents, neutral_contents,
}
use toy_brain.Tlica.Boundary.{boundary, assert_partition}
use toy_brain.Tlica.Preservation.{rank}
use toy_brain.Kernel.State.{BrainState}
use toy_brain.Kernel.Exec.{
  Exec, pure, fail, lift, ◌>>=◌, ◌>>◌, record_event, invariant_check, error,
}

abbrev pub is_mode_c : ModeOp → Bool
is_mode_c mode_c = true
is_mode_c _ = false

-- `a == b` on tests
same_test : Bool → Bool → Bool
same_test true b = b
same_test false b = not b

module _ {C : Type 0} where
  -- `_check(row_id, predicate, message)`
  unfoldable pub check : Error → Bool → Exec C (Unit {0})
  unfolding record_event
  check row true = record_event (invariant_check row true)
  check row false = do record_event (invariant_check row false); record_event (error row); fail row

  -- a loop of checks
  unfoldable pub for_each {ℓ} : {A : Type ℓ} → List A → (A → Exec C (Unit {0})) → Exec C (Unit {0})
  for_each [] body = pure tt
  for_each (x ∷ xs) body = do body x; for_each xs body

  check_unit : Fraction → Exec C (Unit {0})
  unfolding check leq
  check_unit v = do check i_prof_01 (leq (whole 0) v); check i_prof_02 (leq v (whole 1))

  check_values : Dict Fraction → Exec C (Unit {0})
  unfolding check_unit for_each
  check_values values = for_each values (λ kv. check_unit kv.1)

  check_density : ScalarProfile → Msi → Text → Exec C (Unit {0})
  unfolding check item leq
  check_density p m c =
      if eq_text c cogito_id
      then pure tt
      else do v ← lift (item c p.values); check i_msi_03 (leq m.threshold v)

  check_below : ScalarProfile → Fraction → Text → Exec C (Unit {0})
  unfolding check item leq
  check_below p cogito_val x = do v ← lift (item x p.values); check i_msi_05 (leq v cogito_val)

  check_positive : ScalarProfile → Text → Exec C (Unit {0})
  unfolding check item less
  check_positive p c = do v ← lift (item c p.values); check i_msi_06 (less (whole 0) v)

  check_supremum : ScalarProfile → Msi → Fraction → Exec C (Unit {0})
  unfolding for_each check_below check_positive
  check_supremum p m cogito_val = do
    for_each p.domain (check_below p cogito_val)
    for_each m.contents (check_positive p)

  check_msi : ScalarProfile → Msi → Exec C (Unit {0})
  unfolding check for_each check_density check_supremum less item is_one contains get
  check_msi p m = do
    check i_msi_01 (is_one (get cogito_id p.values))
    check i_msi_02 (contains cogito_id m.contents)
    for_each m.contents (check_density p m)
    check i_msi_04 (less (whole 0) m.threshold && less m.threshold (whole 1))
    cogito_val ← lift (item cogito_id p.values)
    check_supremum p m cogito_val

  -- The failure of the partition is reported under the first of its two rows.
  report_partition : Result (Unit {0}) → Exec C (Unit {0})
  unfolding record_event
  report_partition (ok u) = do
    record_event (invariant_check i_ptc_02 true)
    record_event (invariant_check i_ptc_03 true)
  report_partition (raise e) = do
    record_event (invariant_check i_ptc_02 false)
    record_event (error i_ptc_02)
    fail e

  -- the rows on the evaluations, at the cogito's own
  check_evals : ScalarProfile → PtCns → ConsistencyEval → Exec C (Unit {0})
  unfolding check report_partition assert_partition set_eq contains
  check_evals p c e = do
    check i_ptc_01 (is_eval preserve e)
    check i_rt_04 (set_eq (keys c.eval_map) p.domain)
    report_partition
        (assert_partition (positive_contents c) (negative_contents c) (neutral_contents c) p.domain)
    check i_ptc_04 (contains cogito_id (positive_contents c))
    check i_ptc_05 (
        not (contains cogito_id (negative_contents c))
        && not (contains cogito_id (neutral_contents c)))
    check i_mod_04 (is_mode_c (from_eval e))

  check_ptcns : ScalarProfile → PtCns → Exec C (Unit {0})
  unfolding check_evals eval
  check_ptcns p c = do e ← lift (eval c cogito_id); check_evals p c e

  check_membership : Msi → PtCns → Text → Exec C (Unit {0})
  unfolding check boundary eval contains same_test
  check_membership m c x = do
    e ← lift (eval c x)
    check i_ibnd_03 (same_test (contains x (boundary m c)) (is_eval preserve e || is_eval damage e))

  check_boundary : ScalarProfile → Msi → PtCns → Exec C (Unit {0})
  unfolding check for_each boundary inter check_membership
  check_boundary p m c = do
    check i_ibnd_01 (not (non_empty (inter (boundary m c) (neutral_contents c))))
    for_each p.domain (check_membership m c)

  -- one round of the loop over `sample_sets`; a check under an `if` is made when its test holds
  check_rank : Msi → FrozenSet → Exec C (Unit {0})
  unfolding check rank leq less eq_fraction contains
  check_rank m s = do
    check i_pres_01 (leq (whole 0) (rank m s))
    if less (whole 0) (rank m s) then check i_pres_02 (contains cogito_id s) else pure tt
    check i_pres_03 (leq (rank m s) (rank m m.contents))
    if contains cogito_id s then pure tt else check i_pres_04 (eq_fraction (rank m s) (whole 0))

  unfoldable pub assert_state_invariants : BrainState → Exec C (Unit {0})
  unfolding check_values check_msi check_ptcns check_boundary check_rank for_each
  assert_state_invariants s = do
    check_values s.profile.values
    check_msi s.profile s.msi
    check_ptcns s.profile s.ptcns
    check_boundary s.profile s.msi s.ptcns
    for_each ([] ∷ (cogito_id ∷ []) ∷ s.msi.contents ∷ []) (check_rank s.msi)
