-- ===== src/Kernel/Invariants/Sound.antt =====
-- On a valid state every row of `assert_state_invariants` holds.
use toy_brain.Prelude.{
  ◌≡◌, refl, sym, true, false, ◌||◌, [], ◌∷◌, arith, Text, All, inl, inr, eq_text, ap, ◌∙◌,
  Bool-cases,
}
use mathlib.Core.Bool.{false≢true}
use mathlib.Core.Path.{subst}
use toy_brain.Prelude.Outcome.{Result, ok, i_msi_03, i_msi_05, i_msi_06, i_ibnd_03}
use toy_brain.Prelude.FrozenSet.{FrozenSet, contains, inter, non_empty, contains-inter}
use toy_brain.Prelude.Dict.{Dict, get, item, keys, is_some, item-ok, is_some-witness, contains-keys}
use toy_brain.Prelude.FrozenSet.{contains-set_eq}
use toy_brain.Fraction.{Fraction, whole, leq, less, eq_fraction}
use toy_brain.Tlica.Profile
use toy_brain.Tlica.Profile.{ScalarProfile, cogito_id, InUnit, ValueInUnit}
use toy_brain.Tlica.Msi
use toy_brain.Tlica.Msi.{Msi}
use toy_brain.Tlica.PtCns
use toy_brain.Tlica.PtCns.{
  ConsistencyEval, damage, neutral, preserve, is_eval, holds_eval, from_eval, PtCns, eval,
  positive_contents, negative_contents, neutral_contents, contents_with, contains-contents_with,
}
use toy_brain.Tlica.Boundary.{boundary, contains-boundary, assert_partition_valid, non_empty_of}
use toy_brain.Tlica.Preservation.{rank, rank_nonneg, rank_gated, rank-le-contents}
use toy_brain.Kernel.State.{BrainState}
use toy_brain.Kernel.Valid
use toy_brain.Kernel.Valid.{ptcns_profile}
use toy_brain.Kernel.Invariants.{
  for_each, check_unit, check_values, check_density, check_positive, check_below, check_supremum,
  check_msi, report_partition, check_evals, check_ptcns, same_test, check_membership,
  check_boundary, check_rank, assert_state_invariants,
}
use toy_brain.Kernel.Invariants.Rules.{
  Passes, Passes-pure, Passes-record_event, Passes-check, Passes-then, Passes-lift, Passes-lookup,
  Passes-if, Passes-members,
}
use toy_brain.Kernel.Invariants.Rows.{domain_value, cogito_top, member_value, member_positive}

cogito_in :
    (c : PtCns) (h : PtCns.IsValid c) (e : ConsistencyEval)
    → contains cogito_id (contents_with e c.eval_map) ≡ is_eval e preserve
cogito_in c h e =
    ground (arith, contains-contents_with e cogito_id c.eval_map h.distinct, h.cogito_preserve)

module _ (m : Msi) (s : FrozenSet) where
  unranked : contains cogito_id s ≡ false → eq_fraction (rank m s) (whole 0) ≡ true
  unfolding eq_fraction
  unranked out = rw (rank_gated m s out)

  ranked : less (whole 0) (rank m s) ≡ true → contains cogito_id s ≡ true
  unfolding less
  ranked pos = elim (Bool-cases (contains cogito_id s)) [
    | inl there ↦ there
    | inr out ↦ absurd (false≢true (ap (less (whole 0)) (sym (rank_gated m s out)) ∙ pos))
  ]

module _ {C : Type 0} where
  one_value-Passes : (v : Fraction) → InUnit v → Passes {C = C} (check_unit v)
  unfolding check_unit
  one_value-Passes v h = Passes-then _ _ (Passes-check _ _ h.0) (Passes-check _ _ h.1)

  values_pass :
      (values : Dict Fraction) → All ValueInUnit values → Passes {C = C} (check_values values)
  unfolding check_values for_each
  values_pass [] h = Passes-pure
  values_pass ((k, v) ∷ rest) h =
      Passes-then (check_unit v) (check_values rest) (one_value-Passes v h.0) (values_pass rest h.1)

  module _ (m : Msi) (h : Msi.IsValid m) where
    density-Passes :
        (c : Text) → contains c m.contents ≡ true → Passes {C = C} (check_density m.profile m c)
    unfolding check_density
    density-Passes c there =
        Passes-if (eq_text c cogito_id) _ _ (λ _. Passes-pure)
          λ other.
            let (v, e, meets) = member_value m h c there other in
            Passes-lookup (item c m.profile.values) i_msi_03 (leq m.threshold) v e meets

    positive-Passes :
        (c : Text) → contains c m.contents ≡ true → Passes {C = C} (check_positive m.profile c)
    unfolding check_positive
    positive-Passes c there =
        let (v, e, positive) = member_positive m h c there in
        Passes-lookup (item c m.profile.values) i_msi_06 (less (whole 0)) v e positive

    below-Passes :
        (top : Fraction) (x : Text)
        → ((u : Fraction) → InUnit u → leq u top ≡ true)
        → Profile.IsValid m.profile
        → contains x m.profile.domain ≡ true
        → Passes {C = C} (check_below m.profile top x)
    unfolding check_below
    below-Passes top x above hp there =
        let (u, _, e, unit) = domain_value m.profile x hp there in
        Passes-lookup (item x m.profile.values) i_msi_05 (λ v. leq v top) u e (above u unit)

    supremum-Passes :
        (top : Fraction)
        → ((u : Fraction) → InUnit u → leq u top ≡ true)
        → Profile.IsValid m.profile
        → Passes {C = C} (check_supremum m.profile m top)
    unfolding check_supremum
    supremum-Passes top above hp =
        Passes-then _ _
          (Passes-members m.profile.domain (check_below m.profile top)
            (λ x there. below-Passes top x above hp there))
          (Passes-members m.contents (check_positive m.profile) positive-Passes)

    msi-Passes : Profile.IsValid m.profile → Passes {C = C} (check_msi m.profile m)
    unfolding check_msi
    msi-Passes hp =
        let (v, _, e, top) = cogito_top m.profile h.cogito_value in
        Passes-then _ _ (Passes-check _ _ h.cogito_value) (
          Passes-then _ _ (Passes-check _ _ h.cogito_in) (
            Passes-then _ _ (Passes-members m.contents (check_density m.profile m) density-Passes) (
              Passes-then _ _ (Passes-check _ _ (ground (arith, h.above_zero, h.below_one))) (
                Passes-lift (item cogito_id m.profile.values) (check_supremum m.profile m) v e
                  (supremum-Passes v top hp)))))

  report-Passes : (r : Result (Unit {0})) → r ≡ ok tt → Passes {C = C} (report_partition r)
  unfolding report_partition
  report-Passes r e = rw e (Passes-then _ _ (Passes-record_event _) (Passes-record_event _))

  module _ (c : PtCns) (h : PtCns.IsValid c) where
    evals_pass : Passes {C = C} (check_evals c.msi.profile c preserve)
    unfolding check_evals from_eval
    evals_pass = Passes-then _ _ (Passes-check _ _ refl) (
        Passes-then _ _ (Passes-check _ _ h.same_keys) (
          Passes-then _ _
            (report-Passes _ (assert_partition_valid c h c.msi.profile.domain h.same_keys))
            (Passes-then _ _ (Passes-check _ _ (cogito_in c h preserve)) (
              Passes-then _ _
                (Passes-check _ _ (ground (arith, cogito_in c h damage, cogito_in c h neutral)))
                (Passes-check _ _ refl)))))

    ptcns-Passes : Passes {C = C} (check_ptcns c.msi.profile c)
    unfolding check_ptcns eval
    ptcns-Passes =
        Passes-lift (item cogito_id c.eval_map) (check_evals c.msi.profile c) preserve
          (item-ok cogito_id c.eval_map h.cogito_preserve) evals_pass

    membership-Passes :
        (m : Msi) (x : Text)
        → contains x c.msi.profile.domain ≡ true
        → Passes {C = C} (check_membership m c x)
    unfolding check_membership eval same_test
    membership-Passes m x there =
        let known : is_some (get x c.eval_map) ≡ true = ground (
          arith,
          contains-keys x c.eval_map,
          contains-set_eq x (keys c.eval_map) c.msi.profile.domain h.same_keys,
        ) in
        let (e, found) = is_some-witness (get x c.eval_map) known in
        Passes-lookup (item x c.eval_map) i_ibnd_03
          (λ e. same_test (contains x (boundary m c)) (is_eval preserve e || is_eval damage e)) e
          (item-ok x c.eval_map found) (ground (arith, contains-boundary c h m x))

    boundary-Passes : (m : Msi) → Passes {C = C} (check_boundary c.msi.profile m c)
    unfolding check_boundary
    boundary-Passes m =
        Passes-then _ _ (Passes-check _ _ (ground (arith, apart)))
          (Passes-members c.msi.profile.domain (check_membership m c) (membership-Passes m))
      where
        apart : non_empty (inter (boundary m c) (neutral_contents c)) ≡ false
        apart = non_empty_of (inter (boundary m c) (neutral_contents c)) (λ x. ground (
          arith,
          contains-inter x (boundary m c) (neutral_contents c),
          contains-boundary c h m x,
          contains-contents_with neutral x c.eval_map h.distinct,
        ))

  rank-Passes :
      (m : Msi) (s : FrozenSet)
      → contains cogito_id m.contents ≡ true
      → Passes {C = C} (check_rank m s)
  unfolding check_rank
  rank-Passes m s h = Passes-then _ _ (Passes-check _ _ (rank_nonneg m s)) (
      Passes-then _ _
        (Passes-if _ _ _ (λ pos. Passes-check _ _ (ranked m s pos)) (λ _. Passes-pure))
        (Passes-then _ _ (Passes-check _ _ (rank-le-contents m s h))
          (Passes-if _ _ _ (λ _. Passes-pure) (λ out. Passes-check _ _ (unranked m s out)))))

  module _ (s : BrainState) (h : Valid.IsValid s) where
    state_msi-Passes : Passes {C = C} (check_msi s.profile s.msi)
    state_msi-Passes =
        subst (λ p. Passes {C = C} (check_msi p s.msi)) h.msi_profile
          (msi-Passes s.msi h.msi (subst Profile.IsValid (sym h.msi_profile) h.profile))

    state_ptcns-Passes : Passes {C = C} (check_ptcns s.profile s.ptcns)
    state_ptcns-Passes =
        subst (λ p. Passes {C = C} (check_ptcns p s.ptcns)) (ptcns_profile s h)
          (ptcns-Passes s.ptcns h.ptcns)

    state_boundary-Passes : Passes {C = C} (check_boundary s.profile s.msi s.ptcns)
    state_boundary-Passes =
        subst (λ p. Passes {C = C} (check_boundary p s.msi s.ptcns)) (ptcns_profile s h)
          (boundary-Passes s.ptcns h.ptcns s.msi)

    -- On a valid state `assert_state_invariants` returns, whatever the world: each of its checks
    -- passes. It leaves the client and the semantic cache alone.
    pub assert_state_invariants_valid : Passes {C = C} (assert_state_invariants s)
    unfolding assert_state_invariants for_each
    assert_state_invariants_valid =
        Passes-then _ _ (values_pass s.profile.values h.profile.in_unit) (
          Passes-then _ _ state_msi-Passes (
            Passes-then _ _ state_ptcns-Passes (
              Passes-then _ _ state_boundary-Passes (
                Passes-then _ _ (rank-Passes s.msi [] h.msi.cogito_in) (
                  Passes-then _ _ (rank-Passes s.msi (cogito_id ∷ []) h.msi.cogito_in) (
                    Passes-then _ _ (rank-Passes s.msi s.msi.contents h.msi.cogito_in)
                      Passes-pure))))))
