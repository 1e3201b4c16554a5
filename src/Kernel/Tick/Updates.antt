-- ===== src/Kernel/Tick/Updates.antt =====
-- Steps 7b and 8 of a tick: between valid profiles the delta is computed, so the events of a tick
-- are recorded and the assertion passes.
use toy_brain.Prelude.{
  ◌≡◌, refl, true, List, [], ◌∷◌, arith, Text, if◌then◌else◌, eq_text_iff, Bool-cases, inl, inr,
}
use toy_brain.Prelude.Outcome.{ok}
use toy_brain.Prelude.FrozenSet.{FrozenSet, contains, diff}
use toy_brain.Prelude.Dict.{Dict}
use toy_brain.Fraction.{Fraction, eq_fraction}
use toy_brain.Tlica.Profile
use toy_brain.Tlica.Profile.{ScalarProfile}
use toy_brain.Kernel.Io.{PerceptEvent}
use toy_brain.Kernel.State.{BrainState, ProfileDelta, changed_values, profile_delta}
use toy_brain.Kernel.Valid
use toy_brain.Kernel.Invariants.Rules.{
  Passes, Passes-pure, Passes-record_event, Passes-then, Passes-lift,
}
use toy_brain.Kernel.Invariants.Rows.{domain_value}
use toy_brain.Kernel.Invariants.Sound.{assert_state_invariants_valid}
use toy_brain.Kernel.Tick.{Evals, record_modes, record_updates, assert_traced}
use toy_brain.Llm.Env.{Env}

module _ (old new : ScalarProfile) (ho : Profile.IsValid old) (hn : Profile.IsValid new) where
  changed_values_total :
      (ks : FrozenSet)
      → ((x : Text) → contains x ks ≡ true → contains x new.domain ≡ true)
      → (d : Dict Fraction × Dict Fraction) × (changed_values old new ks ≡ ok d)
  unfolding changed_values contains
  changed_values_total [] sub = (([], []), refl)
  changed_values_total (k ∷ ks) sub =
      let (d, rest) = changed_values_total ks (λ x there. sub x (ground arith)) in
      let (v, _, e, _) = domain_value new k hn (sub k (ground (arith, eq_text_iff k k))) in
      elim (Bool-cases (contains k old.domain)) [
        | inr out ↦ (((k, v) ∷ d.0, d.1), ground arith)
        | inl there ↦
            let (u, _, f, _) = domain_value old k ho there in
            (if eq_fraction u v then d else (d.0, (k, v) ∷ d.1), ground arith)
      ]

  profile_delta_total : (d : ProfileDelta) × (profile_delta old new ≡ ok d)
  unfolding profile_delta
  profile_delta_total =
      let (d, e) = changed_values_total new.domain (λ x there. there) in
      (
        record { added = d.0; modified = d.1; removed = diff old.domain new.domain },
        rw (e, profile_delta),
      )

module _ {C : Type 0} (env : Env C) where
  pub record_modes_pass : (evals : Evals) → Passes (record_modes env evals)
  unfolding record_modes
  record_modes_pass [] = Passes-pure
  record_modes_pass ((e, ev) ∷ rest) =
      Passes-then _ _ (Passes-record_event _) (record_modes_pass rest)

  pub record_updates_pass :
      (old new : BrainState) (events : List PerceptEvent)
      → Profile.IsValid old.profile
      → Profile.IsValid new.profile
      → Passes (record_updates env old new events)
  unfolding record_updates
  record_updates_pass old new [] ho hn = Passes-pure
  record_updates_pass old new (e ∷ events) ho hn =
      let (d, total) = profile_delta_total old.profile new.profile ho hn in
      Passes-lift (profile_delta old.profile new.profile) _ d total
        (Passes-then _ _ (Passes-record_event _) (record_updates_pass old new events ho hn))

  pub assert_traced_valid : (s : BrainState) → Valid.IsValid s → Passes (assert_traced env s)
  unfolding assert_traced
  assert_traced_valid s h =
      let p = assert_state_invariants_valid {C = C} s h in
      record {
        returns = λ w. rw (p.returns w, assert_traced);
        client = λ w. rw (p.returns w, assert_traced) (p.client w);
        cache = λ w. rw (p.returns w, assert_traced) (p.cache w);
      }
