-- ===== src/Kernel/Tick/Quiet.antt =====
-- The first state, and a tick with no percept.
use mathlib.Core.Path.{subst}
use toy_brain.Prelude.{ℕ, ◌≡◌, refl, sym, ◌∙◌, true, [], ◌∷◌, arith, Text, eq_text, eq_text_iff}
use toy_brain.Prelude.Outcome.{ok}
use toy_brain.Prelude.FrozenSet.{Distinct, contains, set_eq, set_eq_of}
use toy_brain.Prelude.Dict.{Dict, get, keys, contains-keys}
use toy_brain.Fraction.{Fraction, whole, less, leq, eq_fraction}
use toy_brain.Tlica.Profile
use toy_brain.Tlica.Profile.{
  ScalarProfile, cogito_id, scalar_profile, contains-domain, scalar_profile-of_IsValid,
}
use toy_brain.Tlica.Msi
use toy_brain.Tlica.Msi.{candidate, is_dense}
use toy_brain.Tlica.PtCns.{ConsistencyEval, preserve}
use toy_brain.Tlica.Builders.{make_msi_valid, make_ptcns_valid}
use toy_brain.Kernel.State.{BrainState}
use toy_brain.Kernel.Valid
use toy_brain.Kernel.Valid.{ptcns_profile}
use toy_brain.Kernel.Exec.{World}
use toy_brain.Kernel.Tick.{
  tick, tick_body, guards, tick_record, next_state, eval_events, initial_state, integrate,
  add_evals, carry_evals,
}
use toy_brain.Kernel.Tick.Correct.{known, carried}
use toy_brain.Kernel.Tick.Updates.{assert_traced_valid}
use toy_brain.Llm.Env.{Env}
use toy_brain.Llm.Cache.{ClientShape}

-- The state of which the cogito is the only content.
abbrev pub first_state : Fraction → BrainState
first_state t =
    let p : ScalarProfile = record {
      domain = cogito_id ∷ [];
      values = (cogito_id, whole 1) ∷ [];
    } in
    let m = candidate p (cogito_id ∷ []) t in
    record {
      profile = p;
      msi = m;
      ptcns = record { msi = m; eval_map = (cogito_id, preserve) ∷ [] };
      registry = record { texts = [] };
    }

pub first_state-IsValid :
    (t : Fraction)
    → less (whole 0) t ≡ true
    → less t (whole 1) ≡ true
    → Valid.IsValid (first_state t)
unfolding cogito_id set_eq get contains Msi.is_one is_dense eq_text eq_fraction leq
first_state-IsValid t above below = record {
  profile = record { same_keys = refl; in_unit = ((refl, refl), tt) };
  msi_profile = refl;
  msi = record {
    above_zero = above;
    below_one = below;
    cogito_in = refl;
    cogito_value = refl;
    density = λ c there. ground (arith, eq_text_iff c cogito_id, eq_text_iff cogito_id cogito_id);
  };
  ptcns_msi = refl;
  ptcns = record { same_keys = refl; cogito_preserve = refl; distinct = (refl, tt) };
  registry = tt;
}

module _ {C : Type 0} (env : Env C) where
  -- For a threshold strictly between 0 and 1, `initial_state` returns the state of which the
  -- cogito, with value 1 and evaluation PRESERVE, is the only content.
  pub initial_state_valid :
      (t : Fraction)
      → less (whole 0) t ≡ true
      → less t (whole 1) ≡ true
      → initial_state env t ≡ ok (first_state t)
  unfolding initial_state cogito_id set_eq get contains Msi.is_one eq_text eq_fraction leq less
  initial_state_valid t above below =
      let h = first_state-IsValid t above below in
      rw (make_msi_valid env.parse_fraction (first_state t).profile (cogito_id ∷ []) t h.msi)

-- What a client can read of two states is the same.
pub record IsSame (s s' : BrainState) : Type 0 where
  pub domain : (x : Text) → contains x s'.profile.domain ≡ contains x s.profile.domain
  pub values : (x : Text) → get x s'.profile.values ≡ get x s.profile.values
  pub members : (x : Text) → contains x s'.msi.contents ≡ contains x s.msi.contents
  pub threshold : s'.msi.threshold ≡ s.msi.threshold
  pub evals : (x : Text) → get x s'.ptcns.eval_map ≡ get x s.ptcns.eval_map
  pub registry : s'.registry ≡ s.registry

module _ (s : BrainState) (h : Valid.IsValid s) where
  abbrev rebuilt : ScalarProfile
  rebuilt = record { domain = keys s.profile.values; values = s.profile.values }

  rebuilt-IsValid : Profile.IsValid rebuilt
  rebuilt-IsValid = record {
    same_keys = set_eq_of (keys s.profile.values) (keys s.profile.values) (λ x. refl);
    in_unit = h.profile.in_unit;
  }

  contains-rebuilt : (x : Text) → contains x rebuilt.domain ≡ contains x s.profile.domain
  contains-rebuilt x =
      contains-keys x s.profile.values ∙ sym (contains-domain s.profile x h.profile)

  abbrev quiet : Dict ConsistencyEval → BrainState
  quiet m =
      let the_msi = candidate rebuilt s.msi.contents s.msi.threshold in
      record {
        profile = rebuilt;
        msi = the_msi;
        ptcns = record { msi = the_msi; eval_map = m };
        registry = s.registry;
      }

  rebuilt_msi-IsValid : Msi.IsValid (candidate rebuilt s.msi.contents s.msi.threshold)
  unfolding is_dense
  rebuilt_msi-IsValid =
      let old =
        subst (λ p. Msi.IsValid (candidate p s.msi.contents s.msi.threshold)) h.msi_profile h.msi in
      record {
        above_zero = old.above_zero;
        below_one = old.below_one;
        cogito_in = old.cogito_in;
        cogito_value = old.cogito_value;
        density = λ c there. ground (arith, old.density c there, contains-rebuilt c);
      }

  module _ (m : Dict ConsistencyEval) (d : Distinct (keys m))
      (at : (x : Text) → get x m ≡ get x s.ptcns.eval_map) where
    quiet-IsValid : Valid.IsValid (quiet m)
    quiet-IsValid = record {
      profile = rebuilt-IsValid;
      msi_profile = refl;
      msi = rebuilt_msi-IsValid;
      ptcns_msi = refl;
      ptcns = record {
        same_keys =
            set_eq_of (keys m) rebuilt.domain
              (λ x. ground (arith, contains-keys x m, at x, known s h x, contains-rebuilt x));
        cogito_preserve = at cogito_id ∙ h.ptcns.cogito_preserve;
        distinct = d;
      };
      registry = h.registry;
    }

    next_state-quiet :
        {C : Type 0} (env : Env C)
        → carry_evals s.ptcns s.profile.domain ((cogito_id, preserve) ∷ []) ≡ ok m
        → next_state env s s.registry rebuilt (candidate rebuilt s.msi.contents s.msi.threshold) []
          ≡ ok (quiet m)
    unfolding next_state integrate add_evals
    next_state-quiet env c = ground (
      arith,
      make_msi_valid env.parse_fraction rebuilt s.msi.contents s.msi.threshold rebuilt_msi-IsValid,
      c,
      quiet-IsValid.ptcns.same_keys,
      make_ptcns_valid (quiet m).ptcns quiet-IsValid.ptcns,
    )

  module _ {C : Type 0} (env : Env C) (shape : ClientShape) (tick_id : ℕ) (w : World C) where
    -- On a valid state a tick with no percept always returns, with the record that belongs to the
    -- new state. The new state is valid, and its profile, MSI, threshold, evaluations and registry
    -- answer every query as the old ones do.
    pub tick_quiet :
        (s' : BrainState) × ((tick env shape s [] tick_id w).0
          ≡ ok (s', tick_record env tick_id s' []))
        × Valid.IsValid s'
        × IsSame s s'
    unfolding tick guards tick_body eval_events
    tick_quiet =
        let (m, c, d, at) = carried s h in
        let valid = quiet-IsValid m d at in
        (
          quiet m,
          rw (
            scalar_profile-of_IsValid rebuilt rebuilt-IsValid,
            make_msi_valid env.parse_fraction rebuilt s.msi.contents s.msi.threshold
                rebuilt_msi-IsValid,
            next_state-quiet m d at env c,
            (assert_traced_valid env (quiet m) valid).returns,
          ),
          valid,
          record {
            domain = contains-rebuilt;
            values = λ x. refl;
            members = λ x. refl;
            threshold = refl;
            evals = at;
            registry = refl;
          },
        )
