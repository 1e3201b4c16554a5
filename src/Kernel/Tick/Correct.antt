-- ===== src/Kernel/Tick/Correct.antt =====
-- The state after a tick on a valid state: it exists, it is valid, and it is the old one with the
-- percept.
use toy_brain.Prelude.{
  ◌≡◌, refl, sym, ◌∙◌, true, false, ◌&&◌, ◌||◌, some, [], ◌∷◌, arith, Text, if◌then◌else◌, eq_text,
  eq_text_iff,
}
use mathlib.Core.Path.{subst}
use toy_brain.Prelude.Outcome.{ok}
use toy_brain.Prelude.FrozenSet.{
  Distinct, contains, set_eq, set_eq_of, contains-set_eq, contains-add,
}
use toy_brain.Prelude.Dict.{
  Dict, get, put, keys, is_some, get-put, put-Distinct, contains-keys, contains-keys-put, All-put,
}
use toy_brain.Fraction.{leq}
use toy_brain.Tlica.Profile.{ScalarProfile, cogito_id}
use toy_brain.Tlica.Msi.{candidate}
use toy_brain.Tlica.PtCns
use toy_brain.Tlica.PtCns.{ConsistencyEval, preserve, is_eval, from_eval, PtCns}
use toy_brain.Tlica.Builders.{make_msi_valid, make_ptcns_valid}
use toy_brain.Kernel.Io.{PerceptEvent, IsPercept, IsEntry, ContentRegistry}
use toy_brain.Kernel.State.{BrainState}
use toy_brain.Kernel.Valid
use toy_brain.Kernel.Valid.{ptcns_profile}
use toy_brain.Kernel.Tick.{integrates, integrate, carry_evals, add_evals, next_state}
use toy_brain.Kernel.Tick.Ingest.{
  with_value, joined, with_value-IsValid, contains-with_value, joined-IsValid,
}
use toy_brain.Kernel.Tick.Carry.{carry_evals_lem}
use toy_brain.Llm.Env.{Env}

abbrev pub with_text : ContentRegistry → PerceptEvent → ContentRegistry
with_text r e = record { texts = put e.content_id e.text r.texts }

-- The old state with the percept `e`, evaluated as `ev`.
pub record IsAfter (s : BrainState) (e : PerceptEvent) (ev : ConsistencyEval) (s' : BrainState)
    : Type 0 where
  pub domain :
      (x : Text)
      → contains x s'.profile.domain ≡ (eq_text x e.content_id || contains x s.profile.domain)
  pub values :
      (x : Text)
      → get x s'.profile.values
        ≡ (if eq_text x e.content_id then some e.initial_rho else get x s.profile.values)
  pub members :
      (x : Text)
      → contains x s'.msi.contents ≡ (
          eq_text x e.content_id && (is_eval preserve ev && leq s.msi.threshold e.initial_rho)
          || contains x s.msi.contents)
  pub threshold : s'.msi.threshold ≡ s.msi.threshold
  pub evals :
      (x : Text)
      → get x s'.ptcns.eval_map
        ≡ (if eq_text x e.content_id then some ev else get x s.ptcns.eval_map)
  pub texts :
      (x : Text)
      → get x s'.registry.texts
        ≡ (if eq_text x e.content_id then some e.text else get x s.registry.texts)

module _ (s : BrainState) (h : Valid.IsValid s) where
  pub known : (x : Text) → contains x s.profile.domain ≡ is_some (get x s.ptcns.eval_map)
  known x =
      let same =
        subst (λ (p : ScalarProfile). set_eq (keys s.ptcns.eval_map) p.domain ≡ true)
          (ptcns_profile s h) h.ptcns.same_keys in
      sym (contains-set_eq x (keys s.ptcns.eval_map) s.profile.domain same)
      ∙ contains-keys x s.ptcns.eval_map

  -- The carried map answers as the old evaluations do.
  pub carried :
      (m : Dict ConsistencyEval) × (carry_evals s.ptcns s.profile.domain
          ((cogito_id, preserve) ∷ [])
        ≡ ok m)
      × Distinct (keys m)
      × ((x : Text) → get x m ≡ get x s.ptcns.eval_map)
  unfolding get contains
  carried =
      let (m, e, d, at) =
        carry_evals_lem s.ptcns s.profile.domain ((cogito_id, preserve) ∷ []) (refl, tt)
          (λ x there. ground (arith, known x)) in
      (
        m,
        e,
        d,
        λ x. at x ∙ ground (arith, known x, eq_text_iff x cogito_id, h.ptcns.cogito_preserve),
      )

module _ (s : BrainState) (h : Valid.IsValid s) (e : PerceptEvent) (k : IsPercept e)
    (fresh : contains e.content_id s.profile.domain ≡ false) where
  module _ (ev : ConsistencyEval) (m : Dict ConsistencyEval) where
    new_map : Dict ConsistencyEval
    new_map = put e.content_id ev m

    unfoldable pub after : BrainState
    unfolding new_map
    after =
        let the_msi =
          candidate (with_value s.profile e) (joined s.msi.threshold e ev s.msi.contents)
            s.msi.threshold in
        record {
          profile = with_value s.profile e;
          msi = the_msi;
          ptcns = record { msi = the_msi; eval_map = new_map };
          registry = with_text s.registry e;
        }

    module _ (d : Distinct (keys m)) (at : (x : Text) → get x m ≡ get x s.ptcns.eval_map) where
      new_keys : set_eq (keys new_map) (with_value s.profile e).domain ≡ true
      unfolding new_map
      new_keys = set_eq_of (keys new_map) (with_value s.profile e).domain (λ x. ground (
        arith,
        contains-keys-put e.content_id x ev m,
        contains-with_value s h e k fresh x,
        contains-keys x m,
        at x,
        known s h x,
      ))

      after_ptcns-IsValid : PtCns.IsValid after.ptcns
      unfolding after new_map
      after_ptcns-IsValid = record {
        same_keys = new_keys;
        cogito_preserve = ground (
          arith,
          get-put e.content_id cogito_id ev m,
          at cogito_id,
          eq_text_iff cogito_id e.content_id,
          eq_text_iff e.content_id cogito_id,
          h.ptcns.cogito_preserve,
          k.not_cogito,
        );
        distinct = put-Distinct e.content_id ev m d;
      }

      pub after-IsValid : Valid.IsValid after
      unfolding after
      after-IsValid = record {
        profile = with_value-IsValid s h e k fresh;
        msi_profile = refl;
        msi = joined-IsValid s h e k fresh ev;
        ptcns_msi = refl;
        ptcns = after_ptcns-IsValid;
        registry =
            All-put IsEntry e.content_id e.text s.registry.texts (k.not_cogito, k.text_given)
              h.registry;
      }

      pub after-IsAfter : IsAfter s e ev after
      unfolding after integrates from_eval new_map
      after-IsAfter = record {
        domain = contains-with_value s h e k fresh;
        values = λ x. get-put e.content_id x e.initial_rho s.profile.values;
        members = λ x. ground (arith, contains-add x e.content_id s.msi.contents);
        threshold = refl;
        evals = λ x. ground (arith, get-put e.content_id x ev m, at x);
        texts = λ x. get-put e.content_id x e.text s.registry.texts;
      }

      pub next_state-after :
          {C : Type 0} (env : Env C)
          → carry_evals s.ptcns s.profile.domain ((cogito_id, preserve) ∷ []) ≡ ok m
          → next_state env s
              (with_text s.registry e)
              (with_value s.profile e)
              (candidate (with_value s.profile e) s.msi.contents s.msi.threshold)
              ((e, ev) ∷ [])
            ≡ ok after
      unfolding next_state integrate add_evals after new_map
      next_state-after env c = ground (
        arith,
        make_msi_valid env.parse_fraction (with_value s.profile e)
            (joined s.msi.threshold e ev s.msi.contents) s.msi.threshold
            (joined-IsValid s h e k fresh ev),
        c,
        new_keys,
        make_ptcns_valid after.ptcns after_ptcns-IsValid,
      )
