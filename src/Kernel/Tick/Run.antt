-- ===== src/Kernel/Tick/Run.antt =====
-- A tick on a valid state with one fresh percept: its outcome is decided by the evaluation alone.
use toy_brain.Prelude.{ℕ, ◌≡◌, false, some, [], ◌∷◌}
use toy_brain.Prelude.Outcome.{Error, Result, ok, raise}
use toy_brain.Prelude.FrozenSet.{contains}
use toy_brain.Prelude.Dict.{put}
use toy_brain.Tlica.Profile.{cogito_id}
use toy_brain.Tlica.Profile.{scalar_profile-of_IsValid}
use toy_brain.Tlica.Msi.{candidate}
use toy_brain.Tlica.PtCns.{ConsistencyEval, preserve}
use toy_brain.Tlica.Builders.{make_msi_valid}
use toy_brain.Kernel.Io.{PerceptEvent, IsPercept}
use toy_brain.Kernel.State.{BrainState, summarize_state}
use toy_brain.Kernel.Valid
use toy_brain.Kernel.Exec.{World, record_event, set_tick, with_tick, tick_start}
use toy_brain.Kernel.Tick.{guards, tick_body, tick, eval_events, tick_record}
use toy_brain.Kernel.Tick.Ingest.{
  with_value, add_texts_valid, with_value-IsValid, provisional-IsValid,
}
use toy_brain.Kernel.Tick.Updates.{record_updates_pass, assert_traced_valid}
use toy_brain.Kernel.Tick.Correct.{
  IsAfter, carried, after, after-IsValid, after-IsAfter, next_state-after,
}
use toy_brain.Llm.Env.{Env}
use toy_brain.Llm.Cache.{ClientShape, derive_l2_metadata}
use toy_brain.Llm.Eval.{LlmPtCns, llm_ptcns, llm_eval}

module _ {C : Type 0} (env : Env C) (shape : ClientShape) where
  -- The object that evaluates the percept, and the world in which it does.
  unfoldable pub backed : BrainState → PerceptEvent → LlmPtCns
  unfolding derive_l2_metadata cogito_id
  backed s e = record {
    msi = candidate (with_value s.profile e) s.msi.contents s.msi.threshold;
    texts = put e.content_id e.text s.registry.texts;
    max_attempts = 3;
    cache = (cogito_id, preserve) ∷ [];
    l2_metadata = derive_l2_metadata shape;
  }

  unfoldable pub started : BrainState → PerceptEvent → ℕ → World C → World C
  unfolding record_event set_tick summarize_state
  started s e tick_id w =
      (record_event (tick_start (e ∷ []) (summarize_state s)) (set_tick (some tick_id) w)).1

  abbrev pub asked : BrainState → PerceptEvent → ℕ → World C → Result (ConsistencyEval × LlmPtCns)
  asked s e tick_id w = (llm_eval env (backed s e) e.content_id (started s e tick_id w)).0

  module _ (s : BrainState) (h : Valid.IsValid s) (e : PerceptEvent) (k : IsPercept e)
      (fresh : contains e.content_id s.profile.domain ≡ false) (tick_id : ℕ) (w : World C) where
    -- If the evaluation raises, the tick raises the same.
    pub tick_raises :
        (x : Error)
        → asked s e tick_id w ≡ raise x
        → (tick env shape s (e ∷ []) tick_id w).0 ≡ raise x
    unfolding tick guards with_tick tick_body backed started eval_events llm_ptcns
    tick_raises x r = rw (
      fresh,
      add_texts_valid s h e k fresh,
      scalar_profile-of_IsValid (with_value s.profile e) (with_value-IsValid s h e k fresh),
      make_msi_valid env.parse_fraction (with_value s.profile e) s.msi.contents s.msi.threshold
          (provisional-IsValid s h e k fresh),
      r,
    )

    -- Take a valid state and a percept that its constructor accepts and whose content is not in the
    -- profile, with the semantic cache on or off. If the evaluation of the content returns, so does
    -- the tick, with a valid state that is the old one with the percept, and with the record that
    -- belongs to it.
    pub tick_returns :
        (ev : ConsistencyEval) (p : LlmPtCns)
        → asked s e tick_id w ≡ ok (ev, p)
        → (s' : BrainState) × ((tick env shape s (e ∷ []) tick_id w).0
            ≡ ok (s', tick_record env tick_id s' ((e, ev) ∷ [])))
          × Valid.IsValid s'
          × IsAfter s e ev s'
    unfolding tick guards with_tick tick_body backed started eval_events llm_ptcns
    tick_returns ev p r =
        let (m, c, d, at) = carried s h in
        (
          after s h e k fresh ev m,
          rw (
            fresh,
            add_texts_valid s h e k fresh,
            scalar_profile-of_IsValid (with_value s.profile e) (with_value-IsValid s h e k fresh),
            make_msi_valid env.parse_fraction (with_value s.profile e) s.msi.contents
                s.msi.threshold (provisional-IsValid s h e k fresh),
            r,
            next_state-after s h e k fresh ev m d at env c,
            (record_updates_pass env s (after s h e k fresh ev m) (e ∷ []) h.profile
                (after-IsValid s h e k fresh ev m d at).profile).returns,
            (assert_traced_valid env (after s h e k fresh ev m)
                (after-IsValid s h e k fresh ev m d at)).returns,
          ),
          after-IsValid s h e k fresh ev m d at,
          after-IsAfter s h e k fresh ev m d at,
        )
