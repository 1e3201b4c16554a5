-- ===== src/Kernel/Tick.antt =====
-- `tick` and `initial_state` of brain/tick.py, and the loop of brain/scenario.py. A tick is built
-- from its numbered steps; the loops over the events, of which there is at most one, are recursions.
pub mod Ingest
pub mod Carry
pub mod Updates
pub mod Correct
pub mod Run
pub mod Quiet
pub mod Reach
pub mod Answer
use toy_brain.Prelude.{
  ℕ, suc, ◌+◌, ◌≡◌, refl, Bool, true, false, ◌&&◌, ◌||◌, not, Option, none, some, List, [], ◌∷◌,
  ◌++◌, arith, Text, if◌then◌else◌, eq_text, ltb, length,
}
use toy_brain.Prelude.Outcome
use toy_brain.Prelude.Outcome.{
  Error, Result, ok, raise, i_rt_11, i_rt_12, i_rt_04, triggered_none, key_error, index_error,
  l2_corrupt, l2_dir, llm_transport,
}
use toy_brain.Prelude.FrozenSet.{FrozenSet, contains, add, set_eq}
use toy_brain.Prelude.Dict.{Dict, put, item, keys}
use toy_brain.Fraction.{Fraction, whole, leq}
use toy_brain.Tlica.Profile.{ScalarProfile, cogito_id, scalar_profile}
use toy_brain.Tlica.Msi.{Msi}
use toy_brain.Tlica.PtCns.{ConsistencyEval, preserve, ModeOp, from_eval, PtCns, eval}
use toy_brain.Tlica.Builders
use toy_brain.Tlica.Builders.{Value, make_msi, make_ptcns, make_profile_with_cogito}
use toy_brain.Tlica.Boundary.{boundary}
use toy_brain.Kernel.Io
use toy_brain.Kernel.Io.{PerceptEvent, ContentRegistry, TickRecord, with_added}
use toy_brain.Kernel.State.{BrainState, summarize_state, set_delta, profile_delta}
use toy_brain.Kernel.Exec.{
  World, Exec, pure, fail, lift, ◌>>=◌, ◌>>◌, record_event, with_tick, tick_start, eval_complete,
  mode_dispatch, state_update, error, tick_end,
}
use toy_brain.Kernel.Invariants.{is_mode_c, assert_state_invariants}
use toy_brain.Llm.Env.{Env}
use toy_brain.Llm.Cache.{ClientShape}
use toy_brain.Llm.Eval.{LlmPtCns, llm_ptcns, llm_eval}

abbrev pub Evals : Type 0
Evals = List (PerceptEvent × ConsistencyEval)

-- 2. the registry with each event's text
unfoldable pub add_texts : List PerceptEvent → ContentRegistry → Result ContentRegistry
unfolding with_added
add_texts [] r = ok r
add_texts (e ∷ events) r = Outcome.◌>>=◌ (with_added r e.content_id e.text) (add_texts events)

-- 3. the values with each event's `initial_rho`
unfoldable pub add_values : List PerceptEvent → Dict Fraction → Dict Fraction
unfolding put
add_values [] values = values
add_values (e ∷ events) values = add_values events (put e.content_id e.initial_rho values)

-- 6. MODE_C integrates a content that meets the threshold; the other modes leave the MSI alone.
unfoldable pub integrates : Fraction → PerceptEvent → ConsistencyEval → Bool
unfolding leq from_eval
integrates threshold e ev = is_mode_c (from_eval ev) && leq threshold e.initial_rho

unfoldable pub integrate : Fraction → Evals → FrozenSet → FrozenSet
unfolding integrates add
integrate threshold [] contents = contents
integrate threshold ((e, ev) ∷ rest) contents =
    integrate threshold rest
      (if integrates threshold e ev then add e.content_id contents else contents)

abbrev pub modes_of : Evals → List ModeOp
unfolding from_eval
modes_of [] = []
modes_of ((e, ev) ∷ rest) = from_eval ev ∷ modes_of rest

abbrev pub notes_of : Evals → List (Text × ConsistencyEval × ModeOp)
unfolding from_eval
notes_of [] = []
notes_of ((e, ev) ∷ rest) = (e.content_id, ev, from_eval ev) ∷ notes_of rest

abbrev pub first {ℓ} : {A : Type ℓ} → List A → Option A
first [] = none
first (x ∷ xs) = some x

-- 7. the evaluations of the old domain, then the new ones
unfoldable pub carry_eval : PtCns → Text → Dict ConsistencyEval → Result (Dict ConsistencyEval)
unfolding eval put
carry_eval p cid full =
    if eq_text cid cogito_id then ok full else Outcome.◌>>=◌ (eval p cid) (λ e. ok (put cid e full))

unfoldable pub carry_evals :
    PtCns → FrozenSet → Dict ConsistencyEval → Result (Dict ConsistencyEval)
unfolding carry_eval
carry_evals p [] full = ok full
carry_evals p (cid ∷ rest) full = Outcome.◌>>=◌ (carry_eval p cid full) (carry_evals p rest)

unfoldable pub add_evals : Evals → Dict ConsistencyEval → Dict ConsistencyEval
unfolding put
add_evals [] full = full
add_evals ((e, ev) ∷ rest) full = add_evals rest (put e.content_id ev full)

-- The exceptions that `except ValueError` catches.
unfoldable pub is_value_error : Error → Bool
is_value_error key_error = false
is_value_error index_error = false
is_value_error l2_corrupt = false
is_value_error l2_dir = false
is_value_error llm_transport = false
is_value_error other = true

module _ {C : Type 0} (env : Env C) where
  -- 5. the evaluation of each new content, on one object
  unfoldable pub eval_events : List PerceptEvent → LlmPtCns → Exec C Evals
  unfolding llm_eval record_event
  eval_events [] p = pure []
  eval_events (e ∷ events) p = do
    (ev, p') ← llm_eval env p e.content_id
    record_event (eval_complete e.content_id ev)
    rest ← eval_events events p'
    pure ((e, ev) ∷ rest)

  unfoldable pub record_modes : Evals → Exec C (Unit {0})
  unfolding record_event from_eval
  record_modes [] = pure tt
  record_modes ((e, ev) ∷ rest) = do
    record_event (mode_dispatch e.content_id ev (from_eval ev))
    record_modes rest

  -- 7b. one event for each content
  unfoldable pub record_updates : BrainState → BrainState → List PerceptEvent → Exec C (Unit {0})
  unfolding record_event profile_delta set_delta boundary
  record_updates old new [] = pure tt
  record_updates old new (e ∷ events) = do
    delta ← lift (profile_delta old.profile new.profile)
    record_event (
        state_update e.content_id delta (set_delta old.msi.contents new.msi.contents)
          (set_delta (boundary old.msi old.ptcns) (boundary new.msi new.ptcns)))
    record_updates old new events

  -- 8. `try: assert_state_invariants(…) except ValueError`, which records and raises again
  unfoldable pub assert_traced : BrainState → Exec C (Unit {0})
  unfolding assert_state_invariants record_event is_value_error
  assert_traced s w =
      let (r, w') = assert_state_invariants s w in
      elim r [
        | ok u ↦ (ok u, w')
        | raise e ↦
            if is_value_error e then (do record_event (error e); fail e) w' else (raise e, w')
      ]

  -- 6. and 7.: the state after the evaluations
  unfoldable pub next_state :
      BrainState → ContentRegistry → ScalarProfile → Msi → Evals → Result BrainState
  unfolding integrate make_msi carry_evals add_evals make_ptcns set_eq
  next_state s registry profile provisional evals =
      Outcome.◌>>=◌
        (make_msi env.parse_fraction profile (integrate provisional.threshold evals s.msi.contents)
          (Builders.fraction s.msi.threshold))
        λ final_msi.
          Outcome.◌>>=◌ (carry_evals s.ptcns s.profile.domain ((cogito_id, preserve) ∷ []))
            λ carried.
              let full = add_evals evals carried in
              Outcome.◌>>◌ (Outcome.require (set_eq (keys full) profile.domain) i_rt_04) (
                Outcome.◌>>=◌ (make_ptcns final_msi full) (λ final_ptcns. ok (record {
                  profile = profile;
                  msi = final_msi;
                  ptcns = final_ptcns;
                  registry = registry;
                })))

  unfoldable pub tick_record : ℕ → BrainState → Evals → TickRecord
  unfolding boundary
  tick_record tick_id s evals = record {
    tick_index = tick_id;
    profile_values = s.profile.values;
    msi_contents = s.msi.contents;
    eval_map = s.ptcns.eval_map;
    boundary = boundary s.msi s.ptcns;
    mode_trace = modes_of evals;
    triggered_mode = first (modes_of evals);
    registry = s.registry;
    notes = notes_of evals;
  }

  -- the guards above the `try`
  unfoldable pub guards : BrainState → List PerceptEvent → Result (Unit {0})
  unfolding contains
  guards s [] = ok tt
  guards s (e ∷ []) = if contains e.content_id s.profile.domain then raise i_rt_12 else ok tt
  guards s (e ∷ f ∷ events) = raise i_rt_11

  module _ (shape : ClientShape) where
    -- the body of the `try`
    unfoldable pub tick_body : BrainState → List PerceptEvent → ℕ → Exec C (BrainState × TickRecord)
    unfolding record_event summarize_state add_texts add_values scalar_profile make_msi llm_ptcns
        eval_events record_modes next_state record_updates assert_traced tick_record
    tick_body s events tick_id = do
      record_event (tick_start events (summarize_state s))
      new_registry ← lift (add_texts events s.registry)
      let new_values = add_values events s.profile.values
      new_profile ← lift (scalar_profile (keys new_values) new_values)
      provisional ← lift (
          make_msi env.parse_fraction new_profile s.msi.contents
            (Builders.fraction s.msi.threshold))
      backed ← lift (llm_ptcns provisional new_registry.texts shape 3)
      evals ← eval_events events backed
      record_modes evals
      new_state ← lift (next_state s new_registry new_profile provisional evals)
      record_updates s new_state events
      assert_traced new_state
      record_event (tick_end (summarize_state new_state) (modes_of evals) (first (modes_of evals)))
      pure (new_state, tick_record tick_id new_state evals)

    unfoldable pub tick : BrainState → List PerceptEvent → ℕ → Exec C (BrainState × TickRecord)
    unfolding guards with_tick tick_body
    tick s events tick_id = do
      lift (guards s events)
      with_tick tick_id (tick_body s events tick_id)

  -- `initial_state(msi_threshold)`
  unfoldable pub initial_state : Fraction → Result BrainState
  unfolding make_profile_with_cogito make_msi make_ptcns
  initial_state msi_threshold =
      Outcome.◌>>=◌
        (make_profile_with_cogito env.parse_fraction ((cogito_id, Builders.integer 1 0) ∷ []))
        λ profile.
          Outcome.◌>>=◌
            (make_msi env.parse_fraction profile (cogito_id ∷ []) (Builders.fraction msi_threshold))
            λ m.
              Outcome.◌>>=◌ (make_ptcns m ((cogito_id, preserve) ∷ []))
                (λ p. ok (record { profile = profile; msi = m; ptcns = p; registry = Io.empty }))
