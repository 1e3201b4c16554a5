-- ===== src/Kernel/Tick/Reach.antt =====
-- Ticks of any kind from a valid state, and the states that a run of ticks reaches.
use toy_brain.Prelude.{ℕ, ◌≡◌, refl, inl, inr, true, List, [], ◌∷◌, arith, All, ap, Bool-cases}
use mathlib.Core.Path.{subst}
use toy_brain.Prelude.Outcome.{Result, ok, raise, i_rt_11, i_rt_12, Result-cases}
use toy_brain.Prelude.FrozenSet.{contains}
use toy_brain.Fraction.{Fraction, whole, less}
use toy_brain.Kernel.Io.{PerceptEvent, IsPercept, TickRecord}
use toy_brain.Kernel.State.{BrainState}
use toy_brain.Kernel.Valid
use toy_brain.Kernel.Exec.{World}
use toy_brain.Kernel.Tick.{tick, guards, initial_state}
use toy_brain.Kernel.Tick.Run.{asked, tick_raises, tick_returns}
use toy_brain.Kernel.Tick.Quiet.{first_state, first_state-IsValid, initial_state_valid, tick_quiet}
use toy_brain.Llm.Env.{Env}
use toy_brain.Llm.Cache.{ClientShape}

module _ {C : Type 0} (env : Env C) (shape : ClientShape) where
  module _ (s : BrainState) (tick_id : ℕ) (w : World C) where
    -- More than one percept is rejected before anything happens.
    pub tick_many :
        (e f : PerceptEvent) (events : List PerceptEvent)
        → tick env shape s (e ∷ f ∷ events) tick_id w ≡ (raise i_rt_11, w)
    unfolding tick guards
    tick_many e f events = refl

    -- So is a percept whose content is already there.
    pub tick_known :
        (e : PerceptEvent)
        → contains e.content_id s.profile.domain ≡ true
        → tick env shape s (e ∷ []) tick_id w ≡ (raise i_rt_12, w)
    unfolding tick guards
    tick_known e there = rw there

  same_state :
      {s' s'' : BrainState} {r r' : TickRecord} (t : Result (BrainState × TickRecord))
      → t ≡ ok (s', r)
      → t ≡ ok (s'', r')
      → s'' ≡ s'
  same_state t e f = cc

  -- If a tick on a valid state returns, whatever list of accepted percepts it is given and whatever
  -- the client does, the new state is valid.
  pub tick-IsValid :
      (s : BrainState) (events : List PerceptEvent) (tick_id : ℕ) (w : World C) {s' : BrainState}
      {r : TickRecord}
      → Valid.IsValid s
      → All IsPercept events
      → (tick env shape s events tick_id w).0 ≡ ok (s', r)
      → Valid.IsValid s'
  tick-IsValid s [] tick_id w h k e =
      let (s'', f, valid, _) = tick_quiet s h env shape tick_id w in
      subst Valid.IsValid (same_state _ e f) valid
  tick-IsValid s (p ∷ []) tick_id w {s'} h k e =
      elim (Bool-cases (contains p.content_id s.profile.domain)) [
        | inl there ↦ absurd (
            ground (
              arith,
              e,
              ap (λ (m : Result (BrainState × TickRecord) × World C). m.0)
                  (tick_known s tick_id w p there),
            ))
        | inr fresh ↦ elim (Result-cases (asked env shape s p tick_id w)) [
          | inr (x, f) ↦
              absurd (ground (arith, e, tick_raises env shape s h p k.0 fresh tick_id w x f))
          | inl ((ev, b), f) ↦
              let (s'', g, valid, _) = tick_returns env shape s h p k.0 fresh tick_id w ev b f in
              subst Valid.IsValid (same_state _ e g) valid
        ]
      ]
  tick-IsValid s (p ∷ q ∷ events) tick_id w h k e = absurd (
      ground (
        arith,
        e,
        ap (λ (m : Result (BrainState × TickRecord) × World C). m.0)
            (tick_many s tick_id w p q events),
      ))

  -- One tick, whatever the world is when it starts.
  pub data Step (s : BrainState) : BrainState → Type 0 where
    ticked :
        {s' : BrainState} (events : List PerceptEvent) (tick_id : ℕ) (w : World C) (r : TickRecord)
        → All IsPercept events
        → (tick env shape s events tick_id w).0 ≡ ok (s', r)
        → Step s s'

  -- The states that ticks reach from `initial_state(threshold)`.
  pub data Reach (threshold : Fraction) : BrainState → Type 0 where
    start : {s : BrainState} → initial_state env threshold ≡ ok s → Reach threshold s
    next : {s s' : BrainState} → Reach threshold s → Step s s' → Reach threshold s'

  -- For a threshold strictly between 0 and 1, every state that ticks reach from
  -- `initial_state(threshold)` is valid, whatever accepted percepts come, and whatever the client,
  -- the semantic cache and the trace are at the start of each tick.
  pub Reach-IsValid :
      (threshold : Fraction) {s : BrainState}
      → less (whole 0) threshold ≡ true
      → less threshold (whole 1) ≡ true
      → Reach threshold s
      → Valid.IsValid s
  Reach-IsValid threshold {s} above below (start e) =
      let same : first_state threshold ≡ s =
        ground (arith, e, initial_state_valid env threshold above below) in
      subst Valid.IsValid same (first_state-IsValid threshold above below)
  Reach-IsValid threshold above below (next r (ticked events tick_id w record_of k e)) =
      tick-IsValid _ events tick_id w (Reach-IsValid threshold above below r) k e
