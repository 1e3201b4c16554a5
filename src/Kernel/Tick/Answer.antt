-- ===== src/Kernel/Tick/Answer.antt =====
-- A tick with the semantic cache off, from the responses of the client.
use toy_brain.Prelude.{ℕ, ◌≡◌, ◌∙◌, ap, false, none, [], ◌∷◌, arith}
use toy_brain.Prelude.Outcome.{Error, Result, ok, raise}
use toy_brain.Prelude.FrozenSet.{contains}
use toy_brain.Prelude.Dict.{get}
use toy_brain.Tlica.PtCns.{ConsistencyEval}
use toy_brain.Kernel.Io.{PerceptEvent, IsPercept}
use toy_brain.Kernel.State.{BrainState}
use toy_brain.Kernel.Valid
use toy_brain.Kernel.Exec.{World, record_event, set_tick}
use toy_brain.Kernel.Tick.{tick, tick_record}
use toy_brain.Kernel.Tick.Correct.{IsAfter}
use toy_brain.Kernel.Tick.Run.{backed, started, asked, tick_raises, tick_returns}
use toy_brain.Llm.Env.{Env}
use toy_brain.Llm.Cache.{ClientShape, derive_l2_metadata}
use toy_brain.Llm.Prompt.{build_prompt}
use toy_brain.Llm.Eval.{remember}
use toy_brain.Llm.Eval.Retry.{first_parsed, with_object, llm_eval-first_parsed}

module _ {C : Type 0} (env : Env C) (shape : ClientShape) (off : derive_l2_metadata shape ≡ none)
    (s : BrainState) (h : Valid.IsValid s) (e : PerceptEvent) (k : IsPercept e)
    (fresh : contains e.content_id s.profile.domain ≡ false) (tick_id : ℕ) (w : World C) where
  -- What the client answers within three attempts on the prompt of the percept.
  abbrev pub answer : Result ConsistencyEval
  answer =
      let b = backed env shape s e in
      (first_parsed env 3 (build_prompt b.msi.contents b.texts e.content_id) w.client).0

  asked-answer :
      asked env shape s e tick_id w ≡ with_object env (backed env shape s e) e.content_id answer
  unfolding backed started record_event set_tick get
  asked-answer =
      (llm_eval-first_parsed env (backed env shape s e) e.content_id
        (started env shape s e tick_id w) (ground (arith, k.not_cogito)) off).result

  -- Take a valid state, a percept that its constructor accepts and whose content is not in the
  -- profile, and a client for which the semantic cache is off. If the client raises within three
  -- attempts on the percept's prompt, or no response parses, the tick raises that same exception.
  pub tick-answer_raises :
      (x : Error) → answer ≡ raise x → (tick env shape s (e ∷ []) tick_id w).0 ≡ raise x
  tick-answer_raises x r =
      tick_raises env shape s h e k fresh tick_id w x
        (asked-answer ∙ ap (with_object env (backed env shape s e) e.content_id) r)

  -- Take a valid state, a percept that its constructor accepts and whose content is not in the
  -- profile, and a client for which the semantic cache is off. If the client's responses within
  -- three attempts on the percept's prompt are read as an evaluation, the tick returns. Its record
  -- belongs to the new state, which is valid and is the old one with the percept: its value, its
  -- text and its evaluation are entered, nothing else is touched, and the content joins the MSI
  -- exactly when the evaluation is PRESERVE and `initial_rho` meets the threshold.
  pub tick-answer :
      (ev : ConsistencyEval)
      → answer ≡ ok ev
      → (s' : BrainState) × ((tick env shape s (e ∷ []) tick_id w).0
          ≡ ok (s', tick_record env tick_id s' ((e, ev) ∷ [])))
        × Valid.IsValid s'
        × IsAfter s e ev s'
  tick-answer ev r =
      tick_returns env shape s h e k fresh tick_id w ev
        (remember env (backed env shape s e) e.content_id ev)
        (asked-answer ∙ ap (with_object env (backed env shape s e) e.content_id) r)
