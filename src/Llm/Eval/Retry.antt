-- ===== src/Llm/Eval/Retry.antt =====
-- The retry loop against its plain description.
use toy_brain.Prelude.{ℕ, zero, suc, ◌+◌, ◌≡◌, refl, Option, none, List, arith, Text, ◌⊎◌, inl, inr}
use toy_brain.Prelude.Outcome.{Result, ok, raise, i_llm_01, Result-cases}
use toy_brain.Prelude.FrozenSet.{FrozenSet}
use toy_brain.Prelude.Dict.{Dict, get}
use toy_brain.Tlica.PtCns.{ConsistencyEval}
use toy_brain.Kernel.Exec.{World, CacheFile, Event, record_event}
use toy_brain.Llm.Env.{Env}
use toy_brain.Llm.Parse.{Parsed, parsed, ambiguous, unknown, parse_consistency_eval}
use toy_brain.Llm.Prompt.{build_prompt, build_retry_prompt, parse_message}
use toy_brain.Llm.Eval.{
  LlmPtCns, remember, attempts, ask_model, llm_eval, l2_key, look_up, retry_event,
}

Parsed-cases :
    (r : Parsed)
    → ((e : ConsistencyEval) × (r ≡ parsed e))
      ⊎ ((found : FrozenSet) × (r ≡ ambiguous found))
      ⊎ (r ≡ unknown)
Parsed-cases (parsed e) = inl (e, refl)
Parsed-cases (ambiguous found) = inr (inl (found, refl))
Parsed-cases unknown = inr (inr refl)

module _ {C : Type 0} (env : Env C) where
  abbrev pub answer_of : Text → Parsed
  answer_of raw = parse_consistency_eval env.upper env.is_space raw

  abbrev pub next_prompt : Text → Text → Text
  next_prompt prompt raw =
      build_retry_prompt prompt raw (parse_message env.repr env.repr_list (answer_of raw) raw)

  -- Ask at most `n` times and take the first response that parses.
  unfoldable pub first_parsed : ℕ → Text → C → Result ConsistencyEval × C
  unfolding build_retry_prompt
  first_parsed zero prompt c = (raise i_llm_01, c)
  first_parsed (suc n) prompt c =
      let (r, c') = env.eval_consistency prompt c in
      elim r [
        | raise x ↦ (raise x, c')
        | ok raw ↦ elim (answer_of raw) [
          | parsed e ↦ (ok e, c')
          | _ ↦ first_parsed n (next_prompt prompt raw) c'
        ]
      ]

  abbrev pub with_object :
      LlmPtCns → Text → Result ConsistencyEval → Result (ConsistencyEval × LlmPtCns)
  with_object p content_id (ok e) = ok (e, remember env p content_id e)
  with_object p content_id (raise x) = raise x

  -- The result is that of the description, the client is as it leaves it, and the semantic cache
  -- is as it was.
  pub record Agrees (p : LlmPtCns) (content_id : Text) (spec : Result ConsistencyEval × C)
      (cache : Dict CacheFile) (out : Result (ConsistencyEval × LlmPtCns) × World C) : Type 0 where
    pub result : out.0 ≡ with_object p content_id spec.0
    pub client : out.1.client ≡ spec.1
    pub kept : out.1.cache ≡ cache

  retry_event_lem :
      (content_id : Text) (attempt n : ℕ) (w : World C)
      → (t : List (Option ℕ × Event)) × (retry_event env content_id attempt n w
          ≡ (ok tt, record w { trace = t }))
  unfolding retry_event record_event
  retry_event_lem content_id attempt zero w = (w.trace, refl)
  retry_event_lem content_id attempt (suc n) w = (_, refl)

  attempts-first_parsed :
      (content_id : Text) (attempt n : ℕ) (prompt : Text) (p : LlmPtCns) (w : World C)
      → Agrees p content_id
          (first_parsed n prompt w.client)
          w.cache
          (attempts env none content_id attempt n prompt p w)
  unfolding attempts first_parsed
  attempts-first_parsed content_id attempt zero prompt p w = record {
    result = refl;
    client = refl;
    kept = refl;
  }
  attempts-first_parsed content_id attempt (suc n) prompt p w =
      let c = (env.eval_consistency prompt w.client).1 in
      elim (Result-cases (env.eval_consistency prompt w.client).0) [
        | inr (x, e) ↦
            rw (e, attempts, first_parsed) (record { result = refl; client = refl; kept = refl })
        | inl (raw, e) ↦ elim (Parsed-cases (answer_of raw)) [
          | inl (ev, f) ↦
              rw (e, attempts, first_parsed, f)
                (record { result = refl; client = refl; kept = refl })
          | inr (inl (found, f)) ↦
              rw (e, attempts, first_parsed, f, (retry_event_lem content_id attempt n _).1)
                (attempts-first_parsed content_id (attempt + 1) n (next_prompt prompt raw) p
                  (record w { client = c; trace = (retry_event_lem content_id attempt n _).0 }))
          | inr (inr f) ↦
              rw (e, attempts, first_parsed, f, (retry_event_lem content_id attempt n _).1)
                (attempts-first_parsed content_id (attempt + 1) n (next_prompt prompt raw) p
                  (record w { client = c; trace = (retry_event_lem content_id attempt n _).0 }))
        ]
      ]

  l2_key-off :
      (p : LlmPtCns) (content_id : Text) → p.l2_metadata ≡ none → l2_key env p content_id ≡ none
  unfolding l2_key
  l2_key-off p content_id off = ground arith

  -- On a content that the object has not seen, with the semantic cache off, `eval` is the first of
  -- at most `max_attempts` responses that parses, each prompt after the first quoting the response
  -- before it and its error; a raise of the client and I-LLM-01 when none parses are its only other
  -- outcomes. The client ends as it does there, the object remembers the evaluation, and the
  -- semantic cache is untouched.
  pub llm_eval-first_parsed :
      (p : LlmPtCns) (content_id : Text) (w : World C)
      → get content_id p.cache ≡ none
      → p.l2_metadata ≡ none
      → Agrees p content_id
          (first_parsed p.max_attempts (build_prompt p.msi.contents p.texts content_id) w.client)
          w.cache
          (llm_eval env p content_id w)
  unfolding llm_eval look_up ask_model
  llm_eval-first_parsed p content_id w fresh off =
      rw
        (
          fresh,
          llm_eval,
          l2_key-off p content_id off,
          look_up,
          l2_key-off p content_id off,
          ask_model,
        )
        (attempts-first_parsed content_id 1 p.max_attempts
          (build_prompt p.msi.contents p.texts content_id) p w)
