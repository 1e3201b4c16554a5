-- ===== src/Llm/Eval/Reuse.antt =====
-- brain/llm/ptcns_backed.py: the two caches of `eval`, as a caller sees them.
use toy_brain.Prelude.{◌≡◌, refl, none, some, Text, eq_text_refl, Option, ℕ, suc, zero, ◌+◌}
use toy_brain.Prelude.Outcome.{ok, Result, raise, i_llm_01}
use mathlib.Core.Path.{subst}
use toy_brain.Llm.Eval.Retry.{answer_of, next_prompt}
use toy_brain.Llm.Parse.{parsed, ambiguous, unknown, Parsed}
use toy_brain.Kernel.Exec.{
  World, Exec, continue, pure, fail, ◌>>=◌, ◌>>◌, record_event, llm_request, llm_response,
  parse_success, parse_failure,
}
use toy_brain.Prelude.Dict.{get, get-put}
use toy_brain.Tlica.PtCns.{ConsistencyEval}
use toy_brain.Llm.Env.{Env}
use toy_brain.Llm.Cache.Laws.{entry, l2_lookup-entry}
use toy_brain.Llm.Eval.{
  LlmPtCns, remember, l2_key, look_up, llm_eval, attempts, skip_if, ask_model, ask, store_if,
  retry_event,
}
use toy_brain.Llm.Prompt.{build_prompt}

module _ {C : Type 0} (env : Env C) where
  -- If the object has not seen the content, the semantic cache is on, and the file of the content's
  -- key is one that the store wrote for an evaluation, `eval` returns that evaluation and remembers
  -- it. The client is not asked and the cache stays as it is.
  pub llm_eval-hit :
      (p : LlmPtCns) (content_id key : Text) (e : ConsistencyEval) (w : World C)
      → get content_id p.cache ≡ none
      → l2_key env p content_id ≡ some key
      → get key w.cache ≡ some (entry key e)
      → ((llm_eval env p content_id w).0 ≡ ok (e, remember env p content_id e))
        × ((llm_eval env p content_id w).1.client ≡ w.client)
        × ((llm_eval env p content_id w).1.cache ≡ w.cache)
  unfolding llm_eval look_up
  llm_eval-hit p content_id key e w fresh on hit =
      let (found, client, cache) = l2_lookup-entry key e content_id w hit in
      rw (fresh, on, found, llm_eval, look_up) (refl, client, cache)

  -- what an outcome says of the object that it gives: it has remembered the evaluation
  abbrev Remembers : Text → Result (ConsistencyEval × LlmPtCns) → Type 0
  Remembers content_id (ok (e, p)) = get content_id p.cache ≡ some e
  Remembers content_id (raise x) = Unit

  continue-Remembers :
      {A : Type 0} (content_id : Text) (r : Result A) (f : A → Exec C (ConsistencyEval × LlmPtCns))
      (w : World C)
      → ((a : A) → Remembers content_id (f a w).0)
      → Remembers content_id (continue r f w).0
  continue-Remembers content_id (ok a) f w h = h a
  continue-Remembers content_id (raise x) f w h = tt

  -- It is enough that the rest of a chain says so.
  bind-Remembers :
      {A : Type 0} (content_id : Text) (m : Exec C A) (f : A → Exec C (ConsistencyEval × LlmPtCns))
      (w : World C)
      → ((a : A) (v : World C) → Remembers content_id (f a v).0)
      → Remembers content_id ((m >>= f) w).0
  bind-Remembers content_id m f w h =
      continue-Remembers content_id (m w).0 f (m w).1 (λ a. h a (m w).1)

  remember-Remembers :
      (p : LlmPtCns) (content_id : Text) (e : ConsistencyEval)
      → get content_id (remember env p content_id e).cache ≡ some e
  unfolding remember
  remember-Remembers p content_id e =
      rw (get-put content_id content_id e p.cache, eq_text_refl content_id) refl

  -- what `attempts` does after the answer to its prompt
  abbrev after_answer :
      Option Text
      → Text
      → ℕ
      → ℕ
      → Text
      → LlmPtCns
      → Exec C (ConsistencyEval × LlmPtCns)
      → Parsed
      → Exec C (ConsistencyEval × LlmPtCns)
  after_answer key content_id attempt left raw p again (parsed e) =
      record_event (parse_success content_id raw e)
      >> (store_if env key e content_id >> pure (e, remember env p content_id e))
  after_answer key content_id attempt left raw p again (ambiguous found) =
      record_event (parse_failure content_id attempt raw)
      >> (retry_event env content_id attempt left >> again)
  after_answer key content_id attempt left raw p again unknown =
      record_event (parse_failure content_id attempt raw)
      >> (retry_event env content_id attempt left >> again)

  after_answer-Remembers :
      (key : Option Text) (content_id : Text) (attempt left : ℕ) (raw : Text) (p : LlmPtCns)
      (again : Exec C (ConsistencyEval × LlmPtCns))
      → ((v : World C) → Remembers content_id (again v).0)
      → (answer : Parsed) (w : World C)
      → Remembers content_id (after_answer key content_id attempt left raw p again answer w).0
  after_answer-Remembers key content_id attempt left raw p again h (parsed e) w =
      bind-Remembers content_id (record_event (parse_success content_id raw e))
        (λ _. store_if env key e content_id >> pure (e, remember env p content_id e)) w
        (λ _ v.
          bind-Remembers content_id (store_if env key e content_id)
            (λ _. pure (e, remember env p content_id e)) v
            (λ _ u. remember-Remembers p content_id e))
  after_answer-Remembers key content_id attempt left raw p again h (ambiguous found) w =
      bind-Remembers content_id (record_event (parse_failure content_id attempt raw))
        (λ _. retry_event env content_id attempt left >> again) w
        (λ _ v.
          bind-Remembers content_id (retry_event env content_id attempt left) (λ _. again) v
            (λ _ u. h u))
  after_answer-Remembers key content_id attempt left raw p again h unknown w =
      bind-Remembers content_id (record_event (parse_failure content_id attempt raw))
        (λ _. retry_event env content_id attempt left >> again) w
        (λ _ v.
          bind-Remembers content_id (retry_event env content_id attempt left) (λ _. again) v
            (λ _ u. h u))

  attempts-Remembers :
      (key : Option Text) (content_id : Text) (attempt left : ℕ) (prompt : Text) (p : LlmPtCns)
      (w : World C)
      → Remembers content_id (attempts env key content_id attempt left prompt p w).0
  unfolding attempts
  attempts-Remembers key content_id attempt zero prompt p w =
      bind-Remembers content_id (skip_if env key content_id) (λ _. fail i_llm_01) w (λ a v. tt)
  attempts-Remembers key content_id attempt (suc left) prompt p w =
      let rest : Text → Exec C (ConsistencyEval × LlmPtCns) = λ raw.
        after_answer key content_id attempt left raw p
          (attempts env key content_id (attempt + 1) left (next_prompt env prompt raw) p)
          (answer_of env raw) in
      let replied : Text → Exec C (ConsistencyEval × LlmPtCns) =
        λ raw. record_event (llm_response content_id attempt raw) >> rest raw in
      bind-Remembers content_id (record_event (llm_request content_id attempt prompt))
        (λ _. ask env prompt >>= replied) w
        (λ _ v1. bind-Remembers content_id (ask env prompt) replied v1 (λ raw v2.
          bind-Remembers content_id (record_event (llm_response content_id attempt raw))
            (λ _. rest raw) v2
            (λ _.
              after_answer-Remembers key content_id attempt left raw p
                (attempts env key content_id (attempt + 1) left (next_prompt env prompt raw) p)
                (attempts-Remembers key content_id (attempt + 1) left (next_prompt env prompt raw)
                  p)
                (answer_of env raw))))

  ask_model-Remembers :
      (key : Option Text) (content_id : Text) (p : LlmPtCns) (w : World C)
      → Remembers content_id (ask_model env key content_id p w).0
  unfolding ask_model
  ask_model-Remembers key content_id p w =
      attempts-Remembers key content_id 1 p.max_attempts
        (build_prompt p.msi.contents p.texts content_id) p w

  hit-Remembers :
      (hit : Option ConsistencyEval) (content_id : Text) (p : LlmPtCns) (w : World C)
      → Remembers content_id
          ((elim hit as (λ x. Exec C (ConsistencyEval × LlmPtCns)) [
            | some e ↦ pure (e, remember env p content_id e)
            | none ↦ ask_model env (l2_key env p content_id) content_id p
          ])
            w).0
  hit-Remembers none content_id p w = ask_model-Remembers (l2_key env p content_id) content_id p w
  hit-Remembers (some e) content_id p w = remember-Remembers p content_id e

  llm_eval-Remembers :
      (p : LlmPtCns) (content_id : Text) (w : World C)
      → Remembers content_id (llm_eval env p content_id w).0
  unfolding llm_eval
  llm_eval-Remembers p content_id w = by_cache (get content_id p.cache) refl
    where
      by_cache :
          (o : Option ConsistencyEval)
          → get content_id p.cache ≡ o
          → Remembers content_id
              ((elim o as (λ x. Exec C (ConsistencyEval × LlmPtCns)) [
                | some e ↦ pure (e, p)
                | none ↦ look_up env (l2_key env p content_id) content_id >>= λ hit.
                    elim hit as (λ x. Exec C (ConsistencyEval × LlmPtCns)) [
                      | some e ↦ pure (e, remember env p content_id e)
                      | none ↦ ask_model env (l2_key env p content_id) content_id p
                    ]
              ])
                w).0
      by_cache (some e) k = k
      by_cache none k =
          bind-Remembers content_id (look_up env (l2_key env p content_id) content_id) _ w
            (λ hit v. hit-Remembers hit content_id p v)

  -- If `eval` returns an evaluation of a content, whether the object knew it, the semantic cache
  -- held it or the client was asked, then to evaluate that content again with the object that it
  -- leaves gives the same evaluation, in any world, and leaves that object and that world, with its
  -- client, cache and trace, as they are.
  pub llm_eval-again :
      (p : LlmPtCns) (content_id : Text) (w w' : World C) {e : ConsistencyEval} {p' : LlmPtCns}
      → (llm_eval env p content_id w).0 ≡ ok (e, p')
      → llm_eval env p' content_id w' ≡ (ok (e, p'), w')
  unfolding llm_eval
  llm_eval-again p content_id w w' {e} {p'} h =
      let known : get content_id p'.cache ≡ some e =
        subst (λ r. Remembers content_id r) h (llm_eval-Remembers p content_id w) in
      rw (known, llm_eval) refl
