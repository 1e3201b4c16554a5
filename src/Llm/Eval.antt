-- ===== src/Llm/Eval.antt =====
-- `LLMBackedPtCns` of brain/llm/ptcns_backed.py: an object with a cache of its own ("L0"), which
-- asks the client, parses, and retries.
pub mod Retry
pub mod Reuse
use toy_brain.Prelude.{
  ℕ, zero, suc, ◌+◌, ◌≡◌, refl, Bool, true, false, ◌&&◌, not, Option, none, some, List, [], ◌∷◌,
  ◌++◌, arith, Text, if◌then◌else◌, ltb, leb, take,
}
use toy_brain.Prelude.Outcome.{Error, Result, ok, raise, i_llm_01, llm_max_attempts}
use toy_brain.Prelude.Dict.{Dict, get, put}
use toy_brain.Tlica.Profile.{cogito_id}
use toy_brain.Tlica.Msi.{Msi}
use toy_brain.Tlica.PtCns.{ConsistencyEval, preserve}
use toy_brain.Kernel.Exec.{
  World, Exec, pure, fail, lift, ◌>>=◌, ◌>>◌, record_event, llm_request, llm_response,
  parse_failure, llm_retry, parse_success, semantic_cache_skip_parse,
}
use toy_brain.Llm.Env.{Env}
use toy_brain.Llm.Parse.{Parsed, parsed, ambiguous, unknown, parse_consistency_eval}
use toy_brain.Llm.Prompt.{build_prompt, build_retry_prompt, parse_message, text_or}
use toy_brain.Llm.Cache.{
  ClientShape, derive_l2_metadata, existing_msi_context, canonical_l2_key, l2_lookup, l2_store,
}

pub record LlmPtCns : Type 0 where
  pub msi : Msi
  pub texts : Dict Text
  pub max_attempts : ℕ
  pub cache : Dict ConsistencyEval
  pub l2_metadata : Option (Text × Text)

-- the constructor: the cogito is answered from the start
unfoldable pub llm_ptcns : Msi → Dict Text → ClientShape → ℕ → Result LlmPtCns
unfolding derive_l2_metadata
llm_ptcns m content_texts shape max_attempts =
    if ltb max_attempts 1
    then raise llm_max_attempts
    else ok (record {
      msi = m;
      texts = content_texts;
      max_attempts = max_attempts;
      cache = (cogito_id, preserve) ∷ [];
      l2_metadata = derive_l2_metadata shape;
    })

module _ {C : Type 0} (env : Env C) where
  -- `self._client.eval_consistency(prompt)`
  unfoldable pub ask : Text → Exec C Text
  ask prompt w = let (r, c) = env.eval_consistency prompt w.client in (r, record w { client = c })

  unfoldable pub remember : LlmPtCns → Text → ConsistencyEval → LlmPtCns
  unfolding put
  remember p content_id e = record p { cache = put content_id e p.cache }

  store_if : Option Text → ConsistencyEval → Text → Exec C (Unit {0})
  unfolding l2_store
  store_if none e content_id = pure tt
  store_if (some key) e content_id = l2_store key e content_id

  skip_if : Option Text → Text → Exec C (Unit {0})
  unfolding record_event
  skip_if none content_id = pure tt
  skip_if (some key) content_id = record_event (semantic_cache_skip_parse content_id (take 8 key))

  retry_event : Text → ℕ → ℕ → Exec C (Unit {0})
  unfolding record_event
  retry_event content_id attempt zero = pure tt
  retry_event content_id attempt (suc left) = record_event (llm_retry content_id (attempt + 1))

  -- `for attempt in range(1, max_attempts + 1)`, with the number of attempts that are left
  unfoldable pub attempts :
      Option Text → Text → ℕ → ℕ → Text → LlmPtCns → Exec C (ConsistencyEval × LlmPtCns)
  unfolding ask remember store_if skip_if retry_event record_event parse_consistency_eval
      parse_message build_retry_prompt
  attempts key content_id attempt zero prompt p = do skip_if key content_id; fail i_llm_01
  attempts key content_id attempt (suc left) prompt p = do
    record_event (llm_request content_id attempt prompt)
    raw ← ask prompt
    record_event (llm_response content_id attempt raw)
    let answer = parse_consistency_eval env.upper env.is_space raw
    let message = parse_message env.repr env.repr_list answer raw
    let again = attempts key content_id (attempt + 1) left (build_retry_prompt prompt raw message) p
    elim answer [
      | parsed e ↦ do
        record_event (parse_success content_id raw e)
        store_if key e content_id
        pure (e, remember p content_id e)
      | ambiguous found ↦ do
        record_event (parse_failure content_id attempt raw)
        retry_event content_id attempt left
        again
      | unknown ↦ do
        record_event (parse_failure content_id attempt raw)
        retry_event content_id attempt left
        again
    ]

  -- the key of the semantic cache, if it is on
  unfoldable pub l2_key : LlmPtCns → Text → Option Text
  unfolding canonical_l2_key existing_msi_context text_or
  l2_key p content_id = elim p.l2_metadata [
    | none ↦ none
    | some metadata ↦ some (
        canonical_l2_key env metadata (existing_msi_context p.msi p.texts)
          (text_or [] content_id p.texts))
  ]

  unfoldable pub ask_model : Option Text → Text → LlmPtCns → Exec C (ConsistencyEval × LlmPtCns)
  unfolding attempts build_prompt
  ask_model key content_id p =
      attempts key content_id 1 p.max_attempts (build_prompt p.msi.contents p.texts content_id) p

  unfoldable pub look_up : Option Text → Text → Exec C (Option ConsistencyEval)
  unfolding l2_lookup
  look_up none content_id = pure none
  look_up (some key) content_id = l2_lookup key content_id

  unfoldable pub llm_eval : LlmPtCns → Text → Exec C (ConsistencyEval × LlmPtCns)
  unfolding get l2_key look_up ask_model remember
  llm_eval p content_id = elim (get content_id p.cache) [
    | some e ↦ pure (e, p)
    | none ↦ do
      hit ← look_up (l2_key p content_id) content_id
      elim hit [
        | some e ↦ pure (e, remember p content_id e)
        | none ↦ ask_model (l2_key p content_id) content_id p
      ]
  ]
