-- ===== src/Llm/Cache.antt =====
-- The semantic cache ("L2") of brain/llm/ptcns_backed.py: its keys, look-up and store.
pub mod Laws
use toy_brain.Prelude.{
  ℕ, ◌≡◌, refl, Bool, true, false, ◌&&◌, not, Option, none, some, List, [], ◌∷◌, ◌++◌, arith, Text,
  codes, if◌then◌else◌, leb, eq_text, length, take,
}
use toy_brain.Prelude.Outcome.{Result, ok, raise, l2_corrupt, l2_dir}
use toy_brain.Prelude.FrozenSet.{FrozenSet}
use toy_brain.Prelude.Dict.{Dict, get, put, is_some}
use toy_brain.Tlica.Profile.{cogito_id}
use toy_brain.Tlica.Msi.{Msi}
use toy_brain.Tlica.PtCns.{ConsistencyEval}
use toy_brain.Kernel.Exec.{
  World, CacheFile, unreadable, not_an_object, other_keys, fields, Exec, pure, fail, ◌>>=◌, ◌>>◌,
  record_event, semantic_cache_hit, semantic_cache_miss, semantic_cache_store,
  semantic_cache_skip_capacity,
}
use toy_brain.Llm.Env.{KeyPayload, Env}
use toy_brain.Llm.Parse.{name_of, by_name}
use toy_brain.Llm.Prompt.{sorted, text_or}

abbrev pub max_entries : ℕ
max_entries = 1024

-- What `_derive_l2_metadata` reads of a client: whether it is a `CachedClient`, and then the class
-- of the inner client with its `model` and the first word of its `command`.
pub data ClientShape : Type 0 where
  plain : ClientShape
  cached : Text → Text → Text → ClientShape

unfoldable pub derive_l2_metadata : ClientShape → Option (Text × Text)
unfolding eq_text
derive_l2_metadata plain = none
derive_l2_metadata (cached cls_name model exe) =
    if eq_text cls_name (codes "AnthropicAPIClient")
    then some (codes "anthropic-api", model)
    else if eq_text cls_name (codes "ClaudeCLIClient")
    then some (codes "claude-cli", exe)
    else if eq_text cls_name (codes "CodexCLIClient")
    then some (codes "codex-cli", exe)
    else some (cls_name, [])

-- the comprehension of `_derive_existing_msi_context`
unfoldable pub context_of : Dict Text → List Text → List (Text × Text)
unfolding text_or eq_text cogito_id
context_of texts [] = []
context_of texts (cid ∷ rest) =
    let others = context_of texts rest in
    if eq_text cid cogito_id then others else (cid, text_or [] cid texts) ∷ others

unfoldable pub existing_msi_context : Msi → Dict Text → List (Text × Text)
unfolding context_of sorted
existing_msi_context m texts = context_of texts (sorted m.contents)

module _ {C : Type 0} (env : Env C) where
  -- The evaluated content's id is no part of the key.
  unfoldable pub canonical_l2_key : Text × Text → List (Text × Text) → Text → Text
  canonical_l2_key (backend_family, model_identity) msi_context new_text = env.digest (record {
    cache_schema = codes "llm-semantic-cache-v1";
    prompt_version = codes "prompt-template-v1";
    parse_schema = codes "consistency-eval-v1";
    backend_family = backend_family;
    model_identity = model_identity;
    msi_context = msi_context;
    new_text = new_text;
  })

-- `payload["parsed"]` as an evaluation, if `key_prefix` is that of the key
unfoldable pub read_fields : Text → Option Text → Option Text → Option ConsistencyEval
unfolding by_name eq_text
read_fields key (some prefix) (some name) = elim (by_name name) [
  | none ↦ none
  | some e ↦ if eq_text prefix (take 8 key) then some e else none
]
read_fields key _ _ = none

module _ {C : Type 0} where
  read_file : Text → Text → CacheFile → Exec C (Option ConsistencyEval)
  unfolding read_fields record_event
  read_file key content_id unreadable = fail l2_corrupt
  read_file key content_id not_an_object = fail l2_corrupt
  read_file key content_id other_keys = fail l2_corrupt
  read_file key content_id (fields prefix name) = elim (read_fields key prefix name) [
    | none ↦ fail l2_corrupt
    | some e ↦ do record_event (semantic_cache_hit content_id (take 8 key)); pure (some e)
  ]

  unfoldable pub l2_lookup : Text → Text → Exec C (Option ConsistencyEval)
  unfolding read_file get record_event
  l2_lookup key content_id w = elim (get key w.cache) [
    | none ↦ (do record_event (semantic_cache_miss content_id (take 8 key)); pure none) w
    | some file ↦ read_file key content_id file w
  ]

  write_file : Text → CacheFile → Exec C (Unit {0})
  unfolding put
  write_file key file w = (ok tt, record w { cache = put key file w.cache })

  unfoldable pub l2_store : Text → ConsistencyEval → Text → Exec C (Unit {0})
  unfolding write_file get record_event name_of
  l2_store key e content_id w =
      if w.cache_dir_ok
      then (if is_some (get key w.cache)
          then (ok tt, w)
          else if leb max_entries (length w.cache)
          then record_event (semantic_cache_skip_capacity content_id (take 8 key)) w
          else (do
            write_file key (fields (some (take 8 key)) (some (name_of e)))
            record_event (semantic_cache_store content_id (take 8 key)))
              w)
      else (raise l2_dir, w)
