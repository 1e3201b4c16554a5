-- ===== src/Kernel/Exec.antt =====
-- The effects of a tick: the client of the language model, the semantic cache on disk, and the
-- trace. What happened before a raise stays, so the world comes back beside the error too.
use toy_brain.Prelude.{ℕ, Bool, Option, none, some, List, [], ◌∷◌, ◌++◌, Text}
use toy_brain.Prelude.Outcome.{Error, Result, ok, raise}
use toy_brain.Prelude.Dict.{Dict}
use toy_brain.Tlica.PtCns.{ConsistencyEval, ModeOp}
use toy_brain.Kernel.Io.{PerceptEvent}
use toy_brain.Kernel.State.{Summary, SetDelta, ProfileDelta}

-- The events that the source records, with the fields of their payloads. Readings of the clock and
-- the formatted text of an error are left out.
pub data Event : Type 0 where
  tick_start : List PerceptEvent → Summary → Event
  llm_request : Text → ℕ → Text → Event
  llm_response : Text → ℕ → Text → Event
  parse_failure : Text → ℕ → Text → Event
  llm_retry : Text → ℕ → Event
  parse_success : Text → Text → ConsistencyEval → Event
  semantic_cache_hit semantic_cache_miss semantic_cache_store : Text → Text → Event
  semantic_cache_skip_capacity semantic_cache_skip_parse : Text → Text → Event
  eval_complete : Text → ConsistencyEval → Event
  mode_dispatch : Text → ConsistencyEval → ModeOp → Event
  state_update : Text → ProfileDelta → SetDelta → SetDelta → Event
  invariant_check : Error → Bool → Event
  error : Error → Event
  tick_end : Summary → List ModeOp → Option ModeOp → Event

-- A file of the semantic cache, as `_l2_lookup` reads it: a file that cannot be read or parsed, a
-- document that is no object, an object with other keys, and one with the two keys, each with its
-- value if that is a string.
pub data CacheFile : Type 0 where
  unreadable not_an_object other_keys : CacheFile
  fields : Option Text → Option Text → CacheFile

pub record World (C : Type 0) : Type 0 where
  pub client : C
  pub cache : Dict CacheFile
  -- whether the directory of the cache can be made
  pub cache_dir_ok : Bool
  -- `SafeTracer` over a tracer that keeps its events
  pub tick_id : Option ℕ
  pub trace : List (Option ℕ × Event)

abbrev pub Exec : Type 0 → Type 0 → Type 0
Exec C A = World C → Result A × World C

module _ {C A : Type 0} where
  abbrev pub pure : A → Exec C A
  pure a w = (ok a, w)

  abbrev pub fail : Error → Exec C A
  fail e w = (raise e, w)

  abbrev pub lift : Result A → Exec C A
  lift r w = (r, w)

module _ {C A B : Type 0} where
  abbrev pub continue : Result A → (A → Exec C B) → Exec C B
  continue (ok a) f w = f a w
  continue (raise e) f w = (raise e, w)

  infixl 5 ◌>>=◌ ◌>>◌
  abbrev pub ◌>>=◌ : Exec C A → (A → Exec C B) → Exec C B
  ◌>>=◌ m f w = let (r, w') = m w in continue r f w'

  abbrev pub ◌>>◌ : Exec C A → Exec C B → Exec C B
  m >> k = m >>= λ _. k

module _ {C : Type 0} where
  -- `tracer.record`, `tracer.set_tick`, `tracer.clear_tick`
  unfoldable pub record_event : Event → Exec C (Unit {0})
  record_event e w = (ok tt, record w { trace = w.trace ++ (w.tick_id, e) ∷ [] })

  unfoldable pub set_tick : Option ℕ → World C → World C
  set_tick t w = record w { tick_id = t }

module _ {C A : Type 0} where
  -- `tracer.set_tick(tick_id)`, then `try: … finally: tracer.clear_tick()`
  unfoldable pub with_tick : ℕ → Exec C A → Exec C A
  unfolding set_tick
  with_tick tick_id m w = let (r, w') = m (set_tick (some tick_id) w) in (r, set_tick none w')
