-- ===== src/Examples.antt =====
-- Runs at concrete inputs: a client that is a script of responses, the first state at one half, and
-- a percept of food. The unit tests of the models stand here too.
pub mod Composing
pub mod Streams
pub mod Commanding
pub mod Promoting
pub mod Interpreting
use toy_brain.Prelude.{
  ◌≡◌, ◌≤◌, ◌↔◌, refl, true, false, Option, none, some, List, [], ◌∷◌, arith, Text, codes, leb,
  ◌==◌, ◌||◌, length, eq_text, ◌+◌, Bool,
}
use toy_brain.Prelude.Outcome.{Result, ok, raise, i_llm_01, llm_transport}
use toy_brain.Prelude.FrozenSet.{Distinct, contains, subset, set_eq}
use toy_brain.Prelude.Dict.{Dict, get, put, item, keys}
use toy_brain.Fraction.{Fraction, whole, ratio, leq, less, eq_fraction}
use toy_brain.Tlica.Profile
use toy_brain.Tlica.Profile.{ScalarProfile, cogito_id, scalar_profile, scalar_profile-IsValid}
use toy_brain.Tlica.Msi
use toy_brain.Tlica.PtCns
use toy_brain.Tlica.Boundary.{
  boundary, assert_partition, contains-boundary, assert_partition_valid, count_if, ptcns_partition,
}
use toy_brain.Tlica.Preservation.{rank, rank_mono, rank-le-contents}
use toy_brain.Kernel.Invariants.{assert_state_invariants}
use toy_brain.Kernel.Invariants.Rules.{Passes}
use toy_brain.Kernel.Invariants.Sound.{assert_state_invariants_valid}
use toy_brain.Tlica.Msi.{Msi, msi, candidate, is_one, msi-IsValid}
use toy_brain.Tlica.PtCns.{
  ConsistencyEval, damage, neutral, preserve, PtCns, ptcns, ptcns-IsValid, holds_eval,
  positive_contents, negative_contents, neutral_contents,
}
use toy_brain.Kernel.Toce.{
  classify_content, classify_content_iff, conscious_clear, conscious_fuzzy, latent_retrievable,
  unconscious_operative,
}
use toy_brain.Kernel.Io.{PerceptEvent, IsPercept, with_added, with_added_valid}
use toy_brain.Kernel.State.{BrainState}
use toy_brain.Kernel.Valid
use toy_brain.Kernel.Exec.{World, record_event, set_tick}
use toy_brain.Kernel.Tick.{tick, tick_record, initial_state}
use toy_brain.Kernel.Tick.Reach.{ticked, start, next, tick-IsValid, Reach-IsValid}
use toy_brain.Kernel.Tick.Quiet.{
  first_state, first_state-IsValid, initial_state_valid, IsSame, tick_quiet,
}
use toy_brain.Kernel.Tick.Answer.{answer, tick-answer, tick-answer_raises}
use toy_brain.Kernel.Tick.Run.{asked, backed, started, tick_returns}
use toy_brain.Kernel.Tick.Correct.{IsAfter}
use toy_brain.Llm.Env.{Env}
use toy_brain.Llm.Parse.{parse_consistency_eval, name_of}
use toy_brain.Llm.Prompt.{build_prompt, build_retry_prompt, text_or}
use toy_brain.Llm.Cache.{
  ClientShape, plain, cached, derive_l2_metadata, canonical_l2_key, max_entries, l2_store,
  l2_lookup,
}
use toy_brain.Llm.Eval.{LlmPtCns, remember, llm_eval, l2_key}
use toy_brain.Llm.Eval.Retry.{first_parsed, Agrees, llm_eval-first_parsed}
use toy_brain.Llm.Eval.Reuse.{llm_eval-hit, llm_eval-again}
use toy_brain.Llm.Cache.Laws.{entry, l2_lookup-l2_store, l2_store-keeps, l2_store-bounded}

abbrev answer_next : Text → List Text → Result Text × List Text
answer_next prompt [] = (raise llm_transport, [])
answer_next prompt (r ∷ rest) = (ok r, rest)

abbrev script : Env (List Text)
script = record {
  eval_consistency = answer_next;
  digest = λ payload. payload.new_text;
  repr = λ s. s;
  repr_list = λ l. [];
  parse_fraction = λ s. ok (whole 1);
  upper = λ s. s;
  is_space = λ c. c == 32;
  printable = λ c. leb 32 c;
}

abbrev half : Fraction
half = ratio 1 2

abbrev food : PerceptEvent
food = record {
  content_id = codes "food";
  text = codes "warm bread";
  content_state = record {
    available = true;
    verification_path = true;
    retrievable = true;
    operative = false;
  };
  initial_rho = ratio 3 4;
}

food-IsPercept : IsPercept food
unfolding eq_text cogito_id leq
food-IsPercept = record { not_cogito = refl; text_given = refl; rho_in_unit = (refl, refl) }

abbrev begin : BrainState
begin = first_state half

begin-IsValid : Valid.IsValid begin
unfolding less
begin-IsValid = first_state-IsValid half refl refl

abbrev world_of : List Text → World (List Text)
world_of responses = record {
  client = responses;
  cache = [];
  cache_dir_ok = true;
  tick_id = none;
  trace = [];
}

fresh_food : contains food.content_id begin.profile.domain ≡ false
unfolding contains eq_text cogito_id
fresh_food = refl

-- The first response does not parse, the second does.
abbrev hesitant : World (List Text)
hesitant = world_of (codes "maybe" ∷ codes " Answer: *PRESERVE*." ∷ [])

plain_off : derive_l2_metadata plain ≡ none
unfolding derive_l2_metadata
plain_off = refl

hesitant-answer :
    answer script plain plain_off begin begin-IsValid food food-IsPercept fresh_food 7 hesitant
    ≡ ok preserve
unfolding first_parsed parse_consistency_eval build_retry_prompt
hesitant-answer = refl

tick-answer_example :
    (s' : BrainState) × ((tick script plain begin (food ∷ []) 7 hesitant).0
      ≡ ok (s', tick_record script 7 s' ((food, preserve) ∷ [])))
    × Valid.IsValid s'
    × IsAfter begin food preserve s'
tick-answer_example =
    tick-answer script plain plain_off begin begin-IsValid food food-IsPercept fresh_food 7 hesitant
      preserve hesitant-answer

-- A client that never says one of the three words.
abbrev useless : World (List Text)
useless =
    world_of (codes "maybe" ∷ codes "PRESERVE or DAMAGE" ∷ codes "yes" ∷ codes "PRESERVE" ∷ [])

useless-answer :
    answer script plain plain_off begin begin-IsValid food food-IsPercept fresh_food 7 useless
    ≡ raise i_llm_01
unfolding first_parsed parse_consistency_eval build_retry_prompt
useless-answer = refl

tick-answer_raises_example : (tick script plain begin (food ∷ []) 7 useless).0 ≡ raise i_llm_01
tick-answer_raises_example =
    tick-answer_raises script plain plain_off begin begin-IsValid food food-IsPercept fresh_food 7
      useless i_llm_01 useless-answer

-- The state that has been fed, and a run that reaches it.
fed_run :
    (s' : BrainState) × ((tick script plain begin (food ∷ []) 7 hesitant).0
      ≡ ok (s', tick_record script 7 s' ((food, preserve) ∷ [])))
    × Valid.IsValid s'
    × IsAfter begin food preserve s'
fed_run =
    tick-answer script plain plain_off begin begin-IsValid food food-IsPercept fresh_food 7 hesitant
      preserve hesitant-answer

abbrev fed : BrainState
fed = fed_run.0

tick-IsValid_example : Valid.IsValid fed
tick-IsValid_example =
    tick-IsValid script plain begin (food ∷ []) 7 hesitant begin-IsValid (food-IsPercept, tt)
      fed_run.1

below_half : (less (whole 0) half ≡ true) × (less half (whole 1) ≡ true)
unfolding less
below_half = (refl, refl)

Reach-IsValid_example : Valid.IsValid fed
Reach-IsValid_example = Reach-IsValid script plain half below_half.0 below_half.1 (
    next (start (initial_state_valid script half below_half.0 below_half.1))
      (ticked (food ∷ []) 7 hesitant _ (food-IsPercept, tt) fed_run.1))

tick_quiet_example :
    (s' : BrainState) × ((tick script plain begin [] 8 useless).0
      ≡ ok (s', tick_record script 8 s' []))
    × Valid.IsValid s'
    × IsSame begin s'
tick_quiet_example = tick_quiet begin begin-IsValid script plain 8 useless

assert_state_invariants_valid_example : Passes {C = List Text} (assert_state_invariants begin)
assert_state_invariants_valid_example = assert_state_invariants_valid begin begin-IsValid

-- An object with the semantic cache off and one with it on.
abbrev object_of : Option (Text × Text) → LlmPtCns
object_of metadata = record {
  msi = begin.msi;
  texts = (codes "food", codes "warm bread") ∷ [];
  max_attempts = 2;
  cache = (cogito_id, preserve) ∷ [];
  l2_metadata = metadata;
}

unseen : get (codes "food") (object_of none).cache ≡ none
unfolding get eq_text cogito_id
unseen = refl

llm_eval-first_parsed_example :
    Agrees script
      (object_of none)
      (codes "food")
      (first_parsed script 2
        (build_prompt begin.msi.contents ((codes "food", codes "warm bread") ∷ []) (codes "food"))
        hesitant.client)
      []
      (llm_eval script (object_of none) (codes "food") hesitant)
llm_eval-first_parsed_example =
    llm_eval-first_parsed script (object_of none) (codes "food") hesitant unseen refl

abbrev warm : World (List Text)
warm = record useless { cache = (codes "warm bread", entry (codes "warm bread") preserve) ∷ [] }

warm_hit : get (codes "warm bread") warm.cache ≡ some (entry (codes "warm bread") preserve)
unfolding get eq_text name_of
warm_hit = refl

abbrev local : LlmPtCns
local = object_of (some (codes "claude-cli", codes "claude"))

local_key : l2_key script local (codes "food") ≡ some (codes "warm bread")
unfolding l2_key canonical_l2_key text_or get eq_text
local_key = refl

llm_eval-hit_example :
    ((llm_eval script local (codes "food") warm).0
      ≡ ok (preserve, remember script local (codes "food") preserve))
    × ((llm_eval script local (codes "food") warm).1.client ≡ warm.client)
    × ((llm_eval script local (codes "food") warm).1.cache ≡ warm.cache)
llm_eval-hit_example =
    llm_eval-hit script local (codes "food") (codes "warm bread") preserve warm unseen local_key
      warm_hit

-- A tick that the semantic cache answers.
abbrev cli : ClientShape
cli = cached (codes "ClaudeCLIClient") [] (codes "claude")

cli-asked :
    asked script cli begin food 7 warm
    ≡ ok (preserve, remember script (backed script cli begin food) (codes "food") preserve)
unfolding backed started record_event set_tick derive_l2_metadata l2_key canonical_l2_key text_or
    get put eq_text cogito_id name_of
cli-asked =
    (llm_eval-hit script (backed script cli begin food) (codes "food") (codes "warm bread") preserve
      (started script cli begin food 7 warm) refl refl refl).0

tick_returns_example :
    (s' : BrainState) × ((tick script cli begin (food ∷ []) 7 warm).0
      ≡ ok (s', tick_record script 7 s' ((food, preserve) ∷ [])))
    × Valid.IsValid s'
    × IsAfter begin food preserve s'
tick_returns_example =
    tick_returns script cli begin begin-IsValid food food-IsPercept fresh_food 7 warm preserve
      (remember script (backed script cli begin food) (codes "food") preserve) cli-asked

llm_eval-again_example :
    llm_eval script
      (remember script (backed script cli begin food) (codes "food") preserve)
      (codes "food")
      hesitant
    ≡ (
      ok (preserve, remember script (backed script cli begin food) (codes "food") preserve),
      hesitant,
    )
llm_eval-again_example =
    llm_eval-again script (backed script cli begin food) (codes "food")
      (started script cli begin food 7 warm) hesitant cli-asked

l2_store-keeps_example :
    get (codes "warm bread") (l2_store (codes "stone") damage (codes "rock") warm).1.cache
    ≡ some (entry (codes "warm bread") preserve)
l2_store-keeps_example =
    l2_store-keeps (codes "stone") damage (codes "rock") warm (codes "warm bread")
      (entry (codes "warm bread") preserve) warm_hit

l2_store-bounded_example :
    length (l2_store (codes "stone") damage (codes "rock") warm).1.cache ≤ max_entries
l2_store-bounded_example = l2_store-bounded (codes "stone") damage (codes "rock") warm (omega arith)

no_stone : get (codes "stone") warm.cache ≡ none
unfolding get eq_text name_of
no_stone = refl

l2_lookup-l2_store_example :
    (l2_lookup
      (codes "stone")
      (codes "pebble")
      (l2_store (codes "stone") damage (codes "rock") warm).1).0
    ≡ ok (some damage)
l2_lookup-l2_store_example =
    l2_lookup-l2_store (codes "stone") damage (codes "rock") (codes "pebble") warm refl no_stone
      (omega arith)

-- Values of brain/tlica.
abbrev two_values : Dict Fraction
two_values = (cogito_id, whole 1) ∷ (codes "food", ratio 3 4) ∷ []

abbrev two_contents : ScalarProfile
two_contents = record { domain = keys two_values; values = two_values }

two_contents_ok : scalar_profile (keys two_values) two_values ≡ ok two_contents
unfolding scalar_profile set_eq contains eq_text cogito_id less
two_contents_ok = refl

scalar_profile-IsValid_example :
    (two_contents ≡ record { domain = keys two_values; values = two_values })
    × Profile.IsValid two_contents
scalar_profile-IsValid_example = scalar_profile-IsValid (keys two_values) two_values two_contents_ok

abbrev whole_msi : Msi
whole_msi = candidate two_contents (keys two_values) half

whole_msi_ok : msi two_contents (keys two_values) half ≡ ok whole_msi
unfolding msi contains is_one get eq_text cogito_id less eq_fraction item
whole_msi_ok = refl

msi-IsValid_example : (whole_msi ≡ whole_msi) × Msi.IsValid whole_msi
msi-IsValid_example = msi-IsValid two_contents (keys two_values) half whole_msi_ok

abbrev two_evals : Dict ConsistencyEval
two_evals = (cogito_id, preserve) ∷ (codes "food", damage) ∷ []

abbrev two_ptcns : PtCns
two_ptcns = record { msi = whole_msi; eval_map = two_evals }

two_ptcns_ok : ptcns whole_msi two_evals ≡ ok two_ptcns
unfolding ptcns set_eq contains get eq_text cogito_id
two_ptcns_ok = refl

two-Distinct : Distinct (keys two_evals)
unfolding contains eq_text cogito_id
two-Distinct = (refl, (refl, tt))

ptcns_partition_example :
    ((contains (codes "food") (positive_contents two_ptcns) ≡ true)
      ↔ (get (codes "food") two_evals ≡ some preserve))
    × ((contains (codes "food") (negative_contents two_ptcns) ≡ true)
        ↔ (get (codes "food") two_evals ≡ some damage))
    × ((contains (codes "food") (neutral_contents two_ptcns) ≡ true)
        ↔ (get (codes "food") two_evals ≡ some neutral))
    × (count_if (contains (codes "food") (positive_contents two_ptcns))
          + count_if (contains (codes "food") (negative_contents two_ptcns))
          + count_if (contains (codes "food") (neutral_contents two_ptcns))
        ≡ count_if (contains (codes "food") whole_msi.profile.domain))
    × (contains cogito_id (positive_contents two_ptcns) ≡ true)
    × (assert_partition
          (positive_contents two_ptcns)
          (negative_contents two_ptcns)
          (neutral_contents two_ptcns)
          whole_msi.profile.domain
        ≡ ok tt)
ptcns_partition_example =
    ptcns_partition whole_msi two_evals (codes "food") two-Distinct two_ptcns_ok

two_ptcns-IsValid : PtCns.IsValid two_ptcns
two_ptcns-IsValid = (ptcns-IsValid whole_msi two_evals two-Distinct two_ptcns_ok).1

contains-boundary_example : contains (codes "food") (boundary whole_msi two_ptcns) ≡ (
    holds_eval preserve (get (codes "food") two_evals)
    || holds_eval damage (get (codes "food") two_evals))
contains-boundary_example = contains-boundary two_ptcns two_ptcns-IsValid whole_msi (codes "food")

cogito_inside : contains cogito_id (keys two_values) ≡ true
unfolding contains eq_text cogito_id
cogito_inside = refl

rank-le-contents_example :
    leq (rank whole_msi (codes "food" ∷ [])) (rank whole_msi (keys two_values)) ≡ true
rank-le-contents_example = rank-le-contents whole_msi (codes "food" ∷ []) cogito_inside

classify_content_iff_example :
    ((classify_content food.content_state ≡ conscious_clear)
      ↔ ((food.content_state.available ≡ true) × (food.content_state.verification_path ≡ true)))
    × ((classify_content food.content_state ≡ conscious_fuzzy)
        ↔ ((food.content_state.available ≡ true) × (food.content_state.verification_path ≡ false)))
    × ((classify_content food.content_state ≡ latent_retrievable)
        ↔ ((food.content_state.available ≡ false) × (food.content_state.retrievable ≡ true)))
    × ((classify_content food.content_state ≡ unconscious_operative)
        ↔ ((food.content_state.available ≡ false) × (food.content_state.retrievable ≡ false)))
    × ((b : Bool)
        → classify_content (record (food.content_state) { operative = b })
          ≡ classify_content food.content_state)
classify_content_iff_example = classify_content_iff food.content_state
