-- ===== src/Development/Repl/Feedback.antt =====
-- brain/development/repl.py: the outcome of an execution and the feedback on a line.
use toy_brain.Prelude.{ℕ, Bool, Text, List, Option, none, some, true, false, ◌&&◌, ◌+◌}
use toy_brain.Prelude.Outcome.{
  Result, ok, raise, ◌>>◌, require, i_repl_06, i_repl_07, i_repl_13, i_repl_15, repl_reference,
  score_arguments, valence_range,
}
use toy_brain.Fraction.{Fraction, whole, ratio, leq, mul}
use toy_brain.Development.Promotion.{FrameSourceKind, check_trace_ids, require_unit_fraction}
use toy_brain.Development.Repl.{
  Unicode, require_non_reserved_id, ProtoBasicParseCategory, valid, near_miss,
  ProtoBasicParseResult,
}

pub data ProtoBasicExecutionCategory : Type 0 where
  valid_effective valid_ineffective tool_unavailable resource_limit sandbox_fault :
      ProtoBasicExecutionCategory

pub record ProtoBasicExecutionResult : Type 0 where
  pub line_id : Text
  pub category : ProtoBasicExecutionCategory
  pub effective : Bool
  pub detail : Text

-- `category is VALID_EFFECTIVE`
abbrev pub is_effective : ProtoBasicExecutionCategory → Bool
is_effective valid_effective = true
is_effective other = false

abbrev pub same_bool : Bool → Bool → Bool
same_bool true b = b
same_bool false true = false
same_bool false false = true

-- `ProtoBasicValence` is the fraction that its constructor accepts.
pub record ProtoBasicFeedbackProvenance : Type 0 where
  pub source_kind : FrameSourceKind
  pub confidence : Fraction
  pub trace_event_ids : List Text

pub record ProtoBasicFeedback : Type 0 where
  pub line_id : Text
  pub valence : Fraction
  pub provenance : ProtoBasicFeedbackProvenance
  pub parse_category : Option ProtoBasicParseCategory
  pub execution_category : Option ProtoBasicExecutionCategory
  pub detail : Text

-- the fraction -n/d
abbrev pub negative : ℕ → ℕ → Fraction
negative n d = record (ratio 0 d) { minus = n }

abbrev pub proto_basic_strong_positive_threshold : Fraction
proto_basic_strong_positive_threshold = ratio 1 10

unfoldable pub require_proto_basic_valence : Fraction → Result (Unit {0})
unfolding leq
require_proto_basic_valence value =
    require (leq (negative 1 1) value && leq value (whole 1)) valence_range

-- `_PARSE_VALENCE_TABLE` and `_EXECUTION_VALENCE_TABLE`
abbrev pub parse_valence_table : ProtoBasicParseCategory → Fraction
parse_valence_table valid = whole 0
parse_valence_table near_miss = negative 1 10
parse_valence_table ProtoBasicParseCategory.sandbox_fault = negative 1 2
parse_valence_table other = negative 1 4

abbrev pub execution_valence_table : ProtoBasicExecutionCategory → Fraction
execution_valence_table valid_effective = ratio 1 2
execution_valence_table valid_ineffective = whole 0
execution_valence_table sandbox_fault = negative 1 2
execution_valence_table other = negative 1 4

unfoldable pub diminishing_returns_factor : ℕ → Fraction
diminishing_returns_factor emit_count = ratio 1 (emit_count + 1)

-- the valence of an execution: only an effective one is scaled
unfoldable pub execution_valence : ProtoBasicExecutionCategory → Fraction → Fraction
unfolding mul
execution_valence valid_effective factor = mul (execution_valence_table valid_effective) factor
execution_valence other factor = execution_valence_table other

-- the feedback that `score_feedback` builds from an execution, and from a parse
unfoldable pub execution_feedback :
    ProtoBasicExecutionResult → ProtoBasicFeedbackProvenance → Fraction → ProtoBasicFeedback
unfolding execution_valence
execution_feedback e provenance factor = record {
  line_id = e.line_id;
  valence = execution_valence e.category factor;
  provenance = provenance;
  parse_category = none;
  execution_category = some e.category;
  detail = e.detail;
}

abbrev pub parse_feedback :
    ProtoBasicParseResult → ProtoBasicFeedbackProvenance → ProtoBasicFeedback
parse_feedback p provenance = record {
  line_id = p.line_id;
  valence = parse_valence_table p.category;
  provenance = provenance;
  parse_category = some p.category;
  execution_category = none;
  detail = p.detail;
}

-- an exception of any kind that is raised again under one row
abbrev pub recast : {A : Type 0} → Result A → Result A → Result A
recast (ok a) other = ok a
recast (raise x) other = other

module _ (u : Unicode) where
  -- `ProtoBasicExecutionResult.__post_init__`
  unfoldable pub proto_basic_execution_result :
      ProtoBasicExecutionResult → Result ProtoBasicExecutionResult
  unfolding require_non_reserved_id
  proto_basic_execution_result e = do
    require_non_reserved_id u e.line_id i_repl_13
    require (same_bool e.effective (is_effective e.category)) i_repl_13
    ok e

  -- `ProtoBasicFeedbackProvenance.__post_init__`
  unfoldable pub proto_basic_feedback_provenance :
      ProtoBasicFeedbackProvenance → Result ProtoBasicFeedbackProvenance
  unfolding require_unit_fraction check_trace_ids
  proto_basic_feedback_provenance p = do
    recast (require_unit_fraction p.confidence) (raise i_repl_07)
    check_trace_ids u.printable u.is_space p.trace_event_ids
    ok p

  abbrev has_reference : Option ProtoBasicParseCategory → Option ProtoBasicExecutionCategory → Bool
  has_reference none none = false
  has_reference _ _ = true

  -- `ProtoBasicFeedback.__post_init__`, and the constructor of its valence before it
  unfoldable pub proto_basic_feedback : ProtoBasicFeedback → Result ProtoBasicFeedback
  unfolding require_proto_basic_valence require_non_reserved_id
  proto_basic_feedback f = do
    recast (require_proto_basic_valence f.valence) (raise i_repl_06)
    require_non_reserved_id u f.line_id i_repl_07
    require (has_reference f.parse_category f.execution_category) repl_reference
    ok f

  score_execution :
      ProtoBasicExecutionResult
      → ProtoBasicFeedbackProvenance
      → Fraction
      → Result ProtoBasicFeedback
  unfolding execution_valence execution_feedback require_proto_basic_valence proto_basic_feedback
  score_execution e provenance factor = do
    require_proto_basic_valence (execution_valence e.category factor)
    proto_basic_feedback (execution_feedback e provenance factor)

  score_parse : ProtoBasicParseResult → ProtoBasicFeedbackProvenance → Result ProtoBasicFeedback
  unfolding require_proto_basic_valence proto_basic_feedback
  score_parse p provenance = do
    require_proto_basic_valence (parse_valence_table p.category)
    proto_basic_feedback (parse_feedback p provenance)

  -- the test of `diminishing_returns_factor`, which comes after that of the arguments
  abbrev require_factor : Fraction → Result (Unit {0})
  require_factor factor = require (leq (whole 0) factor && leq factor (whole 1)) i_repl_15

  unfoldable pub score_feedback :
      Option ProtoBasicParseResult
      → Option ProtoBasicExecutionResult
      → ProtoBasicFeedbackProvenance
      → Fraction
      → Result ProtoBasicFeedback
  unfolding score_execution score_parse leq
  score_feedback none (some e) provenance factor = do
    require_factor factor
    score_execution e provenance factor
  score_feedback (some p) none provenance factor = do
    require_factor factor
    score_parse p provenance
  score_feedback _ _ provenance factor = raise score_arguments
