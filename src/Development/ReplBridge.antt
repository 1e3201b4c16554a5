-- ===== src/Development/ReplBridge.antt =====
-- brain/development/agent_repl_bridge.py: one line of the agent through the Proto-BASIC surface.
-- Python's `str.lower` is a parameter.
pub mod Line
pub mod Summary
pub mod Run
pub mod Executes
pub mod Emissions
use toy_brain.Prelude.{
  ℕ, Bool, Text, List, [], ◌∷◌, Option, none, some, true, false, not, ◌&&◌, ◌||◌, ◌==◌, length, leb,
  any, all, if◌then◌else◌, ◌++◌, codes, ◌-◌,
}
use toy_brain.Prelude.Decimal.{decimal}
use toy_brain.Prelude.Outcome.{Result, ok, ◌>>=◌, ◌>>◌, require, i_agentloop_01}
use toy_brain.Kernel.Io.{has_text}
use toy_brain.Fraction.{Fraction, whole, ratio, leq, less, abs, numerator, denominator}
use toy_brain.Development.Promotion.{operator_injection}
use toy_brain.Development.Repl.{
  Unicode, ProtoBasicGrammar, ProtoBasicToken, ProtoBasicParseResult, ProtoBasicParseCategory,
  ProtoBasicEditKind, ProtoBasicCorrectionHint, valid, near_miss, syntax_invalid, semantic_invalid,
  substitute_token, insert_token, delete_token, case_fold, verb, target, object, tokenize,
  proto_basic_grammar, proto_basic_token, proto_basic_max_line_length,
  proto_basic_max_edit_distance, proto_basic_max_line_tokens, ProtoBasicTokenKind,
}
use toy_brain.Development.Repl.Classify.{parse_line}
use toy_brain.Development.Repl.Command.{ProtoBasicCommand, build_command, execute_command}
use toy_brain.Development.Repl.Feedback.{
  ProtoBasicExecutionResult, ProtoBasicExecutionCategory, ProtoBasicFeedback,
  ProtoBasicFeedbackProvenance, valid_effective, valid_ineffective, score_feedback,
  diminishing_returns_factor, proto_basic_strong_positive_threshold,
  proto_basic_feedback_provenance,
}
use toy_brain.Development.Repl.History.{
  ProtoBasicHistory, append_history, emit_count_for, parse_result, command, execution_result,
  feedback,
}

abbrev pub agent_repl_max_input_len : ℕ
agent_repl_max_input_len = proto_basic_max_line_length

abbrev pub agent_repl_line_id_prefix : Text
agent_repl_line_id_prefix = codes "agent-repl:line:"

abbrev pub agent_repl_command_id_prefix : Text
agent_repl_command_id_prefix = codes "agent-repl:command:"

-- `_FORBIDDEN_NON_CLAIM_TERMS` of coherence_monitor.py
abbrev pub forbidden_non_claim_terms : List Text
forbidden_non_claim_terms =
    codes "conscious"
    ∷ codes "consciousness"
    ∷ codes "sentient"
    ∷ codes "sentience"
    ∷ codes "subjective"
    ∷ codes "qualia"
    ∷ codes "aware"
    ∷ codes "awareness"
    ∷ codes "i-ness"
    ∷ codes "understand"
    ∷ codes "understanding"
    ∷ codes "comprehend"
    ∷ codes "comprehension"
    ∷ codes "believe"
    ∷ codes "belief"
    ∷ codes "intent"
    ∷ codes "agency"
    ∷ codes "self-modification"
    ∷ codes "truth"
    ∷ codes "preserve"
    ∷ codes "damage"
    ∷ []

-- `s.startswith(prefix)`
unfoldable pub starts_with : Text → Text → Bool
starts_with [] s = true
starts_with (a ∷ prefix) [] = false
starts_with (a ∷ prefix) (b ∷ s) = a == b && starts_with prefix s

-- `term in s`
unfoldable pub occurs_in : Text → Text → Bool
unfolding starts_with
occurs_in term [] = starts_with term []
occurs_in term (c ∷ s) = starts_with term (c ∷ s) || occurs_in term s

-- `s.rsplit(":", 1)[-1]`
unfoldable pub after_last_colon : Text → Text
after_last_colon [] = []
after_last_colon (c ∷ s) =
    let rest = after_last_colon s in
    if any (λ d. d == 58) s then rest else if c == 58 then s else c ∷ s

pub record AgentReplGrammarHandle : Type 0 where
  pub grammar : ProtoBasicGrammar
  pub handle_id : Text

pub record AgentReplLineResult : Type 0 where
  pub line_id : Text
  pub parse_category_value : Text
  pub command_canonical : Text
  pub execution_category_value : Text
  pub effective : Bool
  pub feedback_valence_str : Text
  pub feedback_is_strong_positive : Bool
  pub near_miss_hint_summary : Text
  pub diminishing_returns_factor_str : Text
  pub history : ProtoBasicHistory

-- `ProtoBasicParseCategory(...).value`, and so on
abbrev pub value_of_category : ProtoBasicParseCategory → Text
value_of_category valid = codes "valid"
value_of_category near_miss = codes "near-miss"
value_of_category syntax_invalid = codes "syntax-invalid"
value_of_category semantic_invalid = codes "semantic-invalid"
value_of_category ProtoBasicParseCategory.tool_unavailable = codes "tool-unavailable"
value_of_category ProtoBasicParseCategory.resource_limit = codes "resource-limit"
value_of_category ProtoBasicParseCategory.sandbox_fault = codes "sandbox-fault"

abbrev pub value_of_execution : ProtoBasicExecutionCategory → Text
value_of_execution valid_effective = codes "valid-effective"
value_of_execution valid_ineffective = codes "valid-ineffective"
value_of_execution ProtoBasicExecutionCategory.tool_unavailable = codes "tool-unavailable"
value_of_execution ProtoBasicExecutionCategory.resource_limit = codes "resource-limit"
value_of_execution ProtoBasicExecutionCategory.sandbox_fault = codes "sandbox-fault"

abbrev pub edit_kind_value : ProtoBasicEditKind → Text
edit_kind_value substitute_token = codes "SUBSTITUTE_TOKEN"
edit_kind_value insert_token = codes "INSERT_TOKEN"
edit_kind_value delete_token = codes "DELETE_TOKEN"
edit_kind_value case_fold = codes "CASE_FOLD"

-- `_fraction_to_str`
unfoldable pub fraction_to_str : Fraction → Text
unfolding less abs numerator denominator decimal
fraction_to_str q =
    (if less q (whole 0) then codes "-" else [])
    ++ (decimal (numerator (abs q)) ++ (codes "/" ++ decimal (denominator (abs q))))

abbrev pub or_empty : Option Text → Text
or_empty none = []
or_empty (some s) = s

abbrev hint_summary : Option ProtoBasicCorrectionHint → Text
hint_summary none = []
hint_summary (some h) =
    codes "hint kind="
    ++ (edit_kind_value h.edit_kind
        ++ (codes " pos="
            ++ (decimal h.edit_position
                ++ (codes " expect="
                    ++ (or_empty h.expected_token_id
                        ++ (codes " dist=" ++ decimal h.edit_distance))))))

-- `_near_miss_summary`
abbrev pub near_miss_summary : ProtoBasicParseResult → Text
near_miss_summary p = elim p.category [ near_miss ↦ hint_summary p.correction_hint | _ ↦ [] ]

abbrev pub token : Text → ProtoBasicTokenKind → Text → ProtoBasicToken
token token_id kind text = record { token_id = token_id; kind = kind; text = text }

-- the tokens and the grammar of `build_default_agent_repl_grammar`
abbrev pub default_tokens : List ProtoBasicToken
default_tokens =
    token (codes "agent-repl:verb:emit") verb (codes "EMIT")
    ∷ token (codes "agent-repl:verb:note") verb (codes "NOTE")
    ∷ token (codes "agent-repl:target:alpha") target (codes "ALPHA")
    ∷ token (codes "agent-repl:target:beta") target (codes "BETA")
    ∷ token (codes "agent-repl:object:one") object (codes "ONE")
    ∷ token (codes "agent-repl:object:two") object (codes "TWO")
    ∷ []

abbrev pub default_grammar : ProtoBasicGrammar
default_grammar = record {
  tokens = default_tokens;
  command_shapes = (verb ∷ target ∷ []) ∷ (verb ∷ target ∷ object ∷ []) ∷ [];
  max_line_length = proto_basic_max_line_length;
  max_line_tokens = proto_basic_max_line_tokens;
  max_edit_distance = proto_basic_max_edit_distance;
}

module _ (lower : Text → Text) where
  -- `_text_has_forbidden_term` finds a term
  unfoldable pub text_has_forbidden_term : Text → Bool
  unfolding occurs_in
  text_has_forbidden_term text = any (λ term. occurs_in term (lower text)) forbidden_non_claim_terms

module _ (u : Unicode) where
  -- `AgentReplGrammarHandle.__post_init__`
  unfoldable pub agent_repl_grammar_handle : AgentReplGrammarHandle → Result AgentReplGrammarHandle
  agent_repl_grammar_handle h = do
    require (has_text h.handle_id && (all u.printable h.handle_id && leb (length h.handle_id) 64))
        i_agentloop_01
    ok h

  -- the constructors of the tokens, one after another
  unfoldable pub build_tokens : List ProtoBasicToken → Result (Unit {0})
  unfolding proto_basic_token
  build_tokens [] = ok tt
  build_tokens (t ∷ rest) = proto_basic_token u t >>= λ built. build_tokens rest

  unfoldable pub build_default_agent_repl_grammar : Text → Result AgentReplGrammarHandle
  unfolding build_tokens proto_basic_grammar agent_repl_grammar_handle
  build_default_agent_repl_grammar handle_id = do
    build_tokens default_tokens
    grammar ← proto_basic_grammar u default_grammar
    agent_repl_grammar_handle (record { grammar = grammar; handle_id = handle_id })

  module _ (lower : Text → Text) where
    -- the loop over the texts of a result
    unfoldable pub check_texts : List Text → Result (Unit {0})
    unfolding text_has_forbidden_term
    check_texts [] = ok tt
    check_texts (value ∷ rest) = do
      require (all u.printable value) i_agentloop_01
      require (not (text_has_forbidden_term lower value)) i_agentloop_01
      check_texts rest

    -- `AgentReplLineResult.__post_init__`
    unfoldable pub agent_repl_line_result : AgentReplLineResult → Result AgentReplLineResult
    unfolding check_texts
    agent_repl_line_result r = do
      check_texts (
          r.line_id ∷ r.parse_category_value ∷ r.command_canonical ∷ r.execution_category_value
          ∷ r.feedback_valence_str ∷ r.near_miss_hint_summary ∷ r.diminishing_returns_factor_str
          ∷ [])
      ok r
