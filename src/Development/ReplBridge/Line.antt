-- ===== src/Development/ReplBridge/Line.antt =====
-- brain/development/agent_repl_bridge.py: `run_repl_line`.
use toy_brain.Prelude.{
  Bool, Text, [], Option, none, some, false, length, leb, ◌++◌, ◌-◌, if◌then◌else◌,
}
use toy_brain.Prelude.Outcome.{Result, ok, ◌>>=◌, ◌>>◌, require, i_agentloop_01}
use toy_brain.Kernel.Io.{has_text}
use toy_brain.Fraction.{Fraction, ratio, leq}
use toy_brain.Development.Promotion.{operator_injection}
use toy_brain.Development.Repl.{Unicode, ProtoBasicGrammar, ProtoBasicParseResult, tokenize}
use toy_brain.Development.Repl.Classify.{parse_line}
use toy_brain.Development.Repl.Command.{is_valid, build_command, execute_command}
use toy_brain.Development.Repl.Feedback.{
  ProtoBasicExecutionResult, ProtoBasicFeedback, ProtoBasicFeedbackProvenance, valid_effective,
  score_feedback, diminishing_returns_factor, proto_basic_strong_positive_threshold,
  proto_basic_feedback_provenance,
}
use toy_brain.Development.Repl.History.{
  ProtoBasicHistory, append_history, emit_count_for, parse_result, command, execution_result,
  feedback,
}
use toy_brain.Development.ReplBridge.{
  value_of_category, value_of_execution, fraction_to_str, after_last_colon, starts_with,
  AgentReplLineResult, agent_repl_command_id_prefix, agent_repl_line_result, AgentReplGrammarHandle,
  near_miss_summary, agent_repl_line_id_prefix, agent_repl_max_input_len,
}

-- what a line leads to before its feedback
pub record Executed : Type 0 where
  pub so_far : ProtoBasicHistory
  pub canonical : Text
  pub result : Option ProtoBasicExecutionResult

-- the factor over the history after the execution, of the count before it
unfoldable pub factor_of : Executed → Fraction
unfolding diminishing_returns_factor emit_count_for
factor_of x = elim x.result [
  | none ↦ ratio 1 1
  | some e ↦ diminishing_returns_factor (emit_count_for x.so_far x.canonical - 1)
]

abbrev pub bridge_provenance : ProtoBasicFeedbackProvenance
bridge_provenance = record {
  source_kind = operator_injection;
  confidence = ratio 1 1;
  trace_event_ids = [];
}

abbrev pub category_of : Option ProtoBasicExecutionResult → Text
category_of none = []
category_of (some e) = value_of_execution e.category

abbrev pub effective_of : Option ProtoBasicExecutionResult → Bool
effective_of none = false
effective_of (some e) = e.effective

-- the record that `run_repl_line` hands to the constructor of its result
unfoldable pub line_result :
    Text
    → ProtoBasicParseResult
    → Executed
    → ProtoBasicFeedback
    → ProtoBasicHistory
    → AgentReplLineResult
unfolding fraction_to_str factor_of leq
line_result line_id p x f h = record {
  line_id = line_id;
  parse_category_value = value_of_category p.category;
  command_canonical = x.canonical;
  execution_category_value = category_of x.result;
  effective = effective_of x.result;
  feedback_valence_str = fraction_to_str f.valence;
  feedback_is_strong_positive = leq proto_basic_strong_positive_threshold f.valence;
  near_miss_hint_summary = near_miss_summary p;
  diminishing_returns_factor_str = fraction_to_str (factor_of x);
  history = h;
}

module _ (u : Unicode) where
  unfoldable pub execute_valid :
      ProtoBasicGrammar → ProtoBasicHistory → ProtoBasicParseResult → Text → Result Executed
  unfolding build_command append_history execute_command after_last_colon
  execute_valid g h p line_id = do
    c ← build_command u g p (agent_repl_command_id_prefix ++ after_last_colon line_id) none []
    with_command ← append_history h (command c)
    e ← execute_command u c valid_effective []
    with_execution ← append_history with_command (execution_result e)
    ok (record { so_far = with_execution; canonical = c.canonical_form; result = some e })

  unfoldable pub execute_parsed :
      ProtoBasicGrammar → ProtoBasicHistory → ProtoBasicParseResult → Text → Result Executed
  unfolding execute_valid
  execute_parsed g h p line_id =
      if is_valid p.category
      then execute_valid g h p line_id
      else ok (record { so_far = h; canonical = []; result = none })

  unfoldable pub score_executed :
      ProtoBasicFeedbackProvenance → ProtoBasicParseResult → Executed → Result ProtoBasicFeedback
  unfolding score_feedback factor_of
  score_executed provenance p x = elim x.result [
    | none ↦ score_feedback u (some p) none provenance (ratio 1 1)
    | some e ↦ score_feedback u none (some e) provenance (factor_of x)
  ]

  module _ (lower : Text → Text) where
    -- `run_repl_line`
    unfoldable pub run_repl_line :
        AgentReplGrammarHandle → ProtoBasicHistory → Text → Text → Result AgentReplLineResult
    unfolding starts_with tokenize parse_line append_history execute_parsed score_executed
        proto_basic_feedback_provenance line_result agent_repl_line_result
    run_repl_line handle history raw_text line_id = do
      require (has_text line_id) i_agentloop_01
      require (starts_with agent_repl_line_id_prefix line_id) i_agentloop_01
      require (leb (length raw_text) agent_repl_max_input_len) i_agentloop_01
      line ← tokenize u raw_text line_id
      p ← parse_line u handle.grammar line
      with_parse ← append_history history (parse_result p)
      x ← execute_parsed handle.grammar with_parse p line_id
      provenance ← proto_basic_feedback_provenance u bridge_provenance
      f ← score_executed provenance p x
      new_history ← append_history x.so_far (feedback f)
      agent_repl_line_result u lower (line_result line_id p x f new_history)
