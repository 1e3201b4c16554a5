-- ===== src/Development/ReplBridge/Summary.antt =====
-- brain/development/agent_repl_bridge.py: the summary for the reply layer.
use toy_brain.Prelude.{ℕ, Text, [], ◌∷◌, ◌++◌, codes}
use toy_brain.Prelude.Decimal.{decimal}
use toy_brain.Prelude.Dict.{Dict}
use toy_brain.Prelude.Outcome.{Result, ok, ◌>>=◌, ◌>>◌}
use toy_brain.Development.Repl.{Unicode, ProtoBasicParseCategory}
use toy_brain.Development.Repl.Feedback.{ProtoBasicExecutionCategory}
use toy_brain.Development.Repl.History.{ProtoBasicHistory}
use toy_brain.Development.Repl.Summary.{
  ProtoBasicHistorySummary, summarize_repl_history, sum_counts, most_repeated,
}
use toy_brain.Development.ReplBridge.{check_texts}

pub record AgentReplBridgeSummary : Type 0 where
  pub parse_valid_count : ℕ
  pub parse_near_miss_count : ℕ
  pub parse_syntax_invalid_count : ℕ
  pub execution_valid_effective_count : ℕ
  pub execution_valid_ineffective_count : ℕ
  pub emit_total : ℕ
  pub most_repeated_canonical : Text
  pub most_repeated_emit_count : ℕ
  pub summary_line : Text

-- the form with the most executions, or the empty text
unfoldable pub most_of : Dict ℕ → Text × ℕ
unfolding most_repeated
most_of [] = ([], 0)
most_of (first ∷ rest) = most_repeated first rest

module _ (u : Unicode) (lower repr : Text → Text) where
  -- `AgentReplBridgeSummary.__post_init__`; the empty text passes the tests of its characters
  unfoldable pub agent_repl_bridge_summary : AgentReplBridgeSummary → Result AgentReplBridgeSummary
  unfolding check_texts
  agent_repl_bridge_summary s = do
    check_texts u lower (s.most_repeated_canonical ∷ s.summary_line ∷ [])
    ok s

  -- the record that `summarize_repl_for_agent` hands to the constructor
  unfoldable pub bridge_summary_of : ProtoBasicHistorySummary → Text × ℕ → AgentReplBridgeSummary
  unfolding sum_counts decimal
  bridge_summary_of base (top, most) = record {
    parse_valid_count = base.parse_counts ProtoBasicParseCategory.valid;
    parse_near_miss_count = base.parse_counts ProtoBasicParseCategory.near_miss;
    parse_syntax_invalid_count = base.parse_counts ProtoBasicParseCategory.syntax_invalid;
    execution_valid_effective_count =
        base.execution_counts ProtoBasicExecutionCategory.valid_effective;
    execution_valid_ineffective_count =
        base.execution_counts ProtoBasicExecutionCategory.valid_ineffective;
    emit_total = sum_counts base.emit_counts;
    most_repeated_canonical = top;
    most_repeated_emit_count = most;
    summary_line =
        codes "agent_repl parse_valid="
        ++ (decimal (base.parse_counts ProtoBasicParseCategory.valid)
            ++ (codes " near_miss="
                ++ (decimal (base.parse_counts ProtoBasicParseCategory.near_miss)
                    ++ (codes " syntax_invalid="
                        ++ (decimal (base.parse_counts ProtoBasicParseCategory.syntax_invalid)
                            ++ (codes " exec_effective="
                                ++ (decimal (
                                      base.execution_counts
                                        ProtoBasicExecutionCategory.valid_effective)
                                    ++ (codes " exec_ineffective="
                                        ++ (decimal (
                                              base.execution_counts
                                                ProtoBasicExecutionCategory.valid_ineffective)
                                            ++ (codes " emit_total="
                                                ++ (decimal (sum_counts base.emit_counts)
                                                    ++ (codes " top="
                                                        ++ (repr top
                                                            ++ (codes "/"
                                                            ++ decimal most))))))))))))));
  }

  unfoldable pub summarize_repl_for_agent : ProtoBasicHistory → Result AgentReplBridgeSummary
  unfolding summarize_repl_history most_of bridge_summary_of agent_repl_bridge_summary
  summarize_repl_for_agent h = do
    base ← summarize_repl_history u repr h
    agent_repl_bridge_summary (bridge_summary_of base (most_of base.emit_counts))
