-- ===== src/Development/Repl/Summary.antt =====
-- brain/development/repl.py: the summary of a history, and the program of one line. Python's `repr`
-- is a parameter. A mapping from every member of an enumeration is a function.
use toy_brain.Prelude.{
  ℕ, Bool, Text, List, [], ◌∷◌, true, false, ◌&&◌, ◌||◌, ◌==◌, ltb, all, if◌then◌else◌, ◌++◌, ◌+◌,
  codes,
}
use toy_brain.Prelude.Decimal.{decimal}
use toy_brain.Prelude.Dict.{Dict}
use toy_brain.Prelude.Outcome.{Result, ok, ◌>>◌, require, summary_keys, summary_sketch, i_repl_17}
use toy_brain.Kernel.Io.{has_text}
use toy_brain.Llm.Parse.{strip}
use toy_brain.Development.Repl.{
  Unicode, ProtoBasicLine, ProtoBasicParseCategory, ProtoBasicParseResult, require_non_reserved_id,
}
use toy_brain.Development.Repl.Feedback.{ProtoBasicExecutionCategory, ProtoBasicExecutionResult}
use toy_brain.Development.Repl.History.{ProtoBasicHistory}

pub record ProtoBasicHistorySummary : Type 0 where
  pub parse_counts : ProtoBasicParseCategory → ℕ
  pub execution_counts : ProtoBasicExecutionCategory → ℕ
  pub emit_counts : Dict ℕ
  pub anti_goodhart_sketch : Text

pub record ProtoBasicProgram : Type 0 where
  pub program_id : Text
  pub line : ProtoBasicLine

-- the places of the members of the enumerations, which tell them apart
abbrev pub parse_place : ProtoBasicParseCategory → ℕ
parse_place ProtoBasicParseCategory.valid = 0
parse_place ProtoBasicParseCategory.near_miss = 1
parse_place ProtoBasicParseCategory.syntax_invalid = 2
parse_place ProtoBasicParseCategory.semantic_invalid = 3
parse_place ProtoBasicParseCategory.tool_unavailable = 4
parse_place ProtoBasicParseCategory.resource_limit = 5
parse_place ProtoBasicParseCategory.sandbox_fault = 6

abbrev pub execution_place : ProtoBasicExecutionCategory → ℕ
execution_place ProtoBasicExecutionCategory.valid_effective = 0
execution_place ProtoBasicExecutionCategory.valid_ineffective = 1
execution_place ProtoBasicExecutionCategory.tool_unavailable = 2
execution_place ProtoBasicExecutionCategory.resource_limit = 3
execution_place ProtoBasicExecutionCategory.sandbox_fault = 4

-- the counts of the entries by their category
unfoldable pub count_parses : List ProtoBasicParseResult → ProtoBasicParseCategory → ℕ
count_parses [] category = 0
count_parses (p ∷ rest) category =
    let others = count_parses rest category in
    if parse_place p.category == parse_place category then others + 1 else others

unfoldable pub count_executions : List ProtoBasicExecutionResult → ProtoBasicExecutionCategory → ℕ
count_executions [] category = 0
count_executions (e ∷ rest) category =
    let others = count_executions rest category in
    if execution_place e.category == execution_place category then others + 1 else others

-- `sum(emit_counts.values())`
unfoldable pub sum_counts : Dict ℕ → ℕ
sum_counts [] = 0
sum_counts ((key, count) ∷ rest) = count + sum_counts rest

-- `s < t` on strings
unfoldable pub text_less : Text → Text → Bool
text_less s [] = false
text_less [] (b ∷ t) = true
text_less (a ∷ s) (b ∷ t) = ltb a b || ((a == b) && text_less s t)

-- `max(emit_counts.items(), key=lambda kv: (kv[1], kv[0]))`, from the best so far
unfoldable pub most_repeated : Text × ℕ → Dict ℕ → Text × ℕ
unfolding text_less
most_repeated best [] = best
most_repeated (form, most) ((key, count) ∷ rest) =
    if ltb most count || ((most == count) && text_less form key)
    then most_repeated (key, count) rest
    else most_repeated (form, most) rest

abbrev pub closing_text : Text
closing_text =
    codes
      " (Fraction in (0, 1]); strong positive feedback for repeated emissions shrinks as 1/(n+1)."

abbrev pub unused_text : Text
unused_text =
    codes "anti-goodhart: no valid-effective emissions yet; "
    ++ codes "diminishing_returns_factor=1 by convention; no repeated no-op pressure observed."

-- `str(diminishing_returns_factor(count))`
abbrev pub factor_text : ℕ → Text
factor_text count = if count == 0 then codes "1" else codes "1/" ++ decimal (count + 1)

abbrev pub check_keys : Dict ℕ → Bool
check_keys [] = true
check_keys ((key, count) ∷ rest) = has_text key && check_keys rest

module _ (repr : Text → Text) where
  unfoldable pub top_sketch : Text × ℕ → Text
  unfolding decimal
  top_sketch (form, count) =
      codes "anti-goodhart: most-repeated canonical form "
      ++ (repr form
          ++ (codes " has emit_count="
              ++ (decimal count
                  ++ (codes "; diminishing_returns_factor="
                      ++ (factor_text count ++ closing_text)))))

  unfoldable pub sketch : Dict ℕ → Text
  unfolding most_repeated top_sketch
  sketch [] = unused_text
  sketch ((form, count) ∷ rest) = top_sketch (most_repeated (form, count) rest)

module _ (u : Unicode) where
  -- `ProtoBasicProgram.__post_init__`
  unfoldable pub proto_basic_program : ProtoBasicProgram → Result ProtoBasicProgram
  unfolding require_non_reserved_id
  proto_basic_program p = do require_non_reserved_id u p.program_id i_repl_17; ok p

  -- `ProtoBasicHistorySummary.__post_init__`
  unfoldable pub proto_basic_history_summary :
      ProtoBasicHistorySummary → Result ProtoBasicHistorySummary
  unfolding strip
  proto_basic_history_summary s = do
    require (check_keys s.emit_counts) summary_keys
    require
        (all u.printable s.anti_goodhart_sketch
          && has_text (strip u.is_space s.anti_goodhart_sketch))
        summary_sketch
    ok s

  module _ (repr : Text → Text) where
    unfoldable pub summarize_repl_history : ProtoBasicHistory → Result ProtoBasicHistorySummary
    unfolding count_parses count_executions sketch proto_basic_history_summary
    summarize_repl_history h = proto_basic_history_summary (record {
      parse_counts = count_parses h.parse_results;
      execution_counts = count_executions h.execution_results;
      emit_counts = h.emit_counts;
      anti_goodhart_sketch = sketch repr h.emit_counts;
    })
