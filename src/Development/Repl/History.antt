-- ===== src/Development/Repl/History.antt =====
-- brain/development/repl.py: the append-only history.
use toy_brain.Prelude.{
  ℕ, Text, List, [], ◌∷◌, Option, none, some, eq_text, if◌then◌else◌, ◌++◌, ◌+◌,
}
use toy_brain.Prelude.Outcome.{Result, ok, ◌>>◌, require, i_repl_14}
use toy_brain.Prelude.Dict.{Dict, get, put}
use toy_brain.Kernel.Io.{has_text}
use toy_brain.Development.Repl.{ProtoBasicParseResult}
use toy_brain.Development.Repl.Command.{ProtoBasicCommand}
use toy_brain.Development.Repl.Feedback.{ProtoBasicExecutionResult, ProtoBasicFeedback}

pub record ProtoBasicHistory : Type 0 where
  pub parse_results : List ProtoBasicParseResult
  pub commands : List ProtoBasicCommand
  pub execution_results : List ProtoBasicExecutionResult
  pub feedback : List ProtoBasicFeedback
  pub emit_counts : Dict ℕ

-- `ProtoBasicHistory.__post_init__`
unfoldable pub check_counts : Dict ℕ → Result (Unit {0})
check_counts [] = ok tt
check_counts ((key, count) ∷ rest) = do require (has_text key) i_repl_14; check_counts rest

unfoldable pub proto_basic_history : ProtoBasicHistory → Result ProtoBasicHistory
unfolding check_counts
proto_basic_history h = do check_counts h.emit_counts; ok h

abbrev pub or_zero : Option ℕ → ℕ
or_zero none = 0
or_zero (some n) = n

unfoldable pub emit_count_for : ProtoBasicHistory → Text → ℕ
unfolding get
emit_count_for h form = or_zero (get form h.emit_counts)

-- the keyword argument of `append_history` that is given
pub data Entry : Type 0 where
  parse_result : ProtoBasicParseResult → Entry
  command : ProtoBasicCommand → Entry
  execution_result : ProtoBasicExecutionResult → Entry
  feedback : ProtoBasicFeedback → Entry

-- the first command from a line
unfoldable pub matching : Text → List ProtoBasicCommand → Option ProtoBasicCommand
matching line_id [] = none
matching line_id (c ∷ rest) =
    if eq_text c.source_line_id line_id then some c else matching line_id rest

unfoldable pub counted : Option ProtoBasicCommand → Dict ℕ → Dict ℕ
unfolding get put
counted none counts = counts
counted (some c) counts = put c.canonical_form (or_zero (get c.canonical_form counts) + 1) counts

-- what `append_history` hands to the constructor
unfoldable pub appended : ProtoBasicHistory → Entry → ProtoBasicHistory
unfolding matching counted
appended h (parse_result p) = record h { parse_results = h.parse_results ++ p ∷ [] }
appended h (command c) = record h { commands = h.commands ++ c ∷ [] }
appended h (execution_result e) = record h {
  execution_results = h.execution_results ++ e ∷ [];
  emit_counts = counted (matching e.line_id h.commands) h.emit_counts;
}
appended h (feedback f) = record h { feedback = h.feedback ++ f ∷ [] }

-- `append_history`, of the one argument that it takes
unfoldable pub append_history : ProtoBasicHistory → Entry → Result ProtoBasicHistory
unfolding appended proto_basic_history
append_history h entry = proto_basic_history (appended h entry)
