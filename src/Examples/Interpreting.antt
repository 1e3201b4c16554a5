-- ===== src/Examples/Interpreting.antt =====
-- The Proto-BASIC surface at the default grammar of its bridge, with ASCII letters that fold.
use toy_brain.Prelude.{
  ℕ, Bool, Text, List, [], ◌∷◌, Option, none, some, true, ◌≡◌, refl, arith, ◌&&◌, leb,
  if◌then◌else◌, map, codes, ◌+◌, ◌≤◌, ◌↔◌, eq_text,
}
use toy_brain.Prelude.Outcome.{Result, ok, raise}
use toy_brain.Fraction.{leq, ratio, whole}
use toy_brain.Development.Ids.{IsTable}
use toy_brain.Development.Promotion.{operator_injection}
use toy_brain.Development.Repl.{
  Unicode, ProtoBasicLine, ProtoBasicParseResult, ProtoBasicCorrectionHint, proto_basic_token,
  proto_basic_grammar, proto_basic_line, tokenize, substitute_token, near_miss, valid, verb, target,
}
use toy_brain.Development.Repl.Correction.{edited}
use toy_brain.Development.Repl.Spelling.{missing}
use toy_brain.Development.Repl.Grammar.{IsGrammar}
use toy_brain.Development.Repl.Classify.{parse_line, exact_matches}
use toy_brain.Development.Repl.Lookup.{find_exact}
use toy_brain.Development.Repl.Parse.{parse_line-returns, parse_line-edited, IsCommandLine}
use toy_brain.Development.ReplBridge.{
  default_grammar, AgentReplGrammarHandle, starts_with, AgentReplLineResult,
  agent_repl_line_id_prefix, agent_repl_line_result,
}
use toy_brain.Development.Repl.Spelling.{missing}
use toy_brain.Development.Repl.Feedback.{
  ProtoBasicExecutionResult, ProtoBasicFeedbackProvenance, ProtoBasicFeedback, valid_effective,
  proto_basic_execution_result, score_feedback,
}
use toy_brain.Development.Repl.Score.{IsScored, InRange, IsStrong, score_feedback-IsStrong}
use toy_brain.Development.Repl.History.{
  command, appended, ProtoBasicHistory, emit_count_for, append_history, matching, check_counts,
  appended, or_zero, execution_result,
}
use toy_brain.Development.Repl.Command.{
  ProtoBasicCommand, proto_basic_command, canonical_command_form,
}
use toy_brain.Development.ReplBridge.Line.{run_repl_line}
use toy_brain.Development.Repl.Built.{command_of}
use toy_brain.Development.Repl.Counts.{IsHistory, append-IsHistory, executed}
use toy_brain.Development.ReplBridge.Emissions.{IsRun, run_repl_line-IsRun}
use toy_brain.Development.Repl.Summary.{
  sum_counts, ProtoBasicHistorySummary, summarize_repl_history,
}
use toy_brain.Development.Repl.Totals.{parse_sum, execution_sum, summarize_repl_history-totals}
use toy_brain.Prelude.Dict.{get}

abbrev letters : ℕ → Bool
letters c = leb 32 c && leb c 126

abbrev fold_letter : ℕ → ℕ
fold_letter c = if leb 65 c && leb c 90 then c + 32 else c

abbrev fold : Text → Text
fold s = map fold_letter s

abbrev ascii : Unicode
ascii = record { printable = letters; is_space = λ c. leb c 32; casefold = fold }

ascii-IsTable : IsTable ascii.printable ascii.is_space
ascii-IsTable = record { ascii = λ c h. ground arith; visible = λ c h. ground arith }

default-IsGrammar : IsGrammar ascii default_grammar
unfolding proto_basic_token proto_basic_grammar eq_text
default-IsGrammar = record {
  tokens_accepted = (refl, (refl, (refl, (refl, (refl, (refl, tt))))));
  grammar_accepted = refl;
}

abbrev line : List Text → ProtoBasicLine
line pieces = record {
  line_id = codes "agent-repl:line:1";
  raw_text = codes "a line";
  tokens = pieces;
}

abbrev emit_alpha : List Text
emit_alpha = codes "EMIT" ∷ codes "ALPHA" ∷ []

abbrev emit_gamma : List Text
emit_gamma = codes "EMIT" ∷ codes "GAMMA" ∷ []

emit_alpha-accepted : proto_basic_line ascii (line emit_alpha) ≡ ok (line emit_alpha)
unfolding proto_basic_line eq_text
emit_alpha-accepted = refl

emit_gamma-accepted : proto_basic_line ascii (line emit_gamma) ≡ ok (line emit_gamma)
unfolding proto_basic_line eq_text
emit_gamma-accepted = refl

abbrev gamma_hint : ProtoBasicCorrectionHint
gamma_hint = record {
  edit_kind = substitute_token;
  edit_position = 1;
  expected_token_id = some (codes "agent-repl:target:alpha");
  edit_distance = 1;
}

abbrev gamma_result : ProtoBasicParseResult
gamma_result = record {
  line_id = codes "agent-repl:line:1";
  category = near_miss;
  matched_shape = some (verb ∷ target ∷ []);
  matched_token_ids = codes "agent-repl:verb:emit" ∷ codes "agent-repl:target:alpha" ∷ [];
  correction_hint = some gamma_hint;
  detail = codes "substitute-token";
}

emit_gamma-parsed : parse_line ascii default_grammar (line emit_gamma) ≡ ok gamma_result
unfolding parse_line eq_text
emit_gamma-parsed = refl

parse_line-returns_example :
    (p : ProtoBasicParseResult) × (parse_line ascii default_grammar (line emit_alpha) ≡ ok p)
    × (p.line_id ≡ codes "agent-repl:line:1")
    × ((p.category ≡ valid) ↔ IsCommandLine default_grammar emit_alpha)
parse_line-returns_example =
    parse_line-returns ascii default_grammar default-IsGrammar (line emit_alpha) emit_alpha-accepted

gamma-edited : emit_alpha ≡ edited default_grammar gamma_hint emit_gamma
unfolding edited eq_text
gamma-edited = refl

gamma-missing : missing (exact_matches ascii default_grammar emit_gamma) ≤ 1
unfolding find_exact eq_text
gamma-missing = omega arith

parse_line-edited_example :
    parse_line ascii default_grammar (line emit_alpha)
    ≡ ok (record {
      line_id = codes "agent-repl:line:1";
      category = valid;
      matched_shape = some (verb ∷ target ∷ []);
      matched_token_ids = codes "agent-repl:verb:emit" ∷ codes "agent-repl:target:alpha" ∷ [];
      correction_hint = none;
      detail = codes "ok";
    })
parse_line-edited_example =
    parse_line-edited ascii default_grammar default-IsGrammar (line emit_gamma) gamma_result
      gamma_hint (line emit_alpha) emit_gamma-accepted emit_gamma-parsed refl gamma-missing
      emit_alpha-accepted gamma-edited

abbrev effective : ProtoBasicExecutionResult
effective = record {
  line_id = codes "agent-repl:line:1";
  category = valid_effective;
  effective = true;
  detail = [];
}

abbrev sourced : ProtoBasicFeedbackProvenance
sourced = record { source_kind = operator_injection; confidence = ratio 1 1; trace_event_ids = [] }

effective-IsScored : IsScored ascii none (some effective)
unfolding IsScored proto_basic_execution_result eq_text
effective-IsScored = refl

unit_low : (leq (whole 0) (ratio 1 4) ≡ true) × (leq (ratio 1 4) (whole 1) ≡ true)
unfolding leq
unit_low = (refl, refl)

score_feedback-IsStrong_example :
    (f : ProtoBasicFeedback) × (score_feedback ascii none (some effective) sourced (ratio 1 4)
      ≡ ok f)
    × InRange f.valence
    × (IsStrong f.valence
        ↔ ((f.execution_category ≡ some valid_effective) × (leq (ratio 1 5) (ratio 1 4) ≡ true)))
score_feedback-IsStrong_example =
    score_feedback-IsStrong ascii none (some effective) sourced (ratio 1 4) effective-IsScored
      unit_low.0 unit_low.1

abbrev no_history : ProtoBasicHistory
no_history = record {
  parse_results = [];
  commands = [];
  execution_results = [];
  feedback = [];
  emit_counts = [];
}

no_history-IsHistory : IsHistory ascii no_history
unfolding emit_count_for check_counts sum_counts eq_text
no_history-IsHistory = record {
  commands_accepted = tt;
  known = tt;
  counts = λ form. refl;
  accepted = refl;
  total = refl;
}

abbrev emit : ProtoBasicCommand
emit =
    command_of (codes "agent-repl:command:1") (codes "agent-repl:line:1") (verb ∷ target ∷ [])
      (codes "agent-repl:verb:emit" ∷ codes "agent-repl:target:alpha" ∷ [])

emit-accepted : proto_basic_command ascii emit ≡ ok emit
unfolding proto_basic_command canonical_command_form eq_text
emit-accepted = refl

append-IsHistory_example :
    (append_history no_history (command emit) ≡ ok (appended no_history (command emit)))
    × IsHistory ascii (appended no_history (command emit))
append-IsHistory_example =
    append-IsHistory ascii no_history (command emit) no_history-IsHistory emit-accepted

abbrev one_history : ProtoBasicHistory
one_history = appended (appended no_history (command emit)) (execution_result effective)

emit-matching : matching (codes "agent-repl:line:1") (emit ∷ []) ≡ some emit
unfolding matching eq_text
emit-matching = refl

one_history-IsHistory : IsHistory ascii one_history
unfolding appended
one_history-IsHistory =
    let with_command =
      append-IsHistory ascii no_history (command emit) no_history-IsHistory emit-accepted in
    (append-IsHistory ascii (appended no_history (command emit)) (execution_result effective)
      with_command.1 (emit, emit-matching)).1

summarize_repl_history-totals_example :
    (s : ProtoBasicHistorySummary) × (summarize_repl_history ascii (λ s. codes "a form") one_history
      ≡ ok s)
    × (parse_sum s.parse_counts ≡ 0)
    × (execution_sum s.execution_counts ≡ 1)
    × (sum_counts s.emit_counts ≡ 1)
    × ((form : Text)
        → or_zero (get form s.emit_counts) ≡ executed (emit ∷ []) form (effective ∷ []))
unfolding appended matching
summarize_repl_history-totals_example =
    summarize_repl_history-totals ascii ascii-IsTable (λ s. codes "a form") (λ s. refl) one_history
      one_history-IsHistory

abbrev handle : AgentReplGrammarHandle
handle = record { grammar = default_grammar; handle_id = codes "agent-repl:grammar:default" }

emit_alpha-tokenized :
    tokenize ascii (codes "EMIT ALPHA") (codes "agent-repl:line:1")
    ≡ ok (record (line emit_alpha) { raw_text = codes "EMIT ALPHA" })
unfolding tokenize eq_text
emit_alpha-tokenized = refl

line_id-prefixed : starts_with agent_repl_line_id_prefix (codes "agent-repl:line:1") ≡ true
unfolding starts_with
line_id-prefixed = refl

no_history-fresh : matching (codes "agent-repl:line:1") no_history.commands ≡ none
unfolding matching
no_history-fresh = refl

run_repl_line-IsRun_example :
    (r : AgentReplLineResult) × (run_repl_line ascii fold handle no_history
        (codes "EMIT ALPHA")
        (codes "agent-repl:line:1")
      ≡ agent_repl_line_result ascii fold r)
    × IsRun ascii default_grammar emit_alpha no_history r
run_repl_line-IsRun_example =
    run_repl_line-IsRun ascii fold ascii-IsTable handle default-IsGrammar no_history
      (codes "EMIT ALPHA") (codes "agent-repl:line:1")
      (record (line emit_alpha) { raw_text = codes "EMIT ALPHA" }) no_history-IsHistory
      emit_alpha-tokenized line_id-prefixed no_history-fresh

-- what a result shows besides its history
abbrev shown : Result AgentReplLineResult → Option (Text × (Text × (Text × Bool)))
shown (ok r) = some (
  r.feedback_valence_str,
  (r.command_canonical, (r.diminishing_returns_factor_str, r.feedback_is_strong_positive)),
)
shown (raise x) = none

emit_alpha_shown :
    shown
      (run_repl_line ascii fold handle no_history (codes "EMIT ALPHA") (codes "agent-repl:line:1"))
    ≡ some (
      codes "1/2",
      (
        codes "shape=verb|target;tokens=agent-repl:verb:emit|agent-repl:target:alpha",
        (codes "1/1", true),
      ),
    )
unfolding run_repl_line eq_text
emit_alpha_shown = refl
