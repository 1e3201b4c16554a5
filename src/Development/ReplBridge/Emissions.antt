-- ===== src/Development/ReplBridge/Emissions.antt =====
-- `run_repl_line` on a history: the counts that it leaves, and when its feedback is strong.
use mathlib.Core.Path.{subst}
use toy_brain.Prelude.{
  Text, List, [], none, true, ◌≡◌, refl, ◌+◌, ◌≤◌, ◌↔◌, codes, false, Bool-cases, sym, inl, inr,
  ◌∙◌, ◌⊎◌,
}
use toy_brain.Prelude.Outcome.{ok, i_repl_12, i_repl_03, i_repl_07}
use toy_brain.Development.Ids.{IsTable}
use toy_brain.Development.Repl.{
  Unicode, require_non_reserved_id, ProtoBasicToken, ProtoBasicGrammar, ProtoBasicParseResult,
  has_shape, ProtoBasicLine, tokenize,
}
use toy_brain.Development.Repl.Grammar.{IsGrammar}
use toy_brain.Development.Repl.Spelling.{Tokens, texts_of}
use toy_brain.Development.Repl.Valid.{valid_of}
use toy_brain.Development.Repl.Classify.{parse_line}
use toy_brain.Development.Repl.Lookup.{kinds_of}
use toy_brain.Development.Repl.Parse.{
  result_of, IsCommandLine, parse_spelled, line_named, parse_line-returns,
}
use toy_brain.Development.Repl.Command.{is_valid, is_valid}
use toy_brain.Development.Repl.Feedback.{ProtoBasicFeedback}
use toy_brain.Development.Repl.History.{
  ProtoBasicHistory, parse_result, matching, appended, emit_count_for, feedback,
}
use toy_brain.Development.Repl.Counts.{IsHistory, append-IsHistory}
use toy_brain.Development.Repl.Score.{score_parse-weak}
use toy_brain.Development.ReplBridge.{
  AgentReplLineResult, AgentReplGrammarHandle, starts_with, agent_repl_line_id_prefix,
  agent_repl_line_result,
}
use toy_brain.Development.ReplBridge.Line.{
  Executed, score_executed, bridge_provenance, run_repl_line, execute_parsed, line_result,
}
use toy_brain.Development.ReplBridge.Executes.{runs, scored, executed_line}
use toy_brain.Development.ReplBridge.Run.{
  rename_row, tokenize-accepted, tokenize-short, starts_with-has_text, is_valid_iff,
}
use toy_brain.Fraction.{leq, ratio}

-- What `run_repl_line` gives: the record that it constructs, the history in order, the count of the
-- form one higher, and feedback that is strong for the first five executions of a form only.
pub record IsRun (u : Unicode) (g : ProtoBasicGrammar) (pieces : List Text) (h : ProtoBasicHistory)
    (r : AgentReplLineResult) : Type 0 where
  pub history : IsHistory u r.history
  pub counts :
      (IsCommandLine g pieces
        × (emit_count_for r.history r.command_canonical ≡ emit_count_for h r.command_canonical + 1))
      ⊎ ((IsCommandLine g pieces → ⊥) × (r.history.emit_counts ≡ h.emit_counts))
  pub strong :
      (r.feedback_is_strong_positive ≡ true)
      ↔ (IsCommandLine g pieces × (emit_count_for h r.command_canonical ≤ 4))

command_line :
    (g : ProtoBasicGrammar) {pieces : List Text} (ts : List ProtoBasicToken)
    → Tokens g ts
    → texts_of ts ≡ pieces
    → has_shape (kinds_of ts) g.command_shapes ≡ true
    → IsCommandLine g pieces
unfolding IsCommandLine
command_line g ts all_in texts is_shape = (ts, all_in, texts, is_shape)

module _ (u : Unicode) (lower : Text → Text) (table : IsTable u.printable u.is_space)
    (handle : AgentReplGrammarHandle) (good : IsGrammar u handle.grammar) where
  module _ (h : ProtoBasicHistory) (raw_text line_id : Text) (line : ProtoBasicLine)
      (fine : IsHistory u h) (tokenized : tokenize u raw_text line_id ≡ ok line)
      (prefixed : starts_with agent_repl_line_id_prefix line_id ≡ true)
      (fresh : matching line_id h.commands ≡ none) where
    abbrev Runs : Type 0
    Runs =
        (r : AgentReplLineResult) × (run_repl_line u lower handle h raw_text line_id
          ≡ agent_repl_line_result u lower r)
        × IsRun u handle.grammar line.tokens h r

    named : require_non_reserved_id u line_id i_repl_12 ≡ ok tt
    named =
        let (accepted, same_id) = tokenize-accepted u raw_text line_id tokenized in
        subst (λ id. require_non_reserved_id u id i_repl_12 ≡ ok tt) same_id
          (rename_row u line.line_id i_repl_03 i_repl_12
            (line_named u handle.grammar good line accepted))

    -- the calls of `run_repl_line`, one after another
    run_steps :
        (p : ProtoBasicParseResult) (x : Executed) (f : ProtoBasicFeedback)
        → parse_line u handle.grammar line ≡ ok p
        → execute_parsed u handle.grammar (appended h (parse_result p)) p line_id ≡ ok x
        → score_executed u bridge_provenance p x ≡ ok f
        → IsHistory u x.so_far
        → run_repl_line u lower handle h raw_text line_id
          ≡ agent_repl_line_result u lower
              (line_result line_id p x f (appended x.so_far (feedback f)))
    unfolding run_repl_line
    run_steps p x f parsed ran scored' fine' =
        let short = tokenize-short u raw_text line_id tokenized in
        let given = starts_with-has_text 97 (codes "gent-repl:line:") line_id prefixed in
        let (first, _) = append-IsHistory u h (parse_result p) fine tt in
        let (last, _) = append-IsHistory u x.so_far (feedback f) fine' tt in
        rw (tokenized, given, prefixed, short, parsed, first, ran, scored', last) refl

    command_runs :
        (ts : List ProtoBasicToken)
        → Tokens handle.grammar ts
        → texts_of ts ≡ line.tokens
        → has_shape (kinds_of ts) handle.grammar.command_shapes ≡ true
        → Runs
    unfolding line_result execute_parsed
    command_runs ts all_in texts is_shape =
        let (accepted, same_id) = tokenize-accepted u raw_text line_id tokenized in
        let p = result_of line_id (valid_of ts) in
        let parsed = parse_spelled u handle.grammar good line accepted ts all_in is_shape texts in
        let parsed' =
          subst (λ id. parse_line u handle.grammar line ≡ ok (result_of id (valid_of ts))) same_id
            parsed in
        let (ran, fine', step) =
          runs u table handle.grammar good h fine line_id named fresh p ts all_in is_shape refl in
        let (f, returned, strong) =
          scored u table handle.grammar good h fine line_id named fresh p ts all_in is_shape refl in
        let x =
          executed_line u table handle.grammar good h fine line_id named fresh p ts all_in is_shape
            refl in
        let is_command : IsCommandLine handle.grammar line.tokens =
          command_line handle.grammar ts all_in texts is_shape in
        (
          line_result line_id p x f (appended x.so_far (feedback f)),
          run_steps p x f parsed' ran returned fine',
          record {
            history = (append-IsHistory u x.so_far (feedback f) fine' tt).1;
            counts = inl (is_command, step);
            strong = (λ k. (is_command, strong.0 k), λ (c, few). strong.1 few);
          },
        )

    other_runs :
        (p : ProtoBasicParseResult)
        → parse_line u handle.grammar line ≡ ok p
        → p.line_id ≡ line_id
        → is_valid p.category ≡ false
        → (IsCommandLine handle.grammar line.tokens → ⊥)
        → Runs
    unfolding line_result execute_parsed score_executed leq
    other_runs p parsed same_id other otherwise =
        let named' =
          subst (λ id. require_non_reserved_id u id i_repl_07 ≡ ok tt) (sym same_id)
            (rename_row u line_id i_repl_12 i_repl_07 named) in
        let (f, returned, weak) =
          score_parse-weak u bridge_provenance (ratio 1 1) refl refl p named' in
        let (_, fine') = append-IsHistory u h (parse_result p) fine tt in
        let x : Executed = record {
          so_far = appended h (parse_result p);
          canonical = [];
          result = none;
        } in
        (
          line_result line_id p x f (appended x.so_far (feedback f)),
          run_steps p x f parsed (rw other refl) returned fine',
          record {
            history = (append-IsHistory u x.so_far (feedback f) fine' tt).1;
            counts = inr (otherwise, refl);
            strong = (λ k. absurd (weak k), λ (c, few). absurd (otherwise c));
          },
        )

    -- Let the Unicode tables read ASCII as usual, the grammar be one that its constructor accepts,
    -- the history be well formed, the raw text be one that `tokenize` accepts, and the line's
    -- identifier have the bridge's prefix and be that of no earlier command. Then every call of
    -- `run_repl_line` returns, but for the check of the texts of the result, and the new history is
    -- well formed. If the line spells a command of the grammar, the count of its canonical form is
    -- one higher; if not, no count changes. The feedback is strong exactly when the line spells a
    -- command whose form was executed at most four times before.
    pub run_repl_line-IsRun :
        (r : AgentReplLineResult) × (run_repl_line u lower handle h raw_text line_id
          ≡ agent_repl_line_result u lower r)
        × IsRun u handle.grammar line.tokens h r
    unfolding IsCommandLine
    run_repl_line-IsRun =
        let (accepted, same_id) = tokenize-accepted u raw_text line_id tokenized in
        let (p, parsed, id, (to_line, from_line)) =
          parse_line-returns u handle.grammar good line accepted in
        let (to_valid, from_valid) = is_valid_iff p.category in
        elim (Bool-cases (is_valid p.category)) [
          | inl so ↦
              let (ts, all_in, texts, is_shape) = to_line (to_valid so) in
              command_runs ts all_in texts is_shape
          | inr other ↦
              other_runs p parsed (id ∙ same_id) other
                (λ c. absurd (cc (other, from_valid (from_line c))))
        ]
