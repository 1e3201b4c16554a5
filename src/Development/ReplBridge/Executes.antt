-- ===== src/Development/ReplBridge/Executes.antt =====
-- What the bridge does with a line that spells a command: it builds, appends, executes and scores.
use toy_brain.Prelude.{
  Text, List, [], none, some, true, ◌≡◌, refl, arith, ◌++◌, ◌+◌, ◌-◌, ◌≤◌, ◌↔◌, eq_text_refl,
}
use toy_brain.Prelude.Outcome.{ok, i_repl_12, i_repl_13}
use toy_brain.Development.Ids.{IsTable, all-ascii}
use toy_brain.Development.Repl.{
  Unicode, require_non_reserved_id, ProtoBasicToken, ProtoBasicGrammar, ProtoBasicParseResult,
  has_shape,
}
use toy_brain.Development.Repl.Grammar.{IsGrammar}
use toy_brain.Development.Repl.Spelling.{Tokens}
use toy_brain.Development.Repl.Valid.{valid_of, shape_in_bound}
use toy_brain.Development.Repl.Lookup.{kinds_of, ids_of}
use toy_brain.Development.Repl.Parse.{result_of}
use toy_brain.Development.Repl.Command.{
  ProtoBasicCommand, proto_basic_command, build_command, execute_command,
}
use toy_brain.Development.Repl.Built.{
  command_of, command-accepted, build_command-spelled, form_text,
}
use toy_brain.Development.Repl.Feedback.{
  ProtoBasicExecutionResult, ProtoBasicFeedback, valid_effective, proto_basic_execution_result,
}
use toy_brain.Development.Repl.History.{
  ProtoBasicHistory, parse_result, command, execution_result, matching, appended, emit_count_for,
}
use toy_brain.Development.Repl.Counts.{IsHistory, append-IsHistory, counted-hit, matching-last}
use toy_brain.Development.Repl.Score.{IsStrong, score_feedback-repeated}
use toy_brain.Development.ReplBridge.{after_last_colon, agent_repl_command_id_prefix}
use toy_brain.Development.ReplBridge.Line.{
  Executed, execute_valid, factor_of, score_executed, bridge_provenance,
}
use toy_brain.Development.ReplBridge.Run.{rename_row, command_id_accepted, command_id_free}

module _ (u : Unicode) (table : IsTable u.printable u.is_space) (g : ProtoBasicGrammar)
    (good : IsGrammar u g) (h : ProtoBasicHistory) (fine : IsHistory u h) (line_id : Text)
    (named : require_non_reserved_id u line_id i_repl_12 ≡ ok tt)
    (fresh : matching line_id h.commands ≡ none) where
  -- the command, and the execution, of a line that spells these tokens
  abbrev pub built : List ProtoBasicToken → ProtoBasicCommand
  built ts =
      command_of (agent_repl_command_id_prefix ++ after_last_colon line_id) line_id (kinds_of ts)
        (ids_of ts)

  abbrev pub effective : ProtoBasicExecutionResult
  effective = record {
    line_id = line_id;
    category = valid_effective;
    effective = true;
    detail = [];
  }

  effective-accepted : proto_basic_execution_result u effective ≡ ok effective
  unfolding proto_basic_execution_result
  effective-accepted = rw (rename_row u line_id i_repl_12 i_repl_13 named) refl

  module _ (p : ProtoBasicParseResult) (ts : List ProtoBasicToken) (all_in : Tokens g ts)
      (is_shape : has_shape (kinds_of ts) g.command_shapes ≡ true)
      (same : p ≡ result_of line_id (valid_of ts)) where
    abbrev pub before : ProtoBasicHistory
    before = appended h (parse_result p)

    abbrev pub after : ProtoBasicHistory
    after = appended (appended before (command (built ts))) (execution_result effective)

    abbrev pub executed_line : Executed
    executed_line = record {
      so_far = after;
      canonical = (built ts).canonical_form;
      result = some effective;
    }

    accepted :
        (build_command u g p (built ts).command_id none [] ≡ ok (built ts))
        × (proto_basic_command u (built ts) ≡ ok (built ts))
    accepted =
        let plain = all-ascii table form_text refl in
        let free = command_id_free (after_last_colon line_id) in
        let id = command_id_accepted u line_id table named in
        let given = (shape_in_bound u good (kinds_of ts) is_shape).0 in
        (
          build_command-spelled u g good plain (built ts).command_id free id line_id named p ts
              all_in given same,
          command-accepted u g good plain (built ts).command_id free id line_id named ts all_in
              given,
        )

    pub runs :
        (execute_valid u g before p line_id ≡ ok executed_line)
        × IsHistory u after
        × (emit_count_for after (built ts).canonical_form
            ≡ emit_count_for h (built ts).canonical_form + 1)
    unfolding execute_valid execute_command emit_count_for appended
    runs =
        let (first, fine1) = append-IsHistory u h (parse_result p) fine tt in
        let (second, fine2) = append-IsHistory u before (command (built ts)) fine1 accepted.1 in
        let last = matching-last h.commands (built ts) fresh in
        let with_command = appended before (command (built ts)) in
        let (third, fine3) =
          append-IsHistory u with_command (execution_result effective) fine2 (built ts, last) in
        let hit = counted-hit (built ts).canonical_form (built ts) h.emit_counts in
        (
          rw (accepted.0, second, effective-accepted, third) refl,
          fine3,
          rw (last, hit, eq_text_refl (built ts).canonical_form) refl,
        )

    pub scored :
        (f : ProtoBasicFeedback) × (score_executed u bridge_provenance p executed_line ≡ ok f)
        × (IsStrong f.valence ↔ (emit_count_for h (built ts).canonical_form ≤ 4))
    unfolding score_executed factor_of
    scored =
        let n = emit_count_for after (built ts).canonical_form - 1 in
        let (f, returned, half, strong) =
          score_feedback-repeated u effective bridge_provenance n effective-accepted refl in
        let step = runs.2 in
        (
          f,
          returned,
          (
            λ k. let few = strong.0 k in omega (arith, step, few),
            λ few. strong.1 (omega (arith, step, few)),
          ),
        )
