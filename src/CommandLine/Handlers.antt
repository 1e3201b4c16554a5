-- ===== src/CommandLine/Handlers.antt =====
-- The handlers of the verbs, and the parser that sends a line to one of them.
use toy_brain.Prelude.{
  Option, none, some, Text, codes, Bool, List, ◌∷◌, [], ◌++◌, if◌then◌else◌, true, false, ◌==◌,
  eq_text, length, leb, not, ◌&&◌, ◌||◌,
}
use toy_brain.Prelude.Outcome.{Result, raise, ok, index_error, assertion_unrouted}
use toy_brain.Prelude.FrozenSet.{contains}
use toy_brain.Llm.Parse.{strip, rstrip, split_from}
use toy_brain.CommandLine.{
  Runtime, local_command_error, ParseResult, split_once, Route, route, parsed, local_command_verbs,
  no_args, local_cmd_max_field_len, queue_args, stream_args, local_cmd_default_content_state,
  stream_promote_args, db_backup_args, local_cmd_default_rho, autosave_enable_args,
}
use toy_brain.Commands.{
  Command, OperatorCommand, scheme_of, AutosaveMode, CommandFields,
  stream_promote_candidate_id_max_len, db_backup, db_backup_forbidden_schemes, off, autosave_enable,
  no_fields, after_successful_mutation, queue_percept, stream_promote, stream_append,
}
use toy_brain.Commands.Make.{make_command}
use toy_brain.Kernel.Io.{has_text}
use toy_brain.Prelude.Decimal.{decimal}
use toy_brain.Development.Ids.{stream_text_max_len}
use toy_brain.Tlica.Builders.{fraction}

module _ (r : Runtime) where
  -- `return make_command(...)` under `except (TypeError, ValueError)`, whose text is `prefix` and
  -- the exception's own; `make_command` raises nothing else
  unfoldable pub attempt : Text → Text → Result Command → Result ParseResult
  unfolding local_command_error
  attempt prefix argument (ok c) = ok (parsed c)
  attempt prefix argument (raise x) =
      ok (local_command_error r.printable (prefix ++ r.reason argument x))

  -- the same without the `try`
  unfoldable pub returned : Result Command → Result ParseResult
  returned (ok c) = ok (parsed c)
  returned (raise x) = raise x

  unfoldable pub error : Text → Result ParseResult
  unfolding local_command_error
  error message = ok (local_command_error r.printable message)

  abbrev pub make : OperatorCommand → CommandFields → Result Command
  make = make_command r.printable r.lower r.parse_fraction

  unfoldable pub parse_no_args : Text → Text → OperatorCommand → Result ParseResult
  unfolding strip make_command error returned
  parse_no_args verb remainder kind =
      if has_text (strip r.is_space remainder)
      then error (codes "/" ++ verb ++ codes " does not accept arguments")
      else returned (make kind no_fields)

  unfoldable pub make_queue_command : Text → Text → Text → Result ParseResult
  unfolding make_command error local_command_error
  make_queue_command remainder content_id text =
      if not (has_text text)
      then error (codes "/queue requires <content_id> <text>")
      else if not (leb (length content_id) local_cmd_max_field_len)
      then error
          (codes "/queue content_id exceeds " ++ decimal local_cmd_max_field_len ++ codes " chars")
      else if not (leb (length text) local_cmd_max_field_len)
      then error (codes "/queue text exceeds " ++ decimal local_cmd_max_field_len ++ codes " chars")
      else attempt (codes "/queue rejected: ") remainder (
          make queue_percept (record no_fields {
            content_id = some content_id;
            text = some text;
            content_state = some local_cmd_default_content_state;
            initial_rho = some (fraction local_cmd_default_rho);
          }))

  unfoldable pub queue_parts : Text → List Text → Result ParseResult
  unfolding make_queue_command rstrip error
  queue_parts remainder (content_id ∷ text ∷ []) =
      make_queue_command remainder content_id (rstrip r.is_space text)
  queue_parts remainder parts = error (codes "/queue requires <content_id> <text>")

  unfoldable pub parse_queue : Text → Result ParseResult
  unfolding strip split_once queue_parts error
  parse_queue remainder =
      if not (has_text (strip r.is_space remainder))
      then error (codes "/queue requires <content_id> <text>")
      else queue_parts remainder (split_once r.is_space remainder)

  unfoldable pub make_stream : Text → Text → Result ParseResult
  unfolding strip make_command error local_command_error
  make_stream remainder text =
      if not (has_text text) || not (has_text (strip r.is_space text))
      then error (codes "/stream requires <text>")
      else if not (leb (length text) stream_text_max_len)
      then error (codes "/stream text exceeds " ++ decimal stream_text_max_len ++ codes " chars")
      else attempt (codes "/stream rejected: ") remainder
          (make stream_append (record no_fields { stream_text = some text }))

  unfoldable pub parse_stream : Text → Result ParseResult
  unfolding rstrip make_stream
  parse_stream remainder = make_stream remainder (rstrip (λ c. c == 10) remainder)

  -- `s.split()`
  unfoldable pub words : Text → List Text
  unfolding split_from
  words s = split_from r.is_space [] s

  unfoldable pub promote_parts : Text → List Text → Result ParseResult
  unfolding make_command error local_command_error
  promote_parts remainder (candidate_id ∷ []) =
      if not (leb (length candidate_id) stream_promote_candidate_id_max_len)
      then error (
          codes "/stream-promote candidate_id exceeds "
          ++ decimal stream_promote_candidate_id_max_len
          ++ codes " chars")
      else attempt (codes "/stream-promote rejected: ") remainder
          (make stream_promote (record no_fields { candidate_id = some candidate_id }))
  promote_parts remainder parts =
      error (codes "/stream-promote requires exactly one <candidate_id>")

  unfoldable pub parse_stream_promote : Text → Result ParseResult
  unfolding strip words promote_parts error
  parse_stream_promote remainder =
      if not (has_text (strip r.is_space remainder))
      then error (codes "/stream-promote requires <candidate_id>")
      else promote_parts remainder (words (strip r.is_space remainder))

  unfoldable pub store_backup : Text → Bool → Text → Result ParseResult
  unfolding make_command local_command_error
  store_backup remainder force path = attempt (codes "/db-backup rejected: ") remainder (
      make db_backup
        (record no_fields { dest_path = some (r.path_of path); backup_force = some force }))

  unfoldable pub backup_path : Text → Bool → Text → Result ParseResult
  unfolding scheme_of contains error store_backup
  backup_path remainder force path = elim (scheme_of path) [
    | none ↦ store_backup remainder force path
    | some prefix ↦
        if contains (r.lower prefix) db_backup_forbidden_schemes
        then error
            (codes "/db-backup destination uses forbidden URI scheme " ++ r.repr (r.lower prefix))
        else store_backup remainder force path
  ]

  unfoldable pub backup_positional : Text → Bool → List Text → Result ParseResult
  unfolding backup_path error
  backup_positional remainder force (path ∷ []) = backup_path remainder force path
  backup_positional remainder force paths =
      error (codes "/db-backup requires exactly one <path> argument")

  -- `token.startswith("--")`
  abbrev pub is_flag : Text → Bool
  is_flag (a ∷ b ∷ rest) = a == 45 && b == 45
  is_flag other = false

  -- the loop over the tokens: `force` and `positional` are what it has seen
  unfoldable pub backup_loop : Text → Bool → List Text → List Text → Result ParseResult
  unfolding backup_positional error
  backup_loop remainder force positional [] = backup_positional remainder force positional
  backup_loop remainder force positional (token ∷ tokens) = elim (eq_text token (codes "--force")) [
    | true ↦ elim force [
      | true ↦ error (codes "/db-backup --force may not repeat")
      | false ↦ backup_loop remainder true positional tokens
    ]
    | false ↦ elim (is_flag token) [
      | true ↦ error (codes "/db-backup does not recognize flag " ++ r.repr token)
      | false ↦ backup_loop remainder force (positional ++ token ∷ []) tokens
    ]
  ]

  unfoldable pub parse_db_backup : Text → Result ParseResult
  unfolding strip words backup_loop error
  parse_db_backup remainder =
      if not (has_text (strip r.is_space remainder))
      then error (codes "/db-backup requires <path> [--force]")
      else backup_loop remainder false [] (words (strip r.is_space remainder))

  -- `AutosaveMode(token)`
  abbrev pub mode_of : Text → Option AutosaveMode
  mode_of token =
      if eq_text token (codes "off")
      then some off
      else if eq_text token (codes "after-successful-mutation")
      then some after_successful_mutation
      else none

  unfoldable pub enable_mode : Text → Text → Option AutosaveMode → Result ParseResult
  unfolding make_command error local_command_error
  enable_mode remainder token none = error (
      codes "/autosave-enable mode must be in ['after-successful-mutation', 'off'] (got "
      ++ r.repr token
      ++ codes ")")
  enable_mode remainder token (some mode) =
      attempt (codes "/autosave-enable rejected: ") remainder
        (make autosave_enable (record no_fields { autosave_mode = some mode }))

  unfoldable pub enable_parts : Text → List Text → Result ParseResult
  unfolding enable_mode error
  enable_parts remainder (token ∷ []) = enable_mode remainder token (mode_of token)
  enable_parts remainder tokens =
      error (codes "/autosave-enable requires exactly one <mode> argument")

  unfoldable pub parse_autosave_enable : Text → Result ParseResult
  unfolding strip words enable_parts error
  parse_autosave_enable remainder =
      if not (has_text (strip r.is_space remainder))
      then error (codes "/autosave-enable requires <mode>")
      else enable_parts remainder (words (strip r.is_space remainder))

  unfoldable pub run_route : Route → Text → Text → Result ParseResult
  unfolding parse_no_args parse_queue parse_stream parse_stream_promote parse_db_backup
      parse_autosave_enable
  run_route (no_args kind) verb remainder = parse_no_args verb remainder kind
  run_route queue_args verb remainder = parse_queue remainder
  run_route stream_args verb remainder = parse_stream remainder
  run_route stream_promote_args verb remainder = parse_stream_promote remainder
  run_route db_backup_args verb remainder = parse_db_backup remainder
  run_route autosave_enable_args verb remainder = parse_autosave_enable remainder

  unfoldable pub dispatch : Text → Text → Option Route → Result ParseResult
  unfolding run_route
  dispatch verb remainder none = raise assertion_unrouted
  dispatch verb remainder (some way) = run_route way verb remainder

  unfoldable pub run_verb : Text → Text → Result ParseResult
  unfolding contains dispatch route error
  run_verb verb remainder =
      if contains verb local_command_verbs
      then dispatch verb remainder (route verb)
      else error (codes "unknown command: /" ++ verb)

  unfoldable pub run_tokens : List Text → Result ParseResult
  unfolding run_verb
  run_tokens [] = raise index_error
  run_tokens (word ∷ []) = run_verb (r.lower word) []
  run_tokens (word ∷ remainder ∷ rest) = run_verb (r.lower word) remainder

  unfoldable pub parse_body : Text → Result ParseResult
  unfolding run_tokens split_once error
  parse_body [] = error (codes "expected verb after '/'")
  parse_body (c ∷ s) =
      if r.is_space c
      then error (codes "expected verb after '/'")
      else run_tokens (split_once r.is_space (c ∷ s))

  unfoldable pub parse_stripped : Text → Result ParseResult
  unfolding parse_body error
  parse_stripped [] = error (codes "empty command")
  parse_stripped (c ∷ body) =
      if c == 47 then parse_body body else error (codes "expected leading '/'")

  -- `LocalCommandLine.parse`
  unfoldable pub parse : Text → Result ParseResult
  unfolding strip parse_stripped
  parse line = parse_stripped (strip r.is_space line)
