-- ===== src/CommandLine/Replies.antt =====
-- What the handlers answer: never an exception, always a command that its constructor accepts or a
-- message within its bounds.
use mathlib.Core.Path.{subst}
use toy_brain.Prelude.{
  Option, none, some, Text, codes, Bool, List, ◌∷◌, [], ◌++◌, true, false, ◌≡◌, refl, eq_text, inl,
  inr, if◌then◌else◌, sym,
}
use toy_brain.Prelude.Outcome.{Result, ok, Result-cases}
use toy_brain.CommandLine.Messages.{Marks, IsMessage, bound_printable_error-IsMessage}
use toy_brain.CommandLine.{
  Runtime, ParseResult, parsed, rejected, local_command_error, bound_printable_error, Route,
  no_args,
}
use toy_brain.Commands.{
  OperatorCommand, command, CommandFields, queue_percept, Command, stream_append, no_fields,
  stream_promote, db_backup, autosave_enable, scheme_of, AutosaveMode,
}
use toy_brain.Commands.Make.{make_command}
use toy_brain.Commands.Payloads.{Carries, make_command-Carries}
use toy_brain.CommandLine.Handlers.{
  error, parse_no_args, make, attempt, make_queue_command, queue_parts, make_stream, promote_parts,
  store_backup, backup_path, returned, backup_positional, backup_loop, enable_mode, enable_parts,
  mode_of, is_flag,
}
use toy_brain.Kernel.Io.{has_text}
use toy_brain.Llm.Parse.{strip, rstrip}

-- `make_command` needs no field for a kind that carries nothing.
abbrev pub bare : OperatorCommand → Bool
bare queue_percept = false
bare stream_append = false
bare stream_promote = false
bare db_backup = false
bare autosave_enable = false
bare kind = true

abbrev pub served : Option Route → Bool
served none = false
served (some (no_args kind)) = bare kind
served (some other) = true

module _ (r : Runtime) where
  -- what `parse` may answer
  abbrev pub IsReply : ParseResult → Type 0
  IsReply (parsed c) = Carries r.printable r.lower r.parse_fraction c.kind c.payload
  IsReply (rejected m) = IsMessage r.printable m

  pub record Replies (answer : Result ParseResult) : Type 0 where
    pub reply : ParseResult
    pub answered : answer ≡ ok reply
    pub is_reply : IsReply reply

  make_command_bare :
      (kind : OperatorCommand)
      → bare kind ≡ true
      → make r kind no_fields ≡ ok (record { kind = kind; payload = none })
  unfolding make_command command
  make_command_bare queue_percept h = absurd (cc h)
  make_command_bare stream_append h = absurd (cc h)
  make_command_bare stream_promote h = absurd (cc h)
  make_command_bare db_backup h = absurd (cc h)
  make_command_bare autosave_enable h = absurd (cc h)
  make_command_bare _ h = refl

  module _ (marks : Marks r.printable) where
    pub error-Replies : (message : Text) → Replies (error r message)
    unfolding error local_command_error
    error-Replies message = record {
      reply = rejected (bound_printable_error r.printable message);
      answered = refl;
      is_reply = bound_printable_error-IsMessage marks message;
    }

    parsed-Replies :
        (kind : OperatorCommand) (f : CommandFields) (c : Command)
        → make r kind f ≡ ok c
        → Replies (ok (parsed c))
    parsed-Replies kind f c h =
        let (same, carried) = make_command-Carries r.printable r.lower r.parse_fraction kind f h in
        record {
          reply = parsed c;
          answered = refl;
          is_reply =
              subst (λ k. Carries r.printable r.lower r.parse_fraction k c.payload) (sym same)
                carried;
        }

    attempt-Replies :
        (prefix argument : Text) (kind : OperatorCommand) (f : CommandFields)
        → Replies (attempt r prefix argument (make r kind f))
    unfolding attempt error
    attempt-Replies prefix argument kind f = elim (Result-cases (make r kind f)) [
      | inl (c, good) ↦ rw good (parsed-Replies kind f c good)
      | inr (x, bad) ↦ rw bad (error-Replies (prefix ++ r.reason argument x))
    ]

    pub if-Replies :
        (b : Bool) {x y : Result ParseResult} → Replies x → Replies y → Replies (if b then x else y)
    if-Replies true h k = h
    if-Replies false h k = k

    returned-Replies :
        (kind : OperatorCommand) → bare kind ≡ true → Replies (returned r (make r kind no_fields))
    unfolding returned
    returned-Replies kind h =
        let made = make_command_bare kind h in
        rw made (parsed-Replies kind no_fields (record { kind = kind; payload = none }) made)

    pub parse_no_args-Replies :
        (verb remainder : Text) (kind : OperatorCommand)
        → bare kind ≡ true
        → Replies (parse_no_args r verb remainder kind)
    unfolding parse_no_args
    parse_no_args-Replies verb remainder kind h =
        if-Replies (has_text (strip r.is_space remainder)) {y = returned r (make r kind no_fields)}
          (error-Replies (codes "/" ++ verb ++ codes " does not accept arguments"))
          (returned-Replies kind h)

    make_queue_command-Replies :
        (remainder content_id text : Text)
        → Replies (make_queue_command r remainder content_id text)
    unfolding make_queue_command
    make_queue_command-Replies remainder content_id text =
        search (if-Replies, error-Replies, attempt-Replies)

    pub queue_parts-Replies :
        (remainder : Text) (parts : List Text) → Replies (queue_parts r remainder parts)
    unfolding queue_parts
    queue_parts-Replies remainder (content_id ∷ text ∷ []) =
        make_queue_command-Replies remainder content_id (rstrip r.is_space text)
    queue_parts-Replies remainder [] = search error-Replies
    queue_parts-Replies remainder (a ∷ []) = search error-Replies
    queue_parts-Replies remainder (a ∷ b ∷ c ∷ s) = search error-Replies

    pub make_stream-Replies : (remainder text : Text) → Replies (make_stream r remainder text)
    unfolding make_stream
    make_stream-Replies remainder text = search (if-Replies, error-Replies, attempt-Replies)

    pub promote_parts-Replies :
        (remainder : Text) (parts : List Text) → Replies (promote_parts r remainder parts)
    unfolding promote_parts
    promote_parts-Replies remainder (candidate_id ∷ []) =
        search (if-Replies, error-Replies, attempt-Replies)
    promote_parts-Replies remainder [] = search error-Replies
    promote_parts-Replies remainder (a ∷ b ∷ s) = search error-Replies

    store_backup-Replies :
        (remainder : Text) (force : Bool) (path : Text)
        → Replies (store_backup r remainder force path)
    unfolding store_backup
    store_backup-Replies remainder force path = search attempt-Replies

    backup_path-Replies :
        (remainder : Text) (force : Bool) (path : Text)
        → Replies (backup_path r remainder force path)
    unfolding backup_path
    backup_path-Replies remainder force path = by_scheme (scheme_of path) refl
      where
        by_scheme :
            (o : Option Text) → scheme_of path ≡ o → Replies (backup_path r remainder force path)
        by_scheme none h = rw (backup_path, h) (store_backup-Replies remainder force path)
        by_scheme (some prefix) h =
            rw (backup_path, h) (search (if-Replies, error-Replies, store_backup-Replies))

    backup_positional-Replies :
        (remainder : Text) (force : Bool) (paths : List Text)
        → Replies (backup_positional r remainder force paths)
    unfolding backup_positional
    backup_positional-Replies remainder force (path ∷ []) = backup_path-Replies remainder force path
    backup_positional-Replies remainder force [] = search error-Replies
    backup_positional-Replies remainder force (a ∷ b ∷ s) = search error-Replies

    -- one turn of the loop over the tokens
    token_step :
        (remainder token : Text) (positional tokens : List Text) (forced force flag : Bool)
        → ((f : Bool) (p : List Text) → Replies (backup_loop r remainder f p tokens))
        → eq_text token (codes "--force") ≡ forced
        → is_flag r token ≡ flag
        → Replies (backup_loop r remainder force positional (token ∷ tokens))
    unfolding backup_loop
    token_step remainder token positional tokens true true flag rest h k =
        rw (backup_loop, h) (search error-Replies)
    token_step remainder token positional tokens true false flag rest h k =
        rw (backup_loop, h) (rest true positional)
    token_step remainder token positional tokens false force true rest h k =
        rw (backup_loop, h, k) (search error-Replies)
    token_step remainder token positional tokens false force false rest h k =
        rw (backup_loop, h, k) (rest force (positional ++ token ∷ []))

    pub backup_loop-Replies :
        (remainder : Text) (force : Bool) (positional tokens : List Text)
        → Replies (backup_loop r remainder force positional tokens)
    unfolding backup_loop
    backup_loop-Replies remainder force positional [] =
        backup_positional-Replies remainder force positional
    backup_loop-Replies remainder force positional (token ∷ tokens) =
        token_step remainder token positional tokens (eq_text token (codes "--force")) force
          (is_flag r token) (λ f. λ p. backup_loop-Replies remainder f p tokens) refl refl

    enable_mode-Replies :
        (remainder token : Text) (mode : Option AutosaveMode)
        → Replies (enable_mode r remainder token mode)
    unfolding enable_mode
    enable_mode-Replies remainder token none = search error-Replies
    enable_mode-Replies remainder token (some mode) = search attempt-Replies

    pub enable_parts-Replies :
        (remainder : Text) (tokens : List Text) → Replies (enable_parts r remainder tokens)
    unfolding enable_parts
    enable_parts-Replies remainder (token ∷ []) =
        enable_mode-Replies remainder token (mode_of r token)
    enable_parts-Replies remainder [] = search error-Replies
    enable_parts-Replies remainder (a ∷ b ∷ s) = search error-Replies
