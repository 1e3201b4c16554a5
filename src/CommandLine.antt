-- ===== src/CommandLine.antt =====
-- brain/ui/command_line.py: the parser of the operator's typed commands. What Python itself does is
-- a parameter: Unicode's tables, `str.lower`, `repr`, `str(pathlib.Path(s))`, and the parser of
-- `Fraction(str)`. The message of a caught exception, a function of the argument and the
-- exception, is one as well. Lines that are no `str` are not modelled.
pub mod Handlers
pub mod Messages
pub mod Replies
pub mod Returns
mod Words
pub mod Queue
use toy_brain.Prelude.{
  ℕ, Option, none, some, Text, codes, Bool, List, ◌∷◌, [], ◌++◌, if◌then◌else◌, true, false, ◌==◌,
  eq_text, length, leb, take, ◌-◌, map,
}
use toy_brain.Prelude.Outcome.{Result, raise, ok, Error, index_error, assertion_unrouted}
use toy_brain.Prelude.FrozenSet.{FrozenSet, contains}
use toy_brain.Llm.Parse.{strip, lstrip}
use toy_brain.Fraction.{Fraction, ratio}
use toy_brain.Kernel.Toce.{ContentState}
use toy_brain.Commands.{
  OperatorCommand, help, Command, inspect_state, inspect_tick, inspect_output, inspect_worldlet,
  inspect_repl, step_tick, clear_status, quit, inspect_stream_summary, inspect_stream_candidates,
  save_session, load_session, session_status, db_status, db_verify, db_summary, profile_summary,
  stream_db_summary, db_diff, autosave_status, autosave_disable,
}

pub record Runtime : Type 0 where
  pub printable : ℕ → Bool
  pub is_space : ℕ → Bool
  pub lower : Text → Text
  pub repr : Text → Text
  pub path_of : Text → Text
  pub parse_fraction : Text → Result Fraction
  pub reason : Text → Error → Text

-- `LOCAL_CMD_DEFAULT_CONTENT_STATE`, `LOCAL_CMD_DEFAULT_RHO`
abbrev pub local_cmd_default_content_state : ContentState
local_cmd_default_content_state = record {
  available = true;
  verification_path = true;
  retrievable = true;
  operative = true;
}

abbrev pub local_cmd_default_rho : Fraction
local_cmd_default_rho = ratio 1 2

abbrev pub local_cmd_max_field_len : ℕ
local_cmd_max_field_len = 64

abbrev pub local_cmd_max_error_len : ℕ
local_cmd_max_error_len = 240

abbrev pub local_command_verbs : FrozenSet
local_command_verbs =
    codes "help"
    ∷ codes "state"
    ∷ codes "tick"
    ∷ codes "output"
    ∷ codes "worldlet"
    ∷ codes "repl"
    ∷ codes "queue"
    ∷ codes "step"
    ∷ codes "clear"
    ∷ codes "quit"
    ∷ codes "stream"
    ∷ codes "stream-summary"
    ∷ codes "stream-candidates"
    ∷ codes "stream-promote"
    ∷ codes "save-session"
    ∷ codes "load-session"
    ∷ codes "session-status"
    ∷ codes "db-status"
    ∷ codes "db-verify"
    ∷ codes "db-backup"
    ∷ codes "db-summary"
    ∷ codes "profile-summary"
    ∷ codes "stream-db-summary"
    ∷ codes "db-diff"
    ∷ codes "autosave-status"
    ∷ codes "autosave-enable"
    ∷ codes "autosave-disable"
    ∷ []

-- The handler that a verb goes to, with the kind that `_parse_no_args` is given.
pub data Route : Type 0 where
  no_args : OperatorCommand → Route
  queue_args stream_args stream_promote_args db_backup_args autosave_enable_args : Route

-- the chain of `if verb == ...` in `parse`; nothing is left for the `raise` at its end
unfoldable pub route : Text → Option Route
route verb =
    if eq_text verb (codes "help")
    then some (no_args help)
    else if eq_text verb (codes "state")
    then some (no_args inspect_state)
    else if eq_text verb (codes "tick")
    then some (no_args inspect_tick)
    else if eq_text verb (codes "output")
    then some (no_args inspect_output)
    else if eq_text verb (codes "worldlet")
    then some (no_args inspect_worldlet)
    else if eq_text verb (codes "repl")
    then some (no_args inspect_repl)
    else if eq_text verb (codes "step")
    then some (no_args step_tick)
    else if eq_text verb (codes "clear")
    then some (no_args clear_status)
    else if eq_text verb (codes "quit")
    then some (no_args quit)
    else if eq_text verb (codes "queue")
    then some queue_args
    else if eq_text verb (codes "stream")
    then some stream_args
    else if eq_text verb (codes "stream-summary")
    then some (no_args inspect_stream_summary)
    else if eq_text verb (codes "stream-candidates")
    then some (no_args inspect_stream_candidates)
    else if eq_text verb (codes "stream-promote")
    then some stream_promote_args
    else if eq_text verb (codes "save-session")
    then some (no_args save_session)
    else if eq_text verb (codes "load-session")
    then some (no_args load_session)
    else if eq_text verb (codes "session-status")
    then some (no_args session_status)
    else if eq_text verb (codes "db-status")
    then some (no_args db_status)
    else if eq_text verb (codes "db-verify")
    then some (no_args db_verify)
    else if eq_text verb (codes "db-backup")
    then some db_backup_args
    else if eq_text verb (codes "db-summary")
    then some (no_args db_summary)
    else if eq_text verb (codes "profile-summary")
    then some (no_args profile_summary)
    else if eq_text verb (codes "stream-db-summary")
    then some (no_args stream_db_summary)
    else if eq_text verb (codes "db-diff")
    then some (no_args db_diff)
    else if eq_text verb (codes "autosave-status")
    then some (no_args autosave_status)
    else if eq_text verb (codes "autosave-disable")
    then some (no_args autosave_disable)
    else if eq_text verb (codes "autosave-enable")
    then some autosave_enable_args
    else none

pub data ParseResult : Type 0 where
  parsed : Command → ParseResult
  rejected : Text → ParseResult

-- `s.split(None, 1)`: the first word and, if anything but space follows it, what follows
unfoldable pub first_word : (ℕ → Bool) → Text → Text
first_word is_space [] = []
first_word is_space (c ∷ s) =
    let rest = first_word is_space s in if is_space c then [] else c ∷ rest

unfoldable pub after_word : (ℕ → Bool) → Text → Text
after_word is_space [] = []
after_word is_space (c ∷ s) = let rest = after_word is_space s in if is_space c then c ∷ s else rest

abbrev pub with_rest : Text → Text → List Text
with_rest word [] = word ∷ []
with_rest word (c ∷ s) = word ∷ (c ∷ s) ∷ []

unfoldable pub split_stripped : (ℕ → Bool) → Text → List Text
unfolding first_word after_word lstrip
split_stripped is_space [] = []
split_stripped is_space (c ∷ s) =
    with_rest (first_word is_space (c ∷ s)) (lstrip is_space (after_word is_space (c ∷ s)))

unfoldable pub split_once : (ℕ → Bool) → Text → List Text
unfolding lstrip split_stripped
split_once is_space s = split_stripped is_space (lstrip is_space s)

-- `message[:n - 1] + "…"` of a message that is longer than `n`
abbrev pub shortened : ℕ → Text → Text
shortened n message = if leb (length message) n then message else take (n - 1) message ++ 8230 ∷ []

unfoldable pub bound_printable_error : (ℕ → Bool) → Text → Text
bound_printable_error printable message =
    shortened local_cmd_max_error_len (map (λ c. if printable c then c else 63) message)

-- `LocalCommandError(message)`
unfoldable pub local_command_error : (ℕ → Bool) → Text → ParseResult
unfolding bound_printable_error
local_command_error printable message = rejected (bound_printable_error printable message)
