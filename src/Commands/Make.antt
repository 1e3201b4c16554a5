-- ===== src/Commands/Make.antt =====
-- brain/ui/commands.py: `make_command`, which builds the payload of each kind from its arguments.
use toy_brain.Prelude.{ℕ, Option, none, Text, Bool, ◌||◌, some, not}
use toy_brain.Prelude.Outcome.{Result, ◌>>=◌, ◌>>◌, require, raise, payload_type}
use toy_brain.Tlica.Builders.{Value}
use toy_brain.Kernel.Toce.{ContentState}
use toy_brain.Fraction.{Fraction}
use toy_brain.Commands.{
  OperatorCommand, Command, CommandFields, AutosaveMode, queue_percept, stream_append,
  stream_promote, db_backup, autosave_enable, queue_percept_payload, stream_append_payload,
  stream_promote_payload, db_backup_payload, autosave_enable_payload, given, forced, rho_argument,
  queue_percept_payload_of, stream_append_payload_of, stream_promote_payload_of,
  db_backup_payload_of, command,
}

module _ (printable : ℕ → Bool) (lower : Text → Text)
    (parse_fraction : Text → Result Fraction) where
  abbrev percept_given : CommandFields → Bool
  percept_given f =
      given f.content_id || (given f.text || (given f.content_state || given f.initial_rho))

  -- the branches of `make_command` that build a payload
  unfoldable pub make_queue :
      Option Text → Option Text → Option ContentState → Option Value → Result Command
  unfolding queue_percept_payload_of command
  make_queue (some content_id) (some text) (some content_state) (some initial_rho) = do
    event ←
        queue_percept_payload_of printable lower parse_fraction content_id text content_state
          (rho_argument initial_rho)
    command printable lower parse_fraction queue_percept (some (queue_percept_payload event))
  make_queue content_id text content_state initial_rho = raise payload_type

  unfoldable pub make_append : Option Text → Result Command
  unfolding stream_append_payload_of command
  make_append none = raise payload_type
  make_append (some text) = do
    accepted ← stream_append_payload_of printable lower parse_fraction text
    command printable lower parse_fraction stream_append (some (stream_append_payload accepted))

  unfoldable pub make_promote : Option Text → Result Command
  unfolding stream_promote_payload_of command
  make_promote none = raise payload_type
  make_promote (some candidate_id) = do
    accepted ← stream_promote_payload_of printable lower parse_fraction candidate_id
    command printable lower parse_fraction stream_promote (some (stream_promote_payload accepted))

  unfoldable pub make_backup : Option Text → Option Bool → Result Command
  unfolding db_backup_payload_of command
  make_backup none force = raise payload_type
  make_backup (some path) force = do
    accepted ← db_backup_payload_of printable lower parse_fraction path (forced force)
    command printable lower parse_fraction db_backup
        (some (db_backup_payload accepted (forced force)))

  unfoldable pub make_autosave : Option AutosaveMode → Result Command
  unfolding command
  make_autosave none = raise payload_type
  make_autosave (some mode) =
      command printable lower parse_fraction autosave_enable (some (autosave_enable_payload mode))

  -- `make_command`, of a member of the enumeration
  unfoldable pub make_command : OperatorCommand → CommandFields → Result Command
  unfolding make_queue make_append make_promote make_backup make_autosave command
  make_command queue_percept f = do
    require
        (not (
          given f.stream_text
          || (given f.candidate_id
              || (given f.dest_path || (given f.backup_force || given f.autosave_mode)))))
        payload_type
    make_queue f.content_id f.text f.content_state f.initial_rho
  make_command stream_append f = do
    require
        (not (
          percept_given f
          || (given f.candidate_id
              || (given f.dest_path || (given f.backup_force || given f.autosave_mode)))))
        payload_type
    make_append f.stream_text
  make_command stream_promote f = do
    require
        (not (
          percept_given f
          || (given f.stream_text
              || (given f.dest_path || (given f.backup_force || given f.autosave_mode)))))
        payload_type
    make_promote f.candidate_id
  make_command db_backup f = do
    require
        (not (
          percept_given f
          || (given f.stream_text || (given f.candidate_id || given f.autosave_mode))))
        payload_type
    make_backup f.dest_path f.backup_force
  make_command autosave_enable f = do
    require
        (not (
          percept_given f
          || (given f.stream_text
              || (given f.candidate_id || (given f.dest_path || given f.backup_force)))))
        payload_type
    make_autosave f.autosave_mode
  make_command kind f = do
    require
        (not (
          percept_given f
          || (given f.stream_text
              || (given f.candidate_id
                  || (given f.dest_path || (given f.backup_force || given f.autosave_mode))))))
        payload_type
    command printable lower parse_fraction kind none
