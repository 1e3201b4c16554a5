-- ===== src/Commands.antt =====
-- brain/ui/commands.py: the operator's commands and their payloads. A path is the text that
-- `str(pathlib.Path(s))` gives; that function, `str.lower`, the parser of `Fraction(str)` and
-- Unicode's tables are parameters.
pub mod Make
pub mod Payloads
use toy_brain.Prelude.{
  refl, ◌≡◌, ℕ, Option, none, Text, codes, Bool, ◌∷◌, [], if◌then◌else◌, false, ◌==◌, ◌||◌, some,
  true, not, ◌&&◌, leb, all, length, eq_text,
}
use toy_brain.Prelude.Outcome.{
  Result, ◌>>=◌, ◌>>◌, require, raise, ok, payload_type, i_uistrm_02, backup_scheme, payload_rho,
}
use toy_brain.Prelude.FrozenSet.{FrozenSet, contains}
use toy_brain.Kernel.Io.{PerceptEvent, percept_event, has_text}
use toy_brain.Tlica.Builders.{Value, integer, fraction, rho, boolean, float}
use toy_brain.Development.Ids.{stream_provenance_max_len, text_is_acceptable, stream_text_max_len}
use toy_brain.Kernel.Toce.{ContentState}
use toy_brain.Fraction.{Fraction, whole, leq}
use toy_brain.Tlica.Profile.{cogito_id}

pub data OperatorCommand : Type 0 where
  inspect_state inspect_tick inspect_output inspect_worldlet inspect_repl : OperatorCommand
  queue_percept step_tick clear_status help quit noop : OperatorCommand
  stream_append inspect_stream_summary inspect_stream_candidates stream_promote : OperatorCommand
  save_session load_session session_status db_status db_verify db_backup : OperatorCommand
  db_summary profile_summary stream_db_summary db_diff : OperatorCommand
  autosave_status autosave_enable autosave_disable : OperatorCommand

-- brain/ui/autosave.py
pub data AutosaveMode : Type 0 where
  off after_successful_mutation : AutosaveMode

-- `STREAM_PROMOTE_CANDIDATE_ID_MAX_LEN`
abbrev pub stream_promote_candidate_id_max_len : ℕ
stream_promote_candidate_id_max_len = stream_provenance_max_len

-- `DB_BACKUP_FORBIDDEN_SCHEMES` of brain/ui/persistence_ops.py
abbrev pub db_backup_forbidden_schemes : FrozenSet
db_backup_forbidden_schemes =
    codes "sqlite"
    ∷ codes "file"
    ∷ codes "http"
    ∷ codes "https"
    ∷ codes "ftp"
    ∷ codes "ws"
    ∷ codes "wss"
    ∷ codes "data"
    ∷ codes "gopher"
    ∷ codes "ssh"
    ∷ codes "git"
    ∷ []

-- `QueuePerceptPayload` has the fields of the event that it builds.
pub data CommandPayload : Type 0 where
  queue_percept_payload : PerceptEvent → CommandPayload
  stream_append_payload stream_promote_payload : Text → CommandPayload
  db_backup_payload : Text → Bool → CommandPayload
  autosave_enable_payload : AutosaveMode → CommandPayload

pub record Command : Type 0 where
  pub kind : OperatorCommand
  pub payload : Option CommandPayload

-- the keyword arguments of `make_command`
pub record CommandFields : Type 0 where
  pub content_id : Option Text
  pub text : Option Text
  pub content_state : Option ContentState
  pub initial_rho : Option Value
  pub stream_text : Option Text
  pub candidate_id : Option Text
  pub dest_path : Option Text
  pub backup_force : Option Bool
  pub autosave_mode : Option AutosaveMode

abbrev pub no_fields : CommandFields
no_fields = record {
  content_id = none;
  text = none;
  content_state = none;
  initial_rho = none;
  stream_text = none;
  candidate_id = none;
  dest_path = none;
  backup_force = none;
  autosave_mode = none;
}

-- what stands before the first `:`, if there is one
abbrev prefixed : ℕ → Option Text → Option Text
prefixed c none = none
prefixed c (some prefix) = some (c ∷ prefix)

unfoldable pub scheme_of : Text → Option Text
scheme_of [] = none
scheme_of (c ∷ s) = let rest = scheme_of s in if c == 58 then some [] else prefixed c rest

-- `bool(backup_force) if backup_force is not None else False`
abbrev pub forced : Option Bool → Bool
forced none = false
forced (some b) = b

abbrev pub given : {A : Type 0} → Option A → Bool
given none = false
given (some a) = true

-- `initial_rho` as `make_command` passes it on: an `int`, a `bool` among them, becomes a fraction
abbrev pub rho_argument : Value → Value
rho_argument (integer n m) = fraction (record { plus = n; minus = m; den_pred = 0 })
rho_argument (boolean b) = fraction (if b then whole 1 else whole 0)
rho_argument other = other

module _ (printable : ℕ → Bool) (lower : Text → Text)
    (parse_fraction : Text → Result Fraction) where
  -- the normalisation of `initial_rho`
  unfoldable pub payload_rho_of : Value → Result Fraction
  unfolding rho leq
  payload_rho_of (fraction q) = do require (leq (whole 0) q && leq q (whole 1)) payload_rho; ok q
  payload_rho_of (float s) = raise payload_type
  payload_rho_of value = rho parse_fraction value

  -- `QueuePerceptPayload.__post_init__`; `build_event` then makes the same event
  unfoldable pub queue_percept_payload_of : Text → Text → ContentState → Value → Result PerceptEvent
  unfolding payload_rho_of percept_event
  queue_percept_payload_of content_id text content_state initial_rho = do
    rho_value ← payload_rho_of initial_rho
    percept_event printable content_id text content_state rho_value

  unfoldable pub build_event : PerceptEvent → Result PerceptEvent
  unfolding percept_event
  build_event p = percept_event printable p.content_id p.text p.content_state p.initial_rho

  -- `StreamAppendPayload.__post_init__`
  unfoldable pub stream_append_payload_of : Text → Result Text
  unfolding text_is_acceptable cogito_id
  stream_append_payload_of text = do
    require (has_text text) i_uistrm_02
    require (leb (length text) stream_text_max_len) i_uistrm_02
    require (text_is_acceptable printable text) i_uistrm_02
    require (not (eq_text text cogito_id)) i_uistrm_02
    ok text

  -- `StreamPromotePayload.__post_init__`
  unfoldable pub stream_promote_payload_of : Text → Result Text
  unfolding cogito_id
  stream_promote_payload_of candidate_id = do
    require (has_text candidate_id) i_uistrm_02
    require (all printable candidate_id) i_uistrm_02
    require (leb (length candidate_id) stream_promote_candidate_id_max_len) i_uistrm_02
    require (not (eq_text candidate_id cogito_id)) i_uistrm_02
    ok candidate_id

  -- the scheme of the path, if it is a forbidden one
  unfoldable pub forbidden_scheme : Text → Bool
  unfolding scheme_of contains
  forbidden_scheme path = elim (scheme_of path) [
    | none ↦ false
    | some prefix ↦ contains (lower prefix) db_backup_forbidden_schemes
  ]

  -- `DbBackupPayload.__post_init__`
  unfoldable pub db_backup_payload_of : Text → Bool → Result Text
  unfolding forbidden_scheme
  db_backup_payload_of dest_path force = do
    require (not (forbidden_scheme dest_path)) backup_scheme
    ok dest_path

  -- `Command.__post_init__`
  unfoldable pub command : OperatorCommand → Option CommandPayload → Result Command
  command queue_percept (some (queue_percept_payload e)) =
      ok (record { kind = queue_percept; payload = some (queue_percept_payload e) })
  command queue_percept other = raise payload_type
  command stream_append (some (stream_append_payload s)) =
      ok (record { kind = stream_append; payload = some (stream_append_payload s) })
  command stream_append other = raise payload_type
  command stream_promote (some (stream_promote_payload s)) =
      ok (record { kind = stream_promote; payload = some (stream_promote_payload s) })
  command stream_promote other = raise payload_type
  command db_backup (some (db_backup_payload p f)) =
      ok (record { kind = db_backup; payload = some (db_backup_payload p f) })
  command db_backup other = raise payload_type
  command autosave_enable (some (autosave_enable_payload m)) =
      ok (record { kind = autosave_enable; payload = some (autosave_enable_payload m) })
  command autosave_enable other = raise payload_type
  command kind none = ok (record { kind = kind; payload = none })
  command kind (some payload) = raise payload_type
