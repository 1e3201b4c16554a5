-- ===== src/Commands/Payloads.antt =====
-- What a command that comes out of `make_command` carries.
use mathlib.Core.Path.{subst}
use toy_brain.Prelude.{
  refl, ◌≡◌, ℕ, Bool, Text, true, Option, leb, length, some, arith, none, eq_text, false, inr, inl,
  ◌&&◌,
}
use toy_brain.Prelude.Outcome.{Result, ok, Result-cases}
use toy_brain.Kernel.Io.{IsPercept, percept_event, percept_event-IsPercept, has_text, PerceptEvent}
use toy_brain.Fraction.{Fraction, leq, whole}
use toy_brain.Commands.{
  OperatorCommand, build_event, command, CommandPayload, queue_percept_payload_of,
  stream_append_payload_of, stream_promote_payload_of, db_backup_payload_of, AutosaveMode,
  CommandFields, Command, queue_percept_payload, queue_percept, stream_append, stream_promote,
  db_backup, autosave_enable, stream_append_payload, forced, stream_promote_payload,
  stream_promote_candidate_id_max_len, db_backup_payload, forbidden_scheme, autosave_enable_payload,
  payload_rho_of, rho_argument, no_fields,
}
use toy_brain.Commands.Make.{
  make_command, make_queue, make_append, make_promote, make_backup, make_autosave,
}
use toy_brain.Kernel.Toce.{ContentState}
use toy_brain.Tlica.Builders.{Value, fraction}
use toy_brain.Development.Ids.{stream_text_max_len, text_is_acceptable, IsBounded}
use toy_brain.Tlica.Profile.{cogito_id}

module _ (printable : ℕ → Bool) (lower : Text → Text)
    (parse_fraction : Text → Result Fraction) where
  pub record IsStreamText (s : Text) : Type 0 where
    pub text_given : has_text s ≡ true
    pub text_short : leb (length s) stream_text_max_len ≡ true
    pub text_accepted : text_is_acceptable printable s ≡ true
    pub text_free : eq_text s cogito_id ≡ false

  -- What each kind carries: a payload within its bounds for five of them, and nothing for the others.
  abbrev pub Carries : OperatorCommand → Option CommandPayload → Type 0
  Carries queue_percept p =
      (e : PerceptEvent) × (p ≡ some (queue_percept_payload e))
      × IsPercept e
      × (build_event printable lower parse_fraction e ≡ ok e)
  Carries stream_append p = (s : Text) × (p ≡ some (stream_append_payload s)) × IsStreamText s
  Carries stream_promote p =
      (s : Text) × (p ≡ some (stream_promote_payload s))
      × IsBounded printable stream_promote_candidate_id_max_len s
  Carries db_backup p =
      (path : Text) × (force : Bool) × (p ≡ some (db_backup_payload path force))
      × (forbidden_scheme printable lower parse_fraction path ≡ false)
  Carries autosave_enable p = (m : AutosaveMode) × (p ≡ some (autosave_enable_payload m))
  Carries other p = p ≡ none

  rebuilt :
      (content_id text : Text) (s : ContentState) (q : Fraction) {e : PerceptEvent}
      → percept_event printable content_id text s q ≡ ok e
      → build_event printable lower parse_fraction e ≡ ok e
  unfolding build_event percept_event
  rebuilt content_id text s q h = ground arith

  built :
      (content_id text : Text) (s : ContentState) (q : Fraction) {e : PerceptEvent} {c : Command}
      → percept_event printable content_id text s q ≡ ok e
      → record { kind = queue_percept; payload = some (queue_percept_payload e) } ≡ c
      → (c.kind ≡ queue_percept) × Carries queue_percept c.payload
  built content_id text s q {e} made h =
      subst (λ c. (c.kind ≡ queue_percept) × Carries queue_percept c.payload) h
        (
          refl,
          (
            e,
            refl,
            percept_event-IsPercept printable content_id text s q made,
            rebuilt content_id text s q made,
          ),
        )

  queue-Carries :
      (a b : Option Text) (s : Option ContentState) (v : Option Value) {c : Command}
      → make_queue printable lower parse_fraction a b s v ≡ ok c
      → (c.kind ≡ queue_percept) × Carries queue_percept c.payload
  unfolding make_queue queue_percept_payload_of command
  queue-Carries none b s v h = absurd (cc h)
  queue-Carries (some a) none s v h = absurd (cc h)
  queue-Carries (some a) (some b) none v h = absurd (cc h)
  queue-Carries (some a) (some b) (some s) none h = absurd (cc h)
  queue-Carries (some a) (some b) (some s) (some v) {c} h =
      elim (Result-cases (payload_rho_of printable lower parse_fraction (rho_argument v))) [
        | inr (x, bad) ↦ absurd (cc (h, bad))
        | inl (q, good) ↦ elim (Result-cases (percept_event printable a b s q)) [
          | inr (x, bad) ↦ absurd (cc (h, good, bad))
          | inl (e, made) ↦ built a b s q made (cc (h, good, made))
        ]
      ]

  append-Carries :
      (a : Option Text) {c : Command}
      → make_append printable lower parse_fraction a ≡ ok c
      → (c.kind ≡ stream_append) × Carries stream_append c.payload
  unfolding make_append stream_append_payload_of command
  append-Carries none h = absurd (cc h)
  append-Carries (some a) h = (
    ground arith,
    (
      a,
      ground arith,
      record {
        text_given = ground arith;
        text_short = ground arith;
        text_accepted = ground arith;
        text_free = ground arith;
      },
    ),
  )

  promote-Carries :
      (a : Option Text) {c : Command}
      → make_promote printable lower parse_fraction a ≡ ok c
      → (c.kind ≡ stream_promote) × Carries stream_promote c.payload
  unfolding make_promote stream_promote_payload_of command
  promote-Carries none h = absurd (cc h)
  promote-Carries (some a) h = (ground arith, (a, ground arith, ground arith))

  backup-Carries :
      (a : Option Text) (b : Option Bool) {c : Command}
      → make_backup printable lower parse_fraction a b ≡ ok c
      → (c.kind ≡ db_backup) × Carries db_backup c.payload
  unfolding make_backup db_backup_payload_of command
  backup-Carries none b h = absurd (cc h)
  backup-Carries (some a) b h = (ground arith, (a, forced b, ground arith, ground arith))

  autosave-Carries :
      (a : Option AutosaveMode) {c : Command}
      → make_autosave printable lower parse_fraction a ≡ ok c
      → (c.kind ≡ autosave_enable) × Carries autosave_enable c.payload
  unfolding make_autosave command
  autosave-Carries none h = absurd (cc h)
  autosave-Carries (some a) h = (ground arith, (a, ground arith))

  -- A command that `make_command` returns has the kind that was asked for and carries what that
  -- kind takes: a percept that the kernel accepts and `build_event` gives again, a stream text or a
  -- candidate identifier within its bounds, a path without a forbidden scheme, a mode, or nothing.
  pub make_command-Carries :
      (kind : OperatorCommand) (f : CommandFields) {c : Command}
      → make_command printable lower parse_fraction kind f ≡ ok c
      → (c.kind ≡ kind) × Carries kind c.payload
  unfolding make_command command
  make_command-Carries queue_percept f h =
      queue-Carries f.content_id f.text f.content_state f.initial_rho (ground (arith, h))
  make_command-Carries stream_append f h = append-Carries f.stream_text (ground (arith, h))
  make_command-Carries stream_promote f h = promote-Carries f.candidate_id (ground (arith, h))
  make_command-Carries db_backup f h = backup-Carries f.dest_path f.backup_force (ground (arith, h))
  make_command-Carries autosave_enable f h = autosave-Carries f.autosave_mode (ground (arith, h))
  make_command-Carries _ f h = ground arith

  -- `make_command` queues a percept that the kernel accepts.
  pub make_command_queued :
      (e : PerceptEvent)
      → percept_event printable e.content_id e.text e.content_state e.initial_rho ≡ ok e
      → (leq (whole 0) e.initial_rho && leq e.initial_rho (whole 1)) ≡ true
      → make_command printable lower parse_fraction queue_percept (record no_fields {
        content_id = some e.content_id;
        text = some e.text;
        content_state = some e.content_state;
        initial_rho = some (fraction e.initial_rho);
      })
        ≡ ok (record { kind = queue_percept; payload = some (queue_percept_payload e) })
  unfolding make_command make_queue queue_percept_payload_of payload_rho_of command
  make_command_queued e h k = rw (k, h) refl
