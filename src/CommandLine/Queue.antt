-- ===== src/CommandLine/Queue.antt =====
-- The command that a `/queue` line gives.
use mathlib.Core.Path.{subst}
use toy_brain.Prelude.{
  ℕ, Text, Bool, ◌∷◌, [], ◌++◌, true, false, ◌≡◌, refl, all, not, codes, leb, length, ◌&&◌, eq_text,
  some, sym, if◌then◌else◌,
}
use toy_brain.Prelude.Outcome.{ok}
use toy_brain.Prelude.FrozenSet.{contains}
use toy_brain.Llm.Parse.{lstrip, rstrip, strip}
use toy_brain.Kernel.Io.{has_text, PerceptEvent}
use toy_brain.Tlica.Profile.{cogito_id}
use toy_brain.CommandLine.{
  Runtime, split_once, parsed, local_cmd_max_field_len, local_cmd_default_content_state,
  local_cmd_default_rho, route,
}
use toy_brain.CommandLine.Words.{
  IsWord, lstrip-word, rstrip-append, split_once-word, has_text-append,
}
use toy_brain.CommandLine.Handlers.{
  parse, parse_stripped, parse_body, run_tokens, run_verb, dispatch, run_route, parse_queue,
  queue_parts, make_queue_command, attempt, error,
}
use toy_brain.Commands.{Command, queue_percept, queue_percept_payload}
use toy_brain.Commands.Make.{make_command}
use toy_brain.Kernel.Io.{percept_event}
use toy_brain.Fraction.{leq}

-- What Python's tables and `str.lower` do with ASCII.
pub record Ascii (r : Runtime) : Type 0 where
  pub space : r.is_space 32 ≡ true
  pub visible : (c : ℕ) → (leb 33 c && leb c 126) ≡ true → r.is_space c ≡ false
  pub lowered : (s : Text) → all (λ c. leb 97 c && leb c 122) s ≡ true → r.lower s ≡ s

-- A text that keeps both its ends under `str.strip`.
pub record IsTrimmed (is_space : ℕ → Bool) (s : Text) : Type 0 where
  pub text_given : has_text s ≡ true
  pub left : lstrip is_space s ≡ s
  pub right : rstrip is_space s ≡ s

abbrev queued_event : Text → Text → PerceptEvent
queued_event content_id text = record {
  content_id = content_id;
  text = text;
  content_state = local_cmd_default_content_state;
  initial_rho = local_cmd_default_rho;
}

abbrev pub queued : Text → Text → Command
queued content_id text = record {
  kind = queue_percept;
  payload = some (queue_percept_payload (queued_event content_id text));
}

module _ (r : Runtime) (ascii : Ascii r) where
  module _ (content_id text : Text) (word : IsWord r.is_space content_id)
      (id_short : leb (length content_id) local_cmd_max_field_len ≡ true)
      (id_free : eq_text content_id cogito_id ≡ false) (trimmed : IsTrimmed r.is_space text)
      (text_short : leb (length text) local_cmd_max_field_len ≡ true)
      (visible : all r.printable text ≡ true) where
    abbrev arguments : Text
    arguments = content_id ++ 32 ∷ text

    queue_parts_made :
        queue_parts r arguments (content_id ∷ text ∷ []) ≡ ok (parsed (queued content_id text))
    unfolding queue_parts make_queue_command attempt make_command percept_event leq
    queue_parts_made =
        rw (trimmed.right, trimmed.text_given, id_short, text_short, id_free, visible) refl

    split_arguments : split_once r.is_space arguments ≡ content_id ∷ text ∷ []
    split_arguments =
        split_once-word r.is_space content_id 32 text word ascii.space trimmed.text_given
          trimmed.left

    rstrip-arguments : (s : Text) → rstrip r.is_space (s ++ arguments) ≡ s ++ arguments
    rstrip-arguments s =
        let last = rstrip-append r.is_space (32 ∷ []) text trimmed.text_given trimmed.right in
        let both = rstrip-append r.is_space content_id (32 ∷ text) refl last in
        rstrip-append r.is_space s arguments
          (has_text-append r.is_space content_id (32 ∷ text) refl) both

    strip-arguments : strip r.is_space arguments ≡ arguments
    unfolding strip
    strip-arguments = rw (lstrip-word r.is_space content_id (32 ∷ text) word) (rstrip-arguments [])

    arguments_given : has_text arguments ≡ true
    arguments_given = has_text-append r.is_space content_id (32 ∷ text) refl

    parse_queue_made : parse_queue r arguments ≡ ok (parsed (queued content_id text))
    unfolding parse_queue
    parse_queue_made = rw (strip-arguments, arguments_given, split_arguments) queue_parts_made

    run_verb_made :
        run_verb r (r.lower (codes "queue")) arguments ≡ ok (parsed (queued content_id text))
    unfolding run_verb contains eq_text dispatch route run_route
    run_verb_made = rw (ascii.lowered (codes "queue") refl) parse_queue_made

    queue_word : all (λ c. not (r.is_space c)) (codes "queue") ≡ true
    queue_word = rw (ascii.visible 113 refl, ascii.visible 117 refl, ascii.visible 101 refl) refl

    split_line :
        split_once r.is_space (codes "queue " ++ arguments) ≡ codes "queue" ∷ arguments ∷ []
    split_line =
        split_once-word r.is_space (codes "queue") 32 arguments (refl, queue_word) ascii.space
          arguments_given (lstrip-word r.is_space content_id (32 ∷ text) word)

    strip_line : strip r.is_space (codes "/queue " ++ arguments) ≡ codes "/queue " ++ arguments
    unfolding strip lstrip
    strip_line = rw (ascii.visible 47 refl) (rstrip-arguments (codes "/queue "))

    tokens_made :
        run_tokens r (split_once r.is_space (codes "queue " ++ arguments))
        ≡ ok (parsed (queued content_id text))
    unfolding run_tokens
    tokens_made = rw split_line run_verb_made

    body_made : parse_body r (codes "queue " ++ arguments) ≡ ok (parsed (queued content_id text))
    unfolding parse_body
    body_made =
        subst
          (λ b.
            (if b
              then error r (codes "expected verb after '/'")
              else run_tokens r (split_once r.is_space (codes "queue " ++ arguments)))
            ≡ ok (parsed (queued content_id text)))
          (sym (ascii.visible 113 refl)) tokens_made

    -- Let the tables and `str.lower` read ASCII as usual. The line `/queue ID TEXT` gives the
    -- command that queues the text under the identifier, with the default content state and
    -- fraction, if the identifier is a word other than the reserved one, the text is printable and
    -- has no space at its ends, and both have at most 64 characters.
    pub parse-queued : parse r (codes "/queue " ++ arguments) ≡ ok (parsed (queued content_id text))
    unfolding parse parse_stripped
    parse-queued = rw strip_line body_made
