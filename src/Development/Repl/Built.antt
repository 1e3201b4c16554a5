-- ===== src/Development/Repl/Built.antt =====
-- `build_command` on what `parse_line` says is valid.
use toy_brain.Prelude.{
  Text, List, [], ◌∷◌, none, true, false, ◌≡◌, refl, arith, All, all, all-append, map, codes,
  length, ◌++◌, ◌==◌, eq_text,
}
use toy_brain.Prelude.Outcome.{ok, Error, i_repl_12}
use toy_brain.Prelude.FrozenSet.{contains}
use toy_brain.Kernel.Io.{has_text}
use toy_brain.Tlica.Profile.{cogito_id}
use toy_brain.Development.Promotion.{is_given, require_printable_id}
use toy_brain.Development.Ids.{is_printable_id}
use toy_brain.Development.Repl.{
  Unicode, ProtoBasicToken, ProtoBasicGrammar, ProtoBasicParseResult, Shape,
  require_non_reserved_id, check_ids, ProtoBasicTokenKind, verb, target, object,
}
use toy_brain.Development.Repl.Grammar.{IsGrammar, find_id_self}
use toy_brain.Development.Repl.Spelling.{Tokens}
use toy_brain.Development.Repl.Valid.{length-map, valid_of}
use toy_brain.Development.Repl.Outcome.{ids-IsNamed}
use toy_brain.Development.Repl.Lookup.{kinds_of, ids_of}
use toy_brain.Development.Repl.Parse.{named_accepted, result_of}
use toy_brain.Development.Repl.Command.{
  ProtoBasicCommand, proto_basic_command, build_command, build_matched, matched_tokens,
  canonical_command_form, join_bars, kind_value, proto_basic_reserved_command_ids, require_learned,
}

-- the characters that a canonical form has besides those of the identifiers
abbrev pub form_text : Text
form_text = codes "shape=verb|target|object;tokens="

module _ (u : Unicode) where
  id_printable :
      (id : Text) (row : Error)
      → require_non_reserved_id u id row ≡ ok tt
      → all u.printable id ≡ true
  unfolding require_non_reserved_id require_printable_id is_printable_id
  id_printable id row h = ground (arith, h)

  ids_printable :
      (ids : List Text) (row : Error)
      → check_ids u ids row ≡ ok tt
      → All (λ id. all u.printable id ≡ true) ids
  unfolding check_ids
  ids_printable [] row h = tt
  ids_printable (id ∷ ids) row h =
      (id_printable id row (ground (arith, h)), ids_printable ids row (ground (arith, h)))

  module _ (plain : all u.printable form_text ≡ true) where
    kind_printable : (k : ProtoBasicTokenKind) → all u.printable (kind_value k) ≡ true
    kind_printable verb = ground (arith, plain)
    kind_printable target = ground (arith, plain)
    kind_printable object = ground (arith, plain)

    kinds_printable : (shape : Shape) → All (λ s. all u.printable s ≡ true) (map kind_value shape)
    kinds_printable [] = tt
    kinds_printable (k ∷ shape) = (kind_printable k, kinds_printable shape)

    join-printable :
        (texts : List Text)
        → All (λ s. all u.printable s ≡ true) texts
        → all u.printable (join_bars texts) ≡ true
    unfolding join_bars
    join-printable [] h = refl
    join-printable (s ∷ []) h = h.0
    join-printable (s ∷ t ∷ texts) h =
        let rest = join-printable (t ∷ texts) h.1 in
        all-append u.printable (s ++ codes "|") (join_bars (t ∷ texts))
          (all-append u.printable s (codes "|") h.0 (ground (arith, plain))) rest

    form_printable :
        (shape : Shape) (ids : List Text)
        → All (λ s. all u.printable s ≡ true) ids
        → all u.printable (canonical_command_form shape ids) ≡ true
    unfolding canonical_command_form
    form_printable shape ids h =
        let kinds = join-printable (map kind_value shape) (kinds_printable shape) in
        let tokens = join-printable ids h in
        let start : all u.printable (codes "shape=") ≡ true = ground (arith, plain) in
        let middle : all u.printable (codes ";tokens=") ≡ true = ground (arith, plain) in
        all-append u.printable (codes "shape=") _ start (
          all-append u.printable (join_bars (map kind_value shape)) _ kinds
            (all-append u.printable (codes ";tokens=") (join_bars ids) middle tokens))

form_given :
    (shape : Shape) (ids : List Text)
    → (has_text (canonical_command_form shape ids) ≡ true)
      × (eq_text (canonical_command_form shape ids) cogito_id ≡ false)
unfolding canonical_command_form cogito_id eq_text
form_given shape ids = (refl, refl)

matched_tokens-ids :
    (u : Unicode) {g : ProtoBasicGrammar} (good : IsGrammar u g) (ts : List ProtoBasicToken)
    → Tokens g ts
    → matched_tokens (ids_of ts) g.tokens ≡ ok ts
unfolding matched_tokens
matched_tokens-ids u good [] h = refl
matched_tokens-ids u good (t ∷ ts) h =
    rw (find_id_self u good t h.0, matched_tokens-ids u good ts h.1) refl

-- the command of a valid answer
abbrev pub command_of : Text → Text → Shape → List Text → ProtoBasicCommand
command_of command_id line_id shape ids = record {
  command_id = command_id;
  source_line_id = line_id;
  matched_shape = shape;
  matched_token_ids = ids;
  canonical_form = canonical_command_form shape ids;
}

given_kinds :
    (ts : List ProtoBasicToken) → is_given (kinds_of ts) ≡ true → is_given (ids_of ts) ≡ true
given_kinds [] h = absurd (cc h)
given_kinds (t ∷ ts) h = refl

module _ (u : Unicode) (g : ProtoBasicGrammar) (good : IsGrammar u g)
    (plain : all u.printable form_text ≡ true) (command_id : Text)
    (free : contains command_id proto_basic_reserved_command_ids ≡ false)
    (command_named : require_non_reserved_id u command_id i_repl_12 ≡ ok tt) (line_id : Text)
    (line_named : require_non_reserved_id u line_id i_repl_12 ≡ ok tt) where
  pub command-accepted :
      (ts : List ProtoBasicToken)
      → Tokens g ts
      → is_given (kinds_of ts) ≡ true
      → proto_basic_command u (command_of command_id line_id (kinds_of ts) (ids_of ts))
        ≡ ok (command_of command_id line_id (kinds_of ts) (ids_of ts))
  unfolding proto_basic_command
  command-accepted ts all_in given =
      let size_ids = length-map (λ (t : ProtoBasicToken). t.token_id) ts in
      let size_kinds = length-map (λ (t : ProtoBasicToken). t.kind) ts in
      let ids = named_accepted u g good i_repl_12 (ids_of ts) (ids-IsNamed u g ts all_in) in
      let form = form_given (kinds_of ts) (ids_of ts) in
      let printed =
        form_printable u plain (kinds_of ts) (ids_of ts)
          (ids_printable u (ids_of ts) i_repl_12 ids) in
      let same : (length (ids_of ts) == length (kinds_of ts)) ≡ true =
        ground (arith, size_ids, size_kinds) in
      rw
        (
          free,
          command_named,
          line_named,
          given,
          given_kinds ts given,
          same,
          ids,
          form.0,
          form.1,
          printed,
        )
        refl

  -- A valid answer gives a command.
  pub build_command-spelled :
      (p : ProtoBasicParseResult) (ts : List ProtoBasicToken)
      → Tokens g ts
      → is_given (kinds_of ts) ≡ true
      → p ≡ result_of line_id (valid_of ts)
      → build_command u g p command_id none []
        ≡ ok (command_of command_id line_id (kinds_of ts) (ids_of ts))
  unfolding build_command build_matched require_learned
  build_command-spelled p [] all_in given same = absurd (cc given)
  build_command-spelled p (t ∷ ts) all_in given same =
      rw (same, matched_tokens-ids u good (t ∷ ts) all_in) (command-accepted (t ∷ ts) all_in given)
