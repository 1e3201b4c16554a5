-- ===== src/Development/Repl/Command.antt =====
-- brain/development/repl.py: the command that a valid parse gives, and its execution. Of the output
-- history it reads the texts of the learned tokens, which stand for it here.
use toy_brain.Prelude.{
  Bool, Text, List, [], ◌∷◌, Option, none, some, not, ◌&&◌, eq_text, length, ◌==◌, all, any,
  if◌then◌else◌, ◌++◌, codes, map, true, false,
}
use toy_brain.Prelude.Outcome.{Result, ok, raise, ◌>>=◌, ◌>>◌, require, i_repl_12}
use toy_brain.Prelude.FrozenSet.{FrozenSet, contains}
use toy_brain.Kernel.Io.{has_text}
use toy_brain.Tlica.Profile.{cogito_id}
use toy_brain.Development.Promotion.{is_given}
use toy_brain.Development.Repl.{
  Unicode, require_non_reserved_id, check_ids, ProtoBasicTokenKind, verb, target, object, eq_kind,
  Shape, ProtoBasicToken, ProtoBasicGrammar, ProtoBasicParseResult, canonical,
  ProtoBasicParseCategory, valid,
}
use toy_brain.Development.Repl.Feedback.{
  ProtoBasicExecutionCategory, ProtoBasicExecutionResult, is_effective, recast,
  proto_basic_execution_result,
}

pub record ProtoBasicCommand : Type 0 where
  pub command_id : Text
  pub source_line_id : Text
  pub matched_shape : Shape
  pub matched_token_ids : List Text
  pub canonical_form : Text

-- `_PROTO_BASIC_RESERVED_COMMAND_IDS`
abbrev pub proto_basic_reserved_command_ids : FrozenSet
proto_basic_reserved_command_ids =
    cogito_id
    ∷ codes "tick"
    ∷ codes "percept-event"
    ∷ codes "PerceptEvent"
    ∷ codes "act"
    ∷ codes "ModeOp"
    ∷ codes "AgencyWitness"
    ∷ codes "feasibleProjectedPCE"
    ∷ codes "selected-action"
    ∷ []

-- `kind.value`
abbrev pub kind_value : ProtoBasicTokenKind → Text
kind_value verb = codes "verb"
kind_value target = codes "target"
kind_value object = codes "object"

-- `"|".join(...)`
unfoldable pub join_bars : List Text → Text
join_bars [] = []
join_bars (s ∷ []) = s
join_bars (s ∷ t ∷ rest) = s ++ codes "|" ++ join_bars (t ∷ rest)

unfoldable pub canonical_command_form : Shape → List Text → Text
unfolding join_bars
canonical_command_form shape ids =
    codes "shape=" ++ (join_bars (map kind_value shape) ++ (codes ";tokens=" ++ join_bars ids))

-- `next((t for t in grammar.tokens if t.token_id == tok_id), None)`
unfoldable pub find_id : Text → List ProtoBasicToken → Option ProtoBasicToken
find_id tok_id [] = none
find_id tok_id (t ∷ rest) = if eq_text t.token_id tok_id then some t else find_id tok_id rest

abbrev or_missing : Option ProtoBasicToken → Result ProtoBasicToken
or_missing none = raise i_repl_12
or_missing (some t) = ok t

unfoldable pub matched_tokens : List Text → List ProtoBasicToken → Result (List ProtoBasicToken)
unfolding find_id
matched_tokens [] tokens = ok []
matched_tokens (tok_id ∷ rest) tokens = do
  token ← or_missing (find_id tok_id tokens)
  more ← matched_tokens rest tokens
  ok (token ∷ more)

-- `category is ProtoBasicParseCategory.VALID`
abbrev pub is_valid : ProtoBasicParseCategory → Bool
is_valid valid = true
is_valid other = false

module _ (u : Unicode) where
  -- `ProtoBasicCommand.__post_init__`; the test of the class's own slots does not fail
  unfoldable pub proto_basic_command : ProtoBasicCommand → Result ProtoBasicCommand
  unfolding contains require_non_reserved_id check_ids cogito_id
  proto_basic_command c = do
    require (not (contains c.command_id proto_basic_reserved_command_ids)) i_repl_12
    recast (require_non_reserved_id u c.command_id i_repl_12) (raise i_repl_12)
    recast (require_non_reserved_id u c.source_line_id i_repl_12) (raise i_repl_12)
    require (is_given c.matched_shape) i_repl_12
    require (is_given c.matched_token_ids) i_repl_12
    require (length c.matched_token_ids == length c.matched_shape) i_repl_12
    check_ids u c.matched_token_ids i_repl_12
    require (has_text c.canonical_form && all u.printable c.canonical_form) i_repl_12
    require (not (eq_text c.canonical_form cogito_id)) i_repl_12
    ok c

  unfoldable pub check_learned :
      FrozenSet → List ProtoBasicTokenKind → List ProtoBasicToken → Result (Unit {0})
  unfolding contains
  check_learned learned kinds [] = ok tt
  check_learned learned kinds (t ∷ rest) = do
    require (not (any (eq_kind t.kind) kinds && not (contains (canonical u t) learned))) i_repl_12
    check_learned learned kinds rest

  -- nothing is asked of the output history when no kind needs it
  unfoldable pub require_learned :
      Option (List Text) → List ProtoBasicTokenKind → List ProtoBasicToken → Result (Unit {0})
  unfolding check_learned
  require_learned history [] tokens = ok tt
  require_learned none (k ∷ kinds) tokens = raise i_repl_12
  require_learned (some learned) (k ∷ kinds) tokens =
      check_learned (map u.casefold learned) (k ∷ kinds) tokens

  unfoldable pub build_matched :
      ProtoBasicGrammar
      → Text
      → Text
      → Option Shape
      → List Text
      → Option (List Text)
      → List ProtoBasicTokenKind
      → Result ProtoBasicCommand
  unfolding matched_tokens require_learned proto_basic_command canonical_command_form
  build_matched g line_id command_id none ids history kinds = raise i_repl_12
  build_matched g line_id command_id (some shape) ids history kinds = do
    require (is_given ids) i_repl_12
    tokens ← matched_tokens ids g.tokens
    require_learned history kinds tokens
    proto_basic_command (record {
      command_id = command_id;
      source_line_id = line_id;
      matched_shape = shape;
      matched_token_ids = ids;
      canonical_form = canonical_command_form shape ids;
    })

  unfoldable pub build_command :
      ProtoBasicGrammar
      → ProtoBasicParseResult
      → Text
      → Option (List Text)
      → List ProtoBasicTokenKind
      → Result ProtoBasicCommand
  unfolding build_matched
  build_command g p command_id history kinds = do
    require (is_valid p.category) i_repl_12
    build_matched g p.line_id command_id p.matched_shape p.matched_token_ids history kinds

  unfoldable pub execute_command :
      ProtoBasicCommand → ProtoBasicExecutionCategory → Text → Result ProtoBasicExecutionResult
  unfolding proto_basic_execution_result
  execute_command c category detail = proto_basic_execution_result u (record {
    line_id = c.source_line_id;
    category = category;
    effective = is_effective category;
    detail = detail;
  })
