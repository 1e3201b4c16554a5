-- ===== src/Development/Repl.antt =====
-- brain/development/repl.py: the tokens, the grammar, the lines and the parse results of the
-- Proto-BASIC surface. Python's `str.casefold` and Unicode's tables are parameters. The tests of
-- the type of an argument and those for a negative integer have no counterpart.
pub mod Lookup
pub mod Classify
pub mod Command
pub mod Feedback
pub mod History
pub mod Summary
pub mod Grammar
pub mod Spelling
pub mod Matches
pub mod Valid
pub mod Correction
pub mod Outcome
pub mod Answers
pub mod Unknown
pub mod Folded
pub mod Line
pub mod Parse
pub mod Score
pub mod Counts
pub mod Totals
pub mod Built
use toy_brain.Prelude.{
  ℕ, Bool, Text, List, [], ◌∷◌, Option, none, some, true, false, not, ◌&&◌, ◌||◌, eq_text, length,
  leb, ltb, ◌==◌, all, any, keep, if◌then◌else◌, ◌++◌, take, suc, zero,
}
use toy_brain.Prelude.Outcome.{
  Result, ok, raise, ◌>>=◌, ◌>>◌, require, Error, i_repl_01, i_repl_02, i_repl_03, i_repl_04,
  i_repl_05,
}
use toy_brain.Prelude.FrozenSet.{FrozenSet, contains, add}
use toy_brain.Kernel.Io.{has_text}
use toy_brain.Llm.Parse.{strip, split_from}
use toy_brain.Development.Promotion.{require_printable_id, is_given}
use toy_brain.Tlica.Profile.{cogito_id}

pub record Unicode : Type 0 where
  pub printable : ℕ → Bool
  pub is_space : ℕ → Bool
  pub casefold : Text → Text

abbrev pub proto_basic_max_line_length : ℕ
proto_basic_max_line_length = 80

abbrev pub proto_basic_max_line_tokens : ℕ
proto_basic_max_line_tokens = 4

abbrev pub proto_basic_max_token_length : ℕ
proto_basic_max_token_length = 16

abbrev pub proto_basic_max_edit_distance : ℕ
proto_basic_max_edit_distance = 1

pub data ProtoBasicTokenKind : Type 0 where
  verb target object : ProtoBasicTokenKind

pub data ProtoBasicParseCategory : Type 0 where
  valid near_miss syntax_invalid semantic_invalid : ProtoBasicParseCategory
  tool_unavailable resource_limit sandbox_fault : ProtoBasicParseCategory

pub data ProtoBasicEditKind : Type 0 where
  substitute_token insert_token delete_token case_fold : ProtoBasicEditKind

abbrev pub eq_kind : ProtoBasicTokenKind → ProtoBasicTokenKind → Bool
eq_kind verb verb = true
eq_kind target target = true
eq_kind object object = true
eq_kind _ _ = false

abbrev pub Shape : Type 0
Shape = List ProtoBasicTokenKind

-- `==` of two shapes, and `in` of a tuple of shapes
unfoldable pub eq_shape : Shape → Shape → Bool
eq_shape [] [] = true
eq_shape (a ∷ s) (b ∷ t) = eq_kind a b && eq_shape s t
eq_shape _ _ = false

unfoldable pub has_shape : Shape → List Shape → Bool
unfolding eq_shape
has_shape s shapes = any (eq_shape s) shapes

pub record ProtoBasicToken : Type 0 where
  pub token_id : Text
  pub kind : ProtoBasicTokenKind
  pub text : Text

pub record ProtoBasicGrammar : Type 0 where
  pub tokens : List ProtoBasicToken
  pub command_shapes : List Shape
  pub max_line_length : ℕ
  pub max_line_tokens : ℕ
  pub max_edit_distance : ℕ

pub record ProtoBasicLine : Type 0 where
  pub line_id : Text
  pub raw_text : Text
  pub tokens : List Text

pub record ProtoBasicCorrectionHint : Type 0 where
  pub edit_kind : ProtoBasicEditKind
  pub edit_position : ℕ
  pub expected_token_id : Option Text
  pub edit_distance : ℕ

pub record ProtoBasicParseResult : Type 0 where
  pub line_id : Text
  pub category : ProtoBasicParseCategory
  pub matched_shape : Option Shape
  pub matched_token_ids : List Text
  pub correction_hint : Option ProtoBasicCorrectionHint
  pub detail : Text

module _ (u : Unicode) where
  unfoldable pub require_non_reserved_id : Text → Error → Result (Unit {0})
  unfolding require_printable_id cogito_id
  require_non_reserved_id value row_id = do
    require_printable_id u.printable u.is_space value
    require (not (eq_text value cogito_id)) row_id

  unfoldable pub check_ids : List Text → Error → Result (Unit {0})
  unfolding require_non_reserved_id
  check_ids [] row_id = ok tt
  check_ids (value ∷ rest) row_id = do require_non_reserved_id value row_id; check_ids rest row_id

  unfoldable pub require_printable_text : Text → Error → ℕ → Result (Unit {0})
  unfolding strip
  require_printable_text value row_id max_length = do
    require (has_text value && (has_text (strip u.is_space value) && all u.printable value)) row_id
    require (leb (length value) max_length) row_id

  -- `ProtoBasicToken.__post_init__`
  unfoldable pub proto_basic_token : ProtoBasicToken → Result ProtoBasicToken
  unfolding require_non_reserved_id require_printable_text cogito_id
  proto_basic_token t = do
    require_non_reserved_id t.token_id i_repl_01
    require_printable_text t.text i_repl_01 proto_basic_max_token_length
    require (not (eq_text t.text cogito_id)) i_repl_01
    require (not (any u.is_space t.text)) i_repl_01
    ok t

  abbrev pub canonical : ProtoBasicToken → Text
  canonical t = u.casefold t.text

  -- the loop over `self.tokens`, with what it has seen
  unfoldable pub check_tokens : FrozenSet → FrozenSet → List ProtoBasicToken → Result (Unit {0})
  unfolding contains add
  check_tokens seen_ids seen_canonical [] = ok tt
  check_tokens seen_ids seen_canonical (t ∷ rest) = do
    require (not (contains t.token_id seen_ids)) i_repl_01
    require (not (contains (canonical t) seen_canonical)) i_repl_01
    check_tokens (add t.token_id seen_ids) (add (canonical t) seen_canonical) rest

  unfoldable pub check_shapes : ℕ → List Shape → Result (Unit {0})
  check_shapes limit [] = ok tt
  check_shapes limit (shape ∷ rest) = do
    require (is_given shape) i_repl_01
    require (leb (length shape) limit) i_repl_01
    check_shapes limit rest

  -- `ProtoBasicGrammar.__post_init__`
  unfoldable pub proto_basic_grammar : ProtoBasicGrammar → Result ProtoBasicGrammar
  unfolding check_tokens check_shapes
  proto_basic_grammar g = do
    require (is_given g.tokens) i_repl_01
    check_tokens [] [] g.tokens
    require (is_given g.command_shapes) i_repl_01
    check_shapes g.max_line_tokens g.command_shapes
    require (ltb 0 g.max_line_length) i_repl_01
    require (ltb 0 g.max_line_tokens) i_repl_01
    require (ltb 0 g.max_edit_distance) i_repl_01
    require (leb g.max_edit_distance proto_basic_max_edit_distance) i_repl_05
    ok g

  unfoldable pub check_pieces : List Text → Result (Unit {0})
  check_pieces [] = ok tt
  check_pieces (piece ∷ rest) = do
    require (has_text piece && leb (length piece) proto_basic_max_token_length) i_repl_02
    check_pieces rest

  -- `ProtoBasicLine.__post_init__`
  unfoldable pub proto_basic_line : ProtoBasicLine → Result ProtoBasicLine
  unfolding require_non_reserved_id check_pieces
  proto_basic_line l = do
    require_non_reserved_id l.line_id i_repl_02
    require (all u.printable l.raw_text) i_repl_02
    require (leb (length l.raw_text) proto_basic_max_line_length) i_repl_02
    require (leb (length l.tokens) proto_basic_max_line_tokens) i_repl_02
    check_pieces l.tokens
    ok l

  -- the loop of `tokenize`, with room for `left` more pieces; a piece of `split` is never empty
  unfoldable pub cut_pieces : ℕ → List Text → List Text
  cut_pieces zero rest = []
  cut_pieces (suc left) [] = []
  cut_pieces (suc left) (piece ∷ rest) =
      take proto_basic_max_token_length piece ∷ cut_pieces left rest

  unfoldable pub tokenize : Text → Text → Result ProtoBasicLine
  unfolding split_from cut_pieces proto_basic_line
  tokenize raw_text line_id = do
    require (leb (length raw_text) proto_basic_max_line_length) i_repl_02
    require (all u.printable raw_text) i_repl_02
    proto_basic_line (record {
      line_id = line_id;
      raw_text = raw_text;
      tokens = cut_pieces proto_basic_max_line_tokens (split_from u.is_space [] raw_text);
    })

  check_expected : Option Text → Result (Unit {0})
  unfolding require_non_reserved_id
  check_expected none = ok tt
  check_expected (some value) = require_non_reserved_id value i_repl_05

  -- `ProtoBasicCorrectionHint.__post_init__`
  unfoldable pub proto_basic_correction_hint :
      ProtoBasicCorrectionHint → Result ProtoBasicCorrectionHint
  unfolding check_expected
  proto_basic_correction_hint h = do
    require (leb h.edit_position proto_basic_max_line_tokens) i_repl_05
    check_expected h.expected_token_id
    require (ltb 0 h.edit_distance && leb h.edit_distance proto_basic_max_edit_distance) i_repl_05
    ok h

  -- the tests of `ProtoBasicParseResult.__post_init__` that depend on the category
  abbrev pub check_category :
      ProtoBasicParseCategory
      → Option Shape
      → List Text
      → Option ProtoBasicCorrectionHint
      → Result (Unit {0})
  check_category near_miss shape ids (some hint) = ok tt
  check_category near_miss shape ids none = raise i_repl_05
  check_category other shape ids (some hint) = raise i_repl_05
  check_category valid none ids none = raise i_repl_04
  check_category valid (some shape) ids none = require (is_given ids) i_repl_04
  check_category other shape ids none = ok tt

  unfoldable pub proto_basic_parse_result : ProtoBasicParseResult → Result ProtoBasicParseResult
  unfolding require_non_reserved_id check_ids
  proto_basic_parse_result p = do
    require_non_reserved_id p.line_id i_repl_03
    check_ids p.matched_token_ids i_repl_04
    check_category p.category p.matched_shape p.matched_token_ids p.correction_hint
    ok p
