-- ===== src/Development/Repl/Classify.antt =====
-- brain/development/repl.py: `_classify_line` and `parse_line`.
use toy_brain.Prelude.{
  ℕ, Text, List, [], ◌∷◌, Option, none, some, ◌&&◌, length, ltb, ◌==◌, if◌then◌else◌, ◌++◌, ◌+◌,
  take, map, codes, get_elem?, leb,
}
use toy_brain.Prelude.Outcome.{Result, ok, ◌>>=◌}
use toy_brain.Development.Repl.Lookup.{
  kinds_of, ids_of, find_exact, tokens_of_kind, known, fold_position, unknown_positions, fits,
  filled_ids, known_ids, token_by_canonical,
}
use toy_brain.Development.Repl.{
  Shape, eq_shape, has_shape, ProtoBasicToken, ProtoBasicGrammar, ProtoBasicLine,
  ProtoBasicCorrectionHint, ProtoBasicParseResult, ProtoBasicParseCategory, valid, near_miss,
  syntax_invalid, semantic_invalid, resource_limit, substitute_token, insert_token, delete_token,
  case_fold, Unicode, proto_basic_correction_hint, proto_basic_parse_result,
}

-- the tuple that `_classify_line` returns
pub record Classified : Type 0 where
  pub category : ProtoBasicParseCategory
  pub shape : Option Shape
  pub token_ids : List Text
  pub hint : Option ProtoBasicCorrectionHint
  pub detail : Text

module _ (u : Unicode) where
  abbrev pub near : Shape → List Text → ProtoBasicCorrectionHint → Text → Result Classified
  near shape ids h detail = do
    hint ← proto_basic_correction_hint u h
    ok (record {
      category = near_miss;
      shape = some shape;
      token_ids = ids;
      hint = some hint;
      detail = detail;
    })

  module _ (g : ProtoBasicGrammar) where
    abbrev pub exact_matches : List Text → List (Option ProtoBasicToken)
    exact_matches pieces = map (λ piece. find_exact piece g.tokens) pieces

    abbrev pub case_fold_matches : List Text → List (Option ProtoBasicToken)
    case_fold_matches pieces =
        map (λ piece. token_by_canonical u (u.casefold piece) g.tokens) pieces

    -- the insertion of the first token of a kind, or the search of the other shapes
    unfoldable pub insert_near :
        List ProtoBasicToken → Shape → List ProtoBasicToken → Result Classified → Result Classified
    unfolding proto_basic_correction_hint
    insert_near ts shape [] other = other
    insert_near ts shape (expected ∷ more) other =
        near shape (ids_of ts ++ expected.token_id ∷ [])
          (record {
            edit_kind = insert_token;
            edit_position = length ts;
            expected_token_id = some expected.token_id;
            edit_distance = 1;
          })
          (codes "insert-token")

    unfoldable pub delete_near : List ProtoBasicToken → Shape → Result Classified
    unfolding proto_basic_correction_hint
    delete_near ts shape =
        near shape (take (length shape) (ids_of ts))
          (record {
            edit_kind = delete_token;
            edit_position = length shape;
            expected_token_id = none;
            edit_distance = 1;
          })
          (codes "delete-token")

    abbrev pub candidates_at : Shape → ℕ → List ProtoBasicToken
    candidates_at shape n = elim (get_elem? shape n) [
      | none ↦ []
      | some k ↦ tokens_of_kind k g.tokens
    ]

    -- the loop over the shapes for tokens that are all known
    unfoldable pub length_near : List ProtoBasicToken → List Shape → Result Classified
    unfolding eq_shape insert_near delete_near tokens_of_kind
    length_near ts [] = ok (record {
      category = semantic_invalid;
      shape = some (kinds_of ts);
      token_ids = ids_of ts;
      hint = none;
      detail = codes "shape-mismatch";
    })
    length_near ts (shape ∷ rest) =
        let other = length_near ts rest in
        if (length shape == length ts + 1) && eq_shape (kinds_of ts) (take (length ts) shape)
        then insert_near ts shape (candidates_at shape (length ts)) other
        else if (length shape + 1 == length ts)
            && (leb 1 (length shape) && eq_shape (take (length shape) (kinds_of ts)) shape)
        then delete_near ts shape
        else other

    unfoldable pub classify_known : List ProtoBasicToken → Result Classified
    unfolding has_shape length_near
    classify_known ts =
        if has_shape (kinds_of ts) g.command_shapes
        then ok (record {
          category = valid;
          shape = some (kinds_of ts);
          token_ids = ids_of ts;
          hint = none;
          detail = codes "ok";
        })
        else length_near ts g.command_shapes

    -- the substitution of the first token of a kind at the one unknown position
    unfoldable pub substitute_near :
        List (Option ProtoBasicToken)
        → ℕ
        → Shape
        → List ProtoBasicToken
        → Result Classified
        → Result Classified
    unfolding filled_ids proto_basic_correction_hint
    substitute_near ms position shape [] other = other
    substitute_near ms position shape (expected ∷ more) other =
        near shape (filled_ids expected.token_id ms)
          (record {
            edit_kind = substitute_token;
            edit_position = position;
            expected_token_id = some expected.token_id;
            edit_distance = 1;
          })
          (codes "substitute-token")

    abbrev pub unknown_tokens : List (Option ProtoBasicToken) → Result Classified
    unknown_tokens ms = ok (record {
      category = syntax_invalid;
      shape = none;
      token_ids = known_ids ms;
      hint = none;
      detail = codes "unknown-tokens";
    })

    unfoldable pub substitute_loop :
        List (Option ProtoBasicToken) → ℕ → List Shape → Result Classified
    unfolding fits substitute_near known_ids tokens_of_kind
    substitute_loop ms position [] = unknown_tokens ms
    substitute_loop ms position (shape ∷ rest) =
        let other = substitute_loop ms position rest in
        if (length shape == length ms) && fits ms shape
        then substitute_near ms position shape (candidates_at shape position) other
        else other

    unfoldable pub classify_unknown : List (Option ProtoBasicToken) → List ℕ → Result Classified
    unfolding substitute_loop known_ids
    classify_unknown ms (position ∷ []) = substitute_loop ms position g.command_shapes
    classify_unknown ms positions = unknown_tokens ms

    abbrev pub fold_near : List ProtoBasicToken → ℕ × ProtoBasicToken → Result Classified
    fold_near folded (position, t) = do
      hint ← proto_basic_correction_hint u (record {
        edit_kind = case_fold;
        edit_position = position;
        expected_token_id = some t.token_id;
        edit_distance = 1;
      })
      if has_shape (kinds_of folded) g.command_shapes
          then ok (record {
            category = near_miss;
            shape = some (kinds_of folded);
            token_ids = ids_of folded;
            hint = some hint;
            detail = codes "case-fold";
          })
          else ok (record {
            category = semantic_invalid;
            shape = some (kinds_of folded);
            token_ids = ids_of folded;
            hint = none;
            detail = codes "shape-mismatch-after-case-fold";
          })

    unfoldable pub classify_folded :
        List (Option ProtoBasicToken) → Option (List ProtoBasicToken) → Result Classified
    unfolding classify_unknown unknown_positions fold_position has_shape proto_basic_correction_hint
    classify_folded ms none = classify_unknown ms (unknown_positions 0 ms)
    classify_folded ms (some folded) = elim (fold_position 0 ms folded) [
      | none ↦ classify_unknown ms (unknown_positions 0 ms)
      | some found ↦ fold_near folded found
    ]

    unfoldable pub classify_exact : List Text → Option (List ProtoBasicToken) → Result Classified
    unfolding classify_known classify_folded known find_exact token_by_canonical
    classify_exact pieces (some ts) = classify_known ts
    classify_exact pieces none =
        classify_folded (exact_matches pieces) (known (case_fold_matches pieces))

    -- `_classify_line`, of `line.tokens`
    unfoldable pub classify_line : List Text → Result Classified
    unfolding classify_exact known find_exact
    classify_line [] = ok (record {
      category = syntax_invalid;
      shape = none;
      token_ids = [];
      hint = none;
      detail = codes "empty-line";
    })
    classify_line (piece ∷ pieces) =
        if ltb g.max_line_tokens (length (piece ∷ pieces))
        then ok (record {
          category = resource_limit;
          shape = none;
          token_ids = [];
          hint = none;
          detail = codes "token-count-exceeded";
        })
        else classify_exact (piece ∷ pieces) (known (exact_matches (piece ∷ pieces)))

    unfoldable pub parse_line : ProtoBasicLine → Result ProtoBasicParseResult
    unfolding classify_line proto_basic_parse_result
    parse_line line = do
      c ← classify_line line.tokens
      proto_basic_parse_result u (record {
        line_id = line.line_id;
        category = c.category;
        matched_shape = c.shape;
        matched_token_ids = c.token_ids;
        correction_hint = c.hint;
        detail = c.detail;
      })
