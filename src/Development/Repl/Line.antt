-- ===== src/Development/Repl/Line.antt =====
-- `_classify_line` and `parse_line` on every line.
use mathlib.Core.Path.{subst}
use toy_brain.Prelude.{
  ℕ, Text, List, [], ◌∷◌, Option, none, some, true, ◌≡◌, refl, arith, length, ◌++◌, ◌≤◌, ap, sym,
  ◌∙◌, codes, ltb,
}
use toy_brain.Development.Repl.{
  resource_limit, Unicode, ProtoBasicToken, ProtoBasicGrammar, ProtoBasicCorrectionHint, case_fold,
  has_shape, proto_basic_max_line_tokens, semantic_invalid, syntax_invalid,
}
use toy_brain.Development.Repl.Grammar.{In, All-In, IsGrammar}
use toy_brain.Development.Repl.Spelling.{texts_of, somes, missing, known-missing, one_missing}
use toy_brain.Development.Repl.Matches.{exact-around, exact-somes}
use toy_brain.Development.Repl.Correction.{edited, set_piece}
use toy_brain.Development.Repl.Outcome.{
  Spells, Answers, ids-IsNamed, near-Answers, plain-IsOutcome, hint_accepted,
}
use toy_brain.Development.Repl.Answers.{text_for_self, if-Answers, known-Answers}
use toy_brain.Development.Repl.Unknown.{set_piece-texts, unknown_positions-Answers}
use toy_brain.Development.Repl.Folded.{
  fold_position-In, fold_position-missing, fold_position-around, folded-Tokens, fold-around,
}
use toy_brain.Development.Repl.Classify.{
  exact_matches, case_fold_matches, classify_unknown, fold_near, classify_folded, classify_exact,
  classify_line, classify_known,
}
use toy_brain.Development.Repl.Lookup.{kinds_of, ids_of, fold_position, known, unknown_positions}
use toy_brain.Development.Promotion.{is_given}
use toy_brain.Development.Repl.Valid.{length-map}

texts_given :
    (ts : List ProtoBasicToken) {pieces : List Text}
    → texts_of ts ≡ pieces
    → is_given pieces ≡ true
    → is_given ts ≡ true
texts_given [] e h = absurd (cc (e, h))
texts_given (t ∷ ts) e h = refl

module _ (u : Unicode) (g : ProtoBasicGrammar) (good : IsGrammar u g) where
  abbrev fold_hint : ℕ → ProtoBasicToken → ProtoBasicCorrectionHint
  fold_hint n t = record {
    edit_kind = case_fold;
    edit_position = n;
    expected_token_id = some t.token_id;
    edit_distance = 1;
  }

  module _ (pieces : List Text) (short : length pieces ≤ proto_basic_max_line_tokens)
      (folded : List ProtoBasicToken) (matched : case_fold_matches u g pieces ≡ somes folded) where
    -- the position and the token of a line with one unknown piece
    fold_texts :
        (before after : List ProtoBasicToken) (n : ℕ) (t : ProtoBasicToken)
        → exact_matches u g pieces ≡ somes before ++ none ∷ somes after
        → fold_position 0 (exact_matches u g pieces) folded ≡ some (n, t)
        → texts_of folded ≡ set_piece n t.text pieces
    fold_texts before after n t e found =
        let (piece, first, last, texts) = exact-around u good pieces before after e in
        let matched' = ap (λ ps. case_fold_matches u g ps) (sym texts) ∙ matched in
        let (v, i, same) = fold-around u good before after folded piece first last matched' in
        let found' = subst (λ ms. fold_position 0 ms folded ≡ some (n, t)) e found in
        let found'' =
          subst (λ ts. fold_position 0 (somes before ++ none ∷ somes after) ts ≡ some (n, t)) same
            found' in
        let (position, token) = fold_position-around 0 before after v found'' in
        let position' : length before ≡ n = omega (arith, position) in
        rw (same, texts, sym position', sym token)
          (set_piece-texts u g good before after piece first last v)

    fold-Spells :
        (n : ℕ) (t : ProtoBasicToken)
        → In t g.tokens
        → fold_position 0 (exact_matches u g pieces) folded ≡ some (n, t)
        → has_shape (kinds_of folded) g.command_shapes ≡ true
        → missing (exact_matches u g pieces) ≤ 1
        → Spells u g (edited g (fold_hint n t) pieces) (kinds_of folded) (ids_of folded)
    unfolding edited
    fold-Spells n t i found is_shape few =
        let ms = exact_matches u g pieces in
        let (before, after, split) = one_missing ms (fold_position-missing ms folded found few) in
        record {
          spelled = folded;
          in_grammar = (folded-Tokens u good pieces folded matched).0;
          texts = rw (text_for_self u g good t i) (fold_texts before after n t split found);
          kinds = refl;
          token_ids = refl;
          is_shape = is_shape;
        }

    fold_near-Answers :
        (n : ℕ) (t : ProtoBasicToken)
        → fold_position 0 (exact_matches u g pieces) folded ≡ some (n, t)
        → Answers u g pieces (fold_near u g folded (n, t))
    fold_near-Answers n t found =
        let (all_in, size) = folded-Tokens u good pieces folded matched in
        let (found_in, bound) = fold_position-In 0 (exact_matches u g pieces) folded found in
        let i = All-In (λ (v : ProtoBasicToken). In v g.tokens) folded all_in found_in in
        let accepted = hint_accepted u g good case_fold n t (omega (arith, size, bound, short)) i in
        let named = ids-IsNamed u g folded all_in in
        rw accepted (
          if-Answers u g good pieces (has_shape (kinds_of folded) g.command_shapes)
            (λ is_shape. rw accepted at (
              near-Answers u g pieces (kinds_of folded) (ids_of folded) (fold_hint n t)
                (codes "case-fold") accepted named (fold-Spells n t i found is_shape)))
            (λ no. record {
              outcome = record {
                category = semantic_invalid;
                shape = some (kinds_of folded);
                token_ids = ids_of folded;
                hint = none;
                detail = codes "shape-mismatch-after-case-fold";
              };
              answered = refl;
              is_outcome = plain-IsOutcome u g pieces _ named refl refl (λ e. cc e);
            }))

  module _ (pieces : List Text) (short : length pieces ≤ proto_basic_max_line_tokens) where
    folded-Answers :
        (o : Option (List ProtoBasicToken))
        → known (case_fold_matches u g pieces) ≡ o
        → Answers u g pieces (classify_folded u g (exact_matches u g pieces) o)
    unfolding classify_folded
    folded-Answers none e = unknown_positions-Answers u g good pieces short
    folded-Answers (some folded) e =
        by_position (fold_position 0 (exact_matches u g pieces) folded) refl
      where
        by_position :
            (found : Option (ℕ × ProtoBasicToken))
            → fold_position 0 (exact_matches u g pieces) folded ≡ found
            → Answers u g pieces (elim found [
              | none ↦
                  classify_unknown u g
                    (exact_matches u g pieces)
                    (unknown_positions 0 (exact_matches u g pieces))
              | some found ↦ fold_near u g folded found
            ])
        by_position none k = unknown_positions-Answers u g good pieces short
        by_position (some (n, t)) k =
            fold_near-Answers pieces short folded (known-missing (case_fold_matches u g pieces) e) n
              t k

    exact-Answers :
        (o : Option (List ProtoBasicToken))
        → is_given pieces ≡ true
        → known (exact_matches u g pieces) ≡ o
        → Answers u g pieces (classify_exact u g pieces o)
    unfolding classify_exact
    exact-Answers none given e = folded-Answers (known (case_fold_matches u g pieces)) refl
    exact-Answers (some ts) given e =
        let (all_in, texts) =
          exact-somes u good pieces ts (known-missing (exact_matches u g pieces) e) in
        let size = length-map (λ (t : ProtoBasicToken). t.text) ts in
        let size' = ap (λ (ps : List Text). length ps) texts in
        subst (λ ps. Answers u g ps (classify_known u g ts)) texts
          (known-Answers u g good ts all_in (omega (arith, size, size', short))
            (texts_given ts texts given))

  -- `_classify_line` answers every line of at most four pieces.
  pub classify_line-Answers :
      (pieces : List Text)
      → length pieces ≤ proto_basic_max_line_tokens
      → Answers u g pieces (classify_line u g pieces)
  unfolding classify_line
  classify_line-Answers [] short = record {
    outcome = record {
      category = syntax_invalid;
      shape = none;
      token_ids = [];
      hint = none;
      detail = codes "empty-line";
    };
    answered = refl;
    is_outcome = plain-IsOutcome u g [] _ tt refl refl (λ e. cc e);
  }
  classify_line-Answers (piece ∷ pieces) short =
      if-Answers u g good (piece ∷ pieces) (ltb g.max_line_tokens (length (piece ∷ pieces)))
        (λ long. record {
          outcome = record {
            category = resource_limit;
            shape = none;
            token_ids = [];
            hint = none;
            detail = codes "token-count-exceeded";
          };
          answered = refl;
          is_outcome = plain-IsOutcome u g (piece ∷ pieces) _ tt refl refl (λ e. cc e);
        })
        (λ fits.
          exact-Answers (piece ∷ pieces) short (known (exact_matches u g (piece ∷ pieces))) refl
            refl)
