-- ===== src/Development/Repl/Unknown.antt =====
-- The branches of `_classify_line` for a line with unknown pieces.
use mathlib.Core.Path.{subst}
use mathlib.Core.List.{map-append}
use toy_brain.Prelude.{
  ℕ, Text, List, [], ◌∷◌, Option, none, some, true, ◌≡◌, refl, arith, length, ◌++◌, ◌+◌, ◌≤◌, ap,
  sym, All, All-append, ◌∙◌, ◌==◌, ◌&&◌, codes,
}
use toy_brain.Prelude.Outcome.{Result}
use toy_brain.Development.Repl.{
  Unicode, ProtoBasicToken, ProtoBasicGrammar, Shape, ProtoBasicCorrectionHint, substitute_token,
  has_shape, proto_basic_max_line_tokens, syntax_invalid, ProtoBasicEditKind,
}
use toy_brain.Development.Repl.Grammar.{In, IsGrammar}
use toy_brain.Development.Repl.Spelling.{
  texts_of, somes, Tokens, missing, find_exact-In, one_missing, positions-around, length-positions,
  length-around,
}
use toy_brain.Development.Repl.Matches.{exact-around}
use toy_brain.Development.Repl.Correction.{
  edited, set_piece-around, kinds-substitute, filled_ids-around, candidates_at-In, set_piece,
}
use toy_brain.Development.Repl.Outcome.{
  Spells, IsNamed, Answers, ids-IsNamed, near-Answers, plain-IsOutcome, hint_accepted,
}
use toy_brain.Development.Repl.Answers.{text_for_self, if-Answers, has_shape_self}
use toy_brain.Development.Repl.Classify.{
  Classified, exact_matches, substitute_near, substitute_loop, classify_unknown, unknown_tokens,
  candidates_at,
}
use toy_brain.Development.Repl.Lookup.{
  kinds_of, known_ids, filled_ids, fits, find_exact, unknown_positions,
}

length-before :
    (before : List ProtoBasicToken) (rest : List Text)
    → length before ≤ length (texts_of before ++ rest)
length-before [] rest = omega arith
length-before (t ∷ before) rest = omega (arith, length-before before rest)

position :
    (before after : List ProtoBasicToken)
    → unknown_positions 0 (somes before ++ none ∷ somes after) ≡ length before ∷ []
position before after =
    let zero_first : 0 + length before ≡ length before = omega arith in
    positions-around 0 before after ∙ ap (λ (n : ℕ). n ∷ []) zero_first

module _ (u : Unicode) (g : ProtoBasicGrammar) (good : IsGrammar u g) where
  matched_id :
      (piece : Text) (ms : List (Option ProtoBasicToken)) (o : Option ProtoBasicToken)
      → find_exact piece g.tokens ≡ o
      → All (IsNamed u g) (known_ids ms)
      → All (IsNamed u g) (known_ids (o ∷ ms))
  unfolding known_ids
  matched_id piece ms none e h = h
  matched_id piece ms (some t) e h = ((t, (find_exact-In piece g.tokens t e).0, refl), h)

  known_ids-IsNamed :
      (pieces : List Text) → All (IsNamed u g) (known_ids (exact_matches u g pieces))
  unfolding known_ids
  known_ids-IsNamed [] = tt
  known_ids-IsNamed (piece ∷ pieces) =
      matched_id piece (exact_matches u g pieces) (find_exact piece g.tokens) refl
        (known_ids-IsNamed pieces)

  unknown-Answers :
      (pieces : List Text) (ms : List (Option ProtoBasicToken))
      → All (IsNamed u g) (known_ids ms)
      → Answers u g pieces (unknown_tokens u g ms)
  unknown-Answers pieces ms named = record {
    outcome = record {
      category = syntax_invalid;
      shape = none;
      token_ids = known_ids ms;
      hint = none;
      detail = codes "unknown-tokens";
    };
    answered = refl;
    is_outcome = plain-IsOutcome u g pieces _ named refl refl (λ e. cc e);
  }

  abbrev edit_hint : ProtoBasicEditKind → ℕ → ProtoBasicToken → ProtoBasicCorrectionHint
  edit_hint kind n e = record {
    edit_kind = kind;
    edit_position = n;
    expected_token_id = some e.token_id;
    edit_distance = 1;
  }

  module _ (before after : List ProtoBasicToken) (piece : Text) (first : Tokens g before)
      (last : Tokens g after) where
    abbrev around : List Text
    around = texts_of before ++ piece ∷ texts_of after

    abbrev gap : List (Option ProtoBasicToken)
    gap = somes before ++ none ∷ somes after

    Tokens-around : (e : ProtoBasicToken) → In e g.tokens → Tokens g (before ++ e ∷ after)
    Tokens-around e i = All-append (λ t. In t g.tokens) before (e ∷ after) first (i, last)

    pub set_piece-texts :
        (e : ProtoBasicToken)
        → texts_of (before ++ e ∷ after) ≡ set_piece (length before) e.text around
    set_piece-texts e =
        map-append (λ (t : ProtoBasicToken). t.text) before (e ∷ after)
        ∙ sym (set_piece-around before e.text piece (texts_of after))

    substitute-Spells :
        (e : ProtoBasicToken) (shape : Shape)
        → In e g.tokens
        → has_shape shape g.command_shapes ≡ true
        → kinds_of (before ++ e ∷ after) ≡ shape
        → Spells u g
            (edited g (edit_hint substitute_token (length before) e) around)
            shape
            (filled_ids e.token_id gap)
    unfolding edited
    substitute-Spells e shape i is_shape kinds = record {
      spelled = before ++ e ∷ after;
      in_grammar = Tokens-around e i;
      texts = rw (text_for_self u g good e i) (set_piece-texts e);
      kinds = kinds;
      token_ids = sym (filled_ids-around e before after);
      is_shape = is_shape;
    }

    module _ (short : length before ≤ proto_basic_max_line_tokens)
        (named : All (IsNamed u g) (known_ids gap)) where
      substitute_near-Answers :
          (shape : Shape) (r : Result Classified)
          → has_shape shape g.command_shapes ≡ true
          → length shape ≡ length gap
          → fits gap shape ≡ true
          → Answers u g around r
          → Answers u g around (
              substitute_near u g gap
                (length before)
                shape
                (candidates_at u g shape (length before))
                r)
      unfolding substitute_near
      substitute_near-Answers shape r is_shape size fit other =
          by_candidates (candidates_at u g shape (length before)) refl
        where
          by_candidates :
              (cands : List ProtoBasicToken)
              → candidates_at u g shape (length before) ≡ cands
              → Answers u g around (substitute_near u g gap (length before) shape cands r)
          by_candidates [] k = other
          by_candidates (e ∷ more) k =
              let (i, kind) = candidates_at-In u g shape (length before) k in
              let kinds =
                kinds-substitute before after e shape (size ∙ length-around before after e) fit
                  kind in
              near-Answers u g around shape (filled_ids e.token_id gap)
                (edit_hint substitute_token (length before) e) (codes "substitute-token")
                (hint_accepted u g good substitute_token (length before) e short i)
                (subst (λ (ids : List Text). All (IsNamed u g) ids)
                  (sym (filled_ids-around e before after))
                  (ids-IsNamed u g (before ++ e ∷ after) (Tokens-around e i)))
                (λ few. substitute-Spells e shape i is_shape kinds)

      substitute_loop-Answers :
          (shapes : List Shape)
          → All (λ s. has_shape s g.command_shapes ≡ true) shapes
          → Answers u g around (substitute_loop u g gap (length before) shapes)
      unfolding substitute_loop
      substitute_loop-Answers [] h = unknown-Answers around gap named
      substitute_loop-Answers (shape ∷ rest) h =
          let other = substitute_loop-Answers rest h.1 in
          if-Answers u g good around ((length shape == length gap) && fits gap shape)
            (λ e.
              substitute_near-Answers shape (substitute_loop u g gap (length before) rest) h.0
                (ground (arith, e)) (ground (arith, e)) other)
            (λ no. other)

  module _ (pieces : List Text) (short : length pieces ≤ proto_basic_max_line_tokens) where
    gap-Answers :
        (before after : List ProtoBasicToken)
        → exact_matches u g pieces ≡ somes before ++ none ∷ somes after
        → Answers u g pieces (
            substitute_loop u g
              (somes before ++ none ∷ somes after)
              (length before)
              g.command_shapes)
    gap-Answers before after e =
        let (piece, first, last, texts) = exact-around u good pieces before after e in
        let size = length-before before (piece ∷ texts_of after) in
        let size' = ap (λ (ps : List Text). length ps) texts in
        let named =
          subst (λ (ms : List (Option ProtoBasicToken)). All (IsNamed u g) (known_ids ms)) e
            (known_ids-IsNamed pieces) in
        subst
          (λ (ps : List Text). Answers u g ps (
            substitute_loop u g (somes before ++ none ∷ somes after) (length before)
              g.command_shapes))
          (sym texts)
          (substitute_loop-Answers before after piece first last (omega (arith, size, size', short))
            named g.command_shapes (has_shape_self g.command_shapes))

    one-Answers :
        missing (exact_matches u g pieces) ≡ 1
        → Answers u g pieces (
            classify_unknown u g
              (exact_matches u g pieces)
              (unknown_positions 0 (exact_matches u g pieces)))
    unfolding classify_unknown
    one-Answers one =
        let (before, after, e) = one_missing (exact_matches u g pieces) one in
        let answers = gap-Answers before after e in
        subst
          (λ (ms : List (Option ProtoBasicToken)).
            Answers u g pieces (classify_unknown u g ms (unknown_positions 0 ms)))
          (sym e) (rw (position before after) answers)

    pub unknown_positions-Answers : Answers u g pieces (
        classify_unknown u g
          (exact_matches u g pieces)
          (unknown_positions 0 (exact_matches u g pieces)))
    unfolding classify_unknown
    unknown_positions-Answers = by_positions (unknown_positions 0 (exact_matches u g pieces)) refl
      where
        by_positions :
            (ps : List ℕ)
            → unknown_positions 0 (exact_matches u g pieces) ≡ ps
            → Answers u g pieces (classify_unknown u g (exact_matches u g pieces) ps)
        by_positions [] e =
            unknown-Answers pieces (exact_matches u g pieces) (known_ids-IsNamed pieces)
        by_positions (p ∷ []) e =
            let one = length-positions 0 (exact_matches u g pieces) in
            subst
              (λ (ps : List ℕ).
                Answers u g pieces (classify_unknown u g (exact_matches u g pieces) ps))
              e (one-Answers (sym one ∙ ap (λ (ps : List ℕ). length ps) e))
        by_positions (p ∷ q ∷ ps) e =
            unknown-Answers pieces (exact_matches u g pieces) (known_ids-IsNamed pieces)
