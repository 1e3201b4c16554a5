-- ===== src/Development/Repl/Parse.antt =====
-- `parse_line`: it answers every accepted line, and what its answer says.
use mathlib.Core.Path.{subst}
use toy_brain.Prelude.{
  Text, List, [], ◌∷◌, none, some, true, ◌≡◌, refl, arith, length, ◌≤◌, All, ap, sym, ◌∙◌, codes,
  ◌↔◌,
}
use toy_brain.Prelude.Outcome.{ok, i_repl_04, Error}
use toy_brain.Development.Repl.{
  Unicode, ProtoBasicToken, ProtoBasicGrammar, ProtoBasicLine, ProtoBasicParseResult,
  ProtoBasicCorrectionHint, has_shape, proto_basic_line, proto_basic_parse_result, check_ids,
  require_non_reserved_id, i_repl_03, proto_basic_max_line_tokens, valid, Shape,
}
use toy_brain.Development.Repl.Grammar.{IsGrammar}
use toy_brain.Development.Repl.Spelling.{texts_of, Tokens, missing}
use toy_brain.Development.Repl.Valid.{classify-spelled, valid_of}
use toy_brain.Development.Repl.Correction.{edited}
use toy_brain.Development.Repl.Outcome.{IsNamed, IsOutcome, id_accepted}
use toy_brain.Development.Repl.Line.{classify_line-Answers}
use toy_brain.Development.Repl.Classify.{Classified, exact_matches, classify_line, parse_line}
use toy_brain.Development.Repl.Lookup.{kinds_of}

abbrev pub result_of : Text → Classified → ProtoBasicParseResult
result_of line_id c = record {
  line_id = line_id;
  category = c.category;
  matched_shape = c.shape;
  matched_token_ids = c.token_ids;
  correction_hint = c.hint;
  detail = c.detail;
}

-- The pieces of a line spell tokens of the grammar whose kinds form a command shape.
unfoldable pub IsCommandLine : ProtoBasicGrammar → List Text → Type 0
IsCommandLine g pieces =
    (ts : List ProtoBasicToken) × Tokens g ts
    × (texts_of ts ≡ pieces)
    × (has_shape (kinds_of ts) g.command_shapes ≡ true)

module _ (u : Unicode) (g : ProtoBasicGrammar) (good : IsGrammar u g) where
  pub named_accepted :
      (row : Error) (ids : List Text) → All (IsNamed u g) ids → check_ids u ids row ≡ ok tt
  unfolding check_ids
  named_accepted row [] h = refl
  named_accepted row (id ∷ ids) ((t, i, same), h) =
      let accepted = id_accepted u g good t g.tokens row good.tokens_accepted i in
      ground (arith, same, accepted, named_accepted row ids h)

  line_short :
      (line : ProtoBasicLine)
      → proto_basic_line u line ≡ ok line
      → length line.tokens ≤ proto_basic_max_line_tokens
  unfolding proto_basic_line
  line_short line h = ground (arith, h)

  pub line_named :
      (line : ProtoBasicLine)
      → proto_basic_line u line ≡ ok line
      → require_non_reserved_id u line.line_id i_repl_03 ≡ ok tt
  unfolding proto_basic_line require_non_reserved_id
  line_named line h = ground (arith, h)

  module _ (line : ProtoBasicLine) (accepted : proto_basic_line u line ≡ ok line) where
    pub parse_classified :
        (c : Classified)
        → classify_line u g line.tokens ≡ ok c
        → IsOutcome u g line.tokens c
        → parse_line u g line ≡ ok (result_of line.line_id c)
    unfolding parse_line proto_basic_parse_result
    parse_classified c e o =
        rw (e, line_named line accepted, named_accepted i_repl_04 c.token_ids o.named, o.fields)
          refl

    pub parse_line-Answers :
        (c : Classified) × IsOutcome u g line.tokens c
        × (parse_line u g line ≡ ok (result_of line.line_id c))
    parse_line-Answers =
        let a = classify_line-Answers u g good line.tokens (line_short line accepted) in
        (a.outcome, a.is_outcome, parse_classified a.outcome a.answered a.is_outcome)

    -- the answer to a line that spells a command
    pub parse_spelled :
        (ts : List ProtoBasicToken)
        → Tokens g ts
        → has_shape (kinds_of ts) g.command_shapes ≡ true
        → texts_of ts ≡ line.tokens
        → parse_line u g line ≡ ok (result_of line.line_id (valid_of ts))
    parse_spelled ts all_in is_shape texts =
        let a = classify_line-Answers u g good line.tokens (line_short line accepted) in
        let e = classify-spelled u good ts all_in is_shape in
        let e' = subst (λ ps. classify_line u g ps ≡ ok (valid_of ts)) texts e in
        let same : a.outcome ≡ valid_of ts = cc (a.answered, e') in
        parse_classified (valid_of ts) e'
          (subst (λ (c : Classified). IsOutcome u g line.tokens c) same a.is_outcome)

    -- For a grammar and a line that their constructors accept, `parse_line` returns a result, with
    -- the line's identifier. It is valid exactly when the pieces of the line are the texts of
    -- tokens of the grammar whose kinds form a command shape.
    pub parse_line-returns :
        (p : ProtoBasicParseResult) × (parse_line u g line ≡ ok p)
        × (p.line_id ≡ line.line_id)
        × ((p.category ≡ valid) ↔ IsCommandLine g line.tokens)
    unfolding IsCommandLine
    parse_line-returns =
        let (c, o, e) = parse_line-Answers in
        (
          result_of line.line_id c,
          e,
          refl,
          (
            λ v.
                let (shape, _, s) = o.is_valid v in
                (s.spelled, s.in_grammar, s.texts, rw s.kinds s.is_shape),
            λ (ts, all_in, texts, is_shape).
                let e' = parse_spelled ts all_in is_shape texts in
                let same : result_of line.line_id c ≡ result_of line.line_id (valid_of ts) =
                  cc (e, e') in
                ap (λ p. p.category) same,
          ),
        )

  -- Take a grammar and a line that their constructors accept, with at most one piece that is no
  -- token's text, and let its parse carry a correction hint. Another accepted line, whose pieces
  -- are those of the first with the edit of the hint made, parses as valid, with the shape and the
  -- token identifiers that the first parse reported.
  pub parse_line-edited :
      (line : ProtoBasicLine) (p : ProtoBasicParseResult) (h : ProtoBasicCorrectionHint)
      (again : ProtoBasicLine)
      → proto_basic_line u line ≡ ok line
      → parse_line u g line ≡ ok p
      → p.correction_hint ≡ some h
      → missing (exact_matches u g line.tokens) ≤ 1
      → proto_basic_line u again ≡ ok again
      → again.tokens ≡ edited g h line.tokens
      → parse_line u g again
        ≡ ok (record {
          line_id = again.line_id;
          category = valid;
          matched_shape = p.matched_shape;
          matched_token_ids = p.matched_token_ids;
          correction_hint = none;
          detail = codes "ok";
        })
  parse_line-edited line p h again accepted e hint few accepted' tokens =
      let (c, o, e') = parse_line-Answers line accepted in
      let same : result_of line.line_id c ≡ p = cc (e, e') in
      let hint' = ap (λ (p : ProtoBasicParseResult). p.correction_hint) same ∙ hint in
      let shapes = ap (λ (p : ProtoBasicParseResult). p.matched_shape) same in
      let ids = ap (λ (p : ProtoBasicParseResult). p.matched_token_ids) same in
      let (shape, is_shape, s) = o.corrected h hint' few in
      let kinds : some (kinds_of s.spelled) ≡ p.matched_shape =
        ap (λ (k : Shape). some k) s.kinds ∙ sym is_shape ∙ shapes in
      rw (sym kinds, sym ids, sym s.token_ids)
        (parse_spelled again accepted' s.spelled s.in_grammar (rw s.kinds s.is_shape)
          (s.texts ∙ sym tokens))
