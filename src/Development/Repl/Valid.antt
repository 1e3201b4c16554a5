-- ===== src/Development/Repl/Valid.antt =====
-- The lines that are valid: those that spell tokens whose kinds form a command shape.
use toy_brain.Prelude.{
  ℕ, List, [], ◌∷◌, none, some, true, false, ◌≡◌, refl, arith, length, leb, ltb, map, codes,
}
use toy_brain.Prelude.Outcome.{ok}
use toy_brain.Development.Promotion.{is_given}
use toy_brain.Development.Repl.{
  Unicode, ProtoBasicToken, ProtoBasicGrammar, Shape, has_shape, check_shapes, valid,
}
use toy_brain.Development.Repl.Grammar.{IsGrammar, shapes_bounded}
use toy_brain.Development.Repl.Spelling.{texts_of, Tokens, eq_shape_eq, known-somes}
use toy_brain.Development.Repl.Matches.{exact-texts}
use toy_brain.Development.Repl.Classify.{
  Classified, exact_matches, classify_line, classify_exact, classify_known,
}
use toy_brain.Development.Repl.Lookup.{known, kinds_of, ids_of}

abbrev pub valid_of : List ProtoBasicToken → Classified
valid_of ts = record {
  category = valid;
  shape = some (kinds_of ts);
  token_ids = ids_of ts;
  hint = none;
  detail = codes "ok";
}

pub length-map : {A B : Type 0} (f : A → B) (s : List A) → length (map f s) ≡ length s
length-map f [] = refl
length-map f (a ∷ s) = omega (arith, length-map f s)

module _ (u : Unicode) where
  shape_bounded :
      (limit : ℕ) (shapes : List Shape) (s : Shape)
      → check_shapes u limit shapes ≡ ok tt
      → has_shape s shapes ≡ true
      → (is_given s ≡ true) × (leb (length s) limit ≡ true)
  unfolding check_shapes has_shape
  shape_bounded limit [] s h k = absurd (cc k)
  shape_bounded limit (t ∷ shapes) s h k =
      ground (arith, eq_shape_eq s t, shape_bounded limit shapes s)

  module _ {g : ProtoBasicGrammar} (good : IsGrammar u g) where
    pub shape_in_bound :
        (s : Shape)
        → has_shape s g.command_shapes ≡ true
        → (is_given s ≡ true) × (leb (length s) g.max_line_tokens ≡ true)
    shape_in_bound s h =
        shape_bounded g.max_line_tokens g.command_shapes s (shapes_bounded u good) h

    classify_exact-spelled :
        (ts : List ProtoBasicToken)
        → Tokens g ts
        → has_shape (kinds_of ts) g.command_shapes ≡ true
        → classify_exact u g (texts_of ts) (known (exact_matches u g (texts_of ts)))
          ≡ ok (valid_of ts)
    unfolding classify_exact classify_known
    classify_exact-spelled ts all_in h = rw (exact-texts u good ts all_in, known-somes ts, h) refl

    -- A line that spells tokens whose kinds form a command shape is valid.
    pub classify-spelled :
        (ts : List ProtoBasicToken)
        → Tokens g ts
        → has_shape (kinds_of ts) g.command_shapes ≡ true
        → classify_line u g (texts_of ts) ≡ ok (valid_of ts)
    unfolding classify_line
    classify-spelled [] all_in h = let (given, short) = shape_in_bound [] h in absurd (cc given)
    classify-spelled (t ∷ ts) all_in h =
        let (given, short) = shape_in_bound (kinds_of (t ∷ ts)) h in
        let size = length-map (λ (t : ProtoBasicToken). t.kind) (t ∷ ts) in
        let size' = length-map (λ (t : ProtoBasicToken). t.text) (t ∷ ts) in
        let enough : ltb g.max_line_tokens (length (texts_of (t ∷ ts))) ≡ false =
          ground (arith, size, size', short) in
        rw enough (classify_exact-spelled (t ∷ ts) all_in h)
