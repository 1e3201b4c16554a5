-- ===== src/Development/Repl/Answers.antt =====
-- The branches of `_classify_line`, one by one.
use mathlib.Core.Path.{subst}
use mathlib.Core.List.{map-append}
use toy_brain.Prelude.{
  ℕ, Bool, Text, List, [], ◌∷◌, none, some, true, false, ◌≡◌, refl, arith, length, leb, ◌++◌, ◌+◌,
  ◌≤◌, take, sym, All, All-append, ◌∙◌, ◌==◌, ◌&&◌, codes, any, if◌then◌else◌,
}
use toy_brain.Prelude.Outcome.{Result, ok, require, i_repl_04}
use toy_brain.Development.Promotion.{is_given}
use toy_brain.Development.Repl.{
  Unicode, ProtoBasicToken, ProtoBasicGrammar, Shape, ProtoBasicCorrectionHint, insert_token,
  delete_token, eq_shape, has_shape, proto_basic_correction_hint, proto_basic_max_line_tokens,
  semantic_invalid,
}
use toy_brain.Development.Repl.Grammar.{In, IsGrammar, find_id_self}
use toy_brain.Development.Repl.Spelling.{texts_of, Tokens, eq_shape_eq, eq_shape_refl}
use toy_brain.Development.Repl.Correction.{
  edited, insert_piece-end, delete_piece-end, text_for, Tokens-take, map-take, kinds-insert,
  candidates_at-In, delete_piece,
}
use toy_brain.Development.Repl.Outcome.{
  Spells, IsNamed, Answers, ids-IsNamed, near-Answers, plain-IsOutcome, valid-IsOutcome,
  hint_accepted,
}
use toy_brain.Development.Repl.Classify.{
  insert_near, delete_near, length_near, classify_known, candidates_at, Classified,
}
use toy_brain.Development.Repl.Lookup.{kinds_of, ids_of}
use toy_brain.Development.Repl.Valid.{valid_of}

All-mono : {A : Type 0} (P Q : A → Type 0) (s : List A) → ((a : A) → P a → Q a) → All P s → All Q s
All-mono P Q [] h k = tt
All-mono P Q (a ∷ s) h k = (h a k.0, All-mono P Q s h k.1)

given-ids :
    (ts : List ProtoBasicToken)
    → is_given ts ≡ true
    → require (is_given (ids_of ts)) i_repl_04 ≡ ok tt
given-ids [] h = absurd (cc h)
given-ids (t ∷ ts) h = refl

pub has_shape_self : (shapes : List Shape) → All (λ s. has_shape s shapes ≡ true) shapes
unfolding has_shape
has_shape_self [] = tt
has_shape_self (s ∷ shapes) = (
  ground (arith, eq_shape_refl s),
  All-mono (λ t. any (eq_shape t) shapes ≡ true) (λ t. any (eq_shape t) (s ∷ shapes) ≡ true) shapes
      (λ t h. ground (arith, h)) (has_shape_self shapes),
)

module _ (u : Unicode) (g : ProtoBasicGrammar) (good : IsGrammar u g) where
  pub text_for_self : (e : ProtoBasicToken) → In e g.tokens → text_for g (some e.token_id) ≡ e.text
  unfolding text_for
  text_for_self e i = rw (find_id_self u good e i, text_for) refl

  pub if-Answers :
      (pieces : List Text) (b : Bool) {x y : Result Classified}
      → (b ≡ true → Answers u g pieces x)
      → (b ≡ false → Answers u g pieces y)
      → Answers u g pieces (if b then x else y)
  if-Answers pieces true h k = h refl
  if-Answers pieces false h k = k refl

  abbrev insert_hint : ℕ → ProtoBasicToken → ProtoBasicCorrectionHint
  insert_hint n e = record {
    edit_kind = insert_token;
    edit_position = n;
    expected_token_id = some e.token_id;
    edit_distance = 1;
  }

  module _ (ts : List ProtoBasicToken) (all_in : Tokens g ts)
      (short : length ts ≤ proto_basic_max_line_tokens) where
    insert-Spells :
        (e : ProtoBasicToken) (shape : Shape)
        → In e g.tokens
        → has_shape shape g.command_shapes ≡ true
        → kinds_of (ts ++ e ∷ []) ≡ shape
        → Spells u g
            (edited g (insert_hint (length ts) e) (texts_of ts))
            shape
            (ids_of ts ++ e.token_id ∷ [])
    unfolding edited
    insert-Spells e shape i is_shape kinds = record {
      spelled = ts ++ e ∷ [];
      in_grammar = All-append (λ t. In t g.tokens) ts (e ∷ []) all_in (i, tt);
      texts = rw (text_for_self e i) (sym (insert_piece-end ts e));
      kinds = kinds;
      token_ids = map-append (λ (t : ProtoBasicToken). t.token_id) ts (e ∷ []);
      is_shape = is_shape;
    }

    insert-Answers :
        (shape : Shape) (r : Result Classified)
        → has_shape shape g.command_shapes ≡ true
        → length shape ≡ length ts + 1
        → eq_shape (kinds_of ts) (take (length ts) shape) ≡ true
        → Answers u g (texts_of ts) r
        → Answers u g
            (texts_of ts)
            (insert_near u g ts shape (candidates_at u g shape (length ts)) r)
    unfolding insert_near
    insert-Answers shape r is_shape size same other =
        by_candidates (candidates_at u g shape (length ts)) refl
      where
        by_candidates :
            (cands : List ProtoBasicToken)
            → candidates_at u g shape (length ts) ≡ cands
            → Answers u g (texts_of ts) (insert_near u g ts shape cands r)
        by_candidates [] k = other
        by_candidates (e ∷ more) k =
            let (i, kind) = candidates_at-In u g shape (length ts) k in
            let kinds = kinds-insert ts e shape size same kind in
            near-Answers u g (texts_of ts) shape (ids_of ts ++ e.token_id ∷ [])
              (insert_hint (length ts) e) (codes "insert-token")
              (hint_accepted u g good insert_token (length ts) e short i)
              (All-append (IsNamed u g) (ids_of ts) (e.token_id ∷ []) (ids-IsNamed u g ts all_in)
                ((e, i, refl), tt))
              (λ few. insert-Spells e shape i is_shape kinds)

    delete-Spells :
        (shape : Shape)
        → has_shape shape g.command_shapes ≡ true
        → length shape + 1 ≡ length ts
        → eq_shape (take (length shape) (kinds_of ts)) shape ≡ true
        → Spells u g
            (delete_piece (length shape) (texts_of ts))
            shape
            (take (length shape) (ids_of ts))
    delete-Spells shape is_shape size same = record {
      spelled = take (length shape) ts;
      in_grammar = Tokens-take g (length shape) ts all_in;
      texts = sym (delete_piece-end (length shape) ts size);
      kinds =
          map-take (λ (t : ProtoBasicToken). t.kind) (length shape) ts
          ∙ eq_shape_eq (take (length shape) (kinds_of ts)) shape same;
      token_ids = map-take (λ (t : ProtoBasicToken). t.token_id) (length shape) ts;
      is_shape = is_shape;
    }

    delete-Answers :
        (shape : Shape)
        → has_shape shape g.command_shapes ≡ true
        → length shape + 1 ≡ length ts
        → eq_shape (take (length shape) (kinds_of ts)) shape ≡ true
        → Answers u g (texts_of ts) (delete_near u g ts shape)
    unfolding delete_near edited proto_basic_correction_hint
    delete-Answers shape is_shape size same =
        near-Answers u g (texts_of ts) shape (take (length shape) (ids_of ts))
          (record {
            edit_kind = delete_token;
            edit_position = length shape;
            expected_token_id = none;
            edit_distance = 1;
          })
          (codes "delete-token") (ground (arith, short, size))
          (subst (λ (ids : List Text). All (IsNamed u g) ids)
            (map-take (λ (t : ProtoBasicToken). t.token_id) (length shape) ts)
            (ids-IsNamed u g (take (length shape) ts) (Tokens-take g (length shape) ts all_in)))
          (λ few. delete-Spells shape is_shape size same)

    -- the loop over the shapes that are left
    length_near-Answers :
        (shapes : List Shape)
        → All (λ s. has_shape s g.command_shapes ≡ true) shapes
        → Answers u g (texts_of ts) (length_near u g ts shapes)
    unfolding length_near
    length_near-Answers [] h = record {
      outcome = record {
        category = semantic_invalid;
        shape = some (kinds_of ts);
        token_ids = ids_of ts;
        hint = none;
        detail = codes "shape-mismatch";
      };
      answered = refl;
      is_outcome =
          plain-IsOutcome u g (texts_of ts) _ (ids-IsNamed u g ts all_in) refl refl (λ e. cc e);
    }
    length_near-Answers (shape ∷ rest) h =
        let other = length_near-Answers rest h.1 in
        if-Answers (texts_of ts)
          ((length shape == length ts + 1) && eq_shape (kinds_of ts) (take (length ts) shape))
          (λ e.
            insert-Answers shape (length_near u g ts rest) h.0 (ground (arith, e))
              (ground (arith, e)) other)
          (λ no.
            if-Answers (texts_of ts)
              ((length shape + 1 == length ts)
                && (leb 1 (length shape) && eq_shape (take (length shape) (kinds_of ts)) shape))
              (λ e. delete-Answers shape h.0 (ground (arith, e)) (ground (arith, e))) (λ no. other))

    -- `_classify_line` where every piece is a token's text
    pub known-Answers : is_given ts ≡ true → Answers u g (texts_of ts) (classify_known u g ts)
    unfolding classify_known
    known-Answers given =
        if-Answers (texts_of ts) (has_shape (kinds_of ts) g.command_shapes)
          (λ is_shape. record {
            outcome = valid_of ts;
            answered = refl;
            is_outcome = valid-IsOutcome u g ts all_in is_shape (given-ids ts given);
          })
          (λ no. length_near-Answers g.command_shapes (has_shape_self g.command_shapes))
