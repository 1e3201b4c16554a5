-- ===== src/Development/Repl/Outcome.antt =====
-- `_classify_line` always answers, and what its answer says of the line.
use mathlib.Core.Path.{subst}
use toy_brain.Prelude.{
  ℕ, Text, List, [], ◌∷◌, none, some, true, ◌≡◌, refl, arith, ◌≤◌, All, inl, inr, ◌≢◌,
}
use toy_brain.Prelude.Outcome.{Result, ok, Error, i_repl_05}
use toy_brain.Development.Repl.{
  Unicode, ProtoBasicToken, ProtoBasicGrammar, Shape, ProtoBasicCorrectionHint, ProtoBasicEditKind,
  has_shape, proto_basic_correction_hint, proto_basic_token, require_non_reserved_id,
  check_category, valid, proto_basic_max_line_tokens, near_miss,
}
use toy_brain.Development.Repl.Grammar.{In, IsGrammar}
use toy_brain.Development.Repl.Spelling.{texts_of, Tokens, missing}
use toy_brain.Development.Repl.Valid.{valid_of}
use toy_brain.Development.Repl.Correction.{edited}
use toy_brain.Development.Repl.Classify.{Classified, near, exact_matches}
use toy_brain.Development.Repl.Lookup.{kinds_of, ids_of}

module _ (u : Unicode) (g : ProtoBasicGrammar) where
  -- The pieces spell tokens of the grammar with these kinds and identifiers.
  pub record Spells (pieces : List Text) (shape : Shape) (ids : List Text) : Type 0 where
    pub spelled : List ProtoBasicToken
    pub in_grammar : Tokens g spelled
    pub texts : texts_of spelled ≡ pieces
    pub kinds : kinds_of spelled ≡ shape
    pub token_ids : ids_of spelled ≡ ids
    pub is_shape : has_shape shape g.command_shapes ≡ true

  abbrev pub IsNamed : Text → Type 0
  IsNamed id = (t : ProtoBasicToken) × In t g.tokens × (t.token_id ≡ id)

  -- What an answer says of the line: its identifiers are those of tokens, it has a hint exactly when
  -- it is a near miss, a valid line spells its shape, and a hint leads to a line that spells the
  -- shape if the line had one unknown piece at most.
  pub record IsOutcome (pieces : List Text) (c : Classified) : Type 0 where
    pub named : All IsNamed c.token_ids
    pub fields : check_category u c.category c.shape c.token_ids c.hint ≡ ok tt
    pub is_valid :
        c.category ≡ valid
        → (shape : Shape) × (c.shape ≡ some shape) × Spells pieces shape c.token_ids
    pub corrected :
        (h : ProtoBasicCorrectionHint)
        → c.hint ≡ some h
        → missing (exact_matches u g pieces) ≤ 1
        → (shape : Shape) × (c.shape ≡ some shape) × Spells (edited g h pieces) shape c.token_ids

  pub record Answers (pieces : List Text) (r : Result Classified) : Type 0 where
    pub outcome : Classified
    pub answered : r ≡ ok outcome
    pub is_outcome : IsOutcome pieces outcome

  pub ids-IsNamed : (ts : List ProtoBasicToken) → Tokens g ts → All IsNamed (ids_of ts)
  ids-IsNamed [] h = tt
  ids-IsNamed (t ∷ ts) h = ((t, h.0, refl), ids-IsNamed ts h.1)

  pub near-Answers :
      (pieces : List Text) (shape : Shape) (ids : List Text) (h : ProtoBasicCorrectionHint)
      (detail : Text)
      → proto_basic_correction_hint u h ≡ ok h
      → All IsNamed ids
      → (missing (exact_matches u g pieces) ≤ 1 → Spells (edited g h pieces) shape ids)
      → Answers pieces (near u shape ids h detail)
  near-Answers pieces shape ids h detail good named corrected = rw good (record {
    outcome = record {
      category = near_miss;
      shape = some shape;
      token_ids = ids;
      hint = some h;
      detail = detail;
    };
    answered = refl;
    is_outcome = record {
      named = named;
      fields = refl;
      is_valid = λ e. absurd (cc e);
      corrected = λ k e few.
          let same : h ≡ k = cc e in
          (shape, refl, subst (λ k. Spells (edited g k pieces) shape ids) same (corrected few));
    };
  })

  -- an answer without a hint that is not valid
  pub plain-IsOutcome :
      (pieces : List Text) (c : Classified)
      → All IsNamed c.token_ids
      → c.hint ≡ none
      → check_category u c.category c.shape c.token_ids none ≡ ok tt
      → c.category ≢ valid
      → IsOutcome pieces c
  plain-IsOutcome pieces c named bare fields other = record {
    named = named;
    fields = rw bare fields;
    is_valid = λ e. absurd (other e);
    corrected = λ h e. absurd (cc (e, bare));
  }

  pub valid-IsOutcome :
      (ts : List ProtoBasicToken)
      → Tokens g ts
      → has_shape (kinds_of ts) g.command_shapes ≡ true
      → check_category u valid (some (kinds_of ts)) (ids_of ts) none ≡ ok tt
      → IsOutcome (texts_of ts) (valid_of ts)
  valid-IsOutcome ts all_in is_shape fields = record {
    named = ids-IsNamed ts all_in;
    fields = fields;
    is_valid = λ e. (
      kinds_of ts,
      refl,
      record {
        spelled = ts;
        in_grammar = all_in;
        texts = refl;
        kinds = refl;
        token_ids = refl;
        is_shape = is_shape;
      },
    );
    corrected = λ h e. absurd (cc e);
  }

  module _ (good : IsGrammar u g) where
    -- the identifier of a token of the grammar is accepted, under any row
    pub id_accepted :
        (t : ProtoBasicToken) (ts : List ProtoBasicToken) (row : Error)
        → All (λ t. proto_basic_token u t ≡ ok t) ts
        → In t ts
        → require_non_reserved_id u t.token_id row ≡ ok tt
    unfolding proto_basic_token require_non_reserved_id
    id_accepted t [] row h i = absurd i
    id_accepted t (v ∷ ts) row h (inl same) = rw same (ground (arith, h.0))
    id_accepted t (v ∷ ts) row h (inr i) = id_accepted t ts row h.1 i

    pub hint_accepted :
        (kind : ProtoBasicEditKind) (position : ℕ) (t : ProtoBasicToken)
        → position ≤ proto_basic_max_line_tokens
        → In t g.tokens
        → proto_basic_correction_hint u (record {
          edit_kind = kind;
          edit_position = position;
          expected_token_id = some t.token_id;
          edit_distance = 1;
        })
          ≡ ok (record {
            edit_kind = kind;
            edit_position = position;
            expected_token_id = some t.token_id;
            edit_distance = 1;
          })
    unfolding proto_basic_correction_hint
    hint_accepted kind position t short i =
        ground (arith, id_accepted t g.tokens i_repl_05 good.tokens_accepted i)
