-- ===== src/Development/Repl/Grammar.antt =====
-- What the constructor of a grammar guarantees: the text and the identifier of a token name it.
use mathlib.Core.Path.{subst}
use toy_brain.Prelude.{
  sym, List, [], ◌∷◌, some, false, ◌≡◌, ◌⊎◌, inl, inr, eq_text, eq_text_refl, eq_text_iff, arith,
  All,
}
use toy_brain.Prelude.Outcome.{ok}
use toy_brain.Prelude.FrozenSet.{FrozenSet, contains, add, contains-add}
use toy_brain.Development.Repl.{
  Unicode, ProtoBasicToken, ProtoBasicGrammar, proto_basic_token, proto_basic_grammar, check_tokens,
  check_shapes, canonical,
}
use toy_brain.Development.Repl.Lookup.{find_exact, token_by_canonical}
use toy_brain.Development.Repl.Command.{find_id}

abbrev pub In : {A : Type 0} → A → List A → Type 0
In a [] = ⊥
In a (b ∷ s) = (a ≡ b) ⊎ In a s

pub All-In : {A : Type 0} (P : A → Type 0) (s : List A) {a : A} → All P s → In a s → P a
All-In P [] h i = absurd i
All-In P (b ∷ s) h (inl same) = subst P (sym same) h.0
All-In P (b ∷ s) h (inr i) = All-In P s h.1 i

module _ (u : Unicode) where
  -- a grammar of accepted tokens that the constructor accepts
  pub record IsGrammar (g : ProtoBasicGrammar) : Type 0 where
    pub tokens_accepted : All (λ t. proto_basic_token u t ≡ ok t) g.tokens
    pub grammar_accepted : proto_basic_grammar u g ≡ ok g

  -- What stands in the list has not been seen before it.
  fresh :
      (ids cs : FrozenSet) (ts : List ProtoBasicToken) (t : ProtoBasicToken)
      → check_tokens u ids cs ts ≡ ok tt
      → In t ts
      → (contains t.token_id ids ≡ false) × (contains (canonical u t) cs ≡ false)
  unfolding check_tokens
  fresh ids cs [] t h i = absurd i
  fresh ids cs (v ∷ ts) t h (inl same) = rw same (ground arith)
  fresh ids cs (v ∷ ts) t h (inr i) = ground (
    arith,
    fresh (add v.token_id ids) (add (canonical u v) cs) ts t,
    contains-add (canonical u t) (canonical u v) cs,
    contains-add t.token_id v.token_id ids,
  )

  -- What stands behind a token differs from it in both names.
  apart :
      (ids cs : FrozenSet) (v : ProtoBasicToken) (ts : List ProtoBasicToken) (t : ProtoBasicToken)
      → check_tokens u ids cs (v ∷ ts) ≡ ok tt
      → In t ts
      → (eq_text t.token_id v.token_id ≡ false) × (eq_text (canonical u t) (canonical u v) ≡ false)
  unfolding check_tokens
  apart ids cs v ts t h i = ground (
    arith,
    fresh (add v.token_id ids) (add (canonical u v) cs) ts t,
    contains-add (canonical u t) (canonical u v) cs,
    contains-add t.token_id v.token_id ids,
  )

  rest_accepted :
      (ids cs : FrozenSet) (v : ProtoBasicToken) (ts : List ProtoBasicToken)
      → check_tokens u ids cs (v ∷ ts) ≡ ok tt
      → check_tokens u (add v.token_id ids) (add (canonical u v) cs) ts ≡ ok tt
  unfolding check_tokens
  rest_accepted ids cs v ts h = ground arith

  find_exact_text :
      (ids cs : FrozenSet) (ts : List ProtoBasicToken) (t : ProtoBasicToken)
      → check_tokens u ids cs ts ≡ ok tt
      → In t ts
      → find_exact t.text ts ≡ some t
  unfolding find_exact
  find_exact_text ids cs [] t h i = absurd i
  find_exact_text ids cs (v ∷ ts) t h (inl same) = ground (arith, same, eq_text_refl t.text)
  find_exact_text ids cs (v ∷ ts) t h (inr i) = ground (
    arith,
    apart ids cs v ts t h i,
    eq_text_iff v.text t.text,
    eq_text_refl (canonical u t),
    find_exact_text (add v.token_id ids) (add (canonical u v) cs) ts t (rest_accepted ids cs v ts h)
        i,
  )

  by_canonical_token :
      (ids cs : FrozenSet) (ts : List ProtoBasicToken) (t : ProtoBasicToken)
      → check_tokens u ids cs ts ≡ ok tt
      → In t ts
      → token_by_canonical u (canonical u t) ts ≡ some t
  unfolding token_by_canonical
  by_canonical_token ids cs [] t h i = absurd i
  by_canonical_token ids cs (v ∷ ts) t h (inl same) =
      ground (arith, same, eq_text_refl (canonical u t))
  by_canonical_token ids cs (v ∷ ts) t h (inr i) = ground (
    arith,
    apart ids cs v ts t h i,
    eq_text_iff (canonical u v) (canonical u t),
    eq_text_refl (canonical u t),
    by_canonical_token (add v.token_id ids) (add (canonical u v) cs) ts t
        (rest_accepted ids cs v ts h) i,
  )

  find_id_token :
      (ids cs : FrozenSet) (ts : List ProtoBasicToken) (t : ProtoBasicToken)
      → check_tokens u ids cs ts ≡ ok tt
      → In t ts
      → find_id t.token_id ts ≡ some t
  unfolding find_id
  find_id_token ids cs [] t h i = absurd i
  find_id_token ids cs (v ∷ ts) t h (inl same) = ground (arith, same, eq_text_refl t.token_id)
  find_id_token ids cs (v ∷ ts) t h (inr i) = ground (
    arith,
    apart ids cs v ts t h i,
    eq_text_iff v.token_id t.token_id,
    eq_text_refl t.token_id,
    find_id_token (add v.token_id ids) (add (canonical u v) cs) ts t (rest_accepted ids cs v ts h)
        i,
  )

  module _ {g : ProtoBasicGrammar} (valid : IsGrammar g) where
    checked : check_tokens u [] [] g.tokens ≡ ok tt
    unfolding proto_basic_grammar
    checked = ground (arith, valid.grammar_accepted)

    pub find_exact_self :
        (t : ProtoBasicToken) → In t g.tokens → find_exact t.text g.tokens ≡ some t
    find_exact_self t i = find_exact_text [] [] g.tokens t checked i

    pub by_canonical_self :
        (t : ProtoBasicToken)
        → In t g.tokens
        → token_by_canonical u (canonical u t) g.tokens ≡ some t
    by_canonical_self t i = by_canonical_token [] [] g.tokens t checked i

    pub find_id_self : (t : ProtoBasicToken) → In t g.tokens → find_id t.token_id g.tokens ≡ some t
    find_id_self t i = find_id_token [] [] g.tokens t checked i

    pub shapes_bounded : check_shapes u g.max_line_tokens g.command_shapes ≡ ok tt
    unfolding proto_basic_grammar
    shapes_bounded = ground (arith, valid.grammar_accepted)
