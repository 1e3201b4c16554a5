-- ===== src/Development/Repl/Matches.antt =====
-- The tokens that the pieces of a line match.
use toy_brain.Prelude.{Text, List, [], ◌∷◌, none, ◌≡◌, refl, inl, inr, ◌++◌, sym, Bool-cases}
use toy_brain.Development.Repl.{
  Unicode, ProtoBasicToken, ProtoBasicGrammar, ProtoBasicTokenKind, eq_kind,
}
use toy_brain.Development.Repl.Grammar.{In, IsGrammar, find_exact_self}
use toy_brain.Development.Repl.Spelling.{texts_of, somes, Tokens, find_exact-In, eq_kind_eq}
use toy_brain.Development.Repl.Classify.{exact_matches}
use toy_brain.Development.Repl.Lookup.{tokens_of_kind}

pub cons_eq : {A : Type 0} {a b : A} {s t : List A} → a ∷ s ≡ b ∷ t → (a ≡ b) × (s ≡ t)
cons_eq h = (cc h, cc h)

pub tokens_of_kind-In :
    (k : ProtoBasicTokenKind) (ts : List ProtoBasicToken) {e : ProtoBasicToken}
    {more : List ProtoBasicToken}
    → tokens_of_kind k ts ≡ e ∷ more
    → In e ts × (e.kind ≡ k)
unfolding tokens_of_kind
tokens_of_kind-In k [] h = absurd (cc h)
tokens_of_kind-In k (t ∷ ts) {e} h = elim (Bool-cases (eq_kind t.kind k)) [
  | inl same ↦
      let (one, rest) = cons_eq (rw same at h) in
      (inl (sym one), cc (one, eq_kind_eq t.kind k same))
  | inr other ↦ let (i, r) = tokens_of_kind-In k ts (rw other at h) in (inr i, r)
]

module _ (u : Unicode) {g : ProtoBasicGrammar} (valid : IsGrammar u g) where
  pub exact-texts :
      (ts : List ProtoBasicToken) → Tokens g ts → exact_matches u g (texts_of ts) ≡ somes ts
  exact-texts [] h = refl
  exact-texts (t ∷ ts) h = cc (find_exact_self u valid t h.0, exact-texts ts h.1)

  pub exact-somes :
      (pieces : List Text) (ts : List ProtoBasicToken)
      → exact_matches u g pieces ≡ somes ts
      → Tokens g ts × (texts_of ts ≡ pieces)
  exact-somes [] [] h = (tt, refl)
  exact-somes [] (t ∷ ts) h = absurd (cc h)
  exact-somes (piece ∷ pieces) [] h = absurd (cc h)
  exact-somes (piece ∷ pieces) (t ∷ ts) h =
      let (e, rest) = cons_eq h in
      let (i, same) = find_exact-In piece g.tokens t e in
      let (all_in, texts) = exact-somes pieces ts rest in ((i, all_in), cc (same, texts))

  pub exact-around :
      (pieces : List Text) (before after : List ProtoBasicToken)
      → exact_matches u g pieces ≡ somes before ++ none ∷ somes after
      → (piece : Text) × Tokens g before
        × Tokens g after
        × (pieces ≡ texts_of before ++ piece ∷ texts_of after)
  exact-around [] [] after h = absurd (cc h)
  exact-around [] (t ∷ before) after h = absurd (cc h)
  exact-around (piece ∷ pieces) [] after h =
      let (e, rest) = cons_eq h in
      let (all_in, texts) = exact-somes pieces after rest in (piece, tt, all_in, cc texts)
  exact-around (piece ∷ pieces) (t ∷ before) after h =
      let (e, rest) = cons_eq h in
      let (i, same) = find_exact-In piece g.tokens t e in
      let (other, first, last, texts) = exact-around pieces before after rest in
      (other, (i, first), last, cc (same, texts))
