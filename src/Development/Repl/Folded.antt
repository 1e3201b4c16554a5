-- ===== src/Development/Repl/Folded.antt =====
-- The branch of `_classify_line` for a line that spells tokens but for the case of its letters.
use toy_brain.Prelude.{
  ℕ, Text, List, [], ◌∷◌, Option, none, some, ◌≡◌, refl, inl, inr, eq_text, arith, length, ◌++◌,
  ◌+◌, Bool-cases, ◌<◌, sym, ◌∙◌, ◌≤◌, suc, zero,
}
use toy_brain.Development.Repl.{Unicode, ProtoBasicToken, ProtoBasicGrammar, canonical}
use toy_brain.Development.Repl.Grammar.{In, IsGrammar, by_canonical_self}
use toy_brain.Development.Repl.Matches.{cons_eq}
use toy_brain.Development.Repl.Spelling.{texts_of, somes, Tokens, missing}
use toy_brain.Development.Repl.Classify.{case_fold_matches}
use toy_brain.Development.Repl.Lookup.{token_by_canonical, fold_position}

pub fold_position-In :
    (i : ℕ) (ms : List (Option ProtoBasicToken)) (ts : List ProtoBasicToken) {j : ℕ}
    {t : ProtoBasicToken}
    → fold_position i ms ts ≡ some (j, t)
    → In t ts × (j < i + length ts)
unfolding fold_position
fold_position-In i [] ts h = absurd (cc h)
fold_position-In i (none ∷ ms) [] h = absurd (cc h)
fold_position-In i (some e ∷ ms) [] h = absurd (cc h)
fold_position-In i (none ∷ ms) (v ∷ ts) {j} {t} h =
    let first : i ≡ j = cc h in
    let second : v ≡ t = cc h in (inl (sym second), omega (arith, first))
fold_position-In i (some e ∷ ms) (v ∷ ts) h =
    let (k, l) = fold_position-In (i + 1) ms ts h in (inr k, omega (arith, l))

fold_position-none :
    (i : ℕ) (ms : List (Option ProtoBasicToken)) (ts : List ProtoBasicToken)
    → missing ms ≡ 0
    → fold_position i ms ts ≡ none
unfolding fold_position
fold_position-none i [] ts h = refl
fold_position-none i (none ∷ ms) ts h = absurd (omega arith)
fold_position-none i (some e ∷ ms) [] h = refl
fold_position-none i (some e ∷ ms) (t ∷ ts) h = fold_position-none (i + 1) ms ts h

-- A line that has a position to fold, and one unknown piece at most, has just one.
pub fold_position-missing :
    (ms : List (Option ProtoBasicToken)) (ts : List ProtoBasicToken) {found : ℕ × ProtoBasicToken}
    → fold_position 0 ms ts ≡ some found
    → missing ms ≤ 1
    → missing ms ≡ 1
fold_position-missing ms ts h few = by_count (missing ms) refl
  where
    by_count : (n : ℕ) → missing ms ≡ n → missing ms ≡ 1
    by_count zero e = absurd (cc (h, fold_position-none 0 ms ts e))
    by_count (suc n) e = omega (arith, e, few)

-- What a line with one unknown piece is folded to, and where.
pub fold_position-around :
    (i : ℕ) (before after : List ProtoBasicToken) (t : ProtoBasicToken) {n : ℕ}
    {v : ProtoBasicToken}
    → fold_position i (somes before ++ none ∷ somes after) (before ++ t ∷ after) ≡ some (n, v)
    → (i + length before ≡ n) × (t ≡ v)
unfolding fold_position
fold_position-around i [] after t {n} {v} h =
    let first : i ≡ n = cc h in let second : t ≡ v = cc h in (omega (arith, first), second)
fold_position-around i (w ∷ before) after t h =
    let (first, second) = fold_position-around (i + 1) before after t h in
    (omega (arith, first), second)

somes_eq : (s t : List ProtoBasicToken) → somes s ≡ somes t → s ≡ t
somes_eq [] [] h = refl
somes_eq [] (a ∷ t) h = absurd (cc h)
somes_eq (a ∷ s) [] h = absurd (cc h)
somes_eq (a ∷ s) (b ∷ t) h = let (e, rest) = cons_eq h in cc (e, somes_eq s t rest)

module _ (u : Unicode) where
  by_canonical-In :
      (folded : Text) (ts : List ProtoBasicToken) {t : ProtoBasicToken}
      → token_by_canonical u folded ts ≡ some t
      → In t ts
  unfolding token_by_canonical
  by_canonical-In folded [] h = absurd (cc h)
  by_canonical-In folded (v ∷ ts) {t} h = elim (Bool-cases (eq_text (canonical u v) folded)) [
    | inl same ↦ let e : some v ≡ some t = rw same at h in inl (cc e)
    | inr other ↦ inr (by_canonical-In folded ts (rw other at h))
  ]

  module _ {g : ProtoBasicGrammar} (good : IsGrammar u g) where
    pub folded-Tokens :
        (pieces : List Text) (ts : List ProtoBasicToken)
        → case_fold_matches u g pieces ≡ somes ts
        → Tokens g ts × (length ts ≡ length pieces)
    folded-Tokens [] [] h = (tt, refl)
    folded-Tokens [] (t ∷ ts) h = absurd (cc h)
    folded-Tokens (piece ∷ pieces) [] h = absurd (cc h)
    folded-Tokens (piece ∷ pieces) (t ∷ ts) h =
        let (e, rest) = cons_eq h in
        let (all_in, size) = folded-Tokens pieces ts rest in
        ((by_canonical-In (u.casefold piece) g.tokens e, all_in), omega (arith, size))

    fold-texts :
        (ts : List ProtoBasicToken) → Tokens g ts → case_fold_matches u g (texts_of ts) ≡ somes ts
    fold-texts [] h = refl
    fold-texts (t ∷ ts) h = cc (by_canonical_self u good t h.0, fold-texts ts h.1)

    -- the token that stands for the one piece that is not exact
    pub fold-around :
        (before after folded : List ProtoBasicToken) (piece : Text)
        → Tokens g before
        → Tokens g after
        → case_fold_matches u g (texts_of before ++ piece ∷ texts_of after) ≡ somes folded
        → (t : ProtoBasicToken) × In t g.tokens × (folded ≡ before ++ t ∷ after)
    fold-around [] after [] piece first last h = absurd (cc h)
    fold-around [] after (t ∷ folded) piece first last h =
        let (e, rest) = cons_eq h in
        let same = somes_eq after folded (sym (fold-texts after last) ∙ rest) in
        (t, by_canonical-In (u.casefold piece) g.tokens e, cc same)
    fold-around (v ∷ before) after [] piece first last h = absurd (cc h)
    fold-around (v ∷ before) after (w ∷ folded) piece first last h =
        let (e, rest) = cons_eq h in
        let (t, i, same) = fold-around before after folded piece first.1 last rest in
        let self = by_canonical_self u good v first.0 in
        let head : some v ≡ some w = sym self ∙ e in
        let one : v ≡ w = cc head in (t, i, cc (one, same))
