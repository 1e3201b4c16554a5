-- ===== src/Development/Repl/Spelling.antt =====
-- Lines that spell tokens of the grammar, and lines that miss one.
use mathlib.Core.Path.{subst}
use toy_brain.Prelude.{
  ℕ, Text, List, [], ◌∷◌, Option, none, some, true, ◌≡◌, refl, inl, inr, eq_text, eq_text_iff,
  arith, All, length, ◌++◌, ◌+◌, map, suc, Bool-cases, ap,
}
use toy_brain.Development.Repl.{
  ProtoBasicToken, ProtoBasicGrammar, ProtoBasicTokenKind, Shape, eq_shape, eq_kind, verb, target,
  object,
}
use toy_brain.Development.Repl.Grammar.{In}
use toy_brain.Development.Repl.Lookup.{find_exact, known, unknown_positions, with_known}

abbrev pub texts_of : List ProtoBasicToken → List Text
texts_of ts = map (λ t. t.text) ts

abbrev pub somes : List ProtoBasicToken → List (Option ProtoBasicToken)
somes ts = map (λ t. some t) ts

-- the number of pieces that are no token's text
abbrev pub missing : List (Option ProtoBasicToken) → ℕ
missing [] = 0
missing (none ∷ ms) = suc (missing ms)
missing (some t ∷ ms) = missing ms

abbrev pub Tokens : ProtoBasicGrammar → List ProtoBasicToken → Type 0
Tokens g ts = All (λ t. In t g.tokens) ts

pub find_exact-In :
    (piece : Text) (ts : List ProtoBasicToken) (t : ProtoBasicToken)
    → find_exact piece ts ≡ some t
    → In t ts × (t.text ≡ piece)
unfolding find_exact
find_exact-In piece [] t h = absurd (cc h)
find_exact-In piece (v ∷ ts) t h = elim (Bool-cases (eq_text v.text piece)) [
  | inl same ↦
      let e : some v ≡ some t = rw (find_exact, same) at h in
      (inl (cc e), cc (e, (eq_text_iff v.text piece).0 same))
  | inr other ↦ let (i, e) = find_exact-In piece ts t (rw (find_exact, other) at h) in (inr i, e)
]

with_known-some :
    (t : ProtoBasicToken) (o : Option (List ProtoBasicToken)) {ts : List ProtoBasicToken}
    → with_known t o ≡ some ts
    → (rest : List ProtoBasicToken) × (o ≡ some rest) × (t ∷ rest ≡ ts)
with_known-some t none h = absurd (cc h)
with_known-some t (some rest) h = (rest, refl, cc h)

pub known-missing :
    (ms : List (Option ProtoBasicToken)) {ts : List ProtoBasicToken}
    → known ms ≡ some ts
    → ms ≡ somes ts
unfolding known
known-missing [] {ts} h =
    let e : ◌≡◌ {A = List ProtoBasicToken} [] ts = cc h in
    subst (λ (rest : List ProtoBasicToken). ◌≡◌ {A = List (Option ProtoBasicToken)} [] (somes rest))
      e refl
known-missing (none ∷ ms) h = absurd (cc h)
known-missing (some t ∷ ms) {ts} h =
    let (rest, e, same) = with_known-some t (known ms) h in
    subst (λ (rest : List ProtoBasicToken). some t ∷ ms ≡ somes rest) same
      (ap (λ (l : List (Option ProtoBasicToken)). some t ∷ l) (known-missing ms e))

pub no_missing :
    (ms : List (Option ProtoBasicToken))
    → missing ms ≡ 0
    → (ts : List ProtoBasicToken) × (ms ≡ somes ts)
no_missing [] h = ([], refl)
no_missing (none ∷ ms) h = absurd (omega arith)
no_missing (some t ∷ ms) h =
    let (ts, e) = no_missing ms h in
    (t ∷ ts, ap (λ (l : List (Option ProtoBasicToken)). some t ∷ l) e)

pub known-somes : (ts : List ProtoBasicToken) → known (somes ts) ≡ some ts
unfolding known
known-somes [] = refl
known-somes (t ∷ ts) = rw (known-somes ts) refl

-- A list with one unknown entry is two known ones round it.
pub one_missing :
    (ms : List (Option ProtoBasicToken))
    → missing ms ≡ 1
    → (before : List ProtoBasicToken) × (after : List ProtoBasicToken) × (ms
        ≡ somes before ++ none ∷ somes after)
one_missing [] h = absurd (omega arith)
one_missing (none ∷ ms) h =
    let (ts, e) = no_missing ms (omega arith) in
    ([], ts, ap (λ (l : List (Option ProtoBasicToken)). none ∷ l) e)
one_missing (some t ∷ ms) h =
    let (before, after, e) = one_missing ms h in
    (t ∷ before, after, ap (λ (l : List (Option ProtoBasicToken)). some t ∷ l) e)

no_positions : (i : ℕ) (ts : List ProtoBasicToken) → unknown_positions i (somes ts) ≡ []
unfolding unknown_positions
no_positions i [] = refl
no_positions i (t ∷ ts) = no_positions (i + 1) ts

pub positions-around :
    (i : ℕ) (before after : List ProtoBasicToken)
    → unknown_positions i (somes before ++ none ∷ somes after) ≡ (i + length before) ∷ []
unfolding unknown_positions
positions-around i [] after = ground (arith, no_positions (i + 1) after)
positions-around i (t ∷ before) after = ground (arith, positions-around (i + 1) before after)

pub length-positions :
    (i : ℕ) (ms : List (Option ProtoBasicToken)) → length (unknown_positions i ms) ≡ missing ms
unfolding unknown_positions
length-positions i [] = refl
length-positions i (none ∷ ms) = omega (arith, length-positions (i + 1) ms)
length-positions i (some t ∷ ms) = length-positions (i + 1) ms

pub eq_kind_eq : (k l : ProtoBasicTokenKind) → eq_kind k l ≡ true → k ≡ l
eq_kind_eq verb verb h = refl
eq_kind_eq target target h = refl
eq_kind_eq object object h = refl
eq_kind_eq _ _ h = cc h

pub eq_shape_eq : (s t : Shape) → eq_shape s t ≡ true → s ≡ t
unfolding eq_shape
eq_shape_eq [] [] h = refl
eq_shape_eq [] (b ∷ t) h = absurd (cc h)
eq_shape_eq (a ∷ s) [] h = absurd (cc h)
eq_shape_eq (a ∷ s) (b ∷ t) h = ground (arith, eq_kind_eq a b, eq_shape_eq s t)

pub eq_shape_refl : (s : Shape) → eq_shape s s ≡ true
unfolding eq_shape
eq_shape_refl [] = refl
eq_shape_refl (verb ∷ s) = eq_shape_refl s
eq_shape_refl (target ∷ s) = eq_shape_refl s
eq_shape_refl (object ∷ s) = eq_shape_refl s

pub length-around :
    (before after : List ProtoBasicToken) (e : ProtoBasicToken)
    → length (somes before ++ none ∷ somes after) ≡ length (before ++ e ∷ after)
length-around [] [] e = refl
length-around [] (t ∷ after) e = omega (arith, length-around [] after e)
length-around (t ∷ before) after e = omega (arith, length-around before after e)
