-- ===== src/Development/Segments/Cover.antt =====
-- The segments of a chunk cover its text line by line.
use toy_brain.Prelude.{
  refl, ◌≡◌, ℕ, Text, List, ◌∷◌, take, ◌==◌, drop, ◌≤◌, if◌then◌else◌, ◌-◌, ◌++◌, arith, suc, ◌+◌,
  ap, [], length, ◌∙◌, sym, zero, Bool-cases, inl, inr,
}
use toy_brain.Development.Features.{count_chars}

-- The spans of the lines of `rest`, the first from `cursor`, where `rest` stands at `index`.
unfoldable pub spans : ℕ → ℕ → Text → List (ℕ × ℕ)
spans cursor index [] = (cursor, index) ∷ []
spans cursor index (c ∷ rest) =
    if c == 10
    then (cursor, index) ∷ spans (index + 1) (index + 1) rest
    else spans cursor (index + 1) rest

abbrev pub slice : Text → ℕ → ℕ → Text
slice text start end = take (end - start) (drop start text)

-- The lines after the first, each behind a newline; and all lines.
abbrev pub tail_lines : List Text → Text
tail_lines [] = []
tail_lines (line ∷ rest) = 10 ∷ (line ++ tail_lines rest)

abbrev pub glue_lines : List Text → Text
glue_lines [] = []
glue_lines (line ∷ rest) = line ++ tail_lines rest

abbrev pub slices : Text → List (ℕ × ℕ) → List Text
slices text [] = []
slices text ((a, b) ∷ rest) = slice text a b ∷ slices text rest

tail_lines-spans :
    (text : Text) (cursor index : ℕ) (rest : Text)
    → tail_lines (slices text (spans cursor index rest))
      ≡ 10 ∷ glue_lines (slices text (spans cursor index rest))
unfolding spans
tail_lines-spans text cursor index [] = refl
tail_lines-spans text cursor index (c ∷ rest) =
    ground (arith, tail_lines-spans text cursor (index + 1) rest)

pub length-spans :
    (k cursor index : ℕ) (rest : Text)
    → count_chars (λ c. c == 10) (suc k) rest ≡ k + length (spans cursor index rest)
unfolding spans count_chars
length-spans k cursor index [] = omega arith
length-spans k cursor index (c ∷ rest) = ground (
  arith,
  length-spans (suc k) (index + 1) (index + 1) rest,
  length-spans k cursor (index + 1) rest,
)

take-drop : {A : Type 0} (n : ℕ) (xs : List A) → take n xs ++ drop n xs ≡ xs
take-drop zero xs = refl
take-drop (suc n) [] = refl
take-drop (suc n) (x ∷ xs) = ap (λ l. x ∷ l) (take-drop n xs)

drop-nil : {A : Type 0} (n : ℕ) → drop {A = A} n [] ≡ []
drop-nil zero = refl
drop-nil (suc n) = refl

drop-drop : {A : Type 0} (m n : ℕ) (xs : List A) → drop m (drop n xs) ≡ drop (n + m) xs
drop-drop m zero xs = ap (λ k. drop k xs) (let e : m ≡ 0 + m = omega arith in e)
drop-drop m (suc n) [] = drop-nil m ∙ sym (drop-nil (suc n + m))
drop-drop m (suc n) (x ∷ xs) =
    drop-drop m n xs
    ∙ ap (λ k. drop k (x ∷ xs)) (let e : suc (n + m) ≡ suc n + m = omega arith in e)

-- A cut before `index` and the rest from there.
slice-drop :
    (text : Text) (cursor index : ℕ)
    → cursor ≤ index
    → slice text cursor index ++ drop index text ≡ drop cursor text
slice-drop text cursor index h =
    let e : cursor + (index - cursor) ≡ index = omega arith in
    ap (λ l. slice text cursor index ++ l)
      (ap (λ k. drop k text) (sym e) ∙ sym (drop-drop (index - cursor) cursor text))
    ∙ take-drop (index - cursor) (drop cursor text)

pub join-spans :
    (text : Text) (cursor index : ℕ) (rest : Text)
    → cursor ≤ index
    → drop index text ≡ rest
    → glue_lines (slices text (spans cursor index rest)) ≡ drop cursor text
unfolding spans
join-spans text cursor index [] h e =
    ap (λ l. slice text cursor index ++ l) (sym e) ∙ slice-drop text cursor index h
join-spans text cursor index (c ∷ rest) h e =
    let next : drop (index + 1) text ≡ rest = sym (drop-drop 1 index text) ∙ ap (drop 1) e in
    elim (Bool-cases (c == 10)) [
      | inl newline ↦
          let tail : 10 ∷ drop (index + 1) text ≡ drop index text =
            ground (arith, next, e, newline) in
          let rest_lines = join-spans text (index + 1) (index + 1) rest (omega arith) next in
          rw newline (
            ap (λ l. slice text cursor index ++ l)
              (tail_lines-spans text (index + 1) (index + 1) rest
                ∙ ap (λ l. 10 ∷ l) rest_lines
                ∙ tail)
            ∙ slice-drop text cursor index h)
      | inr other ↦ rw other (join-spans text cursor (index + 1) rest (omega arith) next)
    ]
