-- ===== src/Llm/Parse.antt =====
-- brain/llm/parse.py: the strict parser of a response.
use toy_brain.Prelude.{
  ℕ, Bool, true, false, Option, none, some, List, [], ◌∷◌, ◌++◌, Text, codes, if◌then◌else◌, ◌==◌,
  eq_text, any,
}
use toy_brain.Prelude.FrozenSet.{FrozenSet, add}
use toy_brain.Tlica.PtCns.{ConsistencyEval, damage, neutral, preserve}

-- `ConsistencyEval.name`
unfoldable pub name_of : ConsistencyEval → Text
name_of damage = codes "DAMAGE"
name_of neutral = codes "NEUTRAL"
name_of preserve = codes "PRESERVE"

-- `ConsistencyEval[name]`, for a name in `_VALID`
unfoldable pub by_name : Text → Option ConsistencyEval
unfolding name_of eq_text
by_name s =
    if eq_text s (name_of preserve)
    then some preserve
    else if eq_text s (name_of damage)
    then some damage
    else if eq_text s (name_of neutral)
    then some neutral
    else none

-- `s.strip()` by a test, from the right and from both ends
abbrev pub prepend_kept : (ℕ → Bool) → ℕ → Text → Text
prepend_kept drops c [] = if drops c then [] else c ∷ []
prepend_kept drops c (d ∷ rest) = c ∷ d ∷ rest

unfoldable pub rstrip : (ℕ → Bool) → Text → Text
rstrip drops [] = []
rstrip drops (c ∷ s) = prepend_kept drops c (rstrip drops s)

unfoldable pub lstrip : (ℕ → Bool) → Text → Text
lstrip drops [] = []
lstrip drops (c ∷ s) = let rest = lstrip drops s in if drops c then rest else c ∷ s

unfoldable pub strip : (ℕ → Bool) → Text → Text
unfolding rstrip lstrip
strip drops s = rstrip drops (lstrip drops s)

-- `s.split()`: the runs of characters that are no spaces; `word` is the run so far
abbrev pub close_word : Text → List Text → List Text
close_word [] rest = rest
close_word (c ∷ word) rest = (c ∷ word) ∷ rest

unfoldable pub split_from : (ℕ → Bool) → Text → Text → List Text
split_from is_space word [] = close_word word []
split_from is_space word (c ∷ s) = elim (is_space c) [
  | true ↦ close_word word (split_from is_space [] s)
  | false ↦ split_from is_space (word ++ c ∷ []) s
]

-- `_STRIP_CHARS`
unfoldable pub is_strip_char : ℕ → Bool
is_strip_char c = any (λ d. c == d) (codes ".,;:!?\"'`*_")

-- The loop over the tokens, which gathers the valid names.
unfoldable pub collect : FrozenSet → List Text → FrozenSet
unfolding by_name strip is_strip_char add
collect found [] = found
collect found (token ∷ rest) =
    let stripped = strip is_strip_char token in
    collect (elim (by_name stripped) [ none ↦ found | some e ↦ add stripped found ]) rest

-- A response is read as an evaluation, or is a `ParseError`.
pub data Parsed : Type 0 where
  parsed : ConsistencyEval → Parsed
  ambiguous : FrozenSet → Parsed
  unknown : Parsed

abbrev from_found : FrozenSet → Parsed
from_found [] = unknown
from_found (x ∷ []) = elim (by_name x) [ none ↦ unknown | some e ↦ parsed e ]
from_found (x ∷ y ∷ s) = ambiguous (x ∷ y ∷ s)

unfoldable pub parse_consistency_eval : (Text → Text) → (ℕ → Bool) → Text → Parsed
unfolding strip by_name split_from collect
parse_consistency_eval upper is_space raw =
    let cleaned = upper (strip is_space raw) in
    elim (by_name cleaned) [
      | some e ↦ parsed e
      | none ↦ from_found (collect [] (split_from is_space [] cleaned))
    ]
