-- ===== src/Development/Repl/Lookup.antt =====
-- brain/development/repl.py: the searches of a grammar and of a line that `_classify_line` makes.
use toy_brain.Prelude.{
  ℕ, Bool, Text, List, [], ◌∷◌, Option, none, some, ◌&&◌, eq_text, keep, if◌then◌else◌, ◌+◌, map,
  true,
}
use toy_brain.Development.Repl.{
  ProtoBasicTokenKind, eq_kind, Shape, ProtoBasicToken, Unicode, canonical,
}

abbrev pub kinds_of : List ProtoBasicToken → Shape
kinds_of ts = map (λ t. t.kind) ts

abbrev pub ids_of : List ProtoBasicToken → List Text
ids_of ts = map (λ t. t.token_id) ts

-- `next((t for t in grammar.tokens if t.text == piece), None)`
unfoldable pub find_exact : Text → List ProtoBasicToken → Option ProtoBasicToken
find_exact piece [] = none
find_exact piece (t ∷ rest) = if eq_text t.text piece then some t else find_exact piece rest

unfoldable pub tokens_of_kind : ProtoBasicTokenKind → List ProtoBasicToken → List ProtoBasicToken
tokens_of_kind k ts = keep (λ t. eq_kind t.kind k) ts

-- the members of a list that holds no `None`
abbrev pub with_known :
    ProtoBasicToken → Option (List ProtoBasicToken) → Option (List ProtoBasicToken)
with_known t none = none
with_known t (some ts) = some (t ∷ ts)

unfoldable pub known : List (Option ProtoBasicToken) → Option (List ProtoBasicToken)
known [] = some []
known (none ∷ ms) = none
known (some t ∷ ms) = with_known t (known ms)

-- the first position that has no exact match, with the token that it folds to
unfoldable pub fold_position :
    ℕ → List (Option ProtoBasicToken) → List ProtoBasicToken → Option (ℕ × ProtoBasicToken)
fold_position i (none ∷ ms) (t ∷ ts) = some (i, t)
fold_position i (some e ∷ ms) (t ∷ ts) = fold_position (i + 1) ms ts
fold_position i _ _ = none

unfoldable pub unknown_positions : ℕ → List (Option ProtoBasicToken) → List ℕ
unknown_positions i [] = []
unknown_positions i (none ∷ ms) = i ∷ unknown_positions (i + 1) ms
unknown_positions i (some t ∷ ms) = unknown_positions (i + 1) ms

-- whether every known token has the kind that the shape asks for
unfoldable pub fits : List (Option ProtoBasicToken) → Shape → Bool
fits (none ∷ ms) (k ∷ ks) = fits ms ks
fits (some t ∷ ms) (k ∷ ks) = eq_kind k t.kind && fits ms ks
fits _ _ = true

-- the identifiers, with `expected` where a token is unknown
unfoldable pub filled_ids : Text → List (Option ProtoBasicToken) → List Text
filled_ids expected [] = []
filled_ids expected (none ∷ ms) = expected ∷ filled_ids expected ms
filled_ids expected (some t ∷ ms) = t.token_id ∷ filled_ids expected ms

unfoldable pub known_ids : List (Option ProtoBasicToken) → List Text
known_ids [] = []
known_ids (none ∷ ms) = known_ids ms
known_ids (some t ∷ ms) = t.token_id ∷ known_ids ms

module _ (u : Unicode) where
  -- `grammar.token_by_canonical(...)`
  unfoldable pub token_by_canonical : Text → List ProtoBasicToken → Option ProtoBasicToken
  token_by_canonical folded [] = none
  token_by_canonical folded (t ∷ rest) =
      if eq_text (canonical u t) folded then some t else token_by_canonical folded rest
