-- ===== src/Development/Repl/Correction.antt =====
-- What a correction hint proposes, and the tokens that the corrected line spells.
use toy_brain.Prelude.{
  ℕ, zero, suc, Text, List, [], ◌∷◌, Option, none, some, true, ◌≡◌, refl, arith, length, ◌++◌, ◌+◌,
  map, take, get_elem?,
}
use toy_brain.Development.Repl.{
  ProtoBasicToken, ProtoBasicGrammar, ProtoBasicTokenKind, Shape, ProtoBasicCorrectionHint,
  ProtoBasicEditKind, insert_token, delete_token, substitute_token, case_fold, eq_shape, Unicode,
}
use toy_brain.Development.Repl.Grammar.{In}
use toy_brain.Development.Repl.Spelling.{texts_of, somes, Tokens, eq_kind_eq}
use toy_brain.Development.Repl.Matches.{tokens_of_kind-In}
use toy_brain.Development.Repl.Command.{find_id}
use toy_brain.Development.Repl.Classify.{candidates_at}
use toy_brain.Development.Repl.Lookup.{kinds_of, ids_of, fits, filled_ids, tokens_of_kind}

abbrev pub set_piece : ℕ → Text → List Text → List Text
set_piece i s [] = []
set_piece zero s (p ∷ ps) = s ∷ ps
set_piece (suc i) s (p ∷ ps) = p ∷ set_piece i s ps

abbrev pub insert_piece : ℕ → Text → List Text → List Text
insert_piece zero s ps = s ∷ ps
insert_piece (suc i) s [] = s ∷ []
insert_piece (suc i) s (p ∷ ps) = p ∷ insert_piece i s ps

abbrev pub delete_piece : ℕ → List Text → List Text
delete_piece i [] = []
delete_piece zero (p ∷ ps) = ps
delete_piece (suc i) (p ∷ ps) = p ∷ delete_piece i ps

-- the text of the token that a hint names
unfoldable pub text_for : ProtoBasicGrammar → Option Text → Text
unfolding find_id
text_for g none = []
text_for g (some id) = elim (find_id id g.tokens) [ none ↦ [] | some t ↦ t.text ]

abbrev edit : ProtoBasicEditKind → ℕ → Text → List Text → List Text
edit insert_token = insert_piece
edit delete_token = λ i s ps. delete_piece i ps
edit substitute_token = set_piece
edit case_fold = set_piece

-- The line that a hint proposes.
unfoldable pub edited : ProtoBasicGrammar → ProtoBasicCorrectionHint → List Text → List Text
unfolding text_for
edited g h pieces = edit h.edit_kind h.edit_position (text_for g h.expected_token_id) pieces

pub set_piece-around :
    (before : List ProtoBasicToken) (s p : Text) (rest : List Text)
    → set_piece (length before) s (texts_of before ++ p ∷ rest) ≡ texts_of before ++ s ∷ rest
set_piece-around [] s p rest = refl
set_piece-around (t ∷ before) s p rest = cc (set_piece-around before s p rest)

pub insert_piece-end :
    (ts : List ProtoBasicToken) (e : ProtoBasicToken)
    → insert_piece (length ts) e.text (texts_of ts) ≡ texts_of (ts ++ e ∷ [])
insert_piece-end [] e = refl
insert_piece-end (t ∷ ts) e = cc (insert_piece-end ts e)

pub delete_piece-end :
    (n : ℕ) (ts : List ProtoBasicToken)
    → n + 1 ≡ length ts
    → delete_piece n (texts_of ts) ≡ texts_of (take n ts)
delete_piece-end n [] h = absurd (omega arith)
delete_piece-end zero (t ∷ []) h = refl
delete_piece-end zero (t ∷ v ∷ ts) h = absurd (omega arith)
delete_piece-end (suc n) (t ∷ ts) h = cc (delete_piece-end n ts (omega arith))

pub map-take : {A B : Type 0} (f : A → B) (n : ℕ) (s : List A) → map f (take n s) ≡ take n (map f s)
map-take f zero s = refl
map-take f (suc n) [] = refl
map-take f (suc n) (a ∷ s) = cc (map-take f n s)

pub Tokens-take :
    (g : ProtoBasicGrammar) (n : ℕ) (ts : List ProtoBasicToken) → Tokens g ts → Tokens g (take n ts)
Tokens-take g zero ts h = tt
Tokens-take g (suc n) [] h = tt
Tokens-take g (suc n) (t ∷ ts) h = (h.0, Tokens-take g n ts h.1)

-- the shape of known tokens with one more at the end
pub kinds-insert :
    (ts : List ProtoBasicToken) (e : ProtoBasicToken) (shape : Shape)
    → length shape ≡ length ts + 1
    → eq_shape (kinds_of ts) (take (length ts) shape) ≡ true
    → get_elem? shape (length ts) ≡ some e.kind
    → kinds_of (ts ++ e ∷ []) ≡ shape
unfolding eq_shape
kinds-insert [] e [] h k l = absurd (omega arith)
kinds-insert [] e (a ∷ []) h k l = cc l
kinds-insert [] e (a ∷ b ∷ s) h k l = absurd (omega arith)
kinds-insert (t ∷ ts) e [] h k l = absurd (omega arith)
kinds-insert (t ∷ ts) e (a ∷ s) h k l =
    let same = eq_kind_eq t.kind a (ground (arith, k)) in
    cc (same, kinds-insert ts e s (omega arith) (ground (arith, k)) l)

-- the shape of the tokens round an unknown piece with one put in its place
kinds-fit :
    (after : List ProtoBasicToken) (shape : Shape)
    → length shape ≡ length after
    → fits (somes after) shape ≡ true
    → kinds_of after ≡ shape
unfolding fits
kinds-fit [] [] h k = refl
kinds-fit [] (a ∷ s) h k = absurd (omega arith)
kinds-fit (t ∷ ts) [] h k = absurd (omega arith)
kinds-fit (t ∷ ts) (a ∷ s) h k =
    let same = eq_kind_eq a t.kind (ground (arith, k)) in
    cc (same, kinds-fit ts s (omega arith) (ground (arith, k)))

pub kinds-substitute :
    (before after : List ProtoBasicToken) (e : ProtoBasicToken) (shape : Shape)
    → length shape ≡ length (before ++ e ∷ after)
    → fits (somes before ++ none ∷ somes after) shape ≡ true
    → get_elem? shape (length before) ≡ some e.kind
    → kinds_of (before ++ e ∷ after) ≡ shape
unfolding fits
kinds-substitute [] after e [] h k l = absurd (omega arith)
kinds-substitute [] after e (a ∷ s) h k l =
    let same : a ≡ e.kind = cc l in cc (same, kinds-fit after s (omega arith) k)
kinds-substitute (t ∷ before) after e [] h k l = absurd (omega arith)
kinds-substitute (t ∷ before) after e (a ∷ s) h k l =
    let same = eq_kind_eq a t.kind (ground (arith, k)) in
    cc (same, kinds-substitute before after e s (omega arith) (ground (arith, k)) l)

filled_ids-known : (id : Text) (ts : List ProtoBasicToken) → filled_ids id (somes ts) ≡ ids_of ts
unfolding filled_ids
filled_ids-known id [] = refl
filled_ids-known id (t ∷ ts) = cc (filled_ids-known id ts)

pub filled_ids-around :
    (e : ProtoBasicToken) (before after : List ProtoBasicToken)
    → filled_ids e.token_id (somes before ++ none ∷ somes after) ≡ ids_of (before ++ e ∷ after)
unfolding filled_ids
filled_ids-around e [] after = cc (filled_ids-known e.token_id after)
filled_ids-around e (t ∷ before) after = cc (filled_ids-around e before after)

-- a candidate for a position of a shape
pub candidates_at-In :
    (u : Unicode) (g : ProtoBasicGrammar) (shape : Shape) (n : ℕ) {e : ProtoBasicToken}
    {more : List ProtoBasicToken}
    → candidates_at u g shape n ≡ e ∷ more
    → In e g.tokens × (get_elem? shape n ≡ some e.kind)
candidates_at-In u g shape n {e} {more} h = by_kind (get_elem? shape n) h
  where
    by_kind :
        (o : Option ProtoBasicTokenKind)
        → (elim o [ none ↦ [] | some k ↦ tokens_of_kind k g.tokens ]) ≡ e ∷ more
        → In e g.tokens × (o ≡ some e.kind)
    by_kind none h = absurd (cc h)
    by_kind (some k) h = let (i, same) = tokens_of_kind-In k g.tokens h in (i, cc same)
