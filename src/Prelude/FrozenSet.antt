-- ===== src/Prelude/FrozenSet.antt =====
-- Python's `frozenset[str]` and `set[str]`: a list read through `contains`. Sets are compared by
-- their members, never by the order of the list.
use mathlib.Core.Path.{◌≡◌, refl}
use mathlib.Core.Bool.{Bool, true, false, ◌&&◌, ◌||◌, not}
use mathlib.Core.List.{List, [], ◌∷◌, ◌++◌}
use native.Mathlib.Omega.{arith}
use toy_brain.Prelude.Tests.{if◌then◌else◌, Bool_ext}
use toy_brain.Prelude.Lists.{all, keep}
use toy_brain.Prelude.Strings.{Text, eq_text, eq_text_iff}

abbrev pub FrozenSet : Type 0
FrozenSet = List Text

-- `x in s`
unfoldable pub contains : Text → FrozenSet → Bool
contains x [] = false
contains x (y ∷ s) = eq_text x y || contains x s

-- `s.add(x)`
unfoldable pub add : Text → FrozenSet → FrozenSet
unfolding contains
add x s = if contains x s then s else s ++ x ∷ []

-- `s | t`, `s & t`, `s - t`
unfoldable pub union : FrozenSet → FrozenSet → FrozenSet
unfolding contains
union s t = s ++ keep (λ x. not (contains x s)) t

unfoldable pub inter : FrozenSet → FrozenSet → FrozenSet
unfolding contains
inter s t = keep (λ x. contains x s) t

unfoldable pub diff : FrozenSet → FrozenSet → FrozenSet
unfolding contains
diff s t = keep (λ x. not (contains x t)) s

-- `s <= t`, `s == t`, `bool(s)`
unfoldable pub subset : FrozenSet → FrozenSet → Bool
unfolding contains
subset s t = all (λ x. contains x t) s

unfoldable pub set_eq : FrozenSet → FrozenSet → Bool
unfolding subset
set_eq s t = subset s t && subset t s

abbrev pub non_empty : FrozenSet → Bool
non_empty [] = false
non_empty (x ∷ s) = true

-- The list of a set holds each member once.
abbrev pub Distinct : FrozenSet → Type 0
Distinct [] = Unit
Distinct (x ∷ s) = (contains x s ≡ false) × Distinct s

pub contains-append :
    (x : Text) (s t : FrozenSet) → contains x (s ++ t) ≡ (contains x s || contains x t)
unfolding contains
contains-append x [] t = refl
contains-append x (y ∷ s) t = ground (arith, contains-append x s t)

-- Membership in a filtered set, for a test that is a function of the text.
pub contains-keep :
    (p : Text → Bool) (x : Text) (s : FrozenSet) → contains x (keep p s) ≡ (p x && contains x s)
unfolding contains
contains-keep p x [] = ground arith
contains-keep p x (y ∷ s) = ground (arith, contains-keep p x s, eq_text_iff x y)

pub contains-add :
    (x y : Text) (s : FrozenSet) → contains x (add y s) ≡ (eq_text x y || contains x s)
unfolding add contains
contains-add x y s = ground (arith, contains-append x s (y ∷ []), eq_text_iff x y)

pub contains-union :
    (x : Text) (s t : FrozenSet) → contains x (union s t) ≡ (contains x s || contains x t)
unfolding union
contains-union x s t = ground (
  arith,
  contains-append x s (keep (λ y. not (contains y s)) t),
  contains-keep (λ y. not (contains y s)) x t,
)

pub contains-inter :
    (x : Text) (s t : FrozenSet) → contains x (inter s t) ≡ (contains x s && contains x t)
unfolding inter
contains-inter x s t = contains-keep (λ y. contains y s) x t

pub contains-diff :
    (x : Text) (s t : FrozenSet) → contains x (diff s t) ≡ (not (contains x t) && contains x s)
unfolding diff
contains-diff x s t = contains-keep (λ y. not (contains y t)) x s

pub contains-subset :
    (x : Text) (s t : FrozenSet) → subset s t ≡ true → contains x s ≡ true → contains x t ≡ true
unfolding subset contains
contains-subset x [] t h k = ground arith
contains-subset x (y ∷ s) t h k = ground (arith, contains-subset x s t, eq_text_iff x y)

-- To prove an inclusion, prove it of each member.
pub subset_of :
    (s t : FrozenSet) → ((x : Text) → contains x s ≡ true → contains x t ≡ true) → subset s t ≡ true
unfolding subset contains
subset_of [] t h = refl
subset_of (y ∷ s) t h =
    let here : contains y t ≡ true = h y (ground (arith, eq_text_iff y y)) in
    let rest : subset s t ≡ true = subset_of s t (λ x k. h x (ground arith)) in ground arith

pub set_eq_of : (s t : FrozenSet) → ((x : Text) → contains x s ≡ contains x t) → set_eq s t ≡ true
unfolding set_eq
set_eq_of s t h =
    let there : subset s t ≡ true = subset_of s t (λ x k. ground (arith, h x)) in
    let back : subset t s ≡ true = subset_of t s (λ x k. ground (arith, h x)) in ground arith

pub contains-set_eq : (x : Text) (s t : FrozenSet) → set_eq s t ≡ true → contains x s ≡ contains x t
unfolding set_eq
contains-set_eq x s t h =
    Bool_ext (contains x s) (contains x t) (contains-subset x s t (ground arith))
      (contains-subset x t s (ground arith))

-- A test of every member.
pub all-contains :
    (p : Text → Bool) (x : Text) (s : FrozenSet) → all p s ≡ true → contains x s ≡ true → p x ≡ true
unfolding contains
all-contains p x [] h k = ground arith
all-contains p x (y ∷ s) h k = ground (arith, all-contains p x s, eq_text_iff x y)

pub all_of :
    (p : Text → Bool) (s : FrozenSet)
    → ((x : Text) → contains x s ≡ true → p x ≡ true)
    → all p s ≡ true
unfolding contains
all_of p [] h = refl
all_of p (y ∷ s) h =
    let here : p y ≡ true = h y (ground (arith, eq_text_iff y y)) in
    let rest : all p s ≡ true = all_of p s (λ x k. h x (ground arith)) in ground arith
