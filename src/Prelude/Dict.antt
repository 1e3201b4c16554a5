-- ===== src/Prelude/Dict.antt =====
-- Python's `dict` with `str` keys, in insertion order: an update keeps the key's place.
use mathlib.Core.Path.{◌≡◌, refl}
use mathlib.Core.Bool.{Bool, true, false, ◌||◌}
use mathlib.Core.List.{List, [], ◌∷◌}
use mathlib.Core.Option.{Option, none, some}
use native.Mathlib.Omega.{arith}
use toy_brain.Prelude.Tests.{if◌then◌else◌}
use toy_brain.Prelude.Lists.{All}
use toy_brain.Prelude.Strings.{Text, eq_text, eq_text_iff}
use toy_brain.Prelude.Outcome.{Result, ok, raise, key_error}
use toy_brain.Prelude.FrozenSet.{FrozenSet, Distinct, contains}

abbrev pub Dict {ℓ} : Type ℓ → Type ℓ
Dict V = List (Text × V)

abbrev pub is_some {ℓ} : {A : Type ℓ} → Option A → Bool
is_some none = false
is_some (some a) = true

pub is_some-witness {ℓ} : {A : Type ℓ} (o : Option A) → is_some o ≡ true → (a : A) × (o ≡ some a)
is_some-witness none h = ground arith
is_some-witness (some a) h = (a, refl)

module _ {ℓ} {V : Type ℓ} where
  -- `d.get(k)`
  unfoldable pub get : Text → Dict V → Option V
  get k [] = none
  get k ((j, v) ∷ d) = if eq_text k j then some v else get k d

  -- `d[k] = v`
  unfoldable pub put : Text → V → Dict V → Dict V
  put k v [] = (k, v) ∷ []
  put k v ((j, w) ∷ d) = if eq_text k j then (j, v) ∷ d else (j, w) ∷ put k v d

  -- `d[k]`
  unfoldable pub item : Text → Dict V → Result V
  unfolding get
  item k d = elim (get k d) [ none ↦ raise key_error | some v ↦ ok v ]

  -- `d.keys()`
  abbrev pub keys : Dict V → FrozenSet
  keys [] = []
  keys ((k, v) ∷ d) = k ∷ keys d

  pub item-ok : (k : Text) (d : Dict V) {v : V} → get k d ≡ some v → item k d ≡ ok v
  unfolding item
  item-ok k d e = rw (e, item)

  pub get-put :
      (k j : Text) (v : V) (d : Dict V)
      → get j (put k v d) ≡ (if eq_text j k then some v else get j d)
  unfolding get put
  get-put k j v [] = refl
  get-put k j v ((i, w) ∷ d) =
      ground (arith, get-put k j v d, eq_text_iff j k, eq_text_iff j i, eq_text_iff k i)

  pub contains-keys : (k : Text) (d : Dict V) → contains k (keys d) ≡ is_some (get k d)
  unfolding get contains
  contains-keys k [] = refl
  contains-keys k ((j, v) ∷ d) = ground (arith, contains-keys k d)

  -- The items after a write are those before, but for the key that is written.
  pub All-put {κ} :
      (P : Text × V → Type κ) (k : Text) (v : V) (d : Dict V)
      → P (k, v)
      → All P d
      → All P (put k v d)
  unfolding put
  All-put P k v [] p h = (p, tt)
  All-put P k v ((j, w) ∷ d) p h = ground (arith, eq_text_iff k j, All-put P k v d p h.1)

  pub All-get {κ} :
      (P : Text × V → Type κ) (k : Text) (v : V) (d : Dict V)
      → All P d
      → get k d ≡ some v
      → P (k, v)
  unfolding get
  All-get P k v [] h e = ground arith
  All-get P k v ((j, w) ∷ d) h e = ground (arith, eq_text_iff k j, All-get P k v d h.1)

  pub put-Distinct :
      (k : Text) (v : V) (d : Dict V) → Distinct (keys d) → Distinct (keys (put k v d))
  unfolding put contains
  put-Distinct k v [] h = (refl, tt)
  put-Distinct k v ((j, w) ∷ d) h = ground (
    arith,
    eq_text_iff k j,
    eq_text_iff j k,
    put-Distinct k v d h.1,
    contains-keys j d,
    contains-keys j (put k v d),
    get-put k j v d,
  )

  -- The keys after a write, and a lookup of a key that is there.
  pub contains-keys-put :
      (k x : Text) (v : V) (d : Dict V)
      → contains x (keys (put k v d)) ≡ (eq_text x k || contains x (keys d))
  contains-keys-put k x v d =
      ground (arith, contains-keys x (put k v d), contains-keys x d, get-put k x v d)
