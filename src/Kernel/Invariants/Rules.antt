-- ===== src/Kernel/Invariants/Rules.antt =====
-- Rules for actions that pass: they return, whatever the world, and leave the client and the
-- semantic cache alone.
use toy_brain.Prelude.{
  ◌≡◌, refl, ◌∙◌, Bool, true, false, List, [], ◌∷◌, arith, Text, if◌then◌else◌, All, eq_text_iff,
}
use toy_brain.Prelude.Outcome.{Error, Result, ok}
use toy_brain.Prelude.FrozenSet.{FrozenSet, contains}
use toy_brain.Kernel.Exec.{World, Exec, pure, lift, ◌>>=◌, ◌>>◌, Event, record_event}
use toy_brain.Kernel.Invariants.{check, for_each}

pub record Passes {C : Type 0} (m : Exec C (Unit {0})) : Type 0 where
  pub returns : (w : World C) → (m w).0 ≡ ok tt
  pub client : (w : World C) → (m w).1.client ≡ w.client
  pub cache : (w : World C) → (m w).1.cache ≡ w.cache

module _ {C : Type 0} where
  pub Passes-pure : Passes {C = C} (pure tt)
  Passes-pure = record { returns = λ w. refl; client = λ w. refl; cache = λ w. refl }

  pub Passes-record_event : (e : Event) → Passes {C = C} (record_event e)
  unfolding record_event
  Passes-record_event e = record { returns = λ w. refl; client = λ w. refl; cache = λ w. refl }

  pub Passes-check : (row : Error) (b : Bool) → b ≡ true → Passes {C = C} (check row b)
  unfolding check
  Passes-check row true h = Passes-record_event _
  Passes-check row false h = ground arith

  pub Passes-then : (m k : Exec C (Unit {0})) → Passes m → Passes k → Passes {C = C} (m >> k)
  Passes-then m k hm hk = record {
    returns = λ w. rw (hm.returns w) (hk.returns (m w).1);
    client = λ w. rw (hm.returns w) (hk.client (m w).1 ∙ hm.client w);
    cache = λ w. rw (hm.returns w) (hk.cache (m w).1 ∙ hm.cache w);
  }

  pub Passes-lift :
      {A : Type 0} (r : Result A) (f : A → Exec C (Unit {0})) (a : A)
      → r ≡ ok a
      → Passes (f a)
      → Passes {C = C} (lift r >>= f)
  Passes-lift r f a e h = rw e h

  -- a check of a value that is looked up
  pub Passes-lookup :
      {A : Type 0} (r : Result A) (row : Error) (test : A → Bool) (a : A)
      → r ≡ ok a
      → test a ≡ true
      → Passes {C = C} (lift r >>= λ v. check row (test v))
  Passes-lookup r row test a e h =
      Passes-lift r (λ v. check row (test v)) a e (Passes-check row (test a) h)

  pub Passes-if :
      (b : Bool) (m k : Exec C (Unit {0}))
      → (b ≡ true → Passes m)
      → (b ≡ false → Passes k)
      → Passes {C = C} (if b then m else k)
  Passes-if true m k h h' = h refl
  Passes-if false m k h h' = h' refl

  pub Passes-for_each {ℓ} :
      {A : Type ℓ} (xs : List A) (body : A → Exec C (Unit {0}))
      → All (λ x. Passes (body x)) xs
      → Passes {C = C} (for_each xs body)
  unfolding for_each
  Passes-for_each [] body h = Passes-pure
  Passes-for_each (x ∷ xs) body h =
      Passes-then (body x) (for_each xs body) h.0 (Passes-for_each xs body h.1)

  pub Passes-members :
      (s : FrozenSet) (body : Text → Exec C (Unit {0}))
      → ((x : Text) → contains x s ≡ true → Passes (body x))
      → Passes {C = C} (for_each s body)
  unfolding for_each contains
  Passes-members [] body h = Passes-pure
  Passes-members (x ∷ s) body h =
      Passes-then (body x) (for_each s body) (h x (ground (arith, eq_text_iff x x)))
        (Passes-members s body (λ y k. h y (ground arith)))
