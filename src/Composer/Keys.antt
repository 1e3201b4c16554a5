-- ===== src/Composer/Keys.antt =====
-- Every key is answered: a run of edit events on a state within the bounds.
use toy_brain.Prelude.{
  ℕ, ◌≡◌, refl, Bool, true, false, Option, none, some, List, [], ◌∷◌, arith, Text, All,
}
use toy_brain.Prelude.Outcome.{Result, ok, ◌>>=◌}
use toy_brain.Composer.{
  ComposerState, ComposerAction, insert_char, backspace, submit, clear_buffer, history_prev,
  history_next, Applied, state, apply,
}
use toy_brain.Composer.Valid.{IsValid, HasAscii}
use toy_brain.Composer.Handlers.{
  next_of, Returns, insert_valid, backspace_valid, submit_valid, clear_valid, prev_valid,
  next_valid,
}

module _ (printable : ℕ → Bool) where
  -- What an event needs: only an insertion looks at its character.
  abbrev pub accepted : ComposerAction → Option Text → Bool
  accepted insert_char none = false
  accepted insert_char (some []) = false
  accepted insert_char (some (c ∷ [])) = printable c
  accepted insert_char (some (c ∷ d ∷ s)) = false
  accepted _ char = true

  module _ (s : ComposerState) (h : IsValid printable s) where
    shown :
        (r : Result ComposerState)
        → Returns printable r
        → (a : Applied) × ((r >>= λ next. ok (state next)) ≡ ok a) × IsValid printable (next_of a)
    shown r (next, e, valid) = rw e (state next, refl, valid)

    pub apply_valid :
        (is_space : ℕ → Bool) (action : ComposerAction) (char : Option Text)
        → HasAscii printable
        → accepted action char ≡ true
        → (a : Applied) × (apply printable is_space s action char ≡ ok a)
          × IsValid printable (next_of a)
    unfolding apply
    apply_valid is_space insert_char none t k = ground arith
    apply_valid is_space insert_char (some []) t k = ground arith
    apply_valid is_space insert_char (some (c ∷ [])) t k =
        shown _ (insert_valid printable s h t c k)
    apply_valid is_space insert_char (some (c ∷ d ∷ more)) t k = ground arith
    apply_valid is_space backspace char t k = shown _ (backspace_valid printable s h)
    apply_valid is_space submit char t k = submit_valid printable s h t is_space
    apply_valid is_space clear_buffer char t k = shown _ (clear_valid printable s h)
    apply_valid is_space history_prev char t k = shown _ (prev_valid printable s h t)
    apply_valid is_space history_next char t k = shown _ (next_valid printable s h t)

  -- the events of the keys that are pressed, one after another
  unfoldable pub run :
      (ℕ → Bool) → ComposerState → List (ComposerAction × Option Text) → Result ComposerState
  unfolding apply
  run is_space s [] = ok s
  run is_space s ((action, char) ∷ keys) =
      apply printable is_space s action char >>= λ a. run is_space (next_of a) keys

  -- Let the printable characters include those of ASCII from the space to the tilde, and the
  -- ellipsis. From a state within the bounds, every sequence of edit events that insert only single
  -- printable characters is answered to its end, and the last state is within the bounds.
  pub run_valid :
      (is_space : ℕ → Bool) (s : ComposerState) (keys : List (ComposerAction × Option Text))
      → HasAscii printable
      → IsValid printable s
      → All (λ key. accepted key.0 key.1 ≡ true) keys
      → Returns printable (run is_space s keys)
  unfolding run
  run_valid is_space s [] t h k = (s, refl, h)
  run_valid is_space s ((action, char) ∷ keys) t h k =
      let (a, e, valid) = apply_valid s h is_space action char t k.0 in
      rw (e, run) (run_valid is_space (next_of a) keys t valid k.1)
