-- ===== src/Composer/Recall.antt =====
-- What the keys undo: a deletion after an insertion, and the recall of a submitted line.
use toy_brain.Prelude.{
  ℕ, zero, suc, ◌+◌, ◌-◌, ◌<◌, ◌≡◌, refl, ◌∙◌, ap, Bool, true, false, Option, some, List, [], ◌∷◌,
  ◌++◌, arith, Text, ltb, eq_text_iff, length, get_elem?, drop, length-append, length-drop,
  get_elem?-append_last, Bool-cases, inl, inr, all-append,
}
use toy_brain.Prelude.Outcome.{ok}
use toy_brain.Kernel.Io.{has_text}
use toy_brain.Llm.Parse.{strip}
use toy_brain.Composer.{
  ComposerState, insert_char, backspace, submit, history_prev, state, submission, max_buffer,
  max_history, composer_submission, apply_insert, apply_backspace, apply_submit, recall, apply_prev,
  apply, extend_history, last_is, drop_last,
}
use toy_brain.Composer.Valid.{IsLine, IsValid, composer_state-of_IsValid}
use toy_brain.Composer.Handlers.{
  edited_of, edited, recalled_of, recalled, submitted_of, submitted-IsValid, ring_bounded,
  ring_entries,
}

get_elem?-drop :
    {A : Type 0} (n i : ℕ) (xs : List A) → get_elem? (drop n xs) i ≡ get_elem? xs (n + i)
get_elem?-drop zero i xs = ap (get_elem? xs) (omega arith)
get_elem?-drop (suc n) i [] = refl
get_elem?-drop (suc n) i (x ∷ xs) =
    get_elem?-drop n i xs
    ∙ ap (get_elem? (x ∷ xs)) (let e : suc (n + i) ≡ suc n + i = omega arith in e)

-- the newest entry
get_elem?-last_is :
    (entry : Text) (xs : List Text)
    → last_is entry xs ≡ true
    → get_elem? xs (length xs - 1) ≡ some entry
unfolding last_is
get_elem?-last_is entry [] h = ground arith
get_elem?-last_is entry (x ∷ []) h = ground (arith, eq_text_iff x entry)
get_elem?-last_is entry (x ∷ y ∷ xs) h =
    let e : length (x ∷ y ∷ xs) - 1 ≡ suc (length xs) = omega arith in
    let f : length xs ≡ length (y ∷ xs) - 1 = omega arith in
    ap (get_elem? (x ∷ y ∷ xs)) e ∙ ap (get_elem? (y ∷ xs)) f ∙ get_elem?-last_is entry (y ∷ xs) h

newest :
    (history : List Text) (entry : Text)
    → get_elem? (extend_history history entry) (length (extend_history history entry) - 1)
      ≡ some entry
unfolding extend_history
newest history entry =
    let new = history ++ entry ∷ [] in
    let n = length new - max_history in
    let size = length-append history (entry ∷ []) in
    elim (Bool-cases (last_is entry history)) [
      | inl same ↦ rw same (get_elem?-last_is entry history same)
      | inr other ↦ elim (Bool-cases (ltb max_history (length new))) [
        | inl over ↦
            rw (other, over)
              (get_elem?-drop n (length (drop n new) - 1) new
                ∙ ap (get_elem? new) (ground (arith, size, length-drop n new, over))
                ∙ get_elem?-append_last history entry)
        | inr room ↦
            rw (other, room)
              (ap (get_elem? new) (omega (arith, size)) ∙ get_elem?-append_last history entry)
      ]
    ]

drop_last-append : (b : Text) (c : ℕ) → drop_last (b ++ c ∷ []) ≡ b
unfolding drop_last
drop_last-append [] c = refl
drop_last-append (d ∷ []) c = refl
drop_last-append (d ∷ e ∷ b) c = ap (λ s. d ∷ s) (drop_last-append (e ∷ b) c)

has_text-append : (b : Text) (c : ℕ) → has_text (b ++ c ∷ []) ≡ true
has_text-append [] c = refl
has_text-append (d ∷ b) c = refl

-- A list with an element at some place has a length.
some-lt : (xs : List Text) (i : ℕ) {x : Text} → get_elem? xs i ≡ some x → i < length xs
some-lt [] i h = ground arith
some-lt (x ∷ xs) zero h = omega arith
some-lt (x ∷ xs) (suc i) h = omega (arith, some-lt xs i h)

-- Without a selection the newest entry is recalled.
prev-newest :
    (printable : ℕ → Bool) (s : ComposerState) (ring : List Text)
    → 0 < length ring
    → apply_prev printable (submitted_of s ring)
      ≡ recall printable (submitted_of s ring) (length ring - 1)
unfolding apply_prev
prev-newest printable s [] k = elim k [ ]
prev-newest printable s (x ∷ ring) k = refl

module _ (printable : ℕ → Bool) (s : ComposerState) (h : IsValid printable s) where
  -- From a state within the bounds whose buffer has room, the insertion of a printable character
  -- appends it, and a deletion after that gives the old buffer back.
  pub backspace-insert :
      (is_space : ℕ → Bool) (c : ℕ) (char : Option Text)
      → printable c ≡ true
      → length s.buffer < max_buffer
      → (apply printable is_space s insert_char (some (c ∷ []))
          ≡ ok (state (edited_of s (s.buffer ++ c ∷ []))))
        × (apply printable is_space (edited_of s (s.buffer ++ c ∷ [])) backspace char
            ≡ ok (state (edited_of s s.buffer)))
  unfolding apply apply_insert apply_backspace
  backspace-insert is_space c char k room =
      let longer : IsLine printable (s.buffer ++ c ∷ []) = (
        all-append printable s.buffer (c ∷ []) h.buffer.0 (ground (arith, k)),
        ground (arith, room, length-append s.buffer (c ∷ [])),
      ) in
      let fits : ltb max_buffer (length (s.buffer ++ c ∷ [])) ≡ false = ground (arith, longer.1) in
      (
        rw (k, fits, edited printable s h (s.buffer ++ c ∷ []) longer),
        rw (
          has_text-append s.buffer c,
          drop_last-append s.buffer c,
          edited printable s h s.buffer h.buffer,
        ),
      )

  -- From a state within the bounds, a submission of a buffer that is not blank carries the buffer
  -- as it was typed and leaves an empty one, and a step back into the history then shows that same
  -- line, wherever the full ring dropped its oldest entry or the line repeats the newest.
  pub prev-submit :
      (is_space : ℕ → Bool) (char char' : Option Text)
      → has_text (strip is_space s.buffer) ≡ true
      → (apply printable is_space s submit char
          ≡ ok (
              submission (record {
                line = s.buffer;
                next_state = submitted_of s (extend_history s.history s.buffer);
              })))
        × (apply printable is_space
              (submitted_of s (extend_history s.history s.buffer))
              history_prev
              char'
            ≡ ok (
                state (
                  recalled_of
                    (submitted_of s (extend_history s.history s.buffer))
                    (length (extend_history s.history s.buffer) - 1)
                    s.buffer)))
  unfolding apply apply_submit apply_prev composer_submission
  prev-submit is_space char char' k =
      let ring = extend_history s.history s.buffer in
      let next = submitted_of s ring in
      let valid =
        submitted-IsValid printable s h ring (ring_bounded printable s h s.buffer)
          (ring_entries printable s h s.buffer h.buffer) in
      let e = newest s.history s.buffer in
      let place = some-lt ring (length ring - 1) e in
      let shown = recalled printable next valid (length ring - 1) s.buffer place e in
      (
        rw (k, composer_state-of_IsValid printable next valid, h.buffer.0, h.buffer.1),
        rw (prev-newest printable s ring (omega (arith, place)), shown),
      )
