-- ===== src/Composer/Handlers.antt =====
-- Each handler of an edit event on a state within the bounds.
use toy_brain.Prelude.{
  ℕ, zero, suc, ◌+◌, ◌-◌, ◌≤◌, ◌<◌, ◌≡◌, refl, Bool, true, false, ◌&&◌, Option, none, some, List,
  [], ◌∷◌, ◌++◌, arith, Text, codes, ltb, leb, length, get_elem?, all, All, length-append,
  length-drop, get_elem?-total, All-append, All-drop, All-get_elem?, Bool-cases, ◌⊎◌, inl, inr,
  all-append,
}
use toy_brain.Prelude.Outcome.{Result, ok}
use toy_brain.Kernel.Io.{has_text}
use toy_brain.Llm.Parse.{strip}
use toy_brain.Composer.{
  ComposerState, Applied, state, submission, max_buffer, max_history, max_status, composer_state,
  composer_submission, bound_printable, signal, apply_insert, apply_backspace, apply_submit,
  apply_clear, recall, apply_prev, apply_next, next_entry, previous, extend_history, last_is,
  drop_last,
}
use toy_brain.Composer.Valid.{
  IsLine, IsValid, composer_state-of_IsValid, HasAscii, all-HasAscii, Selects,
}

-- The state after an event.
abbrev pub next_of : Applied → ComposerState
next_of (state s) = s
next_of (submission sent) = sent.next_state

-- The state with the live buffer `b` and no entry selected.
abbrev pub edited_of : ComposerState → Text → ComposerState
edited_of s b = record s { buffer = b; cursor = length b; history_cursor = none; status_line = [] }

-- The state after a line has gone into the history.
abbrev pub submitted_of : ComposerState → List Text → ComposerState
submitted_of s history = record s {
  buffer = [];
  cursor = 0;
  history = history;
  history_cursor = none;
  status_line = [];
}

-- The state that shows an entry.
abbrev pub recalled_of : ComposerState → ℕ → Text → ComposerState
recalled_of s i entry = record s {
  buffer = entry;
  cursor = length entry;
  history_cursor = some i;
  status_line = [];
}

pub List-cases : (xs : List Text) → (xs ≡ []) ⊎ ((x : Text) × (rest : List Text) × (xs ≡ x ∷ rest))
List-cases [] = inl refl
List-cases (x ∷ rest) = inr (x, rest, refl)

all-drop_last : (p : ℕ → Bool) (s : Text) → all p s ≡ true → all p (drop_last s) ≡ true
unfolding drop_last
all-drop_last p [] h = refl
all-drop_last p (c ∷ []) h = refl
all-drop_last p (c ∷ d ∷ s) h = ground (arith, all-drop_last p (d ∷ s))

length-drop_last : (s : Text) → length (drop_last s) ≤ length s
unfolding drop_last
length-drop_last [] = omega arith
length-drop_last (c ∷ []) = omega arith
length-drop_last (c ∷ d ∷ s) = omega (arith, length-drop_last (d ∷ s))

previous-lt :
    (selection : Option ℕ) (history : List Text)
    → Selects selection history
    → 0 < length history
    → previous selection (length history) < length history
previous-lt none n h k = omega arith
previous-lt (some zero) n h k = k
previous-lt (some (suc i)) n h k = ground arith

module _ (printable : ℕ → Bool) where
  -- The call returns a state within the bounds.
  abbrev pub Returns : Result ComposerState → Type 0
  Returns r = (s : ComposerState) × (r ≡ ok s) × IsValid printable s

  constructed :
      (s : ComposerState)
      → IsValid printable s
      → Returns (
          composer_state printable s.buffer s.cursor s.history s.history_cursor s.mode
            s.status_line)
  constructed s h = (s, composer_state-of_IsValid printable s h, h)

  drop_last-IsLine : (s : Text) → IsLine printable s → IsLine printable (drop_last s)
  drop_last-IsLine s h = (all-drop_last printable s h.0, ground (arith, length-drop_last s, h.1))

  module _ (s : ComposerState) (h : IsValid printable s) where
    pub edited-IsValid : (b : Text) → IsLine printable b → IsValid printable (edited_of s b)
    edited-IsValid b k = record {
      buffer = k;
      cursor = ground arith;
      bounded = h.bounded;
      entries = h.entries;
      selected = tt;
      mode = h.mode;
      status = (refl, refl);
    }

    pub edited :
        (b : Text)
        → IsLine printable b
        → composer_state printable b (length b) s.history none s.mode [] ≡ ok (edited_of s b)
    edited b k = composer_state-of_IsValid printable (edited_of s b) (edited-IsValid b k)

    edited_valid :
        (b : Text)
        → IsLine printable b
        → Returns (composer_state printable b (length b) s.history none s.mode [])
    edited_valid b k = (edited_of s b, edited b k, edited-IsValid b k)

    pub signal_valid :
        (t : HasAscii printable) (selection : Option ℕ) (status : Text)
        → Selects selection s.history
        → all (λ c. leb 32 c && leb c 126) status ≡ true
        → leb (length status) max_status ≡ true
        → Returns (signal printable s selection status)
    unfolding signal bound_printable
    signal_valid t selection status k ascii short =
        let fits : ltb max_status (length status) ≡ false = ground (arith, short) in
        rw (all-HasAscii printable status t ascii, fits)
          (constructed (record s { history_cursor = selection; status_line = status })
            (record {
              buffer = h.buffer;
              cursor = h.cursor;
              bounded = h.bounded;
              entries = h.entries;
              selected = k;
              mode = h.mode;
              status = (all-HasAscii printable status t ascii, short);
            }))

    pub recalled-IsValid :
        (i : ℕ) {entry : Text}
        → i < length s.history
        → get_elem? s.history i ≡ some entry
        → IsValid printable (recalled_of s i entry)
    recalled-IsValid i k e = record {
      buffer = All-get_elem? (IsLine printable) s.history i h.entries e;
      cursor = ground arith;
      bounded = h.bounded;
      entries = h.entries;
      selected = k;
      mode = h.mode;
      status = (refl, refl);
    }

    pub recalled :
        (i : ℕ) (entry : Text)
        → i < length s.history
        → get_elem? s.history i ≡ some entry
        → recall printable s i ≡ ok (recalled_of s i entry)
    unfolding recall
    recalled i entry k e =
        rw (e, recall)
          (composer_state-of_IsValid printable (recalled_of s i entry) (recalled-IsValid i k e))

    recall_valid : (i : ℕ) → i < length s.history → Returns (recall printable s i)
    recall_valid i k =
        let (entry, e) = get_elem?-total s.history i k in
        (recalled_of s i entry, recalled i entry k e, recalled-IsValid i k e)

    pub submitted-IsValid :
        (history : List Text)
        → length history ≤ 32
        → All (IsLine printable) history
        → IsValid printable (submitted_of s history)
    submitted-IsValid history k entries = record {
      buffer = (refl, refl);
      cursor = omega arith;
      bounded = k;
      entries = entries;
      selected = tt;
      mode = h.mode;
      status = (refl, refl);
    }

    as_submitted :
        (history : List Text)
        → length history ≤ 32
        → All (IsLine printable) history
        → Returns (composer_state printable [] 0 history none s.mode [])
    as_submitted history k entries =
        constructed (submitted_of s history) (submitted-IsValid history k entries)

    pub insert_valid :
        (t : HasAscii printable) (c : ℕ)
        → printable c ≡ true
        → Returns (apply_insert printable s (some (c ∷ [])))
    unfolding apply_insert
    insert_valid t c k = elim (Bool-cases (ltb max_buffer (length (s.buffer ++ c ∷ [])))) [
      | inl full ↦
          rw (k, full)
            (signal_valid t s.history_cursor (codes "composer buffer full (limit=240)") h.selected
              refl refl)
      | inr room ↦
          rw (k, room)
            (edited_valid (s.buffer ++ c ∷ []) (
              all-append printable s.buffer (c ∷ []) h.buffer.0 (ground (arith, k)),
              ground (arith, room),
            ))
    ]

    pub backspace_valid : Returns (apply_backspace printable s)
    unfolding apply_backspace
    backspace_valid = elim (Bool-cases (has_text s.buffer)) [
      | inl some_text ↦
          rw some_text (edited_valid (drop_last s.buffer) (drop_last-IsLine s.buffer h.buffer))
      | inr no_text ↦ rw no_text (
          constructed (record s { status_line = [] })
            (record {
              buffer = h.buffer;
              cursor = h.cursor;
              bounded = h.bounded;
              entries = h.entries;
              selected = h.selected;
              mode = h.mode;
              status = (refl, refl);
            }))
    ]

    pub ring_bounded : (entry : Text) → length (extend_history s.history entry) ≤ 32
    unfolding extend_history
    ring_bounded entry = ground (
      arith,
      h.bounded,
      length-append s.history (entry ∷ []),
      length-drop (length (s.history ++ entry ∷ []) - max_history) (s.history ++ entry ∷ []),
    )

    pub ring_entries :
        (entry : Text)
        → IsLine printable entry
        → All (IsLine printable) (extend_history s.history entry)
    unfolding extend_history
    ring_entries entry k =
        let more : All (IsLine printable) (s.history ++ entry ∷ []) =
          All-append (IsLine printable) s.history (entry ∷ []) h.entries (k, tt) in
        let fewer =
          All-drop (IsLine printable) (length (s.history ++ entry ∷ []) - max_history)
            (s.history ++ entry ∷ []) more in
        elim (Bool-cases (last_is entry s.history)) [
          | inl same ↦ rw same h.entries
          | inr other ↦ elim (Bool-cases (ltb max_history (length (s.history ++ entry ∷ [])))) [
            | inl over ↦ rw (other, over) fewer
            | inr room ↦ rw (other, room) more
          ]
        ]

    pub submit_valid :
        (t : HasAscii printable) (is_space : ℕ → Bool)
        → (r : Applied) × (apply_submit printable is_space s ≡ ok r) × IsValid printable (next_of r)
    unfolding apply_submit composer_submission
    submit_valid t is_space = elim (Bool-cases (has_text (strip is_space s.buffer))) [
      | inl given ↦
          let (next, e, valid) =
            as_submitted (extend_history s.history s.buffer) (ring_bounded s.buffer)
              (ring_entries s.buffer h.buffer) in
          rw (given, e, h.buffer.0, h.buffer.1)
            (submission (record { line = s.buffer; next_state = next }), refl, valid)
      | inr blank ↦
          let (kept, e, valid) =
            signal_valid t none (codes "empty composer submission") tt refl refl in
          rw (blank, e) (state kept, refl, valid)
    ]

    pub prev_valid : HasAscii printable → Returns (apply_prev printable s)
    unfolding apply_prev
    prev_valid t = elim (List-cases s.history) [
      | inl nothing ↦
          rw (nothing, apply_prev)
            (signal_valid t none (codes "composer history empty") tt refl refl)
      | inr (x, xs, e) ↦
          rw (e, apply_prev)
            (recall_valid (previous s.history_cursor (length s.history))
              (previous-lt s.history_cursor s.history h.selected (rw e (omega arith))))
    ]

    next_entry_valid :
        (selection : Option ℕ)
        → Selects selection s.history
        → Returns (next_entry printable s selection)
    unfolding next_entry
    next_entry_valid none k =
        constructed (record s { history_cursor = none; status_line = [] })
          (record {
            buffer = h.buffer;
            cursor = h.cursor;
            bounded = h.bounded;
            entries = h.entries;
            selected = tt;
            mode = h.mode;
            status = (refl, refl);
          })
    next_entry_valid (some i) k = elim (Bool-cases (leb (length s.history - 1) i)) [
      | inl newest ↦ rw newest (as_submitted s.history h.bounded h.entries)
      | inr older ↦ rw older (recall_valid (i + 1) (ground (arith, older)))
    ]

    pub next_valid : HasAscii printable → Returns (apply_next printable s)
    unfolding apply_next
    next_valid t = elim (List-cases s.history) [
      | inl nothing ↦
          rw (nothing, apply_next)
            (signal_valid t none (codes "composer history empty") tt refl refl)
      | inr (x, xs, e) ↦ rw (e, apply_next) (next_entry_valid s.history_cursor h.selected)
    ]

    pub clear_valid : Returns (apply_clear printable s)
    unfolding apply_clear
    clear_valid = as_submitted s.history h.bounded h.entries
