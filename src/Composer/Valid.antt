-- ===== src/Composer/Valid.antt =====
-- brain/ui/composer.py: the bounds of a `ComposerState`, stated apart from the tests of its
-- constructor.
use toy_brain.Prelude.{
  codes, eq_text_iff, ℕ, ◌≡◌, refl, ◌↔◌, ◌⊎◌, inl, Bool, true, ◌&&◌, List, [], ◌∷◌, arith, Option,
  none, some, ◌<◌, ◌≤◌, Text, leb, length, all, All,
}
use toy_brain.Prelude.Outcome.{ok, raise, history_entry}
use toy_brain.Composer.{ComposerState, check_history, composer_state, mode_local_cmd, in_history}

-- The selection, if there is one, is the position of an entry.
abbrev pub Selects : Option ℕ → List Text → Type 0
Selects none history = Unit
Selects (some i) history = i < length history

in_history-of_Selects :
    (selection : Option ℕ) (history : List Text)
    → Selects selection history
    → in_history selection (length history) ≡ true
in_history-of_Selects none history h = refl
in_history-of_Selects (some i) history h = ground (arith, h)

Selects-of_in_history :
    (selection : Option ℕ) (history : List Text)
    → in_history selection (length history) ≡ true
    → Selects selection history
Selects-of_in_history none history h = tt
Selects-of_in_history (some i) history h = ground (arith, h)

leb-of_le : (a b : ℕ) → a ≤ b → leb a b ≡ true
leb-of_le a b h = ground (arith, h)

module _ (printable : ℕ → Bool) where
  abbrev pub IsLine : Text → Type 0
  IsLine s = (all printable s ≡ true) × (leb (length s) 240 ≡ true)

  pub record IsValid (s : ComposerState) : Type 0 where
    pub buffer : IsLine s.buffer
    pub cursor : s.cursor ≤ length s.buffer
    pub bounded : length s.history ≤ 32
    pub entries : All IsLine s.history
    pub selected : Selects s.history_cursor s.history
    pub mode : s.mode ≡ codes "local-cmd"
    pub status : (all printable s.status_line ≡ true) × (leb (length s.status_line) 240 ≡ true)

  check_history-All :
      (history : List Text) → (check_history printable history ≡ ok tt) ↔ All IsLine history
  unfolding check_history
  check_history-All [] = (λ h. tt, λ h. refl)
  check_history-All (x ∷ rest) = ground (arith, check_history-All rest)

  pub composer_state-of_IsValid :
      (s : ComposerState)
      → IsValid s
      → composer_state printable s.buffer s.cursor s.history s.history_cursor s.mode s.status_line
        ≡ ok s
  unfolding composer_state
  composer_state-of_IsValid s h = rw (
    h.buffer.0,
    h.buffer.1,
    leb-of_le s.cursor (length s.buffer) h.cursor,
    leb-of_le (length s.history) 32 h.bounded,
    (check_history-All s.history).1 h.entries,
    in_history-of_Selects s.history_cursor s.history h.selected,
    (eq_text_iff s.mode mode_local_cmd).1 h.mode,
    h.status.0,
    h.status.1,
  )

-- The table calls the printable ASCII characters and the ellipsis printable.
pub record HasAscii (printable : ℕ → Bool) : Type 0 where
  pub ascii : (c : ℕ) → (leb 32 c && leb c 126) ≡ true → printable c ≡ true
  pub ellipsis : printable 8230 ≡ true

pub all-HasAscii :
    (printable : ℕ → Bool) (s : Text)
    → HasAscii printable
    → all (λ c. leb 32 c && leb c 126) s ≡ true
    → all printable s ≡ true
all-HasAscii printable [] t h = refl
all-HasAscii printable (c ∷ s) t h = ground (arith, t.ascii c, all-HasAscii printable s t)

check_history-ok :
    (printable : ℕ → Bool) (history : List Text)
    → ((check_history printable history) ≡ ok tt)
      ⊎ (check_history printable history ≡ raise history_entry)
unfolding check_history
check_history-ok printable [] = inl refl
check_history-ok printable (x ∷ rest) = ground (arith, check_history-ok printable rest)

-- The constructor of `ComposerState` returns a state exactly when it is the one with the given
-- fields and these are within the bounds: buffer, entries and status line are printable and have at
-- most 240 characters, the cursor is at most the buffer's length, the history has at most 32
-- entries, the selection, if there is one, is an index of it, and the mode is "local-cmd".
pub composer_state_iff :
    (printable : ℕ → Bool) (s s' : ComposerState)
    → (composer_state printable s.buffer s.cursor s.history s.history_cursor s.mode s.status_line
        ≡ ok s')
      ↔ ((s ≡ s') × IsValid printable s)
unfolding composer_state
composer_state_iff printable s s' = (
  λ h.
      let entries = (check_history-All printable s.history).0 in
      let selected = Selects-of_in_history s.history_cursor s.history in
      let mode = (eq_text_iff s.mode mode_local_cmd).0 in
      ground (arith, h, check_history-ok printable s.history, entries, selected, mode),
  λ (e, h). ground (arith, e, composer_state-of_IsValid printable s h),
)
