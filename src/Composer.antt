-- ===== src/Composer.antt =====
-- brain/ui/composer.py: the edit model of the operator's command line. Unicode's tables behind
-- `str.isprintable` and `str.strip` are parameters. A cursor is a natural number, so the source's
-- tests for a negative one have no counterpart; the test for an empty mode is part of that for a
-- wrong one.
pub mod Valid
pub mod Handlers
pub mod Keys
pub mod Recall
use toy_brain.Prelude.{
  ℕ, zero, suc, ◌+◌, ◌-◌, ◌≡◌, refl, Bool, true, false, ◌&&◌, not, Option, none, some, List, [],
  ◌∷◌, ◌++◌, arith, Text, codes, if◌then◌else◌, ltb, leb, ◌==◌, eq_text, length, get_elem?, take,
  drop, all,
}
use toy_brain.Prelude.Outcome.{
  Result, ok, raise, ◌>>=◌, ◌>>◌, require, index_error, char_missing, char_length, char_unprintable,
  text_unprintable, buffer_unprintable, buffer_bound, cursor_range, history_bound, history_entry,
  history_cursor_range, mode_unknown, status_unprintable, status_bound, line_unprintable,
  line_bound,
}
use toy_brain.Kernel.Io.{has_text}
use toy_brain.Llm.Parse.{strip}

-- the bounds, and the one mode
abbrev pub max_buffer : ℕ
max_buffer = 240

abbrev pub max_history : ℕ
max_history = 32

abbrev pub max_status : ℕ
max_status = 240

abbrev pub mode_local_cmd : Text
mode_local_cmd = codes "local-cmd"

pub data ComposerAction : Type 0 where
  insert_char backspace submit clear_buffer history_prev history_next : ComposerAction

pub record ComposerState : Type 0 where
  pub buffer : Text
  pub cursor : ℕ
  pub history : List Text
  pub history_cursor : Option ℕ
  pub mode : Text
  pub status_line : Text

pub record ComposerSubmission : Type 0 where
  pub line : Text
  pub next_state : ComposerState

-- `ComposerState | ComposerSubmission`
pub data Applied : Type 0 where
  state : ComposerState → Applied
  submission : ComposerSubmission → Applied

-- `history_cursor is None or 0 <= history_cursor < len(history)`
abbrev pub in_history : Option ℕ → ℕ → Bool
in_history none n = true
in_history (some i) n = ltb i n

-- `history and history[-1] == entry`
unfoldable pub last_is : Text → List Text → Bool
last_is entry [] = false
last_is entry (x ∷ []) = eq_text x entry
last_is entry (x ∷ y ∷ xs) = last_is entry (y ∷ xs)

unfoldable pub extend_history : List Text → Text → List Text
unfolding last_is
extend_history history entry =
    if last_is entry history
    then history
    else let new = history ++ entry ∷ [] in
      if ltb max_history (length new) then drop (length new - max_history) new else new

-- `s[:-1]`
unfoldable pub drop_last : Text → Text
drop_last [] = []
drop_last (c ∷ []) = []
drop_last (c ∷ d ∷ s) = c ∷ drop_last (d ∷ s)

-- the entry before the selected one; without a selection, the newest
abbrev previous : Option ℕ → ℕ → ℕ
previous none n = n - 1
previous (some zero) n = 0
previous (some (suc i)) n = i

module _ (printable : ℕ → Bool) where
  -- the loop over `self.history`
  unfoldable pub check_history : List Text → Result (Unit {0})
  check_history [] = ok tt
  check_history (entry ∷ rest) =
      let others = check_history rest in
      if all printable entry && leb (length entry) max_buffer then others else raise history_entry

  unfoldable pub composer_state :
      Text → ℕ → List Text → Option ℕ → Text → Text → Result ComposerState
  unfolding check_history
  composer_state buffer cursor history history_cursor mode status_line = do
    require (all printable buffer) buffer_unprintable
    require (leb (length buffer) max_buffer) buffer_bound
    require (leb cursor (length buffer)) cursor_range
    require (leb (length history) max_history) history_bound
    check_history history
    require (in_history history_cursor (length history)) history_cursor_range
    require (eq_text mode mode_local_cmd) mode_unknown
    require (all printable status_line) status_unprintable
    require (leb (length status_line) max_status) status_bound
    ok (record {
      buffer = buffer;
      cursor = cursor;
      history = history;
      history_cursor = history_cursor;
      mode = mode;
      status_line = status_line;
    })

  unfoldable pub bound_printable : Text → ℕ → Result Text
  bound_printable value limit =
      if all printable value
      then ok (if ltb limit (length value) then take (limit - 1) value ++ codes "…" else value)
      else raise text_unprintable

  -- the state with another status line, after `_bound_printable`
  unfoldable pub signal : ComposerState → Option ℕ → Text → Result ComposerState
  unfolding bound_printable composer_state
  signal s history_cursor status = do
    bounded ← bound_printable status max_status
    composer_state s.buffer s.cursor s.history history_cursor s.mode bounded

  unfoldable pub with_status : ComposerState → Text → Result ComposerState
  unfolding signal
  with_status s status = signal s s.history_cursor status

  unfoldable pub composer_submission : Text → ComposerState → Result ComposerSubmission
  composer_submission line next_state = do
    require (all printable line) line_unprintable
    require (leb (length line) max_buffer) line_bound
    ok (record { line = line; next_state = next_state })

  unfoldable pub apply_insert : ComposerState → Option Text → Result ComposerState
  unfolding signal composer_state
  apply_insert s none = raise char_missing
  apply_insert s (some char) = do
    require (length char == 1) char_length
    require (all printable char) char_unprintable
    let new_buffer = s.buffer ++ char
    if ltb max_buffer (length new_buffer)
        then signal s s.history_cursor (codes "composer buffer full (limit=240)")
        else composer_state new_buffer (length new_buffer) s.history none s.mode []

  unfoldable pub apply_backspace : ComposerState → Result ComposerState
  unfolding composer_state drop_last
  apply_backspace s =
      let new_buffer = drop_last s.buffer in
      if has_text s.buffer
      then composer_state new_buffer (length new_buffer) s.history none s.mode []
      else composer_state s.buffer s.cursor s.history s.history_cursor s.mode []

  unfoldable pub apply_submit : (ℕ → Bool) → ComposerState → Result Applied
  unfolding strip signal composer_state composer_submission extend_history
  apply_submit is_space s =
      if has_text (strip is_space s.buffer)
      then (do
        next ← composer_state [] 0 (extend_history s.history s.buffer) none s.mode []
        sent ← composer_submission s.buffer next
        ok (submission sent))
      else (do kept ← signal s none (codes "empty composer submission"); ok (state kept))

  unfoldable pub apply_clear : ComposerState → Result ComposerState
  unfolding composer_state
  apply_clear s = composer_state [] 0 s.history none s.mode []

  -- the state that shows an entry of the history
  unfoldable pub recall : ComposerState → ℕ → Result ComposerState
  unfolding composer_state
  recall s i = elim (get_elem? s.history i) [
    | none ↦ raise index_error
    | some recalled ↦ composer_state recalled (length recalled) s.history (some i) s.mode []
  ]

  unfoldable pub apply_prev : ComposerState → Result ComposerState
  unfolding signal recall
  apply_prev s = elim s.history [
    | [] ↦ signal s none (codes "composer history empty")
    | _ ∷ _ ↦ recall s (previous s.history_cursor (length s.history))
  ]

  next_entry : ComposerState → Option ℕ → Result ComposerState
  unfolding composer_state recall
  next_entry s none = composer_state s.buffer s.cursor s.history none s.mode []
  next_entry s (some i) =
      if leb (length s.history - 1) i
      then composer_state [] 0 s.history none s.mode []
      else recall s (i + 1)

  unfoldable pub apply_next : ComposerState → Result ComposerState
  unfolding signal next_entry
  apply_next s = elim s.history [
    | [] ↦ signal s none (codes "composer history empty")
    | _ ∷ _ ↦ next_entry s s.history_cursor
  ]

  abbrev as_state : Result ComposerState → Result Applied
  as_state r = r >>= λ s. ok (state s)

  -- `BottomComposer.apply(state, action, char=char)`
  unfoldable pub apply : (ℕ → Bool) → ComposerState → ComposerAction → Option Text → Result Applied
  unfolding apply_insert apply_backspace apply_submit apply_clear apply_prev apply_next
  apply is_space s insert_char char = as_state (apply_insert s char)
  apply is_space s backspace char = as_state (apply_backspace s)
  apply is_space s submit char = apply_submit is_space s
  apply is_space s clear_buffer char = as_state (apply_clear s)
  apply is_space s history_prev char = as_state (apply_prev s)
  apply is_space s history_next char = as_state (apply_next s)

-- `ComposerState.empty()`
abbrev pub empty_state : ComposerState
empty_state = record {
  buffer = [];
  cursor = 0;
  history = [];
  history_cursor = none;
  mode = mode_local_cmd;
  status_line = [];
}
