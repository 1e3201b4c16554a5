-- ===== src/Examples/Composing.antt =====
-- Runs of the composer of the operator's command line.
use toy_brain.Prelude.{
  refl, Option, none, some, List, [], ◌∷◌, arith, Text, codes, leb, eq_text, ℕ, ◌==◌, Bool, ◌≡◌,
  true, ◌↔◌, length, ◌-◌,
}
use toy_brain.Composer.{
  ComposerState, ComposerAction, insert_char, backspace, submit, history_prev, empty_state, apply,
  extend_history, composer_state, state, submission,
}
use toy_brain.Composer.Valid.{IsValid, HasAscii, composer_state_iff}
use toy_brain.Composer.Keys.{run, run_valid}
use toy_brain.Composer.Handlers.{Returns, edited_of, submitted_of, recalled_of}
use toy_brain.Llm.Parse.{strip}
use toy_brain.Kernel.Io.{has_text}
use toy_brain.Prelude.Outcome.{ok}
use toy_brain.Composer.Recall.{backspace-insert, prev-submit}

-- ASCII from the space on is printable, as is all beyond it.
abbrev table : ℕ → Bool
table c = leb 32 c

table-HasAscii : HasAscii table
table-HasAscii = record { ascii = λ c h. ground arith; ellipsis = refl }

abbrev drafted : ComposerState
drafted = record empty_state { buffer = codes "/step"; cursor = 5; history = codes "/help" ∷ [] }

drafted-IsValid : IsValid table drafted
unfolding eq_text
drafted-IsValid = record {
  buffer = (refl, refl);
  cursor = omega arith;
  bounded = omega arith;
  entries = ((refl, refl), tt);
  selected = tt;
  mode = refl;
  status = (refl, refl);
}

abbrev presses : List (ComposerAction × Option Text)
presses =
    (insert_char, some (codes "s")) ∷ (backspace, none) ∷ (submit, none) ∷ (history_prev, none) ∷ []

run_valid_example : Returns table (run table (λ c. c == 32) drafted presses)
run_valid_example =
    run_valid table (λ c. c == 32) drafted presses table-HasAscii drafted-IsValid
      (refl, (refl, (refl, (refl, tt))))

backspace-insert_example :
    (apply table (λ c. c == 32) drafted insert_char (some (codes "s"))
      ≡ ok (state (edited_of drafted (codes "/steps"))))
    × (apply table (λ c. c == 32) (edited_of drafted (codes "/steps")) backspace none
        ≡ ok (state (edited_of drafted (codes "/step"))))
backspace-insert_example =
    backspace-insert table drafted drafted-IsValid (λ c. c == 32) b's' none refl (omega arith)

abbrev ring_after : List Text
ring_after = extend_history drafted.history drafted.buffer

step_is_text : has_text (strip (λ c. c == 32) drafted.buffer) ≡ true
unfolding strip
step_is_text = refl

prev-submit_example :
    (apply table (λ c. c == 32) drafted submit none
      ≡ ok (
          submission
            (record { line = drafted.buffer; next_state = submitted_of drafted ring_after })))
    × (apply table (λ c. c == 32) (submitted_of drafted ring_after) history_prev none
        ≡ ok (
            state (
              recalled_of
                (submitted_of drafted ring_after)
                (length ring_after - 1)
                drafted.buffer)))
prev-submit_example =
    prev-submit table drafted drafted-IsValid (λ c. c == 32) none none step_is_text

composer_state_iff_example :
    (composer_state table drafted.buffer drafted.cursor drafted.history drafted.history_cursor
        drafted.mode drafted.status_line
      ≡ ok drafted)
    ↔ ((drafted ≡ drafted) × IsValid table drafted)
composer_state_iff_example = composer_state_iff table drafted drafted
