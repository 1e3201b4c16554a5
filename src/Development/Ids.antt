-- ===== src/Development/Ids.antt =====
-- brain/development/history.py and brain/development/text_stream.py: the tests of identifiers and
-- texts. `printable` and `is_space` are Unicode's tables behind `str.isprintable` and `str.strip`;
-- the reserved sentinel of the stream is the cogito's identifier. Python's test for a negative
-- integer has no counterpart.
use toy_brain.Prelude.Outcome.{Result, Error, ok, ◌>>◌, require}
use toy_brain.Prelude.{
  ℕ, Bool, ◌==◌, Text, ◌||◌, all, ◌&&◌, ◌≡◌, true, leb, ◌↔◌, length, arith, eq_text, false, not,
  ◌∷◌, [], refl,
}
use toy_brain.Llm.Parse.{strip, lstrip, rstrip, prepend_kept}
use toy_brain.Tlica.Profile.{cogito_id}
use toy_brain.Kernel.Io.{has_text}

abbrev pub stream_text_max_len : ℕ
stream_text_max_len = 1024

abbrev pub stream_provenance_max_len : ℕ
stream_provenance_max_len = 64

-- `_ALLOWED_TEXT_WHITESPACE`
abbrev pub allowed_text_whitespace : ℕ → Bool
allowed_text_whitespace c = c == 10 || c == 9

module _ (printable is_space : ℕ → Bool) where
  -- `require_printable_id` returns
  unfoldable pub is_printable_id : Text → Bool
  unfolding strip
  is_printable_id value = has_text value && (has_text (strip is_space value) && all printable value)

module _ (printable : ℕ → Bool) where
  -- `_text_is_acceptable`
  unfoldable pub text_is_acceptable : Text → Bool
  text_is_acceptable text = all (λ c. allowed_text_whitespace c || printable c) text

  -- `_require_bounded_printable`, and the ledger's `_require_bounded_printable_id`, which is the same
  unfoldable pub require_bounded_printable : Text → ℕ → Error → Result (Unit {0})
  unfolding cogito_id
  require_bounded_printable value max_len row_id = do
    require (has_text value) row_id
    require (all printable value) row_id
    require (leb (length value) max_len) row_id
    require (not (eq_text value cogito_id)) row_id

  -- what it lets through
  abbrev pub IsBounded : ℕ → Text → Type 0
  IsBounded max_len value =
      (has_text value ≡ true)
      × (all printable value ≡ true)
      × (leb (length value) max_len ≡ true)
      × (eq_text value cogito_id ≡ false)

  pub require_bounded_printable_iff :
      (value : Text) (max_len : ℕ) (row_id : Error)
      → (require_bounded_printable value max_len row_id ≡ ok tt) ↔ IsBounded max_len value
  unfolding require_bounded_printable
  require_bounded_printable_iff value max_len row_id = ground arith

-- The printable ASCII characters are printable, and all but the space are no spaces.
pub record IsTable (printable is_space : ℕ → Bool) : Type 0 where
  pub ascii : (c : ℕ) → (leb 32 c && leb c 126) ≡ true → printable c ≡ true
  pub visible : (c : ℕ) → (leb 33 c && leb c 126) ≡ true → is_space c ≡ false

abbrev pub is_ascii : ℕ → Bool
is_ascii c = leb 32 c && leb c 126

prepend_kept-has_text :
    (drops : ℕ → Bool) (c : ℕ) (s : Text)
    → drops c ≡ false
    → has_text (prepend_kept drops c s) ≡ true
prepend_kept-has_text drops c [] h = rw h
prepend_kept-has_text drops c (d ∷ s) h = refl

module _ {printable is_space : ℕ → Bool} (t : IsTable printable is_space) where
  pub all-ascii : (s : Text) → all is_ascii s ≡ true → all printable s ≡ true
  all-ascii [] h = refl
  all-ascii (c ∷ s) h = ground (arith, t.ascii c, all-ascii s)

  -- A text that begins with a visible character is not blank.
  pub strip-visible :
      (c : ℕ) (s : Text) → (leb 33 c && leb c 126) ≡ true → has_text (strip is_space (c ∷ s)) ≡ true
  unfolding strip
  strip-visible c s h =
      rw (t.visible c h, lstrip, rstrip)
        (prepend_kept-has_text is_space c (rstrip is_space s) (t.visible c h))

pub printable_of_id :
    (printable is_space : ℕ → Bool) (s : Text)
    → is_printable_id printable is_space s ≡ true
    → all printable s ≡ true
unfolding is_printable_id
printable_of_id printable is_space s h = ground arith
