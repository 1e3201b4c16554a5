-- ===== src/Development/Features.antt =====
-- brain/development/text_stream.py: the feature vector of a chunk.
use toy_brain.Prelude.{
  ◌≡◌, Text, ℕ, Bool, length, ◌∷◌, if◌then◌else◌, any, ◌≤◌, ◌*◌, false, ◌+◌, ◌&&◌, ◌==◌, arith, [],
  not, true, ◌-◌, ◌||◌, all, ◌↔◌, ◌<◌, refl,
}
use toy_brain.Prelude.Outcome.{Result, ◌>>◌, require, i_strm_04, ok}
use toy_brain.Fraction.{Fraction, less, whole, ratio, eq_fraction}
use toy_brain.Development.Ids.{is_printable_id}
use toy_brain.Development.Stream.{TextStreamChunk, IsChunk}
use toy_brain.Kernel.Io.{has_text}

pub record StreamFeatureVector : Type 0 where
  pub chunk_id : Text
  pub text_length : ℕ
  pub printable_length : ℕ
  pub line_count : ℕ
  pub whitespace_run_count : ℕ
  pub distinct_char_count : ℕ
  pub repeat_ratio : Fraction

-- a loop that counts the characters that pass a test
unfoldable pub count_chars : (ℕ → Bool) → ℕ → Text → ℕ
count_chars test n [] = n
count_chars test n (ch ∷ text) = count_chars test (if test ch then n + 1 else n) text

-- the loop with `in_run`
unfoldable pub whitespace_runs : (ℕ → Bool) → Bool → ℕ → Text → ℕ
whitespace_runs is_space in_run n [] = n
whitespace_runs is_space in_run n (ch ∷ text) =
    whitespace_runs is_space (is_space ch) (if is_space ch && not in_run then n + 1 else n) text

unfoldable pub seen_char : ℕ → Text → Bool
seen_char ch distinct = any (λ d. d == ch) distinct

-- the loop of `distinct.add(ch)`
unfoldable pub distinct_chars : Text → Text → Text
unfolding seen_char
distinct_chars distinct [] = distinct
distinct_chars distinct (ch ∷ text) =
    distinct_chars (if seen_char ch distinct then distinct else ch ∷ distinct) text

unfoldable pub repeat_ratio_of : ℕ → ℕ → Fraction
repeat_ratio_of text_length distinct_char_count =
    if text_length == 0 then whole 0 else ratio (text_length - distinct_char_count) text_length

module _ (printable is_space : ℕ → Bool) where
  -- `StreamFeatureVector.__post_init__`
  unfoldable pub stream_feature_vector : StreamFeatureVector → Result StreamFeatureVector
  unfolding is_printable_id less
  stream_feature_vector v = do
    require (is_printable_id printable is_space v.chunk_id) i_strm_04
    require (not (less v.repeat_ratio (whole 0) || less (whole 1) v.repeat_ratio)) i_strm_04
    ok v

  abbrev pub features_of : TextStreamChunk → StreamFeatureVector
  features_of chunk = record {
    chunk_id = chunk.chunk_id;
    text_length = length chunk.text;
    printable_length = count_chars printable 0 chunk.text;
    line_count = count_chars (λ c. c == 10) 1 chunk.text;
    whitespace_run_count = whitespace_runs is_space false 0 chunk.text;
    distinct_char_count = length (distinct_chars [] chunk.text);
    repeat_ratio = repeat_ratio_of (length chunk.text) (length (distinct_chars [] chunk.text));
  }

  unfoldable pub extract_stream_features : TextStreamChunk → Result StreamFeatureVector
  unfolding stream_feature_vector count_chars whitespace_runs distinct_chars repeat_ratio_of
  extract_stream_features chunk = stream_feature_vector (features_of chunk)

count_chars-le : (p : ℕ → Bool) (n : ℕ) (s : Text) → count_chars p n s ≤ n + length s
unfolding count_chars
count_chars-le p n [] = omega arith
count_chars-le p n (c ∷ s) = ground (arith, count_chars-le p (if p c then n + 1 else n) s)

le-count_chars : (p : ℕ → Bool) (n : ℕ) (s : Text) → n ≤ count_chars p n s
unfolding count_chars
le-count_chars p n [] = omega arith
le-count_chars p n (c ∷ s) = ground (arith, le-count_chars p (if p c then n + 1 else n) s)

-- Two runs are apart.
whitespace_runs-le :
    (is_space : ℕ → Bool) (n : ℕ) (s : Text)
    → (2 * whitespace_runs is_space false n s ≤ 2 * n + length s + 1)
      × (2 * whitespace_runs is_space true n s ≤ 2 * n + length s)
unfolding whitespace_runs
whitespace_runs-le is_space n [] = ground arith
whitespace_runs-le is_space n (c ∷ s) =
    ground (arith, whitespace_runs-le is_space n s, whitespace_runs-le is_space (n + 1) s)

length-distinct_chars :
    (seen s : Text)
    → (length seen ≤ length (distinct_chars seen s))
      × (length (distinct_chars seen s) ≤ length seen + length s)
unfolding distinct_chars
length-distinct_chars seen [] = ground arith
length-distinct_chars seen (c ∷ s) =
    ground (arith, length-distinct_chars seen s, length-distinct_chars (c ∷ seen) s)

-- No character stands twice in the text.
abbrev pub AllDistinct : Text → Type 0
AllDistinct [] = Unit
AllDistinct (c ∷ s) = (seen_char c s ≡ false) × AllDistinct s

-- Nor is any of them among those seen.
abbrev IsFresh : Text → Text → Type 0
IsFresh seen s = AllDistinct s × (all (λ c. not (seen_char c seen)) s ≡ true)

fresh-cons :
    (c : ℕ) (seen s : Text)
    → (all (λ d. not (seen_char d (c ∷ seen))) s ≡ true)
      ↔ ((seen_char c s ≡ false) × (all (λ d. not (seen_char d seen)) s ≡ true))
unfolding seen_char
fresh-cons c seen [] = ground arith
fresh-cons c seen (d ∷ s) = ground (arith, fresh-cons c seen s)

length-distinct_chars-eq :
    (seen s : Text) → (length (distinct_chars seen s) ≡ length seen + length s) ↔ IsFresh seen s
unfolding distinct_chars
length-distinct_chars-eq seen [] = ground arith
length-distinct_chars-eq seen (c ∷ s) = ground (
  arith,
  length-distinct_chars-eq (c ∷ seen) s,
  length-distinct_chars seen s,
  fresh-cons c seen s,
)

fresh-nil : (s : Text) → all (λ c. not (seen_char c [])) s ≡ true
unfolding seen_char
fresh-nil [] = refl
fresh-nil (c ∷ s) = fresh-nil s

distinct_chars_iff : (s : Text) → (length (distinct_chars [] s) ≡ length s) ↔ AllDistinct s
distinct_chars_iff s = ground (arith, length-distinct_chars-eq [] s, fresh-nil s)

distinct_chars-pos : (s : Text) → has_text s ≡ true → 0 < length (distinct_chars [] s)
unfolding distinct_chars seen_char
distinct_chars-pos [] h = ground arith
distinct_chars-pos (c ∷ s) h = omega (arith, length-distinct_chars (c ∷ []) s)

module _ (printable is_space : ℕ → Bool) where
  pub record HasBounds (v : StreamFeatureVector) : Type 0 where
    pub printable_le : v.printable_length ≤ v.text_length
    pub lines_pos : 1 ≤ v.line_count
    pub lines_le : v.line_count ≤ v.text_length + 1
    pub runs_le : 2 * v.whitespace_run_count ≤ v.text_length + 1
    pub distinct_pos : 1 ≤ v.distinct_char_count
    pub distinct_le : v.distinct_char_count ≤ v.text_length

  features-HasBounds :
      (c : TextStreamChunk) → has_text c.text ≡ true → HasBounds (features_of printable is_space c)
  features-HasBounds c h = record {
    printable_le = omega (arith, count_chars-le printable 0 c.text);
    lines_pos = le-count_chars (λ d. d == 10) 1 c.text;
    lines_le = omega (arith, count_chars-le (λ d. d == 10) 1 c.text);
    runs_le = omega (arith, whitespace_runs-le is_space 0 c.text);
    distinct_pos = distinct_chars-pos c.text h;
    distinct_le = omega (arith, length-distinct_chars [] c.text);
  }

  repeat-InUnit :
      (n d : ℕ)
      → (less (repeat_ratio_of n d) (whole 0) ≡ false)
        × (less (whole 1) (repeat_ratio_of n d) ≡ false)
  unfolding repeat_ratio_of less
  repeat-InUnit n d = ground arith

  repeat-zero_iff :
      (n d : ℕ) → d ≤ n → (eq_fraction (repeat_ratio_of n d) (whole 0) ≡ true) ↔ (d ≡ n)
  unfolding repeat_ratio_of eq_fraction
  repeat-zero_iff n d h = ground arith

  -- The features of an accepted chunk are returned, within the bounds of its length: no more
  -- printable characters than characters, between one line and one more than characters, a run of
  -- white space for two characters and one more at most, and between one and all characters
  -- distinct. The repeat ratio is zero exactly when no character stands twice.
  pub extract_stream_features_returns :
      (c : TextStreamChunk)
      → IsChunk printable is_space c
      → (extract_stream_features printable is_space c ≡ ok (features_of printable is_space c))
        × HasBounds (features_of printable is_space c)
        × ((eq_fraction (features_of printable is_space c).repeat_ratio (whole 0) ≡ true)
            ↔ AllDistinct c.text)
  unfolding extract_stream_features stream_feature_vector
  extract_stream_features_returns c h =
      let n = length c.text in
      let d = length (distinct_chars [] c.text) in
      let inside = repeat-InUnit n d in
      let bounds = features-HasBounds c h.text_given in
      let zero_iff = repeat-zero_iff n d bounds.distinct_le in
      let once = distinct_chars_iff c.text in
      (
        rw (h.id_given, inside.0, inside.1),
        bounds,
        (λ e. once.0 (zero_iff.0 e), λ a. zero_iff.1 (once.1 a)),
      )
