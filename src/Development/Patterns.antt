-- ===== src/Development/Patterns.antt =====
-- brain/development/text_stream.py: recurring patterns and the candidates for promotion.
use toy_brain.Prelude.{
  ◌≡◌, ℕ, Text, List, Bool, Option, if◌then◌else◌, ltb, true, ◌≤◌, ◌∷◌, some, leb, length, arith,
  ◌&&◌, all, not, none, eq_text, [],
}
use toy_brain.Prelude.Outcome.{Result, ◌>>◌, ok, require, i_strm_06, i_strm_07}
use toy_brain.Development.Stream.{TextStreamSource}
use toy_brain.Development.Ids.{
  is_printable_id, text_is_acceptable, require_bounded_printable, stream_provenance_max_len,
  stream_text_max_len,
}
use toy_brain.Tlica.Profile.{cogito_id}
use Prim.Native.Nat.{min}
use toy_brain.Kernel.Io.{has_text}

abbrev pub stream_pattern_recurrence_min : ℕ
stream_pattern_recurrence_min = 2

abbrev pub stream_pattern_recurrence_max : ℕ
stream_pattern_recurrence_max = 256

abbrev pub stream_pattern_sig_max : ℕ
stream_pattern_sig_max = 16

pub record StreamPattern : Type 0 where
  pub pattern_id : Text
  pub signature : List Text
  pub recurrence_count : ℕ

pub record StreamPromotionCandidate : Type 0 where
  pub candidate_id : Text
  pub target_content_id : Text
  pub source : TextStreamSource
  pub chunk_id : Text
  pub text : Text
  pub provenance : Text
  pub pattern_id : Option Text

module _ (printable is_space : ℕ → Bool) where
  -- the loop over `self.signature`
  unfoldable pub check_pattern_signature : List Text → Result (Unit {0})
  check_pattern_signature [] = ok tt
  check_pattern_signature (item ∷ rest) = do
    require (has_text item && all printable item) i_strm_06
    require (leb (length item) stream_provenance_max_len) i_strm_06
    check_pattern_signature rest

  -- `StreamPattern.__post_init__`
  unfoldable pub stream_pattern : Text → List Text → ℕ → Result StreamPattern
  unfolding is_printable_id check_pattern_signature cogito_id
  stream_pattern pattern_id signature recurrence_count = do
    require (is_printable_id printable is_space pattern_id) i_strm_06
    require (leb (length pattern_id) stream_provenance_max_len) i_strm_06
    require (not (eq_text pattern_id cogito_id)) i_strm_06
    require (ltb 0 (length signature)) i_strm_06
    require (leb (length signature) stream_pattern_sig_max) i_strm_06
    check_pattern_signature signature
    require (leb stream_pattern_recurrence_min recurrence_count) i_strm_06
    require (leb recurrence_count stream_pattern_recurrence_max) i_strm_06
    ok (record {
      pattern_id = pattern_id;
      signature = signature;
      recurrence_count = recurrence_count;
    })

  unfoldable pub make_stream_pattern : Text → List Text → ℕ → Result StreamPattern
  unfolding stream_pattern
  make_stream_pattern pattern_id signature recurrence_count = stream_pattern pattern_id signature (
      if ltb stream_pattern_recurrence_max recurrence_count
      then stream_pattern_recurrence_max
      else recurrence_count)

  -- the test of `pattern_id`, which may be `None`
  unfoldable pub check_pattern_id : Option Text → Result (Unit {0})
  unfolding is_printable_id
  check_pattern_id none = ok tt
  check_pattern_id (some pattern_id) = do
    require (is_printable_id printable is_space pattern_id) i_strm_07
    require (leb (length pattern_id) stream_provenance_max_len) i_strm_07

  -- `StreamPromotionCandidate.__post_init__`
  unfoldable pub stream_promotion_candidate :
      StreamPromotionCandidate → Result StreamPromotionCandidate
  unfolding is_printable_id text_is_acceptable require_bounded_printable cogito_id check_pattern_id
  stream_promotion_candidate s = do
    require (is_printable_id printable is_space s.candidate_id) i_strm_07
    require (leb (length s.candidate_id) stream_provenance_max_len) i_strm_07
    require (is_printable_id printable is_space s.target_content_id) i_strm_07
    require (not (eq_text s.target_content_id cogito_id)) i_strm_07
    require (leb (length s.target_content_id) stream_provenance_max_len) i_strm_07
    require (is_printable_id printable is_space s.chunk_id) i_strm_07
    require (has_text s.text) i_strm_07
    require (leb (length s.text) stream_text_max_len) i_strm_07
    require (text_is_acceptable printable s.text) i_strm_07
    require (not (eq_text s.text cogito_id)) i_strm_07
    require_bounded_printable printable s.provenance stream_provenance_max_len i_strm_07
    check_pattern_id s.pattern_id
    ok s

  -- What the constructor lets through, of the candidate's own identifier.
  pub candidate_id-valid :
      (s : StreamPromotionCandidate) {r : StreamPromotionCandidate}
      → stream_promotion_candidate s ≡ ok r
      → (r ≡ s)
        × (is_printable_id printable is_space s.candidate_id ≡ true)
        × (leb (length s.candidate_id) stream_provenance_max_len ≡ true)
  unfolding stream_promotion_candidate
  candidate_id-valid s h = ground arith

  -- A count is saturated at the maximum, never refused for being too large.
  pub make_stream_pattern_saturates :
      (pattern_id : Text) (signature : List Text) (n : ℕ) {p : StreamPattern}
      → stream_pattern pattern_id signature stream_pattern_recurrence_min ≡ ok p
      → stream_pattern_recurrence_min ≤ n
      → make_stream_pattern pattern_id signature n
        ≡ ok (record p { recurrence_count = min n stream_pattern_recurrence_max })
  unfolding make_stream_pattern stream_pattern
  make_stream_pattern_saturates pattern_id signature n h k = ground arith
