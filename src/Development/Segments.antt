-- ===== src/Development/Segments.antt =====
-- brain/development/text_stream.py: the line segments of a chunk.
pub mod Cover
pub mod Loop
pub mod Lines
use toy_brain.Prelude.{
  refl, ◌≡◌, ℕ, List, Text, codes, Bool, ◌∷◌, ◌++◌, [], length, ◌==◌, if◌then◌else◌, ltb, leb,
  false, ◌+◌, true,
}
use toy_brain.Prelude.Outcome.{Result, ◌>>=◌, ◌>>◌, ok, require, i_strm_05}
use toy_brain.Prelude.Decimal.{decimal}
use toy_brain.Development.Ids.{is_printable_id, stream_provenance_max_len}
use toy_brain.Development.Stream.{TextStreamChunk}
use toy_brain.Prelude.FrozenSet.{contains}

abbrev pub stream_segments_max : ℕ
stream_segments_max = 32

-- `ALLOWED_SEGMENT_KINDS`
abbrev pub allowed_segment_kinds : List Text
allowed_segment_kinds = codes "line" ∷ codes "delimited_span" ∷ codes "whitespace_run" ∷ []

pub record SegmentCandidate : Type 0 where
  pub candidate_id : Text
  pub chunk_id : Text
  pub start : ℕ
  pub end : ℕ
  pub segment_kind : Text

-- `f"seg:{chunk_id}:{n}"`
unfoldable pub segment_id : Text → ℕ → Text
unfolding decimal
segment_id chunk_id n = codes "seg:" ++ (chunk_id ++ (codes ":" ++ decimal n))

module _ (printable is_space : ℕ → Bool) where
  -- `SegmentCandidate.__post_init__`
  unfoldable pub segment_candidate : SegmentCandidate → Result SegmentCandidate
  unfolding is_printable_id contains
  segment_candidate s = do
    require (is_printable_id printable is_space s.candidate_id) i_strm_05
    require (leb (length s.candidate_id) stream_provenance_max_len) i_strm_05
    require (is_printable_id printable is_space s.chunk_id) i_strm_05
    require (leb s.start s.end) i_strm_05
    require (contains s.segment_kind allowed_segment_kinds) i_strm_05
    ok s

  -- the `line` segment from `start` to `end` that is appended to `out`
  unfoldable pub add_segment :
      TextStreamChunk → List SegmentCandidate → ℕ → ℕ → Result (List SegmentCandidate)
  unfolding segment_candidate segment_id
  add_segment chunk out start end = do
    segment ← segment_candidate (record {
      candidate_id = segment_id chunk.chunk_id (length out);
      chunk_id = chunk.chunk_id;
      start = start;
      end = end;
      segment_kind = codes "line";
    })
    ok (out ++ segment ∷ [])

  -- the loop over the text, and `out` with `cursor` after it
  unfoldable pub segment_loop :
      TextStreamChunk → List SegmentCandidate → ℕ → ℕ → Text → Result (List SegmentCandidate × ℕ)
  unfolding add_segment
  segment_loop chunk out cursor index [] = ok (out, cursor)
  segment_loop chunk out cursor index (ch ∷ text) = elim (ch == 10) [
    | false ↦ segment_loop chunk out cursor (index + 1) text
    | true ↦ elim (leb stream_segments_max (length out)) [
      | true ↦ ok (out, cursor)
      | false ↦ add_segment chunk out cursor index >>= λ longer.
          segment_loop chunk longer (index + 1) (index + 1) text
    ]
  ]

  unfoldable pub extract_segment_candidates : TextStreamChunk → Result (List SegmentCandidate)
  unfolding segment_loop add_segment
  extract_segment_candidates chunk = segment_loop chunk [] 0 0 chunk.text >>= λ (out, cursor).
      if ltb (length out) stream_segments_max
      then add_segment chunk out cursor (length chunk.text)
      else ok out
