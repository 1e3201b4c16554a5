-- ===== src/Development/Segments/Lines.antt =====
-- What the segments of a chunk are, and when the cut fails.
use toy_brain.Prelude.{
  refl, ◌≡◌, Text, ℕ, List, Bool, length, ◌≤◌, ◌∷◌, ap, take, suc, arith, [], zero, leb, Bool-cases,
  if◌then◌else◌, ◌==◌, ltb, inl, false, inr, lt→leb, ◌+◌, ◌∙◌, length-take, sym, ◌++◌, drop,
  length-drop,
}
use toy_brain.Prelude.Outcome.{Result, ◌>>=◌, raise, i_strm_05, ok}
use toy_brain.Development.Features.{features_of}
use toy_brain.Development.Segments.{
  SegmentCandidate, extract_segment_candidates, add_segment, segment_loop, segment_candidate,
  segment_id, stream_segments_max,
}
use toy_brain.Development.Segments.Loop.{numbered, finish, segment_loop-filled, length-segment_id}
use toy_brain.Development.Stream.{TextStreamChunk, IsChunk}
use toy_brain.Development.Segments.Cover.{
  slices, slice, spans, length-spans, glue_lines, join-spans,
}
use toy_brain.Development.Ids.{IsTable, stream_provenance_max_len}
use toy_brain.Prelude.Decimal.{decimal}
use Prim.Native.Nat.{min}

-- The texts that the segments cut out of the text.
abbrev pub segment_texts : Text → List SegmentCandidate → List Text
segment_texts text [] = []
segment_texts text (s ∷ rest) = slice text s.start s.end ∷ segment_texts text rest

segment_texts-numbered :
    (text id : Text) (n : ℕ) (xs : List (ℕ × ℕ))
    → segment_texts text (numbered id n xs) ≡ slices text xs
segment_texts-numbered text id n [] = refl
segment_texts-numbered text id n ((a, b) ∷ xs) =
    ap (λ l. slice text a b ∷ l) (segment_texts-numbered text id (suc n) xs)

length-numbered : (id : Text) (n : ℕ) (xs : List (ℕ × ℕ)) → length (numbered id n xs) ≡ length xs
length-numbered id n [] = refl
length-numbered id n (x ∷ xs) = ap suc (length-numbered id (suc n) xs)

slices-take-drop :
    (text : Text) (n : ℕ) (xs : List (ℕ × ℕ))
    → slices text (take n xs) ++ slices text (drop n xs) ≡ slices text xs
slices-take-drop text zero xs = refl
slices-take-drop text (suc n) [] = refl
slices-take-drop text (suc n) ((a, b) ∷ xs) =
    ap (λ l. slice text a b ∷ l) (slices-take-drop text n xs)

length-slices : (text : Text) (xs : List (ℕ × ℕ)) → length (slices text xs) ≡ length xs
length-slices text [] = refl
length-slices text ((a, b) ∷ xs) = ap suc (length-slices text xs)

module _ (printable is_space : ℕ → Bool) (chunk : TextStreamChunk)
    (h : IsChunk printable is_space chunk) where
  line_count-spans :
      (features_of printable is_space chunk).line_count ≡ length (spans 0 0 chunk.text)
  line_count-spans = omega (arith, length-spans 0 0 0 chunk.text)

  -- Let the Unicode tables read ASCII as usual, and the identifier of an accepted chunk have at
  -- most 57 characters. The cut returns as many segments as the chunk has lines, 32 at most. The
  -- texts that they cut out, and then those of the lines beyond 32, make up the text again when
  -- they are joined by newlines.
  pub segments_cover :
      IsTable printable is_space
      → length chunk.chunk_id ≤ 57
      → (segments : List SegmentCandidate) × (more : List Text) × (extract_segment_candidates
            printable is_space chunk
          ≡ ok segments)
        × (length segments
            ≡ min stream_segments_max (features_of printable is_space chunk).line_count)
        × (length segments + length more ≡ (features_of printable is_space chunk).line_count)
        × (glue_lines (segment_texts chunk.text segments ++ more) ≡ chunk.text)
  unfolding extract_segment_candidates finish
  segments_cover t short =
      let all_spans = spans 0 0 chunk.text in
      let first = take stream_segments_max all_spans in
      let later = drop stream_segments_max all_spans in
      let few =
        length-numbered chunk.chunk_id 0 first ∙ length-take stream_segments_max all_spans in
      let loop =
        segment_loop-filled printable is_space t chunk h short [] 0 0 chunk.text (omega arith)
          (omega arith) (omega arith) in
      let texts =
        ap (λ l. l ++ slices chunk.text later)
          (segment_texts-numbered chunk.text chunk.chunk_id 0 first) in
      (
        numbered chunk.chunk_id 0 first,
        slices chunk.text later,
        loop,
        few ∙ ap (min stream_segments_max) (sym line_count-spans),
        omega (
          arith,
          few,
          length-slices chunk.text later,
          length-drop stream_segments_max all_spans,
          line_count-spans,
        ),
        ap glue_lines (texts ∙ slices-take-drop chunk.text stream_segments_max all_spans)
            ∙ join-spans chunk.text 0 0 chunk.text (omega arith) refl,
      )

  too_long :
      (start end : ℕ)
      → 59 ≤ length chunk.chunk_id
      → add_segment printable is_space chunk [] start end ≡ raise i_strm_05
  unfolding add_segment segment_candidate decimal
  too_long start end long =
      let over : leb (length (segment_id chunk.chunk_id 0)) stream_provenance_max_len ≡ false =
        lt→leb _ _ (omega (arith, length-segment_id printable is_space chunk.chunk_id 0)) in
      ground (arith, over)

  loop_raises :
      (cursor index : ℕ) (rest : Text)
      (f : List SegmentCandidate × ℕ → Result (List SegmentCandidate))
      → 59 ≤ length chunk.chunk_id
      → ((c : ℕ) → f ([], c) ≡ raise i_strm_05)
      → (segment_loop printable is_space chunk [] cursor index rest >>= f) ≡ raise i_strm_05
  unfolding segment_loop
  loop_raises cursor index [] f long k = k cursor
  loop_raises cursor index (c ∷ rest) f long k = elim (Bool-cases (c == 10)) [
    | inl newline ↦ rw (newline, segment_loop, too_long cursor index long)
    | inr other ↦ rw (other, segment_loop) (loop_raises cursor (index + 1) rest f long k)
  ]

  -- The cut of an accepted chunk whose identifier has at least 59 characters always raises
  -- I-STRM-05, whatever its text is.
  pub segments_raise :
      59 ≤ length chunk.chunk_id
      → extract_segment_candidates printable is_space chunk ≡ raise i_strm_05
  unfolding extract_segment_candidates
  segments_raise long =
      loop_raises 0 0 chunk.text
        (λ (out, cursor).
          if ltb (length out) stream_segments_max
          then add_segment printable is_space chunk out cursor (length chunk.text)
          else ok out)
        long (λ c. too_long c (length chunk.text) long)
