-- ===== src/Development/Segments/Loop.antt =====
-- The loop that cuts a chunk into segments emits the spans of its lines, up to the limit.
use toy_brain.Prelude.{
  refl, ◌≡◌, Text, ℕ, List, Bool, ◌∷◌, codes, suc, length, all, ◌+◌, true, [], all_mono, arith,
  eq_text, length-append, ◌≤◌, ◌++◌, ◌<◌, all-append, leb, le→leb, if◌then◌else◌, ltb, take, ◌-◌,
  Bool-cases, inl, inr, ◌==◌, ap, zero, ◌∙◌,
}
use toy_brain.Prelude.Outcome.{Result, ◌>>=◌, ok}
use toy_brain.Development.Stream.{TextStreamChunk, IsChunk}
use toy_brain.Development.Segments.{
  SegmentCandidate, segment_id, add_segment, segment_candidate, stream_segments_max, segment_loop,
}
use toy_brain.Development.Ids.{
  is_printable_id, IsTable, is_ascii, all-ascii, strip-visible, stream_provenance_max_len,
  printable_of_id,
}
use toy_brain.Prelude.Decimal.{decimal, is_digit, all-decimal, length-decimal-le}
use toy_brain.Prelude.FrozenSet.{contains}
use toy_brain.Development.Segments.Cover.{spans}
use mathlib.Core.List.{append-nil, append_assoc}

-- The segment that stands at place `n`, and a list of spans as segments from place `n` on.
abbrev pub segment_of : Text → ℕ → ℕ × ℕ → SegmentCandidate
segment_of id n (a, b) = record {
  candidate_id = segment_id id n;
  chunk_id = id;
  start = a;
  end = b;
  segment_kind = codes "line";
}

abbrev pub numbered : Text → ℕ → List (ℕ × ℕ) → List SegmentCandidate
numbered id n [] = []
numbered id n (span ∷ rest) = segment_of id n span ∷ numbered id (suc n) rest

module _ (printable is_space : ℕ → Bool) where
  pub length-segment_id :
      (id : Text) (n : ℕ) → length (segment_id id n) ≡ 5 + length id + length (decimal n)
  unfolding segment_id
  length-segment_id id n =
      omega
        (arith, length-append id (codes ":" ++ decimal n), length-append (codes ":") (decimal n))

  -- The identifier of a segment is printable.
  segment_id-printable :
      (t : IsTable printable is_space) (id : Text) (n : ℕ)
      → all printable id ≡ true
      → is_printable_id printable is_space (segment_id id n) ≡ true
  unfolding is_printable_id segment_id
  segment_id-printable t id n h =
      let digits = all_mono is_digit is_ascii (decimal n) (λ c k. ground arith) (all-decimal n) in
      let tail =
        all-append printable id (codes ":" ++ decimal n) h
          (all-ascii t (codes ":" ++ decimal n) digits) in
      let whole =
        all-append printable (codes "seg:") (id ++ (codes ":" ++ decimal n))
          (all-ascii t (codes "seg:") refl) tail in
      rw (strip-visible t b's' (codes "eg:" ++ (id ++ (codes ":" ++ decimal n))) refl) whole

  module _ (t : IsTable printable is_space) (chunk : TextStreamChunk)
      (h : IsChunk printable is_space chunk) where
    -- A segment is added while there is room and its identifier is short enough.
    add_segment-ok :
        (out : List SegmentCandidate) (start end : ℕ)
        → length chunk.chunk_id ≤ 57
        → length out < stream_segments_max
        → start ≤ end
        → add_segment printable is_space chunk out start end
          ≡ ok (out ++ segment_of chunk.chunk_id (length out) (start, end) ∷ [])
    unfolding add_segment segment_candidate contains eq_text
    add_segment-ok out start end short room order =
        let few = length-decimal-le 1 (length out) (omega arith) in
        let fits : leb (length (segment_id chunk.chunk_id (length out))) stream_provenance_max_len
            ≡ true =
          le→leb _ _ (omega (arith, few, length-segment_id chunk.chunk_id (length out))) in
        let given =
          segment_id-printable t chunk.chunk_id (length out)
            (printable_of_id printable is_space chunk.chunk_id h.id_given) in
        rw (given, fits, h.id_given, le→leb start end order)

    -- the end of the call, after the loop
    unfoldable pub finish : List SegmentCandidate × ℕ → Result (List SegmentCandidate)
    finish (out, cursor) =
        if ltb (length out) stream_segments_max
        then add_segment printable is_space chunk out cursor (length chunk.text)
        else ok out

    -- `out`, and the spans that there is room for
    abbrev pub filled : List SegmentCandidate → List (ℕ × ℕ) → List SegmentCandidate
    filled out xs =
        out ++ numbered chunk.chunk_id (length out) (take (stream_segments_max - length out) xs)

    filled-full :
        (out : List SegmentCandidate) (xs : List (ℕ × ℕ))
        → length out ≡ stream_segments_max
        → filled out xs ≡ out
    filled-full out xs e = rw e (append-nil out)

    take-nil : {A : Type 0} (n : ℕ) → take {A = A} n [] ≡ []
    take-nil zero = refl
    take-nil (suc n) = refl

    filled-nil : (out : List SegmentCandidate) → filled out [] ≡ out
    filled-nil out =
        ap (λ l. out ++ numbered chunk.chunk_id (length out) l)
          (take-nil (stream_segments_max - length out))
        ∙ append-nil out

    filled-room :
        (out : List SegmentCandidate) (x : ℕ × ℕ) (xs : List (ℕ × ℕ))
        → length out < stream_segments_max
        → filled out (x ∷ xs) ≡ filled (out ++ segment_of chunk.chunk_id (length out) x ∷ []) xs
    filled-room out x xs room =
        let longer : length (out ++ segment_of chunk.chunk_id (length out) x ∷ [])
            ≡ suc (length out) =
          omega (arith, length-append out (segment_of chunk.chunk_id (length out) x ∷ [])) in
        let left : stream_segments_max - length out ≡ suc (stream_segments_max - suc (length out)) =
          omega arith in
        rw (longer, left, append_assoc)

    finish-full :
        (out : List SegmentCandidate) (cursor : ℕ) (xs : List (ℕ × ℕ))
        → length out ≡ stream_segments_max
        → finish (out, cursor) ≡ ok (filled out xs)
    unfolding finish
    finish-full out cursor xs e = rw (filled-full out xs e, e, finish)

    finish-room :
        (out : List SegmentCandidate) (cursor : ℕ)
        → length chunk.chunk_id ≤ 57
        → length out < stream_segments_max
        → cursor ≤ length chunk.text
        → finish (out, cursor) ≡ ok (filled out ((cursor, length chunk.text) ∷ []))
    unfolding finish
    finish-room out cursor short room order =
        let last = segment_of chunk.chunk_id (length out) (cursor, length chunk.text) in
        let open_room : ltb (length out) stream_segments_max ≡ true = ground (arith, room) in
        rw
          (
            open_room,
            filled-room out (cursor, length chunk.text) [] room,
            filled-nil (out ++ last ∷ []),
          )
          (add_segment-ok out cursor (length chunk.text) short room order)

    module _ (short : length chunk.chunk_id ≤ 57) where
      pub segment_loop-filled :
          (out : List SegmentCandidate) (cursor index : ℕ) (rest : Text)
          → cursor ≤ index
          → length out ≤ stream_segments_max
          → index + length rest ≡ length chunk.text
          → (segment_loop printable is_space chunk out cursor index rest >>= finish)
            ≡ ok (filled out (spans cursor index rest))
      unfolding segment_loop spans
      segment_loop-filled out cursor index [] order fits size =
          elim (Bool-cases (ltb (length out) stream_segments_max)) [
            | inl room ↦
                let end : index ≡ length chunk.text = omega arith in
                rw end (finish-room out cursor short (ground (arith, room)) (omega arith))
            | inr full ↦ finish-full out cursor ((cursor, index) ∷ []) (ground (arith, full))
          ]
      segment_loop-filled out cursor index (c ∷ rest) order fits size =
          elim (Bool-cases (c == 10)) [
            | inr other ↦
                rw (other, segment_loop)
                  (segment_loop-filled out cursor (index + 1) rest (omega arith) fits (omega arith))
            | inl newline ↦ elim (Bool-cases (leb stream_segments_max (length out))) [
              | inl full ↦
                  rw (newline, full, segment_loop)
                    (finish-full out cursor ((cursor, index) ∷ spans (index + 1) (index + 1) rest)
                      (ground (arith, full)))
              | inr room ↦
                  let next = out ++ segment_of chunk.chunk_id (length out) (cursor, index) ∷ [] in
                  let space : length out < stream_segments_max = ground (arith, room) in
                  let grown =
                    length-append out
                      (segment_of chunk.chunk_id (length out) (cursor, index) ∷ []) in
                  rw
                    (
                      newline,
                      room,
                      segment_loop,
                      add_segment-ok out cursor index short space order,
                      filled-room out (cursor, index) (spans (index + 1) (index + 1) rest) space,
                    )
                    (segment_loop-filled next (index + 1) (index + 1) rest (omega arith)
                      (omega (arith, grown)) (omega arith))
            ]
          ]
