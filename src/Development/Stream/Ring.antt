-- ===== src/Development/Stream/Ring.antt =====
-- The history of a stream holds the newest chunks of all that were appended.
use mathlib.Core.List.{append_assoc, append-nil}
use toy_brain.Prelude.Outcome.{Result, ◌>>=◌, ok}
use toy_brain.Development.Stream.{
  append_chunk, TextStreamHistory, TextStreamChunk, stream_history_max_chunks,
}
use toy_brain.Prelude.{
  ℕ, List, drop, ◌≤◌, length, ◌≡◌, ◌-◌, ◌++◌, ap, arith, ◌<◌, ◌∷◌, suc, [], Bool-cases,
  length-append, ◌∙◌, leb, length-drop, sym, inl, inr, zero, refl,
}

unfoldable pub append_chunks : TextStreamHistory → List TextStreamChunk → Result TextStreamHistory
unfolding append_chunk
append_chunks h [] = ok h
append_chunks h (c ∷ cs) = append_chunk h c >>= λ h'. append_chunks h' cs

-- the last `n` elements
abbrev pub newest : {A : Type 0} → ℕ → List A → List A
newest n xs = drop (length xs - n) xs

drop-append :
    {A : Type 0} (n : ℕ) (xs ys : List A) → n ≤ length xs → drop n (xs ++ ys) ≡ drop n xs ++ ys
drop-append zero xs ys h = refl
drop-append (suc n) [] ys h = absurd (omega arith)
drop-append (suc n) (x ∷ xs) ys h = drop-append n xs ys (omega arith)

newest-short : {A : Type 0} (n : ℕ) (xs : List A) → length xs ≤ n → newest n xs ≡ xs
newest-short n xs h = ap (λ k. drop k xs) (let e : length xs - n ≡ 0 = omega arith in e)

drop-newest :
    {A : Type 0} (n : ℕ) (xs : List A) → n < length xs → newest n (drop 1 xs) ≡ newest n xs
drop-newest n [] h = absurd (omega arith)
drop-newest n (x ∷ xs) h =
    ap (λ k. drop k (x ∷ xs)) (let e : suc (length xs - n) ≡ suc (length xs) - n = omega arith in e)

-- One append, in each of its branches.
append-full :
    (h : TextStreamHistory) (c : TextStreamChunk)
    → length h.chunks ≡ stream_history_max_chunks
    → append_chunk h c ≡ ok (record { chunks = drop 1 h.chunks ++ c ∷ [] })
unfolding append_chunk
append-full h c k = ground (arith, length-append (drop 1 h.chunks) (c ∷ []), length-drop 1 h.chunks)

append-room :
    (h : TextStreamHistory) (c : TextStreamChunk)
    → length h.chunks < stream_history_max_chunks
    → append_chunk h c ≡ ok (record { chunks = h.chunks ++ c ∷ [] })
unfolding append_chunk
append-room h c k = ground (arith, length-append h.chunks (c ∷ []))

module _ (c : TextStreamChunk) (cs : List TextStreamChunk) where
  newest-full :
      (xs : List TextStreamChunk)
      → length xs ≡ stream_history_max_chunks
      → newest stream_history_max_chunks ((drop 1 xs ++ c ∷ []) ++ cs)
        ≡ newest stream_history_max_chunks (xs ++ c ∷ cs)
  newest-full xs k =
      ap (newest stream_history_max_chunks)
        (append_assoc (drop 1 xs) (c ∷ []) cs ∙ sym (drop-append 1 xs (c ∷ cs) (omega arith)))
      ∙ drop-newest stream_history_max_chunks (xs ++ c ∷ cs)
          (omega (arith, length-append xs (c ∷ cs)))

-- Appending chunks one by one to a history within its bound never fails, and leaves the newest
-- `STREAM_HISTORY_MAX_CHUNKS` of all the chunks, the old and the new ones, in order.
pub append_chunks-newest :
    (h : TextStreamHistory) (cs : List TextStreamChunk)
    → length h.chunks ≤ stream_history_max_chunks
    → append_chunks h cs
      ≡ ok (record { chunks = newest stream_history_max_chunks (h.chunks ++ cs) })
unfolding append_chunks
append_chunks-newest h [] k =
    ap (λ (l : List TextStreamChunk). ok (record { chunks = l }))
      (sym (
        newest-short stream_history_max_chunks (h.chunks ++ []) (rw append-nil k)
        ∙ append-nil h.chunks))
append_chunks-newest h (c ∷ cs) k =
    elim (Bool-cases (leb stream_history_max_chunks (length h.chunks))) [
      | inl full ↦
          let size : length h.chunks ≡ stream_history_max_chunks = ground (arith, full) in
          rw (append-full h c size, append_chunks)
            (append_chunks-newest (record { chunks = drop 1 h.chunks ++ c ∷ [] }) cs
                (omega (arith, length-append (drop 1 h.chunks) (c ∷ []), length-drop 1 h.chunks))
              ∙ ap (λ (l : List TextStreamChunk). ok (record { chunks = l }))
                  (newest-full c cs h.chunks size))
      | inr room ↦
          rw (append-room h c (ground (arith, room)), append_chunks)
            (append_chunks-newest (record { chunks = h.chunks ++ c ∷ [] }) cs
                (ground (arith, room, length-append h.chunks (c ∷ [])))
              ∙ ap
                  (λ (l : List TextStreamChunk).
                    ok (record { chunks = newest stream_history_max_chunks l }))
                  (append_assoc h.chunks (c ∷ []) cs))
    ]
