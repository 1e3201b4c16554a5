-- ===== src/Development/Ledger/Entry.antt =====
-- What the constructor of an entry lets through, and the entries that an observation builds.
use toy_brain.Prelude.{
  refl, ◌≡◌, List, ℕ, Text, Bool, false, length, ◌∷◌, ◌++◌, ◌≤◌, [], arith, ◌↔◌, All, Bool-cases,
  not, ◌&&◌, true, le→leb, ltb, inr, inl, length-append, All-append,
}
use native.Mathlib.Nat.{mul-le-mul_right}
use toy_brain.Prelude.Outcome.{Error, ok, i_pledger_03}
use toy_brain.Prelude.FrozenSet.{FrozenSet, add, contains, contains-add}
use toy_brain.Development.Ledger.{
  check_evidence, require_evidence_ids, with_evidence, PatternLedgerEntry, pattern_ledger_entry,
  pattern_ledger_evidence_max, pattern_ledger_id_max, confidence_for, seen_again, seen_first,
}
use toy_brain.Fraction.{eq_fraction, less, Fraction, whole, den}
use toy_brain.Development.Stream.{TextStreamChunk}
use toy_brain.Development.Ids.{IsBounded, stream_provenance_max_len, require_bounded_printable_iff}
use toy_brain.Development.Patterns.{
  StreamPromotionCandidate, stream_pattern_recurrence_min, stream_pattern_recurrence_max,
}
use toy_brain.Development.Ledger.Signature.{IsSignature, require_signature_iff}

-- None of the texts is in `seen` or stands twice.
abbrev pub DistinctFrom : FrozenSet → List Text → Type 0
DistinctFrom seen [] = Unit
DistinctFrom seen (x ∷ xs) = (contains x seen ≡ false) × DistinctFrom (add x seen) xs

pub DistinctFrom-append :
    (seen xs : List Text) (x : Text)
    → DistinctFrom seen xs
    → contains x seen ≡ false
    → contains x xs ≡ false
    → DistinctFrom seen (xs ++ x ∷ [])
unfolding contains
DistinctFrom-append seen [] x h k m = (k, tt)
DistinctFrom-append seen (y ∷ xs) x h k m = (
  h.0,
  DistinctFrom-append (add y seen) xs x h.1 (ground (arith, contains-add x y seen)) (ground arith),
)

module _ (printable is_space : ℕ → Bool) where
  pub record IsEvidence (ids : List Text) : Type 0 where
    pub short : length ids ≤ pattern_ledger_evidence_max
    pub bounded : All (IsBounded printable stream_provenance_max_len) ids
    pub distinct : DistinctFrom [] ids

  check_evidence_iff :
      (seen ids : List Text) (row_id : Error)
      → (check_evidence printable is_space seen ids row_id ≡ ok tt)
        ↔ (All (IsBounded printable stream_provenance_max_len) ids × DistinctFrom seen ids)
  unfolding check_evidence
  check_evidence_iff seen [] row_id = ground arith
  check_evidence_iff seen (x ∷ ids) row_id = ground (
    arith,
    check_evidence_iff (add x seen) ids row_id,
    require_bounded_printable_iff printable x stream_provenance_max_len row_id,
  )

  require_evidence_ids_iff :
      (ids : List Text) (row_id : Error)
      → (require_evidence_ids printable is_space ids row_id ≡ ok tt) ↔ IsEvidence ids
  unfolding require_evidence_ids
  require_evidence_ids_iff ids row_id = ground (arith, check_evidence_iff [] ids row_id)

  pub with_evidence-IsEvidence :
      (x : Text) (ids : List Text)
      → IsBounded printable stream_provenance_max_len x
      → IsEvidence ids
      → IsEvidence (with_evidence x ids)
  unfolding with_evidence
  with_evidence-IsEvidence x ids b h =
      elim (Bool-cases (not (contains x ids) && ltb (length ids) pattern_ledger_evidence_max)) [
        | inr kept ↦ rw kept h
        | inl more ↦ rw more (record {
          short = ground (arith, more, h.short, length-append ids (x ∷ []));
          bounded =
              All-append (IsBounded printable stream_provenance_max_len) ids (x ∷ []) h.bounded
                (b, tt);
          distinct = DistinctFrom-append [] ids x h.distinct refl (ground (arith, more));
        })
      ]

  pub record IsEntry (e : PatternLedgerEntry) : Type 0 where
    pub id_bounded : IsBounded printable pattern_ledger_id_max e.pattern_id
    pub signature : IsSignature printable is_space e.signature
    pub chunk_ids : IsEvidence e.evidence_chunk_ids
    pub candidate_ids : IsEvidence e.evidence_candidate_ids
    pub count_min : stream_pattern_recurrence_min ≤ e.recurrence_count
    pub count_max : e.recurrence_count ≤ stream_pattern_recurrence_max
    pub ticks : e.first_seen_tick ≤ e.last_seen_tick
    pub confidence : eq_fraction e.confidence (confidence_for e.recurrence_count) ≡ true
    pub provenance : IsBounded printable stream_provenance_max_len e.provenance

  -- A confidence that agrees with a count in range lies in [0, 1].
  confidence-InUnit :
      (q : Fraction) (n : ℕ)
      → n ≤ stream_pattern_recurrence_max
      → eq_fraction q (confidence_for n) ≡ true
      → (less q (whole 0) ≡ false) × (less (whole 1) q ≡ false)
  unfolding eq_fraction less confidence_for
  confidence-InUnit q n h k = ground (arith, mul-le-mul_right (den q) h)

  pub pattern_ledger_entry-ok :
      (e : PatternLedgerEntry) → IsEntry e → pattern_ledger_entry printable is_space e ≡ ok e
  unfolding pattern_ledger_entry
  pattern_ledger_entry-ok e h =
      let unit = confidence-InUnit e.confidence e.recurrence_count h.count_max h.confidence in
      rw (
        (require_bounded_printable_iff printable e.pattern_id pattern_ledger_id_max i_pledger_03).1
            h.id_bounded,
        (require_signature_iff printable is_space e.signature i_pledger_03).1 h.signature,
        (require_evidence_ids_iff e.evidence_chunk_ids i_pledger_03).1 h.chunk_ids,
        (require_evidence_ids_iff e.evidence_candidate_ids i_pledger_03).1 h.candidate_ids,
        le→leb _ _ h.count_min,
        le→leb _ _ h.count_max,
        le→leb _ _ h.ticks,
        unit.0,
        unit.1,
        h.confidence,
        (require_bounded_printable_iff printable e.provenance stream_provenance_max_len
              i_pledger_03).1
            h.provenance,
      )

  module _ (chunk : TextStreamChunk) (candidate : StreamPromotionCandidate) (tick : ℕ)
      (c : IsBounded printable stream_provenance_max_len chunk.chunk_id)
      (d : IsBounded printable stream_provenance_max_len candidate.candidate_id) where
    pub seen_again-IsEntry :
        (e : PatternLedgerEntry) → IsEntry e → IsEntry (seen_again e chunk candidate tick)
    unfolding seen_again eq_fraction
    seen_again-IsEntry e h = record {
      id_bounded = h.id_bounded;
      signature = h.signature;
      chunk_ids = with_evidence-IsEvidence chunk.chunk_id e.evidence_chunk_ids c h.chunk_ids;
      candidate_ids =
          with_evidence-IsEvidence candidate.candidate_id e.evidence_candidate_ids d
            h.candidate_ids;
      count_min = ground (arith, h.count_min);
      count_max = ground (arith, h.count_max);
      ticks = ground (arith, h.ticks);
      confidence = ground arith;
      provenance = h.provenance;
    }

    pub seen_first-IsEntry :
        (pattern_id : Text) (signature : List Text)
        → IsBounded printable pattern_ledger_id_max pattern_id
        → IsSignature printable is_space signature
        → IsBounded printable stream_provenance_max_len chunk.provenance
        → IsEntry (seen_first pattern_id signature chunk candidate tick)
    unfolding seen_first contains eq_fraction
    seen_first-IsEntry pattern_id signature b s p = record {
      id_bounded = b;
      signature = s;
      chunk_ids = record { short = omega arith; bounded = (c, tt); distinct = (refl, tt) };
      candidate_ids = record { short = omega arith; bounded = (d, tt); distinct = (refl, tt) };
      count_min = omega arith;
      count_max = omega arith;
      ticks = omega arith;
      confidence = refl;
      provenance = p;
    }
