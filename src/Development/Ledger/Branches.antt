-- ===== src/Development/Ledger/Branches.antt =====
-- The three branches of `observe`: a known pattern, a new one, and a new one in a full ledger.
use toy_brain.Prelude.{
  eq_text_refl, Bool-cases, inl, inr, ◌↔◌, ◌≤◌, ltb, ◌||◌, refl, ◌≡◌, ℕ, Bool, Text, List, true,
  leb, eq_text, length, false, arith, some, none, ◌<◌, Option, ap, ◌∙◌, ◌++◌, ◌∷◌, [], lt→leb, ◌+◌,
}
use toy_brain.Prelude.Outcome.{ok}
use toy_brain.Prelude.FrozenSet.{contains, contains-append}
use toy_brain.Fraction.{ratio}
use toy_brain.Development.Ids.{is_printable_id, IsTable, stream_provenance_max_len, IsBounded}
use toy_brain.Development.Patterns.{
  StreamPromotionCandidate, stream_promotion_candidate, candidate_id-valid,
  stream_pattern_recurrence_max,
}
use toy_brain.Development.Ledger.Signature.{
  IsAsciiDigest, pattern_id_of, derive_pattern_signature_returns, derive_pattern_id_returns,
  pattern_id_of-IsBounded, derived_signature-IsSignature, derived_signature,
}
use toy_brain.Development.Stream.{TextStreamChunk, IsChunk}
use toy_brain.Tlica.Profile.{cogito_id}
use toy_brain.Development.Ledger.{
  with_evidence, confidence_for, saturation_for, saturated, PatternLedger, observe,
  observe_existing, observe_new, PatternLedgerEntry, find_entry, pattern_ledger_max_entries,
  seen_again, seen_first, replace_entry, observe_found,
}
use toy_brain.Development.Ledger.Observe.{
  IsLedger, IsUpdate, find_entry-All, replaced, pattern_ledger-ok, appended,
}
use toy_brain.Development.Ledger.Entry.{
  IsEntry, seen_again-IsEntry, pattern_ledger_entry-ok, seen_first-IsEntry,
}
use Prim.Native.Nat.{min, max}

-- The candidate comes out of its constructor, and its identifier is not the reserved one.
pub record IsCandidate (printable is_space : ℕ → Bool) (s : StreamPromotionCandidate) : Type 0 where
  pub constructed : stream_promotion_candidate printable is_space s ≡ ok s
  pub free : eq_text s.candidate_id cogito_id ≡ false

pub seen_again-count :
    (e : PatternLedgerEntry) (chunk : TextStreamChunk) (candidate : StreamPromotionCandidate)
    (tick : ℕ)
    → (seen_again e chunk candidate tick).recurrence_count
      ≡ min stream_pattern_recurrence_max (e.recurrence_count + 1)
unfolding seen_again
seen_again-count e chunk candidate tick = ground arith

pub seen_again-id :
    (e : PatternLedgerEntry) (chunk : TextStreamChunk) (candidate : StreamPromotionCandidate)
    (tick : ℕ)
    → (seen_again e chunk candidate tick).pattern_id ≡ e.pattern_id
unfolding seen_again
seen_again-id e chunk candidate tick = refl

pub seen_first-id :
    (id : Text) (signature : List Text) (chunk : TextStreamChunk)
    (candidate : StreamPromotionCandidate) (tick : ℕ)
    → (seen_first id signature chunk candidate tick).pattern_id ≡ id
unfolding seen_first
seen_first-id id signature chunk candidate tick = refl

-- What one more observation makes of an entry: the count grows by one up to its bound, the last tick
-- is the later one, the identifiers are evidence if they were or there was room, and confidence and
-- saturation follow the count.
pub record IsSeenAgain (e : PatternLedgerEntry) (chunk : TextStreamChunk)
    (candidate : StreamPromotionCandidate) (tick : ℕ) (e' : PatternLedgerEntry) : Type 0 where
  pub count : e'.recurrence_count ≡ min stream_pattern_recurrence_max (e.recurrence_count + 1)
  pub first : e'.first_seen_tick ≡ e.first_seen_tick
  pub last : e'.last_seen_tick ≡ max e.last_seen_tick tick
  pub chunks :
      contains chunk.chunk_id e'.evidence_chunk_ids
      ≡ (contains chunk.chunk_id e.evidence_chunk_ids || ltb (length e.evidence_chunk_ids) 32)
  pub candidates : contains candidate.candidate_id e'.evidence_candidate_ids ≡ (
      contains candidate.candidate_id e.evidence_candidate_ids
      || ltb (length e.evidence_candidate_ids) 32)
  pub confidence : e'.confidence ≡ ratio e'.recurrence_count stream_pattern_recurrence_max
  pub saturated_iff :
      (e'.saturation_state ≡ saturated) ↔ (stream_pattern_recurrence_max ≤ e'.recurrence_count)

contains-with_evidence :
    (item : Text) (ids : List Text)
    → contains item (with_evidence item ids) ≡ (contains item ids || ltb (length ids) 32)
unfolding with_evidence contains
contains-with_evidence item ids = elim (Bool-cases (contains item ids)) [
  | inl known ↦ rw (known, known) refl
  | inr new ↦ elim (Bool-cases (ltb (length ids) 32)) [
    | inl room ↦
        rw (new, room, contains-append item ids (item ∷ []), eq_text_refl item)
          (ground (arith, new))
    | inr full ↦ rw (new, full, new) refl
  ]
]

seen_again-IsSeenAgain :
    (e : PatternLedgerEntry) (chunk : TextStreamChunk) (candidate : StreamPromotionCandidate)
    (tick : ℕ)
    → IsSeenAgain e chunk candidate tick (seen_again e chunk candidate tick)
unfolding seen_again confidence_for saturation_for
seen_again-IsSeenAgain e chunk candidate tick = record {
  count = seen_again-count e chunk candidate tick;
  first = refl;
  last = ground arith;
  chunks = contains-with_evidence chunk.chunk_id e.evidence_chunk_ids;
  candidates = contains-with_evidence candidate.candidate_id e.evidence_candidate_ids;
  confidence = refl;
  saturated_iff = ground arith;
}

id-IsBounded :
    (printable is_space : ℕ → Bool) (s : Text)
    → is_printable_id printable is_space s ≡ true
    → leb (length s) stream_provenance_max_len ≡ true
    → eq_text s cogito_id ≡ false
    → IsBounded printable stream_provenance_max_len s
unfolding is_printable_id
id-IsBounded printable is_space s h k m = ground arith

module _ (printable is_space : ℕ → Bool) (digest : List Text → Text)
    (t : IsTable printable is_space) (d : IsAsciiDigest digest) where
  module _ (chunk : TextStreamChunk) (h : IsChunk printable is_space chunk)
      (candidate : StreamPromotionCandidate) (c : IsCandidate printable is_space candidate)
      (tick : ℕ) where
    chunk-IsBounded : IsBounded printable stream_provenance_max_len chunk.chunk_id
    chunk-IsBounded = id-IsBounded printable is_space chunk.chunk_id h.id_given h.id_short h.id_free

    candidate-IsBounded : IsBounded printable stream_provenance_max_len candidate.candidate_id
    candidate-IsBounded =
        let v = candidate_id-valid printable is_space candidate c.constructed in
        id-IsBounded printable is_space candidate.candidate_id v.1 v.2 c.free

    module _ (l : PatternLedger) (v : IsLedger printable is_space l) where
      observe_step :
          (found : Option PatternLedgerEntry)
          → find_entry (pattern_id_of printable is_space digest chunk) l.entries ≡ found
          → observe printable is_space digest l chunk candidate tick
            ≡ observe_found printable is_space digest found l
                (pattern_id_of printable is_space digest chunk)
                (derived_signature printable is_space chunk)
                chunk
                candidate
                tick
      unfolding observe
      observe_step found e =
          rw
            (
              derive_pattern_signature_returns printable is_space t chunk h,
              derive_pattern_id_returns printable is_space t chunk h digest,
            )
            (ap
              (λ f.
                observe_found printable is_space digest f l
                  (pattern_id_of printable is_space digest chunk)
                  (derived_signature printable is_space chunk) chunk candidate tick)
              e)

      -- Under the same conditions on tables, digest, ledger, chunk and candidate as for a sequence:
      -- where the ledger knows the pattern of the chunk, an observation returns a valid ledger in
      -- which that pattern has the updated entry, with every other pattern found as before. The
      -- updated entry counts one more, up to the bound, keeps the first tick and has the later of
      -- the two as the last, has each of the two identifiers as evidence if it had it or had fewer
      -- than 32, and its confidence and saturation follow from its count.
      pub observe_known :
          (e : PatternLedgerEntry)
          → find_entry (pattern_id_of printable is_space digest chunk) l.entries ≡ some e
          → (l' : PatternLedger) × (observe printable is_space digest l chunk candidate tick
              ≡ ok l')
            × IsUpdate printable is_space l l' (seen_again e chunk candidate tick)
            × IsSeenAgain e chunk candidate tick (seen_again e chunk candidate tick)
      unfolding observe_found observe_existing
      observe_known e found =
          let (valid_old, same) =
            find_entry-All (IsEntry printable is_space)
              (pattern_id_of printable is_space digest chunk) l.entries v.entries found in
          let new = seen_again e chunk candidate tick in
          let valid =
            seen_again-IsEntry printable is_space chunk candidate tick chunk-IsBounded
              candidate-IsBounded e valid_old in
          let id : new.pattern_id ≡ (pattern_id_of printable is_space digest chunk) =
            seen_again-id e chunk candidate tick ∙ same in
          let update = replaced printable is_space l v new valid {e = e} (rw id found) in
          (
            record { entries = replace_entry new.pattern_id new l.entries },
            observe_step (some e) found
                ∙ rw (pattern_ledger_entry-ok printable is_space new valid, ← id)
                    (pattern_ledger-ok printable is_space
                      (record { entries = replace_entry new.pattern_id new l.entries })
                      update.valid),
            update,
            seen_again-IsSeenAgain e chunk candidate tick,
          )

      -- Under the same conditions on tables, digest, ledger, chunk and candidate as for a sequence:
      -- where the ledger does not know the pattern of the chunk and has room, an observation
      -- returns a valid ledger in which that pattern has a fresh entry, with every other pattern
      -- found as before.
      pub observe_fresh :
          find_entry (pattern_id_of printable is_space digest chunk) l.entries ≡ none
          → length l.entries < pattern_ledger_max_entries
          → (l' : PatternLedger) × (observe printable is_space digest l chunk candidate tick
              ≡ ok l')
            × IsUpdate printable is_space l l' (
                seen_first
                  (pattern_id_of printable is_space digest chunk)
                  (derived_signature printable is_space chunk)
                  chunk
                  candidate
                  tick)
      unfolding observe_found observe_new
      observe_fresh found room =
          let new =
            seen_first (pattern_id_of printable is_space digest chunk)
              (derived_signature printable is_space chunk) chunk candidate tick in
          let valid =
            seen_first-IsEntry printable is_space chunk candidate tick chunk-IsBounded
              candidate-IsBounded (pattern_id_of printable is_space digest chunk)
              (derived_signature printable is_space chunk)
              (pattern_id_of-IsBounded printable is_space t chunk h digest d)
              (derived_signature-IsSignature printable is_space t chunk h) h.provenance_bounded in
          let id =
            seen_first-id (pattern_id_of printable is_space digest chunk)
              (derived_signature printable is_space chunk) chunk candidate tick in
          let update = appended printable is_space l v new valid (rw id found) room in
          (
            record { entries = l.entries ++ new ∷ [] },
            observe_step none found
                ∙ rw
                    (
                      lt→leb pattern_ledger_max_entries (length l.entries) room,
                      pattern_ledger_entry-ok printable is_space new valid,
                    )
                    (pattern_ledger-ok printable is_space
                      (record { entries = l.entries ++ new ∷ [] }) update.valid),
            update,
          )

      -- a new pattern, and a full ledger
      pub observe_refused :
          find_entry (pattern_id_of printable is_space digest chunk) l.entries ≡ none
          → length l.entries ≡ pattern_ledger_max_entries
          → observe printable is_space digest l chunk candidate tick ≡ ok l
      unfolding observe_found observe_new
      observe_refused found full = observe_step none found ∙ rw full
