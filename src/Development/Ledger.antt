-- ===== src/Development/Ledger.antt =====
-- brain/development/pattern_ledger.py: the ledger of recurring patterns. SHA-256 over `repr` of a
-- signature is the parameter `digest`. A `bool` and a negative integer have no counterpart.
pub mod Signature
pub mod Entry
pub mod Observe
pub mod Branches
pub mod Count
use toy_brain.Prelude.{
  refl, ◌≡◌, ℕ, Text, List, eq_text, codes, if◌then◌else◌, Option, Bool, ◌∷◌, leb, ◌++◌, none, not,
  ltb, [], length, some, ◌&&◌, ◌+◌, take, all, ◌||◌,
}
use toy_brain.Prelude.Outcome.{
  Result, ◌>>=◌, ◌>>◌, require, Error, i_pledger_05, ok, i_pledger_08, i_pledger_03,
}
use toy_brain.Development.Stream.{TextStreamSource, TextStreamChunk}
use toy_brain.Prelude.FrozenSet.{contains, FrozenSet, add}
use toy_brain.Fraction.{Fraction, ratio, less, numerator, eq_fraction, denominator, whole}
use toy_brain.Development.Features.{StreamFeatureVector, extract_stream_features}
use toy_brain.Development.Patterns.{
  StreamPromotionCandidate, stream_pattern_recurrence_max, stream_pattern_recurrence_min,
  stream_pattern_sig_max,
}
use toy_brain.Tlica.Profile.{cogito_id}
use toy_brain.Development.Ids.{require_bounded_printable, stream_provenance_max_len}
use toy_brain.Prelude.Decimal.{decimal}
use toy_brain.Kernel.Io.{has_text}

abbrev pub pattern_ledger_max_entries : ℕ
pattern_ledger_max_entries = 64

abbrev pub pattern_ledger_evidence_max : ℕ
pattern_ledger_evidence_max = 32

abbrev pub pattern_ledger_id_max : ℕ
pattern_ledger_id_max = 64

abbrev pub pattern_ledger_signature_elem_max : ℕ
pattern_ledger_signature_elem_max = 64

pub data PatternLedgerSourceKind : Type 0 where
  operator system probe_echo generated : PatternLedgerSourceKind

pub data PatternLedgerSaturationState : Type 0 where
  open_state saturated quiesced : PatternLedgerSaturationState

-- `PatternLedgerSourceKind(source.value)`
unfoldable pub source_kind_from_stream_source : TextStreamSource → PatternLedgerSourceKind
source_kind_from_stream_source TextStreamSource.operator = PatternLedgerSourceKind.operator
source_kind_from_stream_source TextStreamSource.system = PatternLedgerSourceKind.system
source_kind_from_stream_source TextStreamSource.probe_echo = PatternLedgerSourceKind.probe_echo
source_kind_from_stream_source TextStreamSource.generated = PatternLedgerSourceKind.generated

-- `TextStreamSource.value`
unfoldable pub source_value : TextStreamSource → Text
source_value TextStreamSource.operator = codes "operator"
source_value TextStreamSource.system = codes "system"
source_value TextStreamSource.probe_echo = codes "probe_echo"
source_value TextStreamSource.generated = codes "generated"

unfoldable pub confidence_for : ℕ → Fraction
confidence_for recurrence_count = ratio recurrence_count stream_pattern_recurrence_max

unfoldable pub saturation_for : ℕ → PatternLedgerSaturationState
saturation_for recurrence_count =
    if leb stream_pattern_recurrence_max recurrence_count then saturated else open_state

pub record PatternLedgerEntry : Type 0 where
  pub pattern_id : Text
  pub signature : List Text
  pub evidence_chunk_ids : List Text
  pub evidence_candidate_ids : List Text
  pub recurrence_count : ℕ
  pub first_seen_tick : ℕ
  pub last_seen_tick : ℕ
  pub source_kind : PatternLedgerSourceKind
  pub confidence : Fraction
  pub saturation_state : PatternLedgerSaturationState
  pub provenance : Text

pub record PatternLedger : Type 0 where
  pub entries : List PatternLedgerEntry

-- the strings of the signature
abbrev pub signature_of : TextStreamChunk → StreamFeatureVector → List Text
signature_of chunk features =
    (codes "source:" ++ source_value chunk.source)
    ∷ (codes "len:" ++ decimal (length chunk.text))
    ∷ (codes "lines:" ++ decimal features.line_count)
    ∷ (codes "ws:" ++ decimal features.whitespace_run_count)
    ∷ (codes "distinct:" ++ decimal features.distinct_char_count)
    ∷ (codes "repeat:"
        ++ (decimal (numerator features.repeat_ratio)
            ++ (codes "/" ++ decimal (denominator features.repeat_ratio))))
    ∷ []

-- the loop over `self.entries` that looks for a duplicate identifier
unfoldable pub check_entries : FrozenSet → List PatternLedgerEntry → Result (Unit {0})
unfolding contains add
check_entries seen [] = ok tt
check_entries seen (entry ∷ rest) = do
  require (not (contains entry.pattern_id seen)) i_pledger_08
  check_entries (add entry.pattern_id seen) rest

-- `PatternLedger.__post_init__`
unfoldable pub pattern_ledger : List PatternLedgerEntry → Result PatternLedger
unfolding check_entries
pattern_ledger entries = do
  require (leb (length entries) pattern_ledger_max_entries) i_pledger_08
  check_entries [] entries
  ok (record { entries = entries })

-- `PatternLedger.find`
unfoldable pub find_entry : Text → List PatternLedgerEntry → Option PatternLedgerEntry
unfolding eq_text
find_entry pattern_id [] = none
find_entry pattern_id (entry ∷ rest) =
    if eq_text entry.pattern_id pattern_id then some entry else find_entry pattern_id rest

-- `new_entry if entry.pattern_id == pattern_id else entry`, for each entry
unfoldable pub replace_entry :
    Text → PatternLedgerEntry → List PatternLedgerEntry → List PatternLedgerEntry
unfolding eq_text
replace_entry pattern_id new_entry [] = []
replace_entry pattern_id new_entry (entry ∷ rest) =
    (if eq_text entry.pattern_id pattern_id then new_entry else entry)
    ∷ replace_entry pattern_id new_entry rest

-- the evidence with one more identifier, if it is new and there is room
unfoldable pub with_evidence : Text → List Text → List Text
unfolding contains
with_evidence item ids =
    if not (contains item ids) && ltb (length ids) pattern_ledger_evidence_max
    then ids ++ item ∷ []
    else ids

-- the fields of the entry after one more observation
unfoldable pub seen_again :
    PatternLedgerEntry → TextStreamChunk → StreamPromotionCandidate → ℕ → PatternLedgerEntry
unfolding with_evidence confidence_for saturation_for
seen_again existing chunk candidate current_tick =
    let new_count =
      if ltb stream_pattern_recurrence_max (existing.recurrence_count + 1)
      then stream_pattern_recurrence_max
      else existing.recurrence_count + 1 in
    record existing {
      evidence_chunk_ids = with_evidence chunk.chunk_id existing.evidence_chunk_ids;
      evidence_candidate_ids = with_evidence candidate.candidate_id existing.evidence_candidate_ids;
      recurrence_count = new_count;
      last_seen_tick =
          if leb existing.last_seen_tick current_tick
          then current_tick
          else existing.last_seen_tick;
      confidence = confidence_for new_count;
      saturation_state = saturation_for new_count;
    }

-- the fields of a fresh entry
unfoldable pub seen_first :
    Text → List Text → TextStreamChunk → StreamPromotionCandidate → ℕ → PatternLedgerEntry
unfolding confidence_for saturation_for source_kind_from_stream_source
seen_first pattern_id signature chunk candidate current_tick = record {
  pattern_id = pattern_id;
  signature = signature;
  evidence_chunk_ids = chunk.chunk_id ∷ [];
  evidence_candidate_ids = candidate.candidate_id ∷ [];
  recurrence_count = stream_pattern_recurrence_min;
  first_seen_tick = current_tick;
  last_seen_tick = current_tick;
  source_kind = source_kind_from_stream_source chunk.source;
  confidence = confidence_for stream_pattern_recurrence_min;
  saturation_state = saturation_for stream_pattern_recurrence_min;
  provenance = chunk.provenance;
}

module _ (printable is_space : ℕ → Bool) where
  -- the loop over the signature, and `_require_signature`
  unfoldable pub check_signature : List Text → Error → Result (Unit {0})
  unfolding eq_text cogito_id
  check_signature [] row_id = ok tt
  check_signature (item ∷ rest) row_id = do
    require (has_text item && all printable item) row_id
    require (leb (length item) pattern_ledger_signature_elem_max) row_id
    require (not (eq_text item cogito_id)) row_id
    check_signature rest row_id

  unfoldable pub require_signature : List Text → Error → Result (Unit {0})
  unfolding check_signature
  require_signature signature row_id = do
    require (ltb 0 (length signature)) row_id
    require (leb (length signature) stream_pattern_sig_max) row_id
    check_signature signature row_id

  -- the loop over the evidence with the identifiers seen, and `_require_evidence_ids`
  unfoldable pub check_evidence : FrozenSet → List Text → Error → Result (Unit {0})
  unfolding require_bounded_printable contains add
  check_evidence seen [] row_id = ok tt
  check_evidence seen (item ∷ rest) row_id = do
    require_bounded_printable printable item stream_provenance_max_len row_id
    require (not (contains item seen)) row_id
    check_evidence (add item seen) rest row_id

  unfoldable pub require_evidence_ids : List Text → Error → Result (Unit {0})
  unfolding check_evidence
  require_evidence_ids ids row_id = do
    require (leb (length ids) pattern_ledger_evidence_max) row_id
    check_evidence [] ids row_id

  -- `PatternLedgerEntry.__post_init__`
  unfoldable pub pattern_ledger_entry : PatternLedgerEntry → Result PatternLedgerEntry
  unfolding require_bounded_printable require_signature require_evidence_ids confidence_for less
      eq_fraction
  pattern_ledger_entry e = do
    require_bounded_printable printable e.pattern_id pattern_ledger_id_max i_pledger_03
    require_signature e.signature i_pledger_03
    require_evidence_ids e.evidence_chunk_ids i_pledger_03
    require_evidence_ids e.evidence_candidate_ids i_pledger_03
    require (leb stream_pattern_recurrence_min e.recurrence_count) i_pledger_03
    require (leb e.recurrence_count stream_pattern_recurrence_max) i_pledger_03
    require (leb e.first_seen_tick e.last_seen_tick) i_pledger_03
    require (not (less e.confidence (whole 0) || less (whole 1) e.confidence)) i_pledger_03
    require (eq_fraction e.confidence (confidence_for e.recurrence_count)) i_pledger_03
    require_bounded_printable printable e.provenance stream_provenance_max_len i_pledger_03
    ok e

  unfoldable pub derive_pattern_signature : TextStreamChunk → Result (List Text)
  unfolding extract_stream_features source_value decimal numerator denominator
  derive_pattern_signature chunk = do
    features ← extract_stream_features printable is_space chunk
    ok (signature_of chunk features)

  module _ (digest : List Text → Text) where
    unfoldable pub derive_pattern_id : List Text → Result Text
    unfolding require_signature
    derive_pattern_id signature = do
      require_signature signature i_pledger_05
      ok (codes "pledger:" ++ take 16 (digest signature))

    -- the branches of `observe` once the identifier is known
    unfoldable pub observe_existing :
        PatternLedger
        → Text
        → PatternLedgerEntry
        → TextStreamChunk
        → StreamPromotionCandidate
        → ℕ
        → Result PatternLedger
    observe_existing l pattern_id existing chunk candidate current_tick = do
      new_entry ← pattern_ledger_entry (seen_again existing chunk candidate current_tick)
      pattern_ledger (replace_entry pattern_id new_entry l.entries)

    unfoldable pub observe_new :
        PatternLedger
        → Text
        → List Text
        → TextStreamChunk
        → StreamPromotionCandidate
        → ℕ
        → Result PatternLedger
    observe_new l pattern_id signature chunk candidate current_tick =
        if leb pattern_ledger_max_entries (length l.entries) then ok l else (do
          new_entry ←
              pattern_ledger_entry (seen_first pattern_id signature chunk candidate current_tick)
          pattern_ledger (l.entries ++ new_entry ∷ []))

    unfoldable pub observe_found :
        Option PatternLedgerEntry
        → PatternLedger
        → Text
        → List Text
        → TextStreamChunk
        → StreamPromotionCandidate
        → ℕ
        → Result PatternLedger
    observe_found none l pattern_id signature chunk candidate current_tick =
        observe_new l pattern_id signature chunk candidate current_tick
    observe_found (some existing) l pattern_id signature chunk candidate current_tick =
        observe_existing l pattern_id existing chunk candidate current_tick

    -- `PatternLedger.observe`
    unfoldable pub observe :
        PatternLedger → TextStreamChunk → StreamPromotionCandidate → ℕ → Result PatternLedger
    observe l chunk candidate current_tick = do
      signature ← derive_pattern_signature chunk
      pattern_id ← derive_pattern_id signature
      observe_found (find_entry pattern_id l.entries) l pattern_id signature chunk candidate
          current_tick
