-- ===== src/Examples/Streams.antt =====
-- Runs of the text stream and of the pattern ledger.
use Prim.Native.Nat.{min}
use toy_brain.Prelude.{
  ◌≡◌, refl, ◌↔◌, ℕ, List, Bool, arith, codes, [], ◌∷◌, Text, leb, eq_text, length, none, some, ◌+◌,
  true, ◌++◌,
}
use toy_brain.Prelude.Outcome.{ok, raise, i_strm_05}
use toy_brain.Development.Ids.{
  IsTable, is_printable_id, text_is_acceptable, require_bounded_printable,
}
use toy_brain.Development.Stream.{
  TextStreamChunk, TextStreamHistory, TextStreamSource, stream_history_max_chunks, IsChunk,
}
use toy_brain.Development.Stream.Ring.{append_chunks, newest, append_chunks-newest}
use toy_brain.Development.Features.{
  extract_stream_features, features_of, HasBounds, AllDistinct, extract_stream_features_returns,
}
use toy_brain.Development.Segments.{
  extract_segment_candidates, SegmentCandidate, stream_segments_max,
}
use toy_brain.Development.Patterns.{
  StreamPromotionCandidate, stream_promotion_candidate, check_pattern_id,
}
use toy_brain.Development.Ledger.Signature.{IsAsciiDigest, pattern_id_of, derived_signature}
use toy_brain.Development.Ledger.{
  PatternLedger, find_entry, PatternLedgerEntry, seen_first, observe, seen_again,
}
use toy_brain.Development.Ledger.Observe.{IsLedger, IsUpdate}
use toy_brain.Development.Ledger.Count.{
  Observation, IsObservation, observe_all, Counted, matches, observe_all-count,
}
use toy_brain.Development.Segments.Lines.{segments_raise, segment_texts, segments_cover}
use toy_brain.Tlica.Profile.{cogito_id}
use toy_brain.Fraction.{eq_fraction, whole}
use toy_brain.Development.Ledger.Branches.{observe_fresh, observe_known, IsCandidate, IsSeenAgain}
use toy_brain.Llm.Parse.{strip}
use toy_brain.Development.Segments.Cover.{glue_lines}

abbrev table : ℕ → Bool
table c = leb 32 c

abbrev spaces : ℕ → Bool
spaces c = leb c 32

table-IsTable : IsTable table spaces
table-IsTable = record { ascii = λ c h. ground arith; visible = λ c h. ground arith }

abbrev bread : TextStreamChunk
bread = record {
  chunk_id = codes "c1";
  text = codes "bread\nand water";
  source = TextStreamSource.operator;
  provenance = codes "table";
}

bread-IsChunk : IsChunk table spaces bread
unfolding is_printable_id text_is_acceptable eq_text cogito_id strip
bread-IsChunk = record {
  id_given = refl;
  id_short = refl;
  id_free = refl;
  text_given = refl;
  text_accepted = refl;
  text_short = refl;
  text_free = refl;
  provenance_bounded = (refl, refl, refl, refl);
}

abbrev empty_history : TextStreamHistory
empty_history = record { chunks = [] }

append_chunks-newest_example :
    append_chunks empty_history (bread ∷ bread ∷ [])
    ≡ ok (record { chunks = newest stream_history_max_chunks (bread ∷ bread ∷ []) })
append_chunks-newest_example = append_chunks-newest empty_history (bread ∷ bread ∷ []) (omega arith)

extract_stream_features_returns_example :
    (extract_stream_features table spaces bread ≡ ok (features_of table spaces bread))
    × HasBounds table spaces (features_of table spaces bread)
    × ((eq_fraction (features_of table spaces bread).repeat_ratio (whole 0) ≡ true)
        ↔ AllDistinct bread.text)
extract_stream_features_returns_example =
    extract_stream_features_returns table spaces bread bread-IsChunk

segments_cover_example :
    (segments : List SegmentCandidate) × (more : List Text) × (extract_segment_candidates table
        spaces bread
      ≡ ok segments)
    × (length segments ≡ min stream_segments_max (features_of table spaces bread).line_count)
    × (length segments + length more ≡ (features_of table spaces bread).line_count)
    × (glue_lines (segment_texts bread.text segments ++ more) ≡ bread.text)
segments_cover_example = segments_cover table spaces bread bread-IsChunk table-IsTable (omega arith)

-- A chunk whose identifier is accepted, and too long for its segments.
abbrev long_bread : TextStreamChunk
long_bread = record bread {
  chunk_id = codes "chunk-0123456789-0123456789-0123456789-0123456789-0123456789";
}

long_bread-IsChunk : IsChunk table spaces long_bread
unfolding is_printable_id text_is_acceptable eq_text cogito_id strip
long_bread-IsChunk = record {
  id_given = refl;
  id_short = refl;
  id_free = refl;
  text_given = refl;
  text_accepted = refl;
  text_short = refl;
  text_free = refl;
  provenance_bounded = (refl, refl, refl, refl);
}

segments_raise_example : extract_segment_candidates table spaces long_bread ≡ raise i_strm_05
segments_raise_example = segments_raise table spaces long_bread long_bread-IsChunk (omega arith)

abbrev promoted : StreamPromotionCandidate
promoted = record {
  candidate_id = codes "p1";
  target_content_id = codes "bread";
  source = TextStreamSource.operator;
  chunk_id = codes "c1";
  text = codes "bread";
  provenance = codes "table";
  pattern_id = none;
}

promoted-IsCandidate : IsCandidate table spaces promoted
unfolding stream_promotion_candidate is_printable_id text_is_acceptable eq_text cogito_id strip
    require_bounded_printable check_pattern_id
promoted-IsCandidate = record { constructed = refl; free = refl }

abbrev digest : List Text → Text
digest s = codes "00ff00ff00ff00ff00ff"

digest-IsAscii : IsAsciiDigest digest
digest-IsAscii s = refl

abbrev nothing : PatternLedger
nothing = record { entries = [] }

nothing-IsLedger : IsLedger table spaces nothing
nothing-IsLedger = record { bounded = omega arith; entries = tt; distinct = tt }

bread_unknown : find_entry (pattern_id_of table spaces digest bread) nothing.entries ≡ none
unfolding find_entry
bread_unknown = refl

abbrev first_bread : PatternLedgerEntry
first_bread =
    seen_first (pattern_id_of table spaces digest bread) (derived_signature table spaces bread)
      bread promoted 3

observe_fresh_example :
    (l' : PatternLedger) × (observe table spaces digest nothing bread promoted 3 ≡ ok l')
    × IsUpdate table spaces nothing l' first_bread
observe_fresh_example =
    observe_fresh table spaces digest table-IsTable digest-IsAscii bread bread-IsChunk promoted
      promoted-IsCandidate 3 nothing nothing-IsLedger bread_unknown (omega arith)

abbrev known : PatternLedger
known = observe_fresh_example.0

known-found : find_entry (pattern_id_of table spaces digest bread) known.entries ≡ some first_bread
unfolding seen_first
known-found = observe_fresh_example.2.found

observe_known_example :
    (l' : PatternLedger) × (observe table spaces digest known bread promoted 5 ≡ ok l')
    × IsUpdate table spaces known l' (seen_again first_bread bread promoted 5)
    × IsSeenAgain first_bread bread promoted 5 (seen_again first_bread bread promoted 5)
observe_known_example =
    observe_known table spaces digest table-IsTable digest-IsAscii bread bread-IsChunk promoted
      promoted-IsCandidate 5 known observe_fresh_example.2.valid first_bread known-found

abbrev observation : Observation
observation = record { chunk = bread; candidate = promoted; tick = 6 }

observation-IsObservation : IsObservation table spaces digest observation
observation-IsObservation = record { chunk = bread-IsChunk; candidate = promoted-IsCandidate }

observe_all-count_example :
    (l' : PatternLedger) × (observe_all table spaces digest known (observation ∷ observation ∷ [])
      ≡ ok l')
    × IsLedger table spaces l'
    × Counted table spaces digest known l' (pattern_id_of table spaces digest bread) (
        matches table spaces digest
          (pattern_id_of table spaces digest bread)
          (observation ∷ observation ∷ []))
observe_all-count_example =
    observe_all-count table spaces digest table-IsTable digest-IsAscii known
      (observation ∷ observation ∷ []) (pattern_id_of table spaces digest bread)
      observe_fresh_example.2.valid (observation-IsObservation, (observation-IsObservation, tt))
