-- ===== src/Examples/Promoting.antt =====
-- A candidate that is promoted.
use toy_brain.Prelude.{◌≡◌, refl, ℕ, codes, true, ◌∷◌, [], leb, arith, none, ◌↔◌, eq_text, Bool}
use toy_brain.Prelude.Outcome.{ok}
use toy_brain.Fraction.{ratio, leq}
use toy_brain.Llm.Parse.{strip}
use toy_brain.Development.Ids.{IsTable, is_printable_id}
use toy_brain.Kernel.Io.{PerceptEvent, IsPercept}
use toy_brain.Development.Promotion.{
  ProtoContent, external, can_promote_proto_content, promote_proto_content, proto_content,
  require_printable_id, require_unit_fraction,
}
use toy_brain.Development.Promotion.Percept.{percept_of, promote_proto_content_iff, IsAccepted}

abbrev letters : ℕ → Bool
letters c = leb 32 c

abbrev blanks : ℕ → Bool
blanks c = leb c 32

letters-IsTable : IsTable letters blanks
letters-IsTable = record { ascii = λ c h. ground arith; visible = λ c h. ground arith }

abbrev warmth : ProtoContent
warmth = record {
  content_id = codes "dev:0a";
  pattern_id = codes "p1";
  signature = (codes "heat", codes "high") ∷ [];
  salience = ratio 3 4;
  stability = ratio 2 3;
  prediction_gain = ratio 1 2;
  provenance = record {
    pattern_id = codes "p1";
    source_kinds = external ∷ [];
    trace_event_ids = codes "t1" ∷ [];
  };
}

warmth-IsAccepted : IsAccepted letters-IsTable warmth
unfolding proto_content require_printable_id require_unit_fraction is_printable_id eq_text strip leq
warmth-IsAccepted = refl

promote_proto_content_iff_example : (can_promote_proto_content warmth ≡ true) ↔ (
    (e : PerceptEvent) × (promote_proto_content letters warmth none none ≡ ok e)
    × (e ≡ percept_of letters-IsTable warmth)
    × IsPercept e)
promote_proto_content_iff_example =
    promote_proto_content_iff letters-IsTable warmth warmth-IsAccepted ((refl, refl), tt)

warmth_promoted : can_promote_proto_content warmth ≡ true
unfolding can_promote_proto_content eq_text
warmth_promoted = refl
