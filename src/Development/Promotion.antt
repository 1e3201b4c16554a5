-- ===== src/Development/Promotion.antt =====
-- brain/development/proto_content.py and brain/development/promotion.py: the candidate for a content
-- and its promotion to a percept, with the test of a score in brain/development/drives.py. The
-- metrics that score a candidate are not modelled.
pub mod Percept
use toy_brain.Prelude.{
  ℕ, Bool, Text, codes, List, ◌∷◌, [], ◌++◌, Option, none, some, true, false, not, ◌&&◌, eq_text,
  length, leb,
}
use toy_brain.Prelude.Outcome.{
  Result, ok, ◌>>=◌, ◌>>◌, require, i_dev_05, i_dev_06, dev_id, unit_range, proto_kinds,
  proto_signature, proto_provenance,
}
use toy_brain.Development.Ids.{is_printable_id}
use toy_brain.Fraction.{Fraction, whole, ratio, leq}
use toy_brain.Kernel.Toce.{ContentState}
use toy_brain.Kernel.Io.{PerceptEvent, percept_event}
use toy_brain.Tlica.Profile.{cogito_id}

-- brain/development/stream.py
pub data FrameSourceKind : Type 0 where
  endogenous operator_injection probe_echo external generated : FrameSourceKind

abbrev pub Signature : Type 0
Signature = List (Text × Text)

pub record PromotionProvenance : Type 0 where
  pub pattern_id : Text
  pub source_kinds : List FrameSourceKind
  pub trace_event_ids : List Text

pub record ProtoContent : Type 0 where
  pub content_id : Text
  pub pattern_id : Text
  pub signature : Signature
  pub salience : Fraction
  pub stability : Fraction
  pub prediction_gain : Fraction
  pub provenance : PromotionProvenance

-- `PROMOTION_THRESHOLD`
abbrev pub promotion_threshold : Fraction
promotion_threshold = ratio 1 2

-- whether a tuple or a frozenset has a member
abbrev pub is_given {ℓ} : {A : Type ℓ} → List A → Bool
is_given [] = false
is_given (x ∷ xs) = true

unfoldable pub require_unit_fraction : Fraction → Result (Unit {0})
unfolding leq
require_unit_fraction value = require (leq (whole 0) value && leq value (whole 1)) unit_range

module _ (printable is_space : ℕ → Bool) where
  unfoldable pub require_printable_id : Text → Result (Unit {0})
  unfolding is_printable_id
  require_printable_id value = require (is_printable_id printable is_space value) dev_id

  unfoldable pub check_trace_ids : List Text → Result (Unit {0})
  unfolding require_printable_id
  check_trace_ids [] = ok tt
  check_trace_ids (event_id ∷ rest) = do require_printable_id event_id; check_trace_ids rest

  -- `PromotionProvenance.__post_init__`
  unfoldable pub promotion_provenance : PromotionProvenance → Result PromotionProvenance
  unfolding require_printable_id check_trace_ids
  promotion_provenance p = do
    require_printable_id p.pattern_id
    require (is_given p.source_kinds) proto_kinds
    check_trace_ids p.trace_event_ids
    ok p

  -- `ProtoContent.__post_init__`
  unfoldable pub proto_content : ProtoContent → Result ProtoContent
  unfolding require_printable_id require_unit_fraction
  proto_content c = do
    require_printable_id c.content_id
    require_printable_id c.pattern_id
    require (is_given c.signature) proto_signature
    require_unit_fraction c.salience
    require_unit_fraction c.stability
    require_unit_fraction c.prediction_gain
    require (eq_text c.provenance.pattern_id c.pattern_id) proto_provenance
    ok c

unfoldable pub eligible_for_promotion : ProtoContent → Bool
unfolding leq
eligible_for_promotion c =
    leq promotion_threshold c.salience
    && (leq promotion_threshold c.stability && leq promotion_threshold c.prediction_gain)

-- `f"{channel}={value}"`
abbrev pub pair_text : Text × Text → Text
pair_text (channel, value) = channel ++ codes "=" ++ value

-- `", ".join(...)` of the pairs
unfoldable pub signature_text : Signature → Text
signature_text [] = []
signature_text (pair ∷ []) = pair_text pair
signature_text (pair ∷ next ∷ rest) = pair_text pair ++ codes ", " ++ signature_text (next ∷ rest)

unfoldable pub proto_content_text : ProtoContent → Text
unfolding signature_text
proto_content_text c =
    codes "developmental content " ++ c.content_id ++ codes ": " ++ signature_text c.signature

unfoldable pub can_promote_proto_content : ProtoContent → Bool
unfolding eligible_for_promotion cogito_id
can_promote_proto_content c =
    not (eq_text c.content_id cogito_id)
    && (eligible_for_promotion c && is_given c.provenance.trace_event_ids)

abbrev pub or_default {ℓ} : {A : Type ℓ} → A → Option A → A
or_default a none = a
or_default a (some b) = b

abbrev pub default_state : ContentState
default_state = record {
  available = true;
  verification_path = true;
  retrievable = true;
  operative = true;
}

module _ (printable : ℕ → Bool) where
  unfoldable pub promote_proto_content :
      ProtoContent → Option ContentState → Option Fraction → Result PerceptEvent
  unfolding eligible_for_promotion cogito_id require_unit_fraction proto_content_text percept_event
  promote_proto_content c content_state initial_rho = do
    require (not (eq_text c.content_id cogito_id)) i_dev_06
    require (eligible_for_promotion c) i_dev_05
    require (is_given c.provenance.trace_event_ids) i_dev_05
    require_unit_fraction (or_default c.stability initial_rho)
    percept_event printable c.content_id (proto_content_text c)
        (or_default default_state content_state) (or_default c.stability initial_rho)
