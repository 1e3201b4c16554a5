-- ===== src/Development/Repl/Score.antt =====
-- The valence of feedback: its range, and what a strong one takes.
use toy_brain.Prelude.{ℕ, Option, none, some, true, ◌≡◌, refl, arith, ◌↔◌, ◌≤◌, ◌*◌, ◌+◌}
use toy_brain.Prelude.Outcome.{ok, i_repl_07}
use toy_brain.Fraction.{Fraction, leq, whole, ratio, mul, eq_fraction}
use toy_brain.Development.Repl.{
  Unicode, ProtoBasicParseResult, ProtoBasicParseCategory, proto_basic_parse_result,
  require_non_reserved_id, valid, near_miss,
}
use toy_brain.Development.Repl.Feedback.{
  ProtoBasicExecutionResult, ProtoBasicExecutionCategory, ProtoBasicFeedback,
  ProtoBasicFeedbackProvenance, proto_basic_execution_result, score_feedback, valid_effective,
  negative, proto_basic_strong_positive_threshold, diminishing_returns_factor, execution_valence,
  require_proto_basic_valence, proto_basic_feedback, parse_valence_table, execution_feedback,
  parse_feedback,
}

-- whether a valence is strong
abbrev pub IsStrong : Fraction → Type 0
IsStrong q = leq proto_basic_strong_positive_threshold q ≡ true

abbrev pub InRange : Fraction → Type 0
InRange q = (leq (negative 1 1) q ≡ true) × (leq q (whole 1) ≡ true)

execution-InRange :
    (c : ProtoBasicExecutionCategory) (factor : Fraction)
    → leq (whole 0) factor ≡ true
    → leq factor (whole 1) ≡ true
    → InRange (execution_valence c factor)
unfolding execution_valence leq mul
execution-InRange valid_effective factor low high = (ground (arith, low), ground (arith, low, high))
execution-InRange _ factor low high = (refl, refl)

execution-IsStrong :
    (c : ProtoBasicExecutionCategory) (factor : Fraction)
    → IsStrong (execution_valence c factor)
      ↔ ((c ≡ valid_effective) × (leq (ratio 1 5) factor ≡ true))
unfolding execution_valence leq mul
execution-IsStrong valid_effective factor =
    (λ h. (refl, ground (arith, h)), λ (e, h). ground (arith, h))
execution-IsStrong _ factor = (λ h. absurd (cc h), λ (e, h). absurd (cc e))

parse-InRange : (c : ProtoBasicParseCategory) → InRange (parse_valence_table c)
unfolding leq
parse-InRange valid = (refl, refl)
parse-InRange near_miss = (refl, refl)
parse-InRange ProtoBasicParseCategory.sandbox_fault = (refl, refl)
parse-InRange _ = (refl, refl)

parse-weak : (c : ProtoBasicParseCategory) → IsStrong (parse_valence_table c) → ⊥
unfolding leq
parse-weak valid h = cc h
parse-weak near_miss h = cc h
parse-weak ProtoBasicParseCategory.sandbox_fault h = cc h
parse-weak _ h = cc h

module _ (u : Unicode) where
  named_execution :
      (e : ProtoBasicExecutionResult)
      → proto_basic_execution_result u e ≡ ok e
      → require_non_reserved_id u e.line_id i_repl_07 ≡ ok tt
  unfolding proto_basic_execution_result require_non_reserved_id
  named_execution e h = ground (arith, h)

  named_parse :
      (p : ProtoBasicParseResult)
      → proto_basic_parse_result u p ≡ ok p
      → require_non_reserved_id u p.line_id i_repl_07 ≡ ok tt
  unfolding proto_basic_parse_result require_non_reserved_id
  named_parse p h = ground (arith, h)

  module _ (provenance : ProtoBasicFeedbackProvenance) (factor : Fraction)
      (low : leq (whole 0) factor ≡ true) (high : leq factor (whole 1) ≡ true) where
    score_execution-bounds :
        (e : ProtoBasicExecutionResult)
        → proto_basic_execution_result u e ≡ ok e
        → (f : ProtoBasicFeedback) × (score_feedback u none (some e) provenance factor ≡ ok f)
          × InRange f.valence
          × (IsStrong f.valence
              ↔ ((f.execution_category ≡ some valid_effective) × (leq (ratio 1 5) factor ≡ true)))
    unfolding score_feedback require_proto_basic_valence proto_basic_feedback execution_feedback
    score_execution-bounds e accepted =
        let (least, most) = execution-InRange e.category factor low high in
        let (strong, back) = execution-IsStrong e.category factor in
        (
          execution_feedback e provenance factor,
          rw (low, high, least, most, named_execution e accepted) refl,
          (least, most),
          (
            λ h. let (c, enough) = strong h in (rw c refl, enough),
            λ (c, enough). back (cc c, enough),
          ),
        )

    -- feedback on a parse is never strong
    pub score_parse-weak :
        (p : ProtoBasicParseResult)
        → require_non_reserved_id u p.line_id i_repl_07 ≡ ok tt
        → (f : ProtoBasicFeedback) × (score_feedback u (some p) none provenance factor ≡ ok f)
          × (IsStrong f.valence → ⊥)
    unfolding score_feedback require_proto_basic_valence proto_basic_feedback
    score_parse-weak p named =
        let (least, most) = parse-InRange p.category in
        (
          parse_feedback p provenance,
          rw (low, high, least, most, named) refl,
          parse-weak p.category,
        )

    score_parse-bounds :
        (p : ProtoBasicParseResult)
        → proto_basic_parse_result u p ≡ ok p
        → (f : ProtoBasicFeedback) × (score_feedback u (some p) none provenance factor ≡ ok f)
          × InRange f.valence
          × (IsStrong f.valence
              ↔ ((f.execution_category ≡ some valid_effective) × (leq (ratio 1 5) factor ≡ true)))
    unfolding score_feedback require_proto_basic_valence proto_basic_feedback
    score_parse-bounds p accepted =
        let (least, most) = parse-InRange p.category in
        (
          parse_feedback p provenance,
          rw (low, high, least, most, named_parse p accepted) refl,
          (least, most),
          (λ h. absurd (parse-weak p.category h), λ (c, enough). absurd (cc c)),
        )

  -- one source is given, and it is accepted
  unfoldable pub IsScored : Option ProtoBasicParseResult → Option ProtoBasicExecutionResult → Type 0
  IsScored (some p) none = proto_basic_parse_result u p ≡ ok p
  IsScored none (some e) = proto_basic_execution_result u e ≡ ok e
  IsScored _ _ = ⊥

  -- Let one accepted source be given, a parse or an execution, and a factor between 0 and 1.
  -- `score_feedback` returns a feedback whose valence lies between -1 and 1. It is strong exactly
  -- when it is of a valid-effective execution and the factor is at least 1/5.
  pub score_feedback-IsStrong :
      (p : Option ProtoBasicParseResult) (e : Option ProtoBasicExecutionResult)
      (provenance : ProtoBasicFeedbackProvenance) (factor : Fraction)
      → IsScored p e
      → leq (whole 0) factor ≡ true
      → leq factor (whole 1) ≡ true
      → (f : ProtoBasicFeedback) × (score_feedback u p e provenance factor ≡ ok f)
        × InRange f.valence
        × (IsStrong f.valence
            ↔ ((f.execution_category ≡ some valid_effective) × (leq (ratio 1 5) factor ≡ true)))
  unfolding IsScored
  score_feedback-IsStrong (some p) none provenance factor h low high =
      score_parse-bounds provenance factor low high p h
  score_feedback-IsStrong none (some e) provenance factor h low high =
      score_execution-bounds provenance factor low high e h
  score_feedback-IsStrong (some p) (some e) provenance factor h low high = absurd h
  score_feedback-IsStrong none none provenance factor h low high = absurd h

  -- the factor of a count is a fraction of the unit interval
  factor_low : (n : ℕ) → leq (whole 0) (diminishing_returns_factor n) ≡ true
  unfolding leq diminishing_returns_factor
  factor_low n = ground arith

  factor_high : (n : ℕ) → leq (diminishing_returns_factor n) (whole 1) ≡ true
  unfolding leq diminishing_returns_factor
  factor_high n = ground arith

  factor_fifth : (n : ℕ) → (leq (ratio 1 5) (diminishing_returns_factor n) ≡ true) ↔ (n ≤ 4)
  unfolding leq diminishing_returns_factor
  factor_fifth n = (λ h. ground (arith, h), λ h. ground (arith, h))

  half_factor :
      (n : ℕ)
      → eq_fraction
          (execution_valence valid_effective (diminishing_returns_factor n))
          (ratio 1 (2 * n + 2))
        ≡ true
  unfolding eq_fraction execution_valence mul diminishing_returns_factor
  half_factor n = ground arith

  pub score_feedback-repeated :
      (e : ProtoBasicExecutionResult) (provenance : ProtoBasicFeedbackProvenance) (n : ℕ)
      → proto_basic_execution_result u e ≡ ok e
      → e.category ≡ valid_effective
      → (f : ProtoBasicFeedback) × (score_feedback u none
            (some e)
            provenance
            (diminishing_returns_factor n)
          ≡ ok f)
        × (eq_fraction f.valence (ratio 1 (2 * n + 2)) ≡ true)
        × (IsStrong f.valence ↔ (n ≤ 4))
  unfolding score_feedback require_proto_basic_valence proto_basic_feedback execution_feedback
  score_feedback-repeated e provenance n accepted effective =
      let factor = diminishing_returns_factor n in
      let (least, most) = execution-InRange e.category factor (factor_low n) (factor_high n) in
      let (strong, back) = execution-IsStrong e.category factor in
      let (few, back') = factor_fifth n in
      (
        execution_feedback e provenance factor,
        rw (factor_low n, factor_high n, least, most, named_execution e accepted) refl,
        rw effective (half_factor n),
        (λ h. few (strong h).1, λ h. back (effective, back' h)),
      )
