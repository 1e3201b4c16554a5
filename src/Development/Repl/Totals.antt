-- ===== src/Development/Repl/Totals.antt =====
-- The summary of a well formed history counts every entry once.
use toy_brain.Prelude.{
  ℕ, Text, List, [], ◌∷◌, true, ◌≡◌, refl, arith, all, all-append, ◌+◌, length, codes,
  if◌then◌else◌, Bool-cases, ◌==◌, inl, inr,
}
use toy_brain.Prelude.Decimal.{decimal, all-decimal, is_digit}
use toy_brain.Prelude.Dict.{Dict, get}
use toy_brain.Prelude.Outcome.{ok}
use toy_brain.Kernel.Io.{has_text}
use toy_brain.Development.Ids.{IsTable, all-ascii, strip-visible, is_ascii}
use toy_brain.Development.Repl.{Unicode, ProtoBasicParseCategory, ProtoBasicParseResult}
use toy_brain.Development.Repl.Feedback.{ProtoBasicExecutionCategory, ProtoBasicExecutionResult}
use toy_brain.Development.Repl.History.{ProtoBasicHistory, check_counts, emit_count_for, or_zero}
use toy_brain.Development.Repl.Counts.{IsHistory, executed}
use toy_brain.Development.Repl.Summary.{
  ProtoBasicHistorySummary, count_parses, count_executions, sum_counts, sketch, top_sketch,
  summarize_repl_history, proto_basic_history_summary, most_repeated, check_keys, closing_text,
  unused_text, factor_text, parse_place, execution_place,
}
use toy_brain.Llm.Parse.{strip}

abbrev pub parse_sum : (ProtoBasicParseCategory → ℕ) → ℕ
parse_sum f =
    f ProtoBasicParseCategory.valid
    + f ProtoBasicParseCategory.near_miss
    + f ProtoBasicParseCategory.syntax_invalid
    + f ProtoBasicParseCategory.semantic_invalid
    + f ProtoBasicParseCategory.tool_unavailable
    + f ProtoBasicParseCategory.resource_limit
    + f ProtoBasicParseCategory.sandbox_fault

abbrev pub execution_sum : (ProtoBasicExecutionCategory → ℕ) → ℕ
execution_sum f =
    f ProtoBasicExecutionCategory.valid_effective
    + f ProtoBasicExecutionCategory.valid_ineffective
    + f ProtoBasicExecutionCategory.tool_unavailable
    + f ProtoBasicExecutionCategory.resource_limit
    + f ProtoBasicExecutionCategory.sandbox_fault

parse_step :
    (c : ProtoBasicParseCategory) (f : ProtoBasicParseCategory → ℕ)
    → parse_sum (λ d. if parse_place c == parse_place d then f d + 1 else f d) ≡ parse_sum f + 1
parse_step ProtoBasicParseCategory.valid f = omega arith
parse_step ProtoBasicParseCategory.near_miss f = omega arith
parse_step ProtoBasicParseCategory.syntax_invalid f = omega arith
parse_step ProtoBasicParseCategory.semantic_invalid f = omega arith
parse_step ProtoBasicParseCategory.tool_unavailable f = omega arith
parse_step ProtoBasicParseCategory.resource_limit f = omega arith
parse_step ProtoBasicParseCategory.sandbox_fault f = omega arith

execution_step :
    (c : ProtoBasicExecutionCategory) (f : ProtoBasicExecutionCategory → ℕ)
    → execution_sum (λ d. if execution_place c == execution_place d then f d + 1 else f d)
      ≡ execution_sum f + 1
execution_step ProtoBasicExecutionCategory.valid_effective f = omega arith
execution_step ProtoBasicExecutionCategory.valid_ineffective f = omega arith
execution_step ProtoBasicExecutionCategory.tool_unavailable f = omega arith
execution_step ProtoBasicExecutionCategory.resource_limit f = omega arith
execution_step ProtoBasicExecutionCategory.sandbox_fault f = omega arith

parse_sum-count : (ps : List ProtoBasicParseResult) → parse_sum (count_parses ps) ≡ length ps
unfolding count_parses
parse_sum-count [] = refl
parse_sum-count (p ∷ ps) =
    omega (arith, parse_step p.category (count_parses ps), parse_sum-count ps)

execution_sum-count :
    (es : List ProtoBasicExecutionResult) → execution_sum (count_executions es) ≡ length es
unfolding count_executions
execution_sum-count [] = refl
execution_sum-count (e ∷ es) =
    omega (arith, execution_step e.category (count_executions es), execution_sum-count es)

keys_given : (counts : Dict ℕ) → check_counts counts ≡ ok tt → check_keys counts ≡ true
unfolding check_counts
keys_given [] h = refl
keys_given ((key, n) ∷ counts) h = ground (arith, h, keys_given counts)

digit_ascii : (s : Text) → all is_digit s ≡ true → all is_ascii s ≡ true
digit_ascii [] h = refl
digit_ascii (c ∷ s) h = ground (arith, h, digit_ascii s)

module _ (u : Unicode) (table : IsTable u.printable u.is_space) (repr : Text → Text)
    (escaped : (s : Text) → all u.printable (repr s) ≡ true) where
  plain : (s : Text) → all is_ascii s ≡ true → all u.printable s ≡ true
  plain s h = all-ascii table s h

  number : (n : ℕ) → all u.printable (decimal n) ≡ true
  number n = plain (decimal n) (digit_ascii (decimal n) (all-decimal n))

  factor_printable : (n : ℕ) → all u.printable (factor_text n) ≡ true
  factor_printable n = elim (Bool-cases (n == 0)) [
    | inl same ↦ rw same (plain (codes "1") refl)
    | inr other ↦ rw other (
        all-append u.printable (codes "1/") (decimal (n + 1)) (plain (codes "1/") refl)
          (number (n + 1)))
  ]

  top_printable : (top : Text × ℕ) → all u.printable (top_sketch repr top) ≡ true
  unfolding top_sketch
  top_printable (form, count) =
      all-append u.printable (codes "anti-goodhart: most-repeated canonical form ") _
        (plain (codes "anti-goodhart: most-repeated canonical form ") refl)
        (all-append u.printable (repr form) _ (escaped form) (
          all-append u.printable (codes " has emit_count=") _
            (plain (codes " has emit_count=") refl)
            (all-append u.printable (decimal count) _ (number count) (
              all-append u.printable (codes "; diminishing_returns_factor=") _
                (plain (codes "; diminishing_returns_factor=") refl)
                (all-append u.printable (factor_text count) closing_text (factor_printable count)
                  (plain closing_text refl))))))

  sketch_accepted :
      (counts : Dict ℕ)
      → (all u.printable (sketch repr counts) ≡ true)
        × (has_text (strip u.is_space (sketch repr counts)) ≡ true)
  unfolding sketch top_sketch
  sketch_accepted [] = (plain unused_text refl, strip-visible table 97 _ refl)
  sketch_accepted ((key, n) ∷ counts) =
      (top_printable (most_repeated (key, n) counts), strip-visible table 97 _ refl)

  -- Let the Unicode tables read ASCII as usual and `repr` give printable texts. For a well formed
  -- history `summarize_repl_history` returns a summary. Its counts by parse category add up to the
  -- number of parses, those by execution category and those by canonical form each to the number of
  -- executions, and the count of each form is the number of executions whose first command has it.
  pub summarize_repl_history-totals :
      (h : ProtoBasicHistory)
      → IsHistory u h
      → (s : ProtoBasicHistorySummary) × (summarize_repl_history u repr h ≡ ok s)
        × (parse_sum s.parse_counts ≡ length h.parse_results)
        × (execution_sum s.execution_counts ≡ length h.execution_results)
        × (sum_counts s.emit_counts ≡ length h.execution_results)
        × ((form : Text)
            → or_zero (get form s.emit_counts) ≡ executed h.commands form h.execution_results)
  unfolding summarize_repl_history proto_basic_history_summary emit_count_for
  summarize_repl_history-totals h fine =
      let (printed, visible) = sketch_accepted h.emit_counts in
      (
        record {
          parse_counts = count_parses h.parse_results;
          execution_counts = count_executions h.execution_results;
          emit_counts = h.emit_counts;
          anti_goodhart_sketch = sketch repr h.emit_counts;
        },
        rw (keys_given h.emit_counts fine.accepted, printed, visible) refl,
        parse_sum-count h.parse_results,
        execution_sum-count h.execution_results,
        fine.total,
        fine.counts,
      )
