-- ===== src/Development/Repl/Counts.antt =====
-- The emit counts of a history, over the appends that lead to it.
use mathlib.Core.Path.{subst}
use toy_brain.Prelude.{
  ℕ, Text, List, [], ◌∷◌, Option, none, some, true, ◌≡◌, refl, arith, ◌+◌, All, All-append, eq_text,
  if◌then◌else◌, ◌++◌, eq_text_iff, Bool-cases, ◌∙◌, sym, inl, inr, eq_text_refl, length,
  length-append,
}
use toy_brain.Prelude.Outcome.{ok}
use toy_brain.Prelude.Dict.{Dict, get, put, get-put}
use toy_brain.Kernel.Io.{has_text}
use toy_brain.Development.Repl.{Unicode}
use toy_brain.Development.Repl.Command.{ProtoBasicCommand, proto_basic_command}
use toy_brain.Development.Repl.Feedback.{ProtoBasicExecutionResult}
use toy_brain.Development.Repl.Summary.{sum_counts}
use toy_brain.Development.Repl.History.{
  ProtoBasicHistory, Entry, parse_result, command, execution_result, feedback, matching, counted,
  appended, append_history, emit_count_for, check_counts, proto_basic_history, or_zero,
}

-- one when the command of an execution has the form
abbrev hit : Text → Option ProtoBasicCommand → ℕ
hit form none = 0
hit form (some c) = if eq_text form c.canonical_form then 1 else 0

-- The executions whose command has the form, in a history's own lists.
abbrev pub executed : List ProtoBasicCommand → Text → List ProtoBasicExecutionResult → ℕ
executed commands form [] = 0
executed commands form (e ∷ rest) =
    hit form (matching e.line_id commands) + executed commands form rest

abbrev pub HasCommand : List ProtoBasicCommand → ProtoBasicExecutionResult → Type 0
HasCommand commands e = (c : ProtoBasicCommand) × (matching e.line_id commands ≡ some c)

matching-append :
    (line_id : Text) (commands : List ProtoBasicCommand) (d : ProtoBasicCommand)
    {c : ProtoBasicCommand}
    → matching line_id commands ≡ some c
    → matching line_id (commands ++ d ∷ []) ≡ some c
unfolding matching
matching-append line_id [] d h = absurd (cc h)
matching-append line_id (b ∷ commands) d h = elim (Bool-cases (eq_text b.source_line_id line_id)) [
  | inl same ↦ rw same (rw same at h)
  | inr other ↦ rw other (matching-append line_id commands d (rw other at h))
]

pub matching-last :
    (commands : List ProtoBasicCommand) (d : ProtoBasicCommand)
    → matching d.source_line_id commands ≡ none
    → matching d.source_line_id (commands ++ d ∷ []) ≡ some d
unfolding matching
matching-last [] d h = rw (eq_text_refl d.source_line_id) refl
matching-last (b ∷ commands) d h = elim (Bool-cases (eq_text b.source_line_id d.source_line_id)) [
  | inl same ↦ absurd (cc (rw same at h))
  | inr other ↦ rw other (matching-last commands d (rw other at h))
]

HasCommand-append :
    (commands : List ProtoBasicCommand) (d : ProtoBasicCommand)
    (es : List ProtoBasicExecutionResult)
    → All (HasCommand commands) es
    → All (HasCommand (commands ++ d ∷ [])) es
HasCommand-append commands d [] h = tt
HasCommand-append commands d (e ∷ es) ((c, k), h) =
    ((c, matching-append e.line_id commands d k), HasCommand-append commands d es h)

executed-command :
    (commands : List ProtoBasicCommand) (d : ProtoBasicCommand) (form : Text)
    (es : List ProtoBasicExecutionResult)
    → All (HasCommand commands) es
    → executed (commands ++ d ∷ []) form es ≡ executed commands form es
executed-command commands d form [] h = refl
executed-command commands d form (e ∷ es) ((c, k), h) =
    rw (k, matching-append e.line_id commands d k, executed-command commands d form es h) refl

executed-append :
    (commands : List ProtoBasicCommand) (form : Text) (es : List ProtoBasicExecutionResult)
    (e : ProtoBasicExecutionResult)
    → executed commands form (es ++ e ∷ [])
      ≡ executed commands form es + hit form (matching e.line_id commands)
executed-append commands form [] e = omega arith
executed-append commands form (d ∷ es) e = omega (arith, executed-append commands form es e)

pub counted-hit :
    (form : Text) (c : ProtoBasicCommand) (counts : Dict ℕ)
    → or_zero (get form (counted (some c) counts)) ≡ or_zero (get form counts) + hit form (some c)
unfolding counted
counted-hit form c counts = ground (
  arith,
  get-put c.canonical_form form (or_zero (get c.canonical_form counts) + 1) counts,
  eq_text_iff form c.canonical_form,
)

check_counts-put :
    (key : Text) (n : ℕ) (counts : Dict ℕ)
    → has_text key ≡ true
    → check_counts counts ≡ ok tt
    → check_counts (put key n counts) ≡ ok tt
unfolding check_counts put
check_counts-put key n [] given h = ground (arith, given)
check_counts-put key n ((k, m) ∷ counts) given h =
    ground (arith, given, h, check_counts-put key n counts given)

check_counts-counted :
    (c : ProtoBasicCommand) (counts : Dict ℕ)
    → has_text c.canonical_form ≡ true
    → check_counts counts ≡ ok tt
    → check_counts (counted (some c) counts) ≡ ok tt
unfolding counted
check_counts-counted c counts given h = check_counts-put c.canonical_form _ counts given h

counts-step :
    (commands : List ProtoBasicCommand) (form : Text) (es : List ProtoBasicExecutionResult)
    (e : ProtoBasicExecutionResult) {c : ProtoBasicCommand} {n : ℕ}
    → matching e.line_id commands ≡ some c
    → n ≡ executed commands form es
    → n + hit form (some c) ≡ executed commands form (es ++ e ∷ [])
counts-step commands form es e k same = rw (executed-append commands form es e, k, same) refl

sum_counts-put :
    (key : Text) (n : ℕ) (counts : Dict ℕ)
    → sum_counts (put key n counts) + or_zero (get key counts) ≡ sum_counts counts + n
unfolding sum_counts get put
sum_counts-put key n [] = omega arith
sum_counts-put key n ((k, m) ∷ counts) = elim (Bool-cases (eq_text key k)) [
  | inl same ↦ rw same (omega arith)
  | inr other ↦ rw other (omega (arith, sum_counts-put key n counts))
]

sum-step :
    (c : ProtoBasicCommand) (counts : Dict ℕ) (es : List ProtoBasicExecutionResult)
    (e : ProtoBasicExecutionResult)
    → sum_counts counts ≡ length es
    → sum_counts (counted (some c) counts) ≡ length (es ++ e ∷ [])
unfolding counted
sum-step c counts es e h = omega (
  arith,
  sum_counts-put c.canonical_form (or_zero (get c.canonical_form counts) + 1) counts,
  length-append es (e ∷ []),
  h,
)

form_given :
    (u : Unicode) (c : ProtoBasicCommand)
    → proto_basic_command u c ≡ ok c
    → has_text c.canonical_form ≡ true
unfolding proto_basic_command
form_given u c h = ground (arith, h)

module _ (u : Unicode) where
  -- what an entry has to be for the history
  abbrev pub IsReady : ProtoBasicHistory → Entry → Type 0
  IsReady h (command c) = proto_basic_command u c ≡ ok c
  IsReady h (execution_result e) = HasCommand h.commands e
  IsReady h other = Unit

  pub record IsHistory (h : ProtoBasicHistory) : Type 0 where
    pub commands_accepted : All (λ c. proto_basic_command u c ≡ ok c) h.commands
    pub known : All (HasCommand h.commands) h.execution_results
    pub counts :
        (form : Text) → emit_count_for h form ≡ executed h.commands form h.execution_results
    pub accepted : check_counts h.emit_counts ≡ ok tt
    pub total : sum_counts h.emit_counts ≡ length h.execution_results

  matching-accepted :
      (line_id : Text) (commands : List ProtoBasicCommand) {c : ProtoBasicCommand}
      → All (λ c. proto_basic_command u c ≡ ok c) commands
      → matching line_id commands ≡ some c
      → has_text c.canonical_form ≡ true
  unfolding matching
  matching-accepted line_id [] h k = absurd (cc k)
  matching-accepted line_id (b ∷ commands) {c} h k =
      elim (Bool-cases (eq_text b.source_line_id line_id)) [
        | inl same ↦
            let e : some b ≡ some c = rw same at k in
            let e' : b ≡ c = cc e in
            subst (λ (c : ProtoBasicCommand). has_text c.canonical_form ≡ true) e'
              (form_given u b h.0)
        | inr other ↦ matching-accepted line_id commands h.1 (rw other at k)
      ]

  -- Take a well formed history: its constructor and that of its commands accept them, every
  -- execution has a command of its line, the count of each canonical form is the number of
  -- executions whose first command has the form, and the counts add up to the number of executions.
  -- Append a parse, a feedback, an accepted command, or an execution whose line has a command.
  -- `append_history` returns the new history, and it is well formed.
  pub append-IsHistory :
      (h : ProtoBasicHistory) (entry : Entry)
      → IsHistory h
      → IsReady h entry
      → (append_history h entry ≡ ok (appended h entry)) × IsHistory (appended h entry)
  unfolding append_history appended proto_basic_history emit_count_for
  append-IsHistory h (parse_result p) i ready = (
    rw i.accepted refl,
    record {
      commands_accepted = i.commands_accepted;
      known = i.known;
      counts = i.counts;
      accepted = i.accepted;
      total = i.total;
    },
  )
  append-IsHistory h (feedback f) i ready = (
    rw i.accepted refl,
    record {
      commands_accepted = i.commands_accepted;
      known = i.known;
      counts = i.counts;
      accepted = i.accepted;
      total = i.total;
    },
  )
  append-IsHistory h (command c) i ready = (
    rw i.accepted refl,
    record {
      commands_accepted =
          All-append (λ (c : ProtoBasicCommand). proto_basic_command u c ≡ ok c) h.commands (c ∷ [])
            i.commands_accepted (ready, tt);
      known = HasCommand-append h.commands c h.execution_results i.known;
      counts = λ form.
          i.counts form ∙ sym (executed-command h.commands c form h.execution_results i.known);
      accepted = i.accepted;
      total = i.total;
    },
  )
  append-IsHistory h (execution_result e) i (c, k) =
      let given = matching-accepted e.line_id h.commands i.commands_accepted k in
      let fine = check_counts-counted c h.emit_counts given i.accepted in
      rw k (
        rw fine refl,
        record {
          commands_accepted = i.commands_accepted;
          known =
              All-append (HasCommand h.commands) h.execution_results (e ∷ []) i.known ((c, k), tt);
          counts = λ form.
              counted-hit form c h.emit_counts
              ∙ counts-step h.commands form h.execution_results e k (i.counts form);
          accepted = fine;
          total = sum-step c h.emit_counts h.execution_results e i.total;
        },
      )
