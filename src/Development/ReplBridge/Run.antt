-- ===== src/Development/ReplBridge/Run.antt =====
-- What `run_repl_line` does with a line, after the history that it is given.
use mathlib.Core.Path.{subst}
use toy_brain.Prelude.{
  ℕ, Text, [], ◌∷◌, true, false, ◌≡◌, refl, arith, all, all-append, codes, ◌++◌, eq_text, inl, inr,
  Bool, sym, ap, leb, length, Bool-cases, ◌↔◌,
}
use toy_brain.Prelude.Outcome.{ok, Error, i_repl_12, Result, i_repl_02, require, ◌>>◌, raise}
use toy_brain.Prelude.FrozenSet.{contains}
use toy_brain.Tlica.Profile.{cogito_id}
use toy_brain.Development.Ids.{is_printable_id, IsTable, all-ascii, strip-visible}
use toy_brain.Development.Promotion.{require_printable_id}
use toy_brain.Development.Repl.{
  Unicode, require_non_reserved_id, ProtoBasicLine, tokenize, proto_basic_line,
  ProtoBasicParseCategory, valid, check_pieces, proto_basic_max_line_length,
  proto_basic_max_line_tokens, cut_pieces,
}
use toy_brain.Development.Repl.Command.{proto_basic_reserved_command_ids, is_valid}
use toy_brain.Llm.Parse.{split_from}
use toy_brain.Development.ReplBridge.{after_last_colon, agent_repl_command_id_prefix, starts_with}
use toy_brain.Kernel.Io.{has_text}

after_last_colon-all :
    (p : ℕ → Bool) (s : Text) → all p s ≡ true → all p (after_last_colon s) ≡ true
unfolding after_last_colon
after_last_colon-all p [] h = refl
after_last_colon-all p (c ∷ s) h = ground (arith, h, after_last_colon-all p s)

pub is_valid_iff : (c : ProtoBasicParseCategory) → (is_valid c ≡ true) ↔ (c ≡ valid)
is_valid_iff valid = (λ h. refl, λ h. refl)
is_valid_iff _ = (λ h. absurd (cc h), λ h. absurd (cc h))

pub starts_with-has_text :
    (c : ℕ) (prefix s : Text) → starts_with (c ∷ prefix) s ≡ true → has_text s ≡ true
unfolding starts_with
starts_with-has_text c prefix [] h = absurd (cc h)
starts_with-has_text c prefix (d ∷ s) h = refl

statement-ok :
    {A : Type 0} (statement : Result (Unit {0})) {rest : Result A} {a : A}
    → statement >> rest ≡ ok a
    → rest ≡ ok a
statement-ok (ok tt) h = h
statement-ok (raise x) h = absurd (cc h)

-- the identifier of a command is none of the reserved ones
pub command_id_free :
    (s : Text)
    → contains (agent_repl_command_id_prefix ++ s) proto_basic_reserved_command_ids ≡ false
unfolding contains eq_text cogito_id
command_id_free s = refl

module _ (u : Unicode) where
  pub rename_row :
      (id : Text) (a b : Error)
      → require_non_reserved_id u id a ≡ ok tt
      → require_non_reserved_id u id b ≡ ok tt
  unfolding require_non_reserved_id
  rename_row id a b h = ground (arith, h)

  id_printable :
      (id : Text) (row : Error)
      → require_non_reserved_id u id row ≡ ok tt
      → all u.printable id ≡ true
  unfolding require_non_reserved_id require_printable_id is_printable_id
  id_printable id row h = ground (arith, h)

  line-same :
      (l : ProtoBasicLine) {line : ProtoBasicLine} → proto_basic_line u l ≡ ok line → l ≡ line
  unfolding proto_basic_line
  line-same l {line} h =
      let named = statement-ok (require_non_reserved_id u l.line_id i_repl_02) h in
      let printed = statement-ok (require (all u.printable l.raw_text) i_repl_02) named in
      let short =
        statement-ok (require (leb (length l.raw_text) proto_basic_max_line_length) i_repl_02)
          printed in
      let few =
        statement-ok (require (leb (length l.tokens) proto_basic_max_line_tokens) i_repl_02)
          short in
      let done : ◌≡◌ {A = Result ProtoBasicLine} (ok l) (ok line) =
        statement-ok (check_pieces u l.tokens) few in
      cc done

  pub tokenize-short :
      (raw_text line_id : Text) {line : ProtoBasicLine}
      → tokenize u raw_text line_id ≡ ok line
      → leb (length raw_text) proto_basic_max_line_length ≡ true
  unfolding tokenize
  tokenize-short raw_text line_id h =
      elim (Bool-cases (leb (length raw_text) proto_basic_max_line_length)) [
        | inl short ↦ short
        | inr long ↦ absurd (cc (rw long at h))
      ]

  pub tokenize-accepted :
      (raw_text line_id : Text) {line : ProtoBasicLine}
      → tokenize u raw_text line_id ≡ ok line
      → (proto_basic_line u line ≡ ok line) × (line.line_id ≡ line_id)
  unfolding tokenize
  tokenize-accepted raw_text line_id {line} h =
      let l : ProtoBasicLine = record {
        line_id = line_id;
        raw_text = raw_text;
        tokens = cut_pieces u proto_basic_max_line_tokens (split_from u.is_space [] raw_text);
      } in
      let short =
        statement-ok (require (leb (length raw_text) proto_basic_max_line_length) i_repl_02) h in
      let made = statement-ok (require (all u.printable raw_text) i_repl_02) short in
      let same = line-same l made in
      (
        subst (λ l. proto_basic_line u l ≡ ok line) same made,
        sym (ap (λ (l : ProtoBasicLine). l.line_id) same),
      )

  pub command_id_accepted :
      (line_id : Text)
      → IsTable u.printable u.is_space
      → require_non_reserved_id u line_id i_repl_12 ≡ ok tt
      → require_non_reserved_id u
          (agent_repl_command_id_prefix ++ after_last_colon line_id)
          i_repl_12
        ≡ ok tt
  unfolding require_non_reserved_id require_printable_id is_printable_id cogito_id eq_text
  command_id_accepted line_id t h =
      let suffix = after_last_colon-all u.printable line_id (id_printable line_id i_repl_12 h) in
      let printed =
        all-append u.printable agent_repl_command_id_prefix (after_last_colon line_id)
          (all-ascii t agent_repl_command_id_prefix refl) suffix in
      rw (strip-visible t 97 (codes "gent-repl:command:" ++ after_last_colon line_id) refl, printed)
        refl
