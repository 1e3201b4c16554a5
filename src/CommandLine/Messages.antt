-- ===== src/CommandLine/Messages.antt =====
-- The messages of `LocalCommandError`: printable, and within their bound.
use toy_brain.Prelude.{
  all-take, ℕ, Text, Bool, ◌∷◌, [], true, false, ◌≡◌, refl, length, leb, all, arith, all-append,
  take, map, if◌then◌else◌, ◌≤◌, leb→le, length-append, length-take,
}
use toy_brain.CommandLine.{bound_printable_error, local_cmd_max_error_len, shortened}

-- Python's tables hold the two characters that the bounded message puts in.
pub record Marks (printable : ℕ → Bool) : Type 0 where
  pub question : printable 63 ≡ true
  pub ellipsis : printable 8230 ≡ true

module _ (printable : ℕ → Bool) where
  abbrev pub IsMessage : Text → Type 0
  IsMessage m = (all printable m ≡ true) × (length m ≤ local_cmd_max_error_len)

module _ {printable : ℕ → Bool} (marks : Marks printable) where
  abbrev visible : Text → Text
  visible message = map (λ c. if printable c then c else 63) message

  all-visible : (message : Text) → all printable (visible message) ≡ true
  all-visible [] = refl
  all-visible (c ∷ s) = ground (arith, marks.question, all-visible s)

  shortened_by :
      (b : Bool) (m : Text)
      → all printable m ≡ true
      → leb (length m) local_cmd_max_error_len ≡ b
      → IsMessage printable (shortened local_cmd_max_error_len m)
  shortened_by true m h short = rw short (h, leb→le (length m) local_cmd_max_error_len short)
  shortened_by false m h long = rw long (
    all-append printable (take 239 m) (8230 ∷ []) (all-take printable 239 m h)
        (ground (arith, marks.ellipsis)),
    omega (arith, length-append (take 239 m) (8230 ∷ []), length-take 239 m),
  )

  pub bound_printable_error-IsMessage :
      (message : Text) → IsMessage printable (bound_printable_error printable message)
  unfolding bound_printable_error
  bound_printable_error-IsMessage message =
      shortened_by (leb (length (visible message)) local_cmd_max_error_len) (visible message)
        (all-visible message) refl
