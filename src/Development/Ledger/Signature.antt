-- ===== src/Development/Ledger/Signature.antt =====
-- The signature and the identifier that the ledger derives from a chunk.
use toy_brain.Prelude.{
  all-take, refl, ◌≡◌, List, ℕ, Bool, Text, length, all, eq_text, take, true, ltb, ◌≤◌, leb, ◌∷◌,
  arith, all_mono, ◌↔◌, ◌==◌, length-take, false, All, ◌+◌, [], ◌++◌, all-append, le→leb,
  length-append, leb→le, codes, ◌-◌,
}
use native.Mathlib.Nat.{div-le_self, le_trans}
use toy_brain.Prelude.Decimal.{gcd}
use toy_brain.Prelude.Outcome.{Error, ok, i_pledger_05}
use toy_brain.Development.Features.{
  features_of, extract_stream_features_returns, repeat_ratio_of, distinct_chars,
}
use toy_brain.Development.Ledger.{
  check_signature, require_signature, pattern_ledger_signature_elem_max, derive_pattern_signature,
  signature_of, source_value, derive_pattern_id, pattern_ledger_id_max,
}
use toy_brain.Development.Ids.{IsTable, is_ascii, all-ascii, IsBounded}
use toy_brain.Kernel.Io.{has_text}
use toy_brain.Tlica.Profile.{cogito_id}
use toy_brain.Development.Stream.{TextStreamChunk, IsChunk, TextStreamSource}
use toy_brain.Prelude.Decimal.{decimal, is_digit, all-decimal, length-decimal-le}
use toy_brain.Development.Patterns.{stream_pattern_sig_max}
use toy_brain.Fraction.{numerator, denominator, Fraction, den}

-- What the digest gives is printable ASCII, as a hexadecimal digest is.
abbrev pub IsAsciiDigest : (List Text → Text) → Type 0
IsAsciiDigest digest = (s : List Text) → all is_ascii (digest s) ≡ true

length-take-le : {A : Type 0} (n : ℕ) (xs : List A) → length (take n xs) ≤ n
length-take-le n xs = omega (arith, length-take n xs)

decimal-ascii : (n : ℕ) → all is_ascii (decimal n) ≡ true
decimal-ascii n = all_mono is_digit is_ascii (decimal n) (λ c k. ground arith) (all-decimal n)

source_value_bounds :
    (s : TextStreamSource) → (all is_ascii (source_value s) ≡ true) × (length (source_value s) ≤ 10)
unfolding source_value
source_value_bounds TextStreamSource.operator = (refl, omega arith)
source_value_bounds TextStreamSource.system = (refl, omega arith)
source_value_bounds TextStreamSource.probe_echo = (refl, omega arith)
source_value_bounds TextStreamSource.generated = (refl, omega arith)

numerator-le-plus : (q : Fraction) → numerator q ≤ q.plus
unfolding numerator
numerator-le-plus q =
    le_trans (div-le_self (q.plus - q.minus) (gcd (q.plus - q.minus) (den q))) (omega arith)

denominator-le-den : (q : Fraction) → denominator q ≤ den q
unfolding denominator
denominator-le-den q = div-le_self (den q) (gcd (q.plus - q.minus) (den q))

numerator-le : (n d : ℕ) → numerator (repeat_ratio_of n d) ≤ n
unfolding repeat_ratio_of
numerator-le n d = ground (arith, numerator-le-plus (repeat_ratio_of n d))

denominator-le : (n d : ℕ) → denominator (repeat_ratio_of n d) ≤ n + 1
unfolding repeat_ratio_of
denominator-le n d = ground (arith, denominator-le-den (repeat_ratio_of n d))

module _ (printable is_space : ℕ → Bool) where
  -- what `_require_signature` lets through of an entry, and of a signature
  abbrev pub IsElement : Text → Type 0
  IsElement item =
      (has_text item ≡ true)
      × (all printable item ≡ true)
      × (leb (length item) pattern_ledger_signature_elem_max ≡ true)
      × (eq_text item cogito_id ≡ false)

  pub record IsSignature (signature : List Text) : Type 0 where
    pub given : ltb 0 (length signature) ≡ true
    pub short : leb (length signature) stream_pattern_sig_max ≡ true
    pub elements : All IsElement signature

  check_signature_iff :
      (signature : List Text) (row_id : Error)
      → (check_signature printable is_space signature row_id ≡ ok tt) ↔ All IsElement signature
  unfolding check_signature
  check_signature_iff [] row_id = (λ h. tt, λ h. refl)
  check_signature_iff (item ∷ rest) row_id = ground (arith, check_signature_iff rest row_id)

  pub require_signature_iff :
      (signature : List Text) (row_id : Error)
      → (require_signature printable is_space signature row_id ≡ ok tt) ↔ IsSignature signature
  unfolding require_signature
  require_signature_iff signature row_id = ground (arith, check_signature_iff signature row_id)

  -- the signature of a chunk, and the identifier of its pattern
  abbrev pub derived_signature : TextStreamChunk → List Text
  derived_signature chunk = signature_of chunk (features_of printable is_space chunk)

  abbrev pub pattern_id_of : (List Text → Text) → TextStreamChunk → Text
  pattern_id_of digest chunk = codes "pledger:" ++ take 16 (digest (derived_signature chunk))

  -- a label of a visible character that is no underscore, with digits behind it
  labelled :
      IsTable printable is_space
      → (c : ℕ) (label digits : Text) → all is_ascii (c ∷ label) ≡ true
      → (c == 95) ≡ false
      → all is_ascii digits ≡ true
      → length (c ∷ label) + length digits ≤ pattern_ledger_signature_elem_max
      → IsElement ((c ∷ label) ++ digits)
  unfolding eq_text cogito_id
  labelled t c label digits ascii other numbers short = (
    refl,
    all-append printable (c ∷ label) digits (all-ascii t (c ∷ label) ascii)
        (all-ascii t digits numbers),
    le→leb _ _ (omega (arith, short, length-append (c ∷ label) digits)),
    ground (arith, other),
  )

  module _ (t : IsTable printable is_space) (chunk : TextStreamChunk)
      (h : IsChunk printable is_space chunk) where
    pub derive_pattern_signature_returns :
        derive_pattern_signature printable is_space chunk ≡ ok (derived_signature chunk)
    unfolding derive_pattern_signature
    derive_pattern_signature_returns =
        rw (extract_stream_features_returns printable is_space chunk h).0

    pub derived_signature-IsSignature : IsSignature (derived_signature chunk)
    derived_signature-IsSignature =
        let b = (extract_stream_features_returns printable is_space chunk h).1 in
        let size : length chunk.text ≤ 1024 = leb→le _ _ h.text_short in
        let d = length (distinct_chars [] chunk.text) in
        let n = length chunk.text in
        let source = source_value_bounds chunk.source in
        let top =
          length-decimal-le 3 (numerator (repeat_ratio_of n d)) (omega (arith, numerator-le n d)) in
        let bottom =
          length-decimal-le 3 (denominator (repeat_ratio_of n d))
            (omega (arith, denominator-le n d)) in
        let both =
          decimal (numerator (repeat_ratio_of n d))
          ++ (codes "/" ++ decimal (denominator (repeat_ratio_of n d))) in
        let both_ascii =
          all-append is_ascii (decimal (numerator (repeat_ratio_of n d)))
            (codes "/" ++ decimal (denominator (repeat_ratio_of n d))) (decimal-ascii _)
            (decimal-ascii _) in
        record {
          given = refl;
          short = refl;
          elements = (
            labelled t b's' (codes "ource:") (source_value chunk.source) refl refl source.0
                (omega (arith, source.1)),
            (
              labelled t b'l' (codes "en:") (decimal n) refl refl (decimal-ascii n)
                  (omega (arith, length-decimal-le 3 n (omega arith))),
              (
                labelled t b'l' (codes "ines:")
                    (decimal (features_of printable is_space chunk).line_count) refl refl
                    (decimal-ascii _)
                    (omega (
                      arith,
                      length-decimal-le 3 (features_of printable is_space chunk).line_count
                          (omega (arith, b)),
                    )),
                (
                  labelled t b'w' (codes "s:")
                      (decimal (features_of printable is_space chunk).whitespace_run_count) refl
                      refl (decimal-ascii _)
                      (omega (
                        arith,
                        length-decimal-le 3
                            (features_of printable is_space chunk).whitespace_run_count
                            (omega (arith, b)),
                      )),
                  (
                    labelled t b'd' (codes "istinct:") (decimal d) refl refl (decimal-ascii d)
                        (omega (arith, length-decimal-le 3 d (omega (arith, b)))),
                    (
                      labelled t b'r' (codes "epeat:") both refl refl both_ascii (
                          omega (
                            arith,
                            top,
                            bottom,
                            length-append (decimal (numerator (repeat_ratio_of n d)))
                                (codes "/" ++ decimal (denominator (repeat_ratio_of n d))),
                          )),
                      tt,
                    ),
                  ),
                ),
              ),
            ),
          );
        }

    pub derive_pattern_id_returns :
        (digest : List Text → Text)
        → derive_pattern_id printable is_space digest (derived_signature chunk)
          ≡ ok (pattern_id_of digest chunk)
    unfolding derive_pattern_id
    derive_pattern_id_returns digest = rw (
        (require_signature_iff (derived_signature chunk) i_pledger_05).1
          derived_signature-IsSignature)

    pub pattern_id_of-IsBounded :
        (digest : List Text → Text)
        → IsAsciiDigest digest
        → IsBounded printable pattern_ledger_id_max (pattern_id_of digest chunk)
    unfolding eq_text cogito_id
    pattern_id_of-IsBounded digest k =
        let head = take 16 (digest (derived_signature chunk)) in
        let ascii =
          all-take is_ascii 16 (digest (derived_signature chunk)) (k (derived_signature chunk)) in
        (
          refl,
          all-append printable (codes "pledger:") head (all-ascii t (codes "pledger:") refl)
              (all-ascii t head ascii),
          le→leb _ _ (omega (arith, length-take-le 16 (digest (derived_signature chunk)))),
          refl,
        )
