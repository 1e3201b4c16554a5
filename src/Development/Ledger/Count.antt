-- ===== src/Development/Ledger/Count.antt =====
-- The ledger after many observations.
use Prim.Native.Nat.{min}
use toy_brain.Prelude.{
  refl, ◌≡◌, ℕ, Bool, List, Text, ◌∷◌, if◌then◌else◌, eq_text, All, [], ◌+◌, some, Option-cases,
  inl, inr, arith, ◌∙◌, none, Bool-cases, eq_text_iff, false, leb, ap, sym, length,
}
use toy_brain.Prelude.Outcome.{Result, ◌>>=◌, ok}
use toy_brain.Development.Stream.{TextStreamChunk, IsChunk}
use toy_brain.Development.Patterns.{StreamPromotionCandidate, stream_pattern_recurrence_max}
use toy_brain.Development.Ledger.{
  PatternLedger, observe, PatternLedgerEntry, find_entry, seen_again, pattern_ledger_max_entries,
}
use toy_brain.Development.Ids.{IsTable}
use toy_brain.Development.Ledger.Branches.{
  IsCandidate, observe_known, seen_again-id, observe_refused, observe_fresh, seen_first-id,
  seen_again-count,
}
use toy_brain.Development.Ledger.Signature.{IsAsciiDigest, pattern_id_of, derived_signature}
use toy_brain.Development.Ledger.Observe.{IsLedger, find_entry-All, IsUpdate}
use toy_brain.Development.Ledger.Entry.{IsEntry}

pub record Observation : Type 0 where
  pub chunk : TextStreamChunk
  pub candidate : StreamPromotionCandidate
  pub tick : ℕ

module _ (printable is_space : ℕ → Bool) (digest : List Text → Text) where
  unfoldable pub observe_all : PatternLedger → List Observation → Result PatternLedger
  observe_all l [] = ok l
  observe_all l (o ∷ rest) =
      observe printable is_space digest l o.chunk o.candidate o.tick >>= λ l'. observe_all l' rest

  -- What an observation is made of comes out of the constructors.
  pub record IsObservation (o : Observation) : Type 0 where
    pub chunk : IsChunk printable is_space o.chunk
    pub candidate : IsCandidate printable is_space o.candidate

  -- how many of the observations have the pattern
  abbrev pub matches : Text → List Observation → ℕ
  matches q [] = 0
  matches q (o ∷ rest) =
      (if eq_text (pattern_id_of printable is_space digest o.chunk) q then 1 else 0)
      + matches q rest

  -- An entry for the pattern stays, and its count goes up by `n`, to the maximum.
  abbrev pub Counted : PatternLedger → PatternLedger → Text → ℕ → Type 0
  Counted l l' q n =
      (e : PatternLedgerEntry)
      → find_entry q l.entries ≡ some e
      → (e' : PatternLedgerEntry) × (find_entry q l'.entries ≡ some e')
        × (e'.recurrence_count ≡ min stream_pattern_recurrence_max (e.recurrence_count + n))

  -- Where the entry is untouched.
  kept :
      (l l' : PatternLedger) (q : Text)
      → IsLedger printable is_space l
      → find_entry q l'.entries ≡ find_entry q l.entries
      → Counted l l' q 0
  kept l l' q v same e found =
      let old = find_entry-All (IsEntry printable is_space) q l.entries v.entries found in
      (e, same ∙ found, omega (arith, old.0.count_max))

  module _ (t : IsTable printable is_space) (d : IsAsciiDigest digest) where
    known-Counted :
        (l l' : PatternLedger) (o : Observation) (q : Text) (e : PatternLedgerEntry)
        → IsLedger printable is_space l
        → find_entry (pattern_id_of printable is_space digest o.chunk) l.entries ≡ some e
        → IsUpdate printable is_space l l' (seen_again e o.chunk o.candidate o.tick)
        → Counted l l' q (matches q (o ∷ []))
    known-Counted l l' o q e v known update =
        let id = pattern_id_of printable is_space digest o.chunk in
        let new = seen_again e o.chunk o.candidate o.tick in
        let old = find_entry-All (IsEntry printable is_space) id l.entries v.entries known in
        let same : new.pattern_id ≡ id = seen_again-id e o.chunk o.candidate o.tick ∙ old.1 in
        elim (Bool-cases (eq_text id q)) [
          | inl own ↦ rw own (λ e0 found.
              let q_is : id ≡ q = (eq_text_iff id q).0 own in
              let same_entry : some e ≡ some e0 =
                sym known ∙ ap (λ r. find_entry r l.entries) q_is ∙ found in
              (
                new,
                ap (λ r. find_entry r l'.entries) (sym (same ∙ q_is)) ∙ update.found,
                ground (arith, same_entry, seen_again-count e o.chunk o.candidate o.tick),
              ))
          | inr other ↦ rw other (
              kept l l' q v (
                update.others q
                  (ground (arith, same, other, eq_text_iff q new.pattern_id, eq_text_iff id q))))
        ]

    unknown-Counted :
        (l l' : PatternLedger) (o : Observation) (q : Text)
        → IsLedger printable is_space l
        → find_entry (pattern_id_of printable is_space digest o.chunk) l.entries ≡ none
        → (eq_text q (pattern_id_of printable is_space digest o.chunk) ≡ false
            → find_entry q l'.entries ≡ find_entry q l.entries)
        → Counted l l' q (matches q (o ∷ []))
    unknown-Counted l l' o q v unknown others =
        let id = pattern_id_of printable is_space digest o.chunk in
        elim (Bool-cases (eq_text id q)) [
          | inl own ↦ λ e0 found.
              let q_is : id ≡ q = (eq_text_iff id q).0 own in
              let clash : none ≡ some e0 =
                sym unknown ∙ ap (λ r. find_entry r l.entries) q_is ∙ found in
              absurd (cc clash)
          | inr other ↦
              rw other
                (kept l l' q v (others (ground (arith, other, eq_text_iff q id, eq_text_iff id q))))
        ]

    observe-count :
        (l : PatternLedger) (o : Observation) (q : Text)
        → IsLedger printable is_space l
        → IsObservation o
        → (l' : PatternLedger) × (observe printable is_space digest l o.chunk o.candidate o.tick
            ≡ ok l')
          × IsLedger printable is_space l'
          × Counted l l' q (matches q (o ∷ []))
    observe-count l o q v k =
        let id = pattern_id_of printable is_space digest o.chunk in
        elim (Option-cases (find_entry id l.entries)) [
          | inl unknown ↦ elim (Bool-cases (leb pattern_ledger_max_entries (length l.entries))) [
            | inl full ↦ (
              l,
              observe_refused printable is_space digest t d o.chunk k.chunk o.candidate k.candidate
                  o.tick l v unknown (ground (arith, full, v.bounded)),
              v,
              unknown-Counted l l o q v unknown (λ other. refl),
            )
            | inr room ↦
                let (l', e_ok, update) =
                  observe_fresh printable is_space digest t d o.chunk k.chunk o.candidate
                    k.candidate o.tick l v unknown (ground (arith, room)) in
                (
                  l',
                  e_ok,
                  update.valid,
                  unknown-Counted l l' o q v unknown (λ other. update.others q (
                      rw
                        (seen_first-id id (derived_signature printable is_space o.chunk) o.chunk
                          o.candidate o.tick)
                        other)),
                )
          ]
          | inr (e, known) ↦
              let (l', e_ok, update, _) =
                observe_known printable is_space digest t d o.chunk k.chunk o.candidate k.candidate
                  o.tick l v e known in
              (l', e_ok, update.valid, known-Counted l l' o q e v known update)
        ]

    -- Let the Unicode tables read ASCII as usual and the digest be ASCII. From a valid ledger,
    -- every sequence of observations of accepted chunks and candidates, no candidate with the
    -- reserved identifier, is taken to its end. The last ledger is valid, and the count of each
    -- pattern that the first one knew has grown by the number of its observations, saturating at
    -- the maximum.
    pub observe_all-count :
        (l : PatternLedger) (obs : List Observation) (q : Text)
        → IsLedger printable is_space l
        → All IsObservation obs
        → (l' : PatternLedger) × (observe_all l obs ≡ ok l')
          × IsLedger printable is_space l'
          × Counted l l' q (matches q obs)
    unfolding observe_all
    observe_all-count l [] q v k = (l, refl, v, kept l l q v refl)
    observe_all-count l (o ∷ rest) q v k =
        let (m, e, valid, one) = observe-count l o q v k.0 in
        let (l', f, last, more) = observe_all-count m rest q valid k.1 in
        (
          l',
          rw (e, observe_all) f,
          last,
          λ x found.
              let (y, y_found, y_count) = one x found in
              let (z, z_found, z_count) = more y y_found in
              (z, z_found, omega (arith, y_count, z_count)),
        )
