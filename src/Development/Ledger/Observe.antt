-- ===== src/Development/Ledger/Observe.antt =====
-- An observation keeps the ledger well formed, and changes the entry of its pattern alone.
use toy_brain.Prelude.{
  refl, ◌≡◌, List, Text, none, All, ◌∷◌, ◌↔◌, false, some, arith, length, Bool-cases, ◌++◌, [],
  eq_text_iff, eq_text, ap, if◌then◌else◌, suc, inl, inr, ℕ, Bool, ◌≤◌, le→leb, ◌<◌, length-append,
  All-append, eq_text_refl,
}
use mathlib.Core.Path.{subst}
use toy_brain.Prelude.Outcome.{ok}
use toy_brain.Prelude.FrozenSet.{FrozenSet, add, contains}
use toy_brain.Development.Ledger.{
  check_entries, find_entry, PatternLedgerEntry, replace_entry, PatternLedger, pattern_ledger,
  pattern_ledger_max_entries,
}
use toy_brain.Development.Ledger.Entry.{DistinctFrom, IsEntry, DistinctFrom-append}

abbrev pub ids_of : List PatternLedgerEntry → List Text
ids_of [] = []
ids_of (e ∷ rest) = e.pattern_id ∷ ids_of rest

check_entries_iff :
    (seen : FrozenSet) (entries : List PatternLedgerEntry)
    → (check_entries seen entries ≡ ok tt) ↔ DistinctFrom seen (ids_of entries)
unfolding check_entries
check_entries_iff seen [] = ground arith
check_entries_iff seen (e ∷ rest) = ground (arith, check_entries_iff (add e.pattern_id seen) rest)

find_entry-none :
    (q : Text) (entries : List PatternLedgerEntry)
    → find_entry q entries ≡ none
    → contains q (ids_of entries) ≡ false
unfolding find_entry contains
find_entry-none q [] h = refl
find_entry-none q (e ∷ rest) h =
    ground (arith, find_entry-none q rest, eq_text_iff e.pattern_id q, eq_text_iff q e.pattern_id)

pub find_entry-All {κ} :
    (P : PatternLedgerEntry → Type κ) (q : Text) (entries : List PatternLedgerEntry)
    {e : PatternLedgerEntry}
    → All P entries
    → find_entry q entries ≡ some e
    → P e × (e.pattern_id ≡ q)
unfolding find_entry
find_entry-All P q [] h k = absurd (cc k)
find_entry-All P q (x ∷ rest) {e} h k = elim (Bool-cases (eq_text x.pattern_id q)) [
  | inl same ↦
      let e' : x ≡ e = ground (arith, k, same) in
      (subst P e' h.0, ground (arith, k, eq_text_iff x.pattern_id q))
  | inr other ↦ find_entry-All P q rest h.1 (ground (arith, k, other))
]

module _ (q : Text) (new : PatternLedgerEntry) (same_id : new.pattern_id ≡ q) where
  ids_of-replace_entry :
      (entries : List PatternLedgerEntry) → ids_of (replace_entry q new entries) ≡ ids_of entries
  unfolding replace_entry
  ids_of-replace_entry [] = refl
  ids_of-replace_entry (e ∷ rest) =
      ground (arith, ids_of-replace_entry rest, eq_text_iff e.pattern_id q, same_id)

  length-replace_entry :
      (entries : List PatternLedgerEntry) → length (replace_entry q new entries) ≡ length entries
  unfolding replace_entry
  length-replace_entry [] = refl
  length-replace_entry (e ∷ rest) = ap suc (length-replace_entry rest)

  All-replace_entry {κ} :
      (P : PatternLedgerEntry → Type κ) (entries : List PatternLedgerEntry)
      → P new
      → All P entries
      → All P (replace_entry q new entries)
  unfolding replace_entry
  All-replace_entry P [] h k = tt
  All-replace_entry P (e ∷ rest) h k = elim (Bool-cases (eq_text e.pattern_id q)) [
    | inl same ↦ rw same (h, All-replace_entry P rest h k.1)
    | inr other ↦ rw other (k.0, All-replace_entry P rest h k.1)
  ]

  -- Where there is an entry to replace, the new one is found, and all others as before.
  find_entry-replace_entry_self :
      (entries : List PatternLedgerEntry) {e : PatternLedgerEntry}
      → find_entry q entries ≡ some e
      → find_entry q (replace_entry q new entries) ≡ some new
  unfolding replace_entry find_entry
  find_entry-replace_entry_self [] k = cc
  find_entry-replace_entry_self (x ∷ rest) {e} k =
      ground
        (arith, find_entry-replace_entry_self rest {e = e}, same_id, eq_text_iff new.pattern_id q)

  find_entry-replace_entry_other :
      (r : Text) (entries : List PatternLedgerEntry)
      → eq_text r q ≡ false
      → find_entry r (replace_entry q new entries) ≡ find_entry r entries
  unfolding replace_entry find_entry
  find_entry-replace_entry_other r [] k = refl
  find_entry-replace_entry_other r (x ∷ rest) k = ground (
    arith,
    find_entry-replace_entry_other r rest,
    same_id,
    eq_text_iff r q,
    eq_text_iff x.pattern_id q,
    eq_text_iff x.pattern_id r,
    eq_text_iff new.pattern_id r,
  )

find_entry-append :
    (r : Text) (new : PatternLedgerEntry) (entries : List PatternLedgerEntry)
    → find_entry new.pattern_id entries ≡ none
    → find_entry r (entries ++ new ∷ [])
      ≡ (if eq_text r new.pattern_id then some new else find_entry r entries)
unfolding find_entry
find_entry-append r new [] k =
    ground (arith, eq_text_iff r new.pattern_id, eq_text_iff new.pattern_id r)
find_entry-append r new (x ∷ rest) k = ground (
  arith,
  find_entry-append r new rest,
  eq_text_iff r new.pattern_id,
  eq_text_iff x.pattern_id r,
  eq_text_iff x.pattern_id new.pattern_id,
)

ids_of-append : (xs ys : List PatternLedgerEntry) → ids_of (xs ++ ys) ≡ ids_of xs ++ ids_of ys
ids_of-append [] ys = refl
ids_of-append (x ∷ xs) ys = ap (λ l. x.pattern_id ∷ l) (ids_of-append xs ys)

module _ (printable is_space : ℕ → Bool) where
  pub record IsLedger (l : PatternLedger) : Type 0 where
    pub bounded : length l.entries ≤ pattern_ledger_max_entries
    pub entries : All (IsEntry printable is_space) l.entries
    pub distinct : DistinctFrom [] (ids_of l.entries)

  pub pattern_ledger-ok : (l : PatternLedger) → IsLedger l → pattern_ledger l.entries ≡ ok l
  unfolding pattern_ledger
  pattern_ledger-ok l h = rw (le→leb _ _ h.bounded, (check_entries_iff [] l.entries).1 h.distinct)

  -- The ledger `l'` has the entry `e`, and all else as `l` has it.
  pub record IsUpdate (l l' : PatternLedger) (e : PatternLedgerEntry) : Type 0 where
    pub valid : IsLedger l'
    pub found : find_entry e.pattern_id l'.entries ≡ some e
    pub others :
        (r : Text)
        → eq_text r e.pattern_id ≡ false
        → find_entry r l'.entries ≡ find_entry r l.entries

  module _ (l : PatternLedger) (h : IsLedger l) (new : PatternLedgerEntry)
      (k : IsEntry printable is_space new) where
    pub replaced :
        {e : PatternLedgerEntry}
        → find_entry new.pattern_id l.entries ≡ some e
        → IsUpdate l (record { entries = replace_entry new.pattern_id new l.entries }) new
    replaced m = record {
      valid = record {
        bounded = rw (length-replace_entry new.pattern_id new refl l.entries) h.bounded;
        entries =
            All-replace_entry new.pattern_id new refl (IsEntry printable is_space) l.entries k
              h.entries;
        distinct = rw (ids_of-replace_entry new.pattern_id new refl l.entries) h.distinct;
      };
      found = find_entry-replace_entry_self new.pattern_id new refl l.entries m;
      others = λ r other. find_entry-replace_entry_other new.pattern_id new refl r l.entries other;
    }

    pub appended :
        find_entry new.pattern_id l.entries ≡ none
        → length l.entries < pattern_ledger_max_entries
        → IsUpdate l (record { entries = l.entries ++ new ∷ [] }) new
    unfolding contains
    appended m room = record {
      valid = record {
        bounded = omega (arith, length-append l.entries (new ∷ []));
        entries = All-append (IsEntry printable is_space) l.entries (new ∷ []) h.entries (k, tt);
        distinct = rw ids_of-append (
            DistinctFrom-append [] (ids_of l.entries) new.pattern_id h.distinct refl
              (find_entry-none new.pattern_id l.entries m));
      };
      found =
          ground
            (arith, find_entry-append new.pattern_id new l.entries m, eq_text_refl new.pattern_id);
      others = λ r other. ground (arith, find_entry-append r new l.entries m);
    }
