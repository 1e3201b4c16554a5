-- ===== src/Tlica/Preservation.antt =====
-- brain/tlica/preservation.py and pce.py: the cogito-gated rank, and the foundation PCE.
use toy_brain.Prelude.{
  ℕ, ◌≤◌, max, ◌≡◌, refl, Bool, true, false, [], ◌∷◌, arith, Text, if◌then◌else◌, length, keep,
  length-keep-le, length-keep_mono, all, Bool-cases, inl, inr,
}
use toy_brain.Prelude.FrozenSet.{FrozenSet, contains, inter, subset, contains-subset, all_of}
use toy_brain.Fraction.{Fraction, whole, ratio, leq}
use toy_brain.Fraction.Order.{leq-ratio}
use toy_brain.Tlica.Profile.{cogito_id}
use toy_brain.Tlica.Msi.{Msi}

-- `PreservationRanking(msi=msi).rank(S)`
unfoldable pub rank : Msi → FrozenSet → Fraction
unfolding inter
rank m s =
    if contains cogito_id s
    then ratio (length (inter s m.contents)) (max 1 (length m.contents))
    else whole 0

-- `PCE(msi, pi, proj, a)`: it drops the projection and the action.
unfoldable pub pce {ℓ κ} : {Proj : Type ℓ} {Act : Type κ} → Msi → Proj → Act → Fraction
unfolding rank
pce m proj a = rank m m.contents

keep-true : (p : Text → Bool) (s : FrozenSet) → all p s ≡ true → keep p s ≡ s
keep-true p [] h = refl
keep-true p (x ∷ s) h = ground (arith, keep-true p s)

keep_self : (s : FrozenSet) → keep (λ x. contains x s) s ≡ s
keep_self s = keep-true (λ x. contains x s) s (all_of (λ x. contains x s) s (λ x h. h))

module _ (m : Msi) where
  pub rank_nonneg : (s : FrozenSet) → leq (whole 0) (rank m s) ≡ true
  unfolding rank leq
  rank_nonneg s = ground arith

  pub rank_gated : (s : FrozenSet) → contains cogito_id s ≡ false → rank m s ≡ whole 0
  unfolding rank
  rank_gated s h = rw h

  size : FrozenSet → ℕ
  size s = length (inter s m.contents)

  size_mono : (s t : FrozenSet) → subset s t ≡ true → size s ≤ size t
  unfolding size inter
  size_mono s t h =
      length-keep_mono (λ x. contains x s) (λ x. contains x t) m.contents
        (λ x. contains-subset x s t h)

  -- The preservation rank is monotone: a subset's rank is at most that of the larger set, whatever
  -- the two hold outside the MSI.
  pub rank_mono : (s t : FrozenSet) → subset s t ≡ true → leq (rank m s) (rank m t) ≡ true
  unfolding rank size
  rank_mono s t h = elim (Bool-cases (contains cogito_id s)) [
    | inl there ↦
        rw (there, contains-subset cogito_id s t h there)
          (leq-ratio (size s) (size t) (max 1 (length m.contents)) (size_mono s t h))
    | inr not_there ↦ rw (not_there) (rank_nonneg t)
  ]

  size-le-contents : (s : FrozenSet) → size s ≤ size m.contents
  unfolding size inter
  size-le-contents s = rw (keep_self m.contents) (length-keep-le (λ x. contains x s) m.contents)

  -- If the cogito is in the MSI, no set has a greater rank than the MSI's own contents.
  pub rank-le-contents :
      (s : FrozenSet)
      → contains cogito_id m.contents ≡ true
      → leq (rank m s) (rank m m.contents) ≡ true
  unfolding rank size
  rank-le-contents s h = elim (Bool-cases (contains cogito_id s)) [
    | inl there ↦
        rw (there, h)
          (leq-ratio (size s) (size m.contents) (max 1 (length m.contents)) (size-le-contents s))
    | inr not_there ↦ rw (not_there) (rank_nonneg m.contents)
  ]
