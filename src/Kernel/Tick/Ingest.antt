-- ===== src/Kernel/Tick/Ingest.antt =====
-- Steps 2 to 4 and 6 of a tick on a valid state: the registry, the profile and the two MSIs.
use toy_brain.Prelude.{
  ◌≡◌, refl, true, false, ◌||◌, [], ◌∷◌, arith, Text, if◌then◌else◌, Bool-cases, inl, inr, eq_text,
  eq_text_iff,
}
use mathlib.Core.Path.{subst}
use toy_brain.Prelude.Outcome.{ok}
use toy_brain.Prelude.FrozenSet.{FrozenSet, contains, add, set_eq_of, contains-add}
use toy_brain.Prelude.Dict.{get, put, keys, get-put, All-put, contains-keys, contains-keys-put}
use toy_brain.Fraction.{Fraction}
use toy_brain.Tlica.Profile
use toy_brain.Tlica.Profile.{
  ScalarProfile, cogito_id, scalar_profile, ValueInUnit, contains-domain, scalar_profile-of_IsValid,
}
use toy_brain.Tlica.Msi
use toy_brain.Tlica.Msi.{Msi, is_one, is_dense, at_least, candidate, msi-of_IsValid}
use toy_brain.Tlica.PtCns.{ConsistencyEval}
use toy_brain.Kernel.Io.{PerceptEvent, IsPercept, with_added_valid}
use toy_brain.Kernel.State.{BrainState}
use toy_brain.Kernel.Valid
use toy_brain.Kernel.Tick.{add_texts, integrates}

-- The profile of a state with a percept's value.
abbrev pub with_value : ScalarProfile → PerceptEvent → ScalarProfile
with_value p e = record {
  domain = keys (put e.content_id e.initial_rho p.values);
  values = put e.content_id e.initial_rho p.values;
}

-- The members after a percept: it joins if the evaluation integrates it.
abbrev pub joined : Fraction → PerceptEvent → ConsistencyEval → FrozenSet → FrozenSet
joined t e ev contents = if integrates t e ev then add e.content_id contents else contents

module _ (s : BrainState) (h : Valid.IsValid s) (e : PerceptEvent) (k : IsPercept e)
    (fresh : contains e.content_id s.profile.domain ≡ false) where
  pub add_texts_valid :
      add_texts (e ∷ []) s.registry
      ≡ ok (record { texts = put e.content_id e.text s.registry.texts })
  unfolding add_texts
  add_texts_valid = rw (with_added_valid s.registry e h.registry k)

  pub with_value-IsValid : Profile.IsValid (with_value s.profile e)
  with_value-IsValid = record {
    same_keys =
        set_eq_of (with_value s.profile e).domain (with_value s.profile e).domain (λ x. refl);
    in_unit =
        All-put ValueInUnit e.content_id e.initial_rho s.profile.values k.rho_in_unit
          h.profile.in_unit;
  }

  pub contains-with_value :
      (x : Text)
      → contains x (with_value s.profile e).domain
        ≡ (eq_text x e.content_id || contains x s.profile.domain)
  contains-with_value x = ground (
    arith,
    contains-keys-put e.content_id x e.initial_rho s.profile.values,
    contains-keys x s.profile.values,
    contains-domain s.profile x h.profile,
  )

  -- The value of an old content is what it was.
  pub old_value :
      (x : Text)
      → contains x s.profile.domain ≡ true
      → get x (with_value s.profile e).values ≡ get x s.profile.values
  old_value x there =
      ground
        (arith, get-put e.content_id x e.initial_rho s.profile.values, eq_text_iff x e.content_id)

  old_dense :
      (x : Text)
      → is_dense s.profile s.msi.threshold x ≡ true
      → is_dense (with_value s.profile e) s.msi.threshold x ≡ true
  unfolding is_dense
  old_dense x d = ground (arith, contains-with_value x, old_value x)

  new_dense :
      (ev : ConsistencyEval)
      → integrates s.msi.threshold e ev ≡ true
      → is_dense (with_value s.profile e) s.msi.threshold e.content_id ≡ true
  unfolding is_dense integrates
  new_dense ev i = ground (
    arith,
    contains-with_value e.content_id,
    eq_text_iff e.content_id e.content_id,
    get-put e.content_id e.content_id e.initial_rho s.profile.values,
  )

  old_member :
      (c : Text)
      → contains c s.msi.contents ≡ true
      → is_dense (with_value s.profile e) s.msi.threshold c ≡ true
  old_member c there =
      old_dense c
        (subst (λ p. is_dense p s.msi.threshold c ≡ true) h.msi_profile (h.msi.density c there))

  cogito_in_domain : contains cogito_id s.profile.domain ≡ true
  unfolding is_one
  cogito_in_domain =
      let one =
        subst (λ (p : ScalarProfile). is_one (get cogito_id p.values) ≡ true) h.msi_profile
          h.msi.cogito_value in
      ground (arith, contains-domain s.profile cogito_id h.profile)

  cogito_kept : is_one (get cogito_id (with_value s.profile e).values) ≡ true
  cogito_kept = rw (old_value cogito_id cogito_in_domain) (
      subst (λ (p : ScalarProfile). is_one (get cogito_id p.values) ≡ true) h.msi_profile
        h.msi.cogito_value)

  -- The MSI over the new profile is valid, with the old members and with the percept if it joins.
  pub provisional-IsValid :
      Msi.IsValid (candidate (with_value s.profile e) s.msi.contents s.msi.threshold)
  provisional-IsValid = record {
    above_zero = h.msi.above_zero;
    below_one = h.msi.below_one;
    cogito_in = h.msi.cogito_in;
    cogito_value = cogito_kept;
    density = old_member;
  }

  pub joined-IsValid :
      (ev : ConsistencyEval)
      → Msi.IsValid (
          candidate
            (with_value s.profile e)
            (joined s.msi.threshold e ev s.msi.contents)
            s.msi.threshold)
  joined-IsValid ev = elim (Bool-cases (integrates s.msi.threshold e ev)) [
    | inr out ↦ rw out provisional-IsValid
    | inl joins ↦ rw joins (record {
      above_zero = h.msi.above_zero;
      below_one = h.msi.below_one;
      cogito_in =
          ground (arith, contains-add cogito_id e.content_id s.msi.contents, h.msi.cogito_in);
      cogito_value = cogito_kept;
      density = λ c there. elim (Bool-cases (eq_text c e.content_id)) [
        | inl same ↦ rw ((eq_text_iff c e.content_id).0 same) (new_dense ev joins)
        | inr other ↦ old_member c (ground (arith, contains-add c e.content_id s.msi.contents))
      ];
    })
  ]
