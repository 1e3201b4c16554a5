-- ===== src/Kernel/State.antt =====
-- The state of brain/tick.py, and the views of it that its trace events carry. The source sorts
-- the lists of a view for its JSON; here they are sets.
use toy_brain.Prelude.{ℕ, [], ◌∷◌, if◌then◌else◌, length}
use toy_brain.Prelude.Outcome.{Result, ok, ◌>>=◌}
use toy_brain.Prelude.FrozenSet.{FrozenSet, contains, diff}
use toy_brain.Prelude.Dict.{Dict, item}
use toy_brain.Fraction.{Fraction, eq_fraction}
use toy_brain.Tlica.Profile.{ScalarProfile}
use toy_brain.Tlica.Msi.{Msi}
use toy_brain.Tlica.PtCns.{PtCns}
use toy_brain.Tlica.Boundary.{boundary}
use toy_brain.Kernel.Io.{ContentRegistry}

pub record BrainState : Type 0 where
  pub profile : ScalarProfile
  pub msi : Msi
  pub ptcns : PtCns
  pub registry : ContentRegistry

pub record Summary : Type 0 where
  pub profile_domain : FrozenSet
  pub msi_contents : FrozenSet
  pub msi_threshold : Fraction
  pub registry_size : ℕ
  pub boundary : FrozenSet

unfoldable pub summarize_state : BrainState → Summary
summarize_state s = record {
  profile_domain = s.profile.domain;
  msi_contents = s.msi.contents;
  msi_threshold = s.msi.threshold;
  registry_size = length s.registry.texts;
  boundary = boundary s.msi s.ptcns;
}

pub record SetDelta : Type 0 where
  pub added : FrozenSet
  pub removed : FrozenSet

unfoldable pub set_delta : FrozenSet → FrozenSet → SetDelta
unfolding diff
set_delta old new = record { added = diff new old; removed = diff old new }

pub record ProfileDelta : Type 0 where
  pub added : Dict Fraction
  pub modified : Dict Fraction
  pub removed : FrozenSet

-- the loop `for k in new.domain`; what is added or modified, in its order
unfoldable pub changed_values :
    ScalarProfile → ScalarProfile → FrozenSet → Result (Dict Fraction × Dict Fraction)
unfolding contains item eq_fraction
changed_values old new [] = ok ([], [])
changed_values old new (k ∷ rest) =
    let others = changed_values old new rest in
    do
      v ← item k new.values
      (added, modified) ← others
      if contains k old.domain
          then (do
            before ← item k old.values
            if eq_fraction before v then ok (added, modified) else ok (added, (k, v) ∷ modified))
          else ok ((k, v) ∷ added, modified)

unfoldable pub profile_delta : ScalarProfile → ScalarProfile → Result ProfileDelta
unfolding changed_values diff
profile_delta old new = do
  (added, modified) ← changed_values old new new.domain
  ok (record { added = added; modified = modified; removed = diff old.domain new.domain })
