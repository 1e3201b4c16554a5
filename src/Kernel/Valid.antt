-- ===== src/Kernel/Valid.antt =====
-- What every state between ticks satisfies: the catalog's rows on the profile, the MSI and the
-- evaluations, and that the four fields speak of one profile and one MSI.
use toy_brain.Prelude.{◌≡◌, ◌∙◌, ap, All}
use toy_brain.Tlica.Profile
use toy_brain.Tlica.Msi
use toy_brain.Tlica.PtCns
use toy_brain.Kernel.Io.{IsEntry}
use toy_brain.Kernel.State.{BrainState}

pub record IsValid (s : BrainState) : Type 0 where
  pub profile : Profile.IsValid s.profile
  pub msi_profile : s.msi.profile ≡ s.profile
  pub msi : Msi.IsValid s.msi
  pub ptcns_msi : s.ptcns.msi ≡ s.msi
  pub ptcns : PtCns.IsValid s.ptcns
  pub registry : All IsEntry s.registry.texts

pub ptcns_profile : (s : BrainState) → IsValid s → s.ptcns.msi.profile ≡ s.profile
ptcns_profile s h = ap (λ (m : Msi.Msi). m.profile) h.ptcns_msi ∙ h.msi_profile
