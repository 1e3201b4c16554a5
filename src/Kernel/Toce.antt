-- ===== src/Kernel/Toce.antt =====
-- brain/toce_core.py: the Boolean classifier of contents.
use toy_brain.Prelude.{refl, ◌≡◌, ◌↔◌, Bool, true, false, ◌&&◌, not, arith, if◌then◌else◌}

pub data ContentClass : Type 0 where
  conscious_clear conscious_fuzzy latent_retrievable unconscious_operative : ContentClass

pub record ContentState : Type 0 where
  pub available : Bool
  pub verification_path : Bool
  pub retrievable : Bool
  pub operative : Bool

unfoldable pub classify_content : ContentState → ContentClass
classify_content s =
    if s.available && s.verification_path
    then conscious_clear
    else if s.available && not s.verification_path
    then conscious_fuzzy
    else if not s.available && s.retrievable
    then latent_retrievable
    else unconscious_operative

-- A content is consciously clear exactly when it is available with a verification path, consciously
-- fuzzy exactly when it is available without one, latently retrievable exactly when it is not
-- available but retrievable, and unconsciously operative exactly when it is neither; its class does
-- not depend on `operative`.
pub classify_content_iff :
    (s : ContentState)
    → ((classify_content s ≡ conscious_clear)
        ↔ ((s.available ≡ true) × (s.verification_path ≡ true)))
      × ((classify_content s ≡ conscious_fuzzy)
          ↔ ((s.available ≡ true) × (s.verification_path ≡ false)))
      × ((classify_content s ≡ latent_retrievable)
          ↔ ((s.available ≡ false) × (s.retrievable ≡ true)))
      × ((classify_content s ≡ unconscious_operative)
          ↔ ((s.available ≡ false) × (s.retrievable ≡ false)))
      × ((b : Bool) → classify_content (record s { operative = b }) ≡ classify_content s)
unfolding classify_content
classify_content_iff s = (ground arith, ground arith, ground arith, ground arith, λ b. refl)
