-- ===== src/Prelude/Outcome.antt =====
-- What a call of the source gives: a value, or the exception that it raises. A `ValueError` is
-- named by the catalog row or the condition that its message names.
use mathlib.Core.Path.{◌≡◌, refl}
use mathlib.Core.Logic.{◌⊎◌, inl, inr}
use mathlib.Core.Bool.{Bool, true, false}

pub data Error : Type 0 where
  -- brain/tlica: construction-time rows
  profile_keys i_prof_01 i_prof_02 rho_range rho_type cogito_missing : Error
  i_msi_01 i_msi_02 i_msi_03 i_msi_04 i_msi_05 i_msi_06 msi_contents_domain : Error
  ptcns_keys i_ptc_01 i_ptc_02 i_ptc_03 i_ptc_04 i_ptc_05 i_mod_04 : Error
  i_ibnd_01 i_ibnd_03 i_pres_01 i_pres_02 i_pres_03 i_pres_04 : Error
  i_aprj_01 i_agn_01 i_agn_02 i_agn_03 i_agn_05 i_aff_05 affect_infeasible trans_mismatch : Error
  -- runtime rows and the seams
  i_rt_01 i_rt_04 i_rt_07 i_rt_09 i_rt_11 i_rt_12 percept_rho registry_cogito registry_text : Error
  i_llm_01 llm_max_attempts llm_transport l2_corrupt l2_dir parse_ambiguous parse_unknown : Error
  triggered_none : Error
  -- Python's own
  key_error index_error assertion_subset assertion_monotone : Error
  -- brain/ui/composer.py
  char_missing char_length char_unprintable text_unprintable : Error
  buffer_unprintable buffer_bound cursor_range history_bound history_entry history_cursor_range :
      Error
  mode_unknown status_unprintable status_bound line_unprintable line_bound : Error
  -- brain/development
  i_strm_02 i_strm_03 i_strm_04 i_strm_05 i_strm_06 i_strm_07 i_strm_11 : Error
  i_pledger_03 i_pledger_05 i_pledger_08 : Error
  i_dev_05 i_dev_06 dev_id unit_range proto_kinds proto_signature proto_provenance : Error
  i_repl_01 i_repl_02 i_repl_03 i_repl_04 i_repl_05 i_repl_06 i_repl_07 i_repl_12 i_repl_13 : Error
  i_repl_14 i_repl_15 i_repl_17 repl_reference score_arguments valence_range : Error
  i_agentloop_01 summary_keys summary_sketch : Error
  -- brain/ui/commands.py
  i_uistrm_02 payload_rho payload_type backup_scheme autosave_unsupported : Error
  assertion_unrouted : Error

pub data Result {ℓ} (A : Type ℓ) : Type ℓ where
  ok : A → Result A
  raise : Error → Result A

-- To split on the outcome of a call and keep the equation.
pub Result-cases {ℓ} :
    {A : Type ℓ} (r : Result A) → ((a : A) × (r ≡ ok a)) ⊎ ((x : Error) × (r ≡ raise x))
Result-cases (ok a) = inl (a, refl)
Result-cases (raise x) = inr (x, refl)

-- `if not test: raise x`
abbrev pub require : Bool → Error → Result (Unit {0})
require false x = raise x
require true x = ok tt

-- One statement after another: an exception leaves the rest undone.
module _ {ℓ} {B : Type ℓ} where
  infixl 5 ◌>>=◌ ◌>>◌
  abbrev pub ◌>>=◌ {κ} : {A : Type κ} → Result A → (A → Result B) → Result B
  raise x >>= rest = raise x
  ok value >>= rest = rest value

  abbrev pub ◌>>◌ : Result (Unit {0}) → Result B → Result B
  ◌>>◌ statement rest = statement >>= λ done. rest
