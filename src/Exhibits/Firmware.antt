-- ===== src/Exhibits/Firmware.antt =====
-- `validate_t47` of scripts/report-exhibits.py.
use whimbrel.Prelude.{ℕ, ◌*◌}
use whimbrel.Prelude.{Bool, false, ◌&&◌, Option, none, some}
use whimbrel.Prelude.{List, [], ◌∷◌, map}
use whimbrel.Prelude.{ltb, ◌==◌}
use whimbrel.Prelude.{length, keep}
use whimbrel.Prelude.{Result, ok, ◌>>=◌, ◌>>◌, guard}
use whimbrel.Prelude.Text.{Text, codes, text_eq}
use whimbrel.Pass.Campaign.{mem, same_set}
use whimbrel.Bench.Connect.{new, has_column}
use whimbrel.Exhibits.Rows.{
  Row, PhaseCell, ExhibitFail, mixed_lanes, no_canary_column, wrong_bios, phase_count, safe, fast,
  m_fast, m_safe, recorded,
}
use whimbrel.Exhibits.Lanes.{require_e2e3g_stable, require_delta_s_sane}
use whimbrel.Exhibits.Gates.{
  sole, check_batches, check_sha, check_configs, check_arms, check_steal, controls_wanted,
  check_fields, check_connect, check_canary, is_phase,
}
use whimbrel.Exhibits.Validate.{check_schema, t47_arm_order, configs_of, check_e3g}

abbrev pub canary_fields : List Text
canary_fields = codes "canary_stvec_ns" ∷ codes "canary_page_verify_ns" ∷ []

unfoldable pub check_columns : List Text → List Text → Result ExhibitFail (Unit {0})
check_columns fields [] = ok tt
check_columns fields (want ∷ wanted) = do
  guard (has_column fields want) (no_canary_column want)
  check_columns fields wanted

abbrev pub is_opensbi : Row → Bool
is_opensbi r = mem r.config (fast ∷ safe ∷ [])

abbrev pub is_shim : Row → Bool
is_shim r = mem r.config (m_fast ∷ m_safe ∷ [])

abbrev pub batches_in : (Row → Bool) → List Row → List Text
batches_in lane rec = map (λ (r : Row). r.batch_id) (keep lane rec)

unfoldable pub check_lanes : List Row → Result ExhibitFail (Unit {0})
check_lanes rec = guard (same_set (batches_in is_opensbi rec) (batches_in is_shim rec)) mixed_lanes

abbrev pub is_blob : Option Text → Bool
is_blob none = false
is_blob (some hash) = ltb 0 (length hash)

unfoldable pub check_bios : List Row → Result ExhibitFail (Unit {0})
check_bios rec =
    guard (is_blob (sole (map (λ (r : Row). r.bios_sha256) (keep is_shim rec)))) wrong_bios

abbrev pub seam_phases : List Text
seam_phases = codes "stvec" ∷ codes "frame_init" ∷ codes "E3g" ∷ []

abbrev pub of_arm_phase : Text → Text → List Row → PhaseCell → Bool
of_arm_phase cfg name rec p = is_phase name rec p && text_eq p.config cfg

unfoldable pub check_seams :
    ℕ → Text → List Text → List Row → List PhaseCell → Result ExhibitFail (Unit {0})
check_seams n cfg [] rec phases = ok tt
check_seams n cfg (name ∷ names) rec phases = do
  let found = length (keep (of_arm_phase cfg name rec) phases)
  guard (found == n) (phase_count cfg name found)
  check_seams n cfg names rec phases

unfoldable pub check_lane : ℕ → List Row → List PhaseCell → Text → Result ExhibitFail (Unit {0})
check_lane n rec phases cfg = do
  check_seams n cfg seam_phases rec phases
  require_e2e3g_stable rec phases cfg

unfoldable pub check_sane : List Row → Result ExhibitFail (Unit {0})
check_sane rec = do delta ← require_delta_s_sane rec; ok tt

-- The gates on the rows, in the order of the code, and those on the phases and the two lanes.
unfoldable pub check_t47_rows :
    List Text → Text → ℕ → List Row → List Row → Result ExhibitFail (Unit {0})
check_t47_rows batches sha_prefix n runs rec = do
  check_configs (configs_of t47_arm_order) rec
  check_lanes rec
  check_batches batches runs
  check_canary runs
  check_sha sha_prefix rec
  check_arms n t47_arm_order rec
  check_steal (n * 4) rec
  check_fields rec controls_wanted
  check_bios rec

unfoldable pub check_t47_lanes : ℕ → List Row → List PhaseCell → Result ExhibitFail (Unit {0})
check_t47_lanes n rec phases = do
  check_connect (configs_of t47_arm_order) rec
  check_e3g (n * 4) rec phases
  check_lane n rec phases fast
  check_lane n rec phases m_fast
  check_sane rec

unfoldable pub validate_t47 :
    List Text → Text → ℕ → List Text → List Row → List PhaseCell → Result ExhibitFail (Unit {0})
validate_t47 batches sha_prefix n fields runs phases = do
  check_schema new fields runs
  check_columns fields canary_fields
  check_t47_rows batches sha_prefix n runs (recorded runs)
  check_t47_lanes n (recorded runs) phases
