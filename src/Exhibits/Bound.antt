-- ===== src/Exhibits/Bound.antt =====
-- The campaign of an exhibit on the two firmware lanes.
use whimbrel.Prelude.{ℕ, ◌*◌, ◌<◌}
use whimbrel.Prelude.{◌≡◌}
use whimbrel.Prelude.{true, arith}
use whimbrel.Prelude.{List, [], ◌∷◌, map}
use whimbrel.Prelude.{◌==◌}
use whimbrel.Prelude.{length, all, keep, All}
use whimbrel.Prelude.{ok}
use whimbrel.Prelude.Text.{Text, codes}
use whimbrel.Pass.Campaign.{mem}
use whimbrel.Exhibits.Rows.{Row, PhaseCell, fast, m_fast, recorded}
use whimbrel.Exhibits.Gates.{
  check_batches, check_sha, check_arms, check_steal, controls_wanted, check_fields, check_connect,
  check_canary, is_phase,
}
use whimbrel.Exhibits.Validate.{t47_arm_order, configs_of, check_e3g}
use whimbrel.Exhibits.Firmware.{
  is_opensbi, is_shim, batches_in, check_lanes, check_bios, seam_phases, of_arm_phase, check_lane,
  check_sane, check_t47_rows, check_t47_lanes, validate_t47,
}
use whimbrel.Exhibits.Passes.{
  IsOneTree, check_sha-IsOneTree, check_batches-mem, check_lanes-mem, HasArms, check_arms-HasArms,
  HasFields, check_fields-HasFields, HasOneCanary, check_canary-HasOneCanary, check_bios-one,
  check_seams-All, steal-none,
}
use whimbrel.Exhibits.Steady.{
  HasStable, HasClose, check_connect-HasClose, require_e2e3g_stable-HasStable, IsSane,
  check_sane-IsSane,
}

-- One campaign with two lanes.
pub record IsFirmware (batches : List Text) (prefix : Text) (n : ℕ) (runs : List Row)
    (phases : List PhaseCell) : Type 0 where
  pub registered : (t : Text) → mem t (map (λ (r : Row). r.batch_id) runs) ≡ mem t batches
  pub one_campaign :
      (t : Text)
      → mem t (batches_in is_opensbi (recorded runs)) ≡ mem t (batches_in is_shim (recorded runs))
  pub canary : HasOneCanary runs
  pub tree : IsOneTree prefix (recorded runs)
  pub arms : HasArms n t47_arm_order (recorded runs)
  pub no_steal : all (λ (r : Row). r.steal_ticks == 0) (recorded runs) ≡ true
  pub total : length (recorded runs) ≡ n * 4
  pub controls : HasFields controls_wanted (recorded runs)
  pub blob :
      (hash : Text) × (0 < length hash)
      × All (λ (r : Row). r.bios_sha256 ≡ hash) (keep is_shim (recorded runs))
  pub connects : HasClose (configs_of t47_arm_order) (recorded runs)
  pub listen : length (keep (is_phase (codes "E3g") (recorded runs)) phases) ≡ n * 4
  pub seams :
      All
        (λ cfg.
          All (λ name. length (keep (of_arm_phase cfg name (recorded runs)) phases) ≡ n) seam_phases
          × HasStable (recorded runs) phases cfg)
        (fast ∷ m_fast ∷ [])
  pub startup : IsSane (recorded runs)

rows-gates :
    (batches : List Text) (prefix : Text) (n : ℕ) (runs rec : List Row)
    → check_t47_rows batches prefix n runs rec ≡ ok tt
    → (check_lanes rec ≡ ok tt)
      × (check_batches batches runs ≡ ok tt)
      × (check_canary runs ≡ ok tt)
      × (check_sha prefix rec ≡ ok tt)
      × (check_arms n t47_arm_order rec ≡ ok tt)
      × (check_steal (n * 4) rec ≡ ok tt)
      × (check_fields rec controls_wanted ≡ ok tt)
      × (check_bios rec ≡ ok tt)
unfolding check_t47_rows
rows-gates batches prefix n runs rec h = ground arith

check_e3g-counts :
    (want : ℕ) (rec : List Row) (phases : List PhaseCell)
    → check_e3g want rec phases ≡ ok tt
    → length (keep (is_phase (codes "E3g") rec) phases) ≡ want
unfolding check_e3g
check_e3g-counts want rec phases h = ground arith

check_lane-parts :
    (n : ℕ) (rec : List Row) (phases : List PhaseCell) (cfg : Text)
    → check_lane n rec phases cfg ≡ ok tt
    → All (λ name. length (keep (of_arm_phase cfg name rec) phases) ≡ n) seam_phases
      × HasStable rec phases cfg
unfolding check_lane
check_lane-parts n rec phases cfg h = (
  check_seams-All n cfg seam_phases rec phases (ground arith),
  require_e2e3g_stable-HasStable rec phases cfg (ground arith),
)

lanes-gates :
    (n : ℕ) (rec : List Row) (phases : List PhaseCell)
    → check_t47_lanes n rec phases ≡ ok tt
    → (check_connect (configs_of t47_arm_order) rec ≡ ok tt)
      × (check_e3g (n * 4) rec phases ≡ ok tt)
      × (check_lane n rec phases fast ≡ ok tt)
      × (check_lane n rec phases m_fast ≡ ok tt)
      × (check_sane rec ≡ ok tt)
unfolding check_t47_lanes
lanes-gates n rec phases h = ground arith

both-stages :
    (batches : List Text) (prefix : Text) (n : ℕ) (fields : List Text) (runs : List Row)
    (phases : List PhaseCell)
    → validate_t47 batches prefix n fields runs phases ≡ ok tt
    → (check_t47_rows batches prefix n runs (recorded runs) ≡ ok tt)
      × (check_t47_lanes n (recorded runs) phases ≡ ok tt)
unfolding validate_t47
both-stages batches prefix n fields runs phases h = (ground arith, ground arith)

-- An exhibit on the firmware lanes is made only of one campaign: the registered batches, the same in
-- both lanes, one canary, one clean commit, `n` rows of each arm without steal, the controls, one
-- blob on the shim's rows, first connects within a millisecond, the phases of the seam, a listen time that is stable over the two batches
-- in each fast arm, and startups within the bounds of their difference.
pub validate_t47-IsFirmware :
    (batches : List Text) (prefix : Text) (n : ℕ) (fields : List Text) (runs : List Row)
    (phases : List PhaseCell)
    → validate_t47 batches prefix n fields runs phases ≡ ok tt
    → IsFirmware batches prefix n runs phases
validate_t47-IsFirmware batches prefix n fields runs phases h =
    let rec = recorded runs in
    let (rows, lanes) = both-stages batches prefix n fields runs phases h in
    let (same_lanes, registered, canary, sha, arms, steal, controls, bios) =
      rows-gates batches prefix n runs rec rows in
    let (connects, e3g, fast_lane, m_lane, sane) = lanes-gates n rec phases lanes in
    let (no_steal, total) = steal-none (n * 4) rec steal in
    record {
      registered = check_batches-mem batches runs registered;
      one_campaign = check_lanes-mem rec same_lanes;
      canary = check_canary-HasOneCanary runs canary;
      tree = check_sha-IsOneTree prefix rec sha;
      arms = check_arms-HasArms n t47_arm_order rec arms;
      no_steal = no_steal;
      total = total;
      controls = check_fields-HasFields rec controls_wanted controls;
      blob = check_bios-one rec bios;
      connects = check_connect-HasClose (configs_of t47_arm_order) rec connects;
      listen = check_e3g-counts (n * 4) rec phases e3g;
      seams = (
        check_lane-parts n rec phases fast fast_lane,
        (check_lane-parts n rec phases m_fast m_lane, tt),
      );
      startup = check_sane-IsSane rec sane;
    }
