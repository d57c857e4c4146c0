-- ===== src/Exhibits/Passes.antt =====
-- What each gate of scripts/report-exhibits.py lets pass.
use whimbrel.Prelude.{ℕ, ◌<◌}
use whimbrel.Prelude.{◌≡◌, refl, inl, inr}
use whimbrel.Prelude.{true, some, arith}
use whimbrel.Prelude.{List, [], ◌∷◌, map}
use whimbrel.Prelude.{◌==◌, Option-cases}
use whimbrel.Prelude.{length, all, keep, All}
use whimbrel.Prelude.{ok}
use whimbrel.Prelude.{All-of_map, All-all}
use whimbrel.Prelude.Text.{Text, text_eq, text_eq_iff, starts_with}
use whimbrel.Pass.Campaign.{mem}
use whimbrel.Pass.Pinned.{same_set-mem}
use whimbrel.Exhibits.Rows.{Row, PhaseCell, of_config}
use whimbrel.Exhibits.Gates.{
  sole, check_batches, check_sha, count_arm, is_system, check_arms, check_steal, has_control,
  check_fields, has_canary, same_canary, check_canary,
}
use whimbrel.Exhibits.Firmware.{
  is_opensbi, is_shim, batches_in, check_lanes, check_bios, of_arm_phase, check_seams,
}

same-All : (t : Text) (ts : List Text) → all (λ u. text_eq u t) ts ≡ true → All (λ u. u ≡ t) ts
same-All t [] h = tt
same-All t (u ∷ ts) h = ((text_eq_iff u t).0 (ground arith), same-All t ts (ground arith))

sole-All : (ts : List Text) (t : Text) → sole ts ≡ some t → All (λ u. u ≡ t) ts
unfolding sole
sole-All [] t h = cc
sole-All (u ∷ ts) t h =
    let same : u ≡ t = ground arith in (same, rw same at (same-All u ts (ground arith)))

-- One clean commit.
abbrev pub IsOneTree : Text → List Row → Type 0
IsOneTree prefix rec =
    (sha : Text) × (starts_with sha prefix ≡ true)
    × All (λ (r : Row). r.git_sha ≡ sha) rec
    × All (λ (r : Row). (r.dirty == 0) ≡ true) rec

pub check_sha-IsOneTree :
    (prefix : Text) (rec : List Row) → check_sha prefix rec ≡ ok tt → IsOneTree prefix rec
unfolding check_sha
check_sha-IsOneTree prefix rec h = elim (Option-cases (sole (map (λ (r : Row). r.git_sha) rec))) [
  | inl e ↦ absurd (ground arith)
  | inr (sha, e) ↦ (
    sha,
    ground arith,
    All-of_map (λ (r : Row). r.git_sha) (λ u. u ≡ sha) rec
        (sole-All (map (λ (r : Row). r.git_sha) rec) sha e),
    All-all (λ (r : Row). r.dirty == 0) rec (ground arith),
  )
]

pub check_batches-mem :
    (batches : List Text) (runs : List Row)
    → check_batches batches runs ≡ ok tt
    → (t : Text) → mem t (map (λ (r : Row). r.batch_id) runs) ≡ mem t batches
unfolding check_batches
check_batches-mem batches runs h t =
    same_set-mem (map (λ (r : Row). r.batch_id) runs) batches t (ground arith)

pub check_lanes-mem :
    (rec : List Row)
    → check_lanes rec ≡ ok tt
    → (t : Text) → mem t (batches_in is_opensbi rec) ≡ mem t (batches_in is_shim rec)
unfolding check_lanes
check_lanes-mem rec h t =
    same_set-mem (batches_in is_opensbi rec) (batches_in is_shim rec) t (ground arith)

-- Each arm has `n` rows, all of its system.
abbrev pub HasArms : ℕ → List (Text × Text) → List Row → Type 0
HasArms n arms rec =
    All
      (λ (sys, cfg).
        (count_arm cfg rec ≡ n) × All (λ (r : Row). r.system ≡ sys) (keep (of_config cfg) rec))
      arms

systems-All :
    (sys : Text) (rows : List Row)
    → all (is_system sys) rows ≡ true
    → All (λ (r : Row). r.system ≡ sys) rows
systems-All sys [] h = tt
systems-All sys (r ∷ rows) h =
    ((text_eq_iff r.system sys).0 (ground arith), systems-All sys rows (ground arith))

pub check_arms-HasArms :
    (n : ℕ) (arms : List (Text × Text)) (rec : List Row)
    → check_arms n arms rec ≡ ok tt
    → HasArms n arms rec
unfolding check_arms
check_arms-HasArms n [] rec h = tt
check_arms-HasArms n ((sys, cfg) ∷ arms) rec h = (
  (ground arith, systems-All sys (keep (of_config cfg) rec) (ground arith)),
  check_arms-HasArms n arms rec (ground arith),
)

-- Each control has its value in all rows.
abbrev pub HasFields : List (Text × Text) → List Row → Type 0
HasFields fields rec = All (λ (field, want). all (has_control field want) rec ≡ true) fields

pub check_fields-HasFields :
    (rec : List Row) (fields : List (Text × Text))
    → check_fields rec fields ≡ ok tt
    → HasFields fields rec
unfolding check_fields
check_fields-HasFields rec [] h = tt
check_fields-HasFields rec ((field, want) ∷ fields) h =
    (ground arith, check_fields-HasFields rec fields (ground arith))

-- One canary in all rows.
abbrev pub HasOneCanary : List Row → Type 0
HasOneCanary rows =
    (stvec : Text) × (pv : Text) × (0 < length stvec)
    × (0 < length pv)
    × All (λ (r : Row). (r.canary_stvec ≡ stvec) × (r.canary_pv ≡ pv)) rows

canaries-All :
    (r : Row) (rows : List Row)
    → all (same_canary r) rows ≡ true
    → All (λ (q : Row). (q.canary_stvec ≡ r.canary_stvec) × (q.canary_pv ≡ r.canary_pv)) rows
canaries-All r [] h = tt
canaries-All r (q ∷ rows) h = (
  (
    (text_eq_iff q.canary_stvec r.canary_stvec).0 (ground arith),
    (text_eq_iff q.canary_pv r.canary_pv).0 (ground arith),
  ),
  canaries-All r rows (ground arith),
)

pub check_canary-HasOneCanary : (rows : List Row) → check_canary rows ≡ ok tt → HasOneCanary rows
unfolding check_canary has_canary
check_canary-HasOneCanary [] h = absurd (ground arith)
check_canary-HasOneCanary (r ∷ rows) h = (
  r.canary_stvec,
  r.canary_pv,
  ground arith,
  ground arith,
  ((refl, refl), canaries-All r rows (ground arith)),
)

-- One firmware blob on the shim's rows.
pub check_bios-one :
    (rec : List Row)
    → check_bios rec ≡ ok tt
    → (hash : Text) × (0 < length hash) × All (λ (r : Row). r.bios_sha256 ≡ hash) (keep is_shim rec)
unfolding check_bios
check_bios-one rec h =
    elim (Option-cases (sole (map (λ (r : Row). r.bios_sha256) (keep is_shim rec)))) [
      | inl e ↦ absurd (ground arith)
      | inr (hash, e) ↦ (
        hash,
        ground arith,
        All-of_map (λ (r : Row). r.bios_sha256) (λ u. u ≡ hash) (keep is_shim rec)
            (sole-All (map (λ (r : Row). r.bios_sha256) (keep is_shim rec)) hash e),
      )
    ]

pub check_seams-All :
    (n : ℕ) (cfg : Text) (names : List Text) (rec : List Row) (phases : List PhaseCell)
    → check_seams n cfg names rec phases ≡ ok tt
    → All (λ name. length (keep (of_arm_phase cfg name rec) phases) ≡ n) names
unfolding check_seams
check_seams-All n cfg [] rec phases h = tt
check_seams-All n cfg (name ∷ names) rec phases h =
    (ground arith, check_seams-All n cfg names rec phases (ground arith))

pub steal-none :
    (total : ℕ) (rec : List Row)
    → check_steal total rec ≡ ok tt
    → (all (λ (r : Row). r.steal_ticks == 0) rec ≡ true) × (length rec ≡ total)
unfolding check_steal
steal-none total rec h = (ground arith, ground arith)
