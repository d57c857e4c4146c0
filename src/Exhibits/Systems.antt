-- ===== src/Exhibits/Systems.antt =====
-- The campaign of an exhibit that compares the systems.
use whimbrel.Prelude.{ℕ, ◌*◌, ◌<◌}
use whimbrel.Prelude.{◌≡◌, refl, inl, inr}
use whimbrel.Prelude.{true, some, arith}
use whimbrel.Prelude.{List, [], ◌∷◌, map}
use whimbrel.Prelude.{◌==◌, Option-cases}
use whimbrel.Prelude.{length, all, keep, All}
use whimbrel.Prelude.{ok, Result-cases}
use whimbrel.Prelude.Text.{Text, codes, text_eq_iff}
use whimbrel.Prelude.Dict.{Dict, lookup}
use whimbrel.Pass.Campaign.{mem}
use whimbrel.Exhibits.Rows.{Row, PhaseCell, recorded, of_config}
use whimbrel.Exhibits.Gates.{
  check_batches, check_sha, check_arms, check_steal, controls_wanted, check_fields, check_connect,
}
use whimbrel.Exhibits.Validate.{
  t48_arm_order, configs_of, linux_artifacts, boots, check_kernels, t48_images, e4_median,
  check_faster, is_linux, is_whimbrel_e3g, check_t48_phases, check_rows, validate_t48,
}
use whimbrel.Exhibits.Steady.{HasClose, check_connect-HasClose}
use whimbrel.Exhibits.Passes.{
  IsOneTree, check_sha-IsOneTree, check_batches-mem, HasArms, check_arms-HasArms, HasFields,
  check_fields-HasFields, steal-none,
}

-- The rows of these arms boot the artifacts of the manifest.
abbrev pub HasKernels : Dict Text → List (Text × Text) → List Row → Type 0
HasKernels man images rec =
    All
      (λ (cfg, image).
        (digest : Text) × (lookup image man ≡ some digest)
        × All (λ (r : Row). r.kernel_sha256 ≡ digest) (keep (of_config cfg) rec))
      images

kernels-All :
    (digest : Text) (rows : List Row)
    → all (boots digest) rows ≡ true
    → All (λ (r : Row). r.kernel_sha256 ≡ digest) rows
kernels-All digest [] h = tt
kernels-All digest (r ∷ rows) h =
    ((text_eq_iff r.kernel_sha256 digest).0 (ground arith), kernels-All digest rows (ground arith))

check_kernels-HasKernels :
    (man : Dict Text) (images : List (Text × Text)) (rec : List Row)
    → check_kernels man images rec ≡ ok tt
    → HasKernels man images rec
unfolding check_kernels
check_kernels-HasKernels man [] rec h = tt
check_kernels-HasKernels man ((cfg, image) ∷ images) rec h =
    elim (Option-cases (lookup image man)) [
      | inl e ↦ absurd (ground arith)
      | inr (digest, e) ↦ (
        (digest, e, kernels-All digest (keep (of_config cfg) rec) (ground arith)),
        check_kernels-HasKernels man images rec (ground arith),
      )
    ]

-- The trimmed kernel answers sooner than the stock one.
abbrev pub IsFaster : List Row → Type 0
IsFaster rec =
    (a : ℕ) × (b : ℕ) × (e4_median (codes "trimmed") rec ≡ ok a)
    × (e4_median (codes "stock") rec ≡ ok b)
    × (a < b)

check_faster-IsFaster : (rec : List Row) → check_faster rec ≡ ok tt → IsFaster rec
unfolding check_faster
check_faster-IsFaster rec h = elim (Result-cases (e4_median (codes "trimmed") rec)) [
  | inr (f, failed) ↦ absurd (ground arith)
  | inl (a, e) ↦ elim (Result-cases (e4_median (codes "stock") rec)) [
    | inr (f, failed) ↦ absurd (ground arith)
    | inl (b, e') ↦ (a, b, e, e', ground arith)
  ]
]

pub record IsComparison (batches : List Text) (prefix : Text) (n : ℕ) (manifest : Text)
    (runs : List Row) (phases : List PhaseCell) : Type 0 where
  pub registered : (t : Text) → mem t (map (λ (r : Row). r.batch_id) runs) ≡ mem t batches
  pub tree : IsOneTree prefix (recorded runs)
  pub arms : HasArms n t48_arm_order (recorded runs)
  pub no_steal : all (λ (r : Row). r.steal_ticks == 0) (recorded runs) ≡ true
  pub total : length (recorded runs) ≡ n * 5
  pub controls : HasFields controls_wanted (recorded runs)
  pub artifacts : Dict Text
  pub named : linux_artifacts manifest ≡ ok artifacts
  pub kernels : HasKernels artifacts t48_images (recorded runs)
  pub connects : HasClose (configs_of t48_arm_order) (recorded runs)
  pub faster : IsFaster (recorded runs)
  pub no_linux : keep is_linux phases ≡ []
  pub listen : length (keep (is_whimbrel_e3g (recorded runs)) phases) ≡ 2 * n

validate_t48-gates :
    (batches : List Text) (prefix : Text) (n : ℕ) (manifest : Text) (fields : List Text)
    (runs : List Row) (phases : List PhaseCell)
    → validate_t48 batches prefix n manifest fields runs phases ≡ ok tt
    → (check_rows batches prefix n t48_arm_order runs ≡ ok tt)
      × ((man : Dict Text) × (linux_artifacts manifest ≡ ok man)
          × (check_kernels man t48_images (recorded runs) ≡ ok tt))
      × (check_connect (configs_of t48_arm_order) (recorded runs) ≡ ok tt)
      × (check_faster (recorded runs) ≡ ok tt)
      × (check_t48_phases n (recorded runs) phases ≡ ok tt)
unfolding validate_t48
validate_t48-gates batches prefix n manifest fields runs phases h =
    elim (Result-cases (linux_artifacts manifest)) [
      | inr (e, failed) ↦ absurd (ground arith)
      | inl (man, named) ↦
          (ground arith, (man, named, ground arith), ground arith, ground arith, ground arith)
    ]

check_rows-gates :
    (batches : List Text) (prefix : Text) (n : ℕ) (arms : List (Text × Text)) (runs : List Row)
    → check_rows batches prefix n arms runs ≡ ok tt
    → (check_batches batches runs ≡ ok tt)
      × (check_sha prefix (recorded runs) ≡ ok tt)
      × (check_arms n arms (recorded runs) ≡ ok tt)
      × (check_steal (n * length arms) (recorded runs) ≡ ok tt)
      × (check_fields (recorded runs) controls_wanted ≡ ok tt)
unfolding check_rows
check_rows-gates batches prefix n arms runs h = ground arith

nil_of_length : {A : Type 0} (xs : List A) → length xs ≡ 0 → xs ≡ []
nil_of_length [] h = refl
nil_of_length (x ∷ xs) h = absurd (omega (arith, h))

check_t48_phases-counts :
    (n : ℕ) (rec : List Row) (phases : List PhaseCell)
    → check_t48_phases n rec phases ≡ ok tt
    → (keep is_linux phases ≡ []) × (length (keep (is_whimbrel_e3g rec) phases) ≡ 2 * n)
unfolding check_t48_phases
check_t48_phases-counts n rec phases h =
    (nil_of_length (keep is_linux phases) (ground arith), ground arith)

-- A comparison of the systems is made only of the registered batches of one clean commit, with `n`
-- rows of each arm, of its system and without steal, on a host with the controls; the Linux arms
-- boot the artifacts of the manifest, the first connects are within a millisecond, the trimmed kernel
-- is the faster one, Linux has no phase rows, and each Whimbrel row its listen time in number.
pub validate_t48-IsComparison :
    (batches : List Text) (prefix : Text) (n : ℕ) (manifest : Text) (fields : List Text)
    (runs : List Row) (phases : List PhaseCell)
    → validate_t48 batches prefix n manifest fields runs phases ≡ ok tt
    → IsComparison batches prefix n manifest runs phases
validate_t48-IsComparison batches prefix n manifest fields runs phases h =
    let rec = recorded runs in
    let (rows, (man, named, kernels), connects, faster, counted) =
      validate_t48-gates batches prefix n manifest fields runs phases h in
    let (registered, sha, arms, steal, controls) =
      check_rows-gates batches prefix n t48_arm_order runs rows in
    let (no_steal, total) = steal-none (n * 5) rec steal in
    let (no_linux, listen) = check_t48_phases-counts n rec phases counted in
    record {
      registered = check_batches-mem batches runs registered;
      tree = check_sha-IsOneTree prefix rec sha;
      arms = check_arms-HasArms n t48_arm_order rec arms;
      no_steal = no_steal;
      total = total;
      controls = check_fields-HasFields rec controls_wanted controls;
      artifacts = man;
      named = named;
      kernels = check_kernels-HasKernels man t48_images rec kernels;
      connects = check_connect-HasClose (configs_of t48_arm_order) rec connects;
      faster = check_faster-IsFaster rec faster;
      no_linux = no_linux;
      listen = listen;
    }
