-- ===== src/Exhibits/Validate.antt =====
-- `validate`, `validate_t48` and `validate_t47` of scripts/report-exhibits.py.
use whimbrel.Prelude.{ℕ, ◌*◌}
use whimbrel.Prelude.{Bool, true, false, ◌&&◌, ◌||◌, Option, none, some}
use whimbrel.Prelude.{List, [], ◌∷◌, map}
use whimbrel.Prelude.{ltb, ◌==◌, if◌then◌else◌}
use whimbrel.Prelude.{length, all, keep}
use whimbrel.Prelude.{Result, ok, err, ◌>>=◌, ◌>>◌, guard, map_err}
use whimbrel.Prelude.Text.{Text, codes, text_eq, strip, split, splitlines, starts_with}
use whimbrel.Prelude.Dict.{Dict, lookup, has_key}
use whimbrel.Stats.Percentile.{median}
use whimbrel.Bench.Connect.{Schema, old, new, runs_schema}
use whimbrel.Exhibits.Rows.{
  Row, PhaseCell, ExhibitFail, empty_csv, bad_schema, wrong_kernel, no_artifact, not_faster,
  wrong_count, linux_phases, e3g_count, safe, fast, m_fast, m_safe, recorded, of_config,
}
use whimbrel.Exhibits.Lanes.{or_no_data}
use whimbrel.Exhibits.Gates.{
  check_batches, check_sha, check_configs, count_arm, check_arms, check_steal, controls_wanted,
  check_fields, check_connect, is_phase,
}

abbrev pub same_schema : Schema → Schema → Bool
same_schema old old = true
same_schema new new = true
same_schema old new = false
same_schema new old = false

-- The columns of the file are those of its first row, so that there has to be one.
unfoldable pub check_schema : Schema → List Text → List Row → Result ExhibitFail (Unit {0})
check_schema want fields [] = err empty_csv
check_schema want fields (r ∷ runs) = do
  s ← map_err (λ e. bad_schema) (runs_schema fields)
  guard (same_schema s want) bad_schema

abbrev pub t48_arm_order : List (Text × Text)
t48_arm_order =
    (codes "whimbrel", fast)
    ∷ (codes "whimbrel", safe)
    ∷ (codes "linux", codes "trimmed")
    ∷ (codes "linux", codes "trimmed-instrumented")
    ∷ (codes "linux", codes "stock")
    ∷ []

abbrev pub t47_arm_order : List (Text × Text)
t47_arm_order =
    (codes "whimbrel", fast)
    ∷ (codes "whimbrel", safe)
    ∷ (codes "whimbrel", m_fast)
    ∷ (codes "whimbrel", m_safe)
    ∷ []

abbrev pub configs_of : List (Text × Text) → List Text
configs_of arms = map (λ (sys, cfg). cfg) arms

unfoldable pub check_e3g : ℕ → List Row → List PhaseCell → Result ExhibitFail (Unit {0})
check_e3g want rec phases = do
  let n = length (keep (is_phase (codes "E3g") rec) phases)
  guard (n == want) (e3g_count n)

-- The lines of a manifest that name an artifact.
abbrev artifact_of : List Text → Dict Text → Dict Text
artifact_of (kind ∷ name ∷ digest ∷ []) arts =
    if text_eq kind (codes "artifact") then (name, digest) ∷ arts else arts
artifact_of parts arts = arts

unfoldable pub artifacts_from : Dict Text → List Text → Dict Text
artifacts_from arts [] = arts
artifacts_from arts (raw ∷ lines) =
    let line = strip raw in
    artifacts_from (if starts_with line (codes "#") then arts else artifact_of (split line) arts)
      lines

abbrev want_artifacts : List Text
want_artifacts =
    codes "Image-stock" ∷ codes "Image-trimmed" ∷ codes "rootfs.cpio" ∷ codes "init" ∷ []

unfoldable pub linux_artifacts : Text → Result ExhibitFail (Dict Text)
linux_artifacts text = do
  let arts = artifacts_from [] (splitlines text)
  guard (all (λ n. has_key n arts) want_artifacts) (no_artifact (codes "MANIFEST"))
  ok arts

abbrev or_no_artifact : Text → Option Text → Result ExhibitFail Text
or_no_artifact image none = err (no_artifact image)
or_no_artifact image (some digest) = ok digest

abbrev pub boots : Text → Row → Bool
boots digest r = text_eq r.kernel_sha256 digest

unfoldable pub check_kernels :
    Dict Text → List (Text × Text) → List Row → Result ExhibitFail (Unit {0})
check_kernels man [] rec = ok tt
check_kernels man ((cfg, image) ∷ images) rec = do
  digest ← or_no_artifact image (lookup image man)
  guard (ltb 0 (count_arm cfg rec) && all (boots digest) (keep (of_config cfg) rec))
      (wrong_kernel cfg)
  check_kernels man images rec

abbrev pub t48_images : List (Text × Text)
t48_images =
    (codes "stock", codes "Image-stock")
    ∷ (codes "trimmed", codes "Image-trimmed")
    ∷ (codes "trimmed-instrumented", codes "Image-trimmed")
    ∷ []

unfoldable pub e4_median : Text → List Row → Result ExhibitFail ℕ
e4_median cfg rec =
    or_no_data (median (map (λ (r : Row). r.e0_to_e4_ns) (keep (of_config cfg) rec)))

unfoldable pub check_faster : List Row → Result ExhibitFail (Unit {0})
check_faster rec = do
  trimmed ← e4_median (codes "trimmed") rec
  stock ← e4_median (codes "stock") rec
  guard (ltb trimmed stock) not_faster

abbrev pub is_linux : PhaseCell → Bool
is_linux p = (p.warmup == 0) && text_eq p.system (codes "linux")

abbrev pub is_whimbrel_e3g : List Row → PhaseCell → Bool
is_whimbrel_e3g rec p =
    is_phase (codes "E3g") rec p && (text_eq p.config fast || text_eq p.config safe)

unfoldable pub check_t48_phases : ℕ → List Row → List PhaseCell → Result ExhibitFail (Unit {0})
check_t48_phases n rec phases = do
  guard (length (keep is_linux phases) == 0) (linux_phases (length (keep is_linux phases)))
  let found = length (keep (is_whimbrel_e3g rec) phases)
  guard (found == 2 * n) (e3g_count found)

-- What the three share: the batches, the tree, the arms, the steal and the controls.
unfoldable pub check_rows :
    List Text → Text → ℕ → List (Text × Text) → List Row → Result ExhibitFail (Unit {0})
check_rows batches sha_prefix n arms runs = do
  let rec = recorded runs
  check_batches batches runs
  check_sha sha_prefix rec
  check_configs (configs_of arms) rec
  check_arms n arms rec
  check_steal (n * length arms) rec
  check_fields rec controls_wanted

unfoldable pub validate_t48 :
    List Text
    → Text
    → ℕ
    → Text
    → List Text
    → List Row
    → List PhaseCell
    → Result ExhibitFail (Unit {0})
validate_t48 batches sha_prefix n manifest_text fields runs phases = do
  check_schema new fields runs
  check_rows batches sha_prefix n t48_arm_order runs
  man ← linux_artifacts manifest_text
  check_kernels man t48_images (recorded runs)
  check_connect (configs_of t48_arm_order) (recorded runs)
  check_faster (recorded runs)
  check_t48_phases n (recorded runs) phases

unfoldable pub check_counts : ℕ → List Text → List Row → Result ExhibitFail (Unit {0})
check_counts n [] rec = ok tt
check_counts n (cfg ∷ cfgs) rec = do
  guard (count_arm cfg rec == n) (wrong_count cfg (count_arm cfg rec))
  check_counts n cfgs rec

unfoldable pub validate :
    List Text → Text → ℕ → List Text → List Row → List PhaseCell → Result ExhibitFail (Unit {0})
validate batches sha_prefix n fields runs phases = do
  let rec = recorded runs
  check_schema old fields runs
  check_batches batches runs
  check_sha sha_prefix rec
  check_configs (safe ∷ fast ∷ []) rec
  check_counts n (safe ∷ fast ∷ []) rec
  check_steal (n * 2) rec
  check_fields rec controls_wanted
  check_e3g (n * 2) rec phases
