-- ===== src/Exhibits/Gates.antt =====
-- The gates that `validate_t48` and `validate_t47` of scripts/report-exhibits.py are made of.
use whimbrel.Prelude.{ℕ, ◌-◌, ◌*◌}
use whimbrel.Prelude.{Bool, false, ◌&&◌, Option, none, some}
use whimbrel.Prelude.{List, [], ◌∷◌, map}
use whimbrel.Prelude.{ltb, leb, ◌==◌, if◌then◌else◌, is_some}
use whimbrel.Prelude.{length, all, any, keep}
use whimbrel.Prelude.{Result, ok, err, ◌>>=◌, ◌>>◌, guard}
use whimbrel.Prelude.Text.{Text, codes, text_eq, starts_with}
use whimbrel.Prelude.Dict.{lookup}
use whimbrel.Prelude.Extrema.{lowest, highest}
use whimbrel.Stats.Percentile.{median}
use whimbrel.Pass.Campaign.{same_set}
use whimbrel.Exhibits.Rows.{
  Row, PhaseCell, ExhibitFail, batch_set, mixed_sha, wrong_sha, dirty_tree, wrong_configs,
  wrong_count, wrong_system, steal, wrong_total, missing_control, wrong_control, empty_canary,
  mixed_canary, connect_span, of_config,
}
use whimbrel.Exhibits.Lanes.{or_no_data}

-- The one element of a set, of a list that may repeat it.
unfoldable pub sole : List Text → Option Text
sole [] = none
sole (t ∷ ts) = if all (λ u. text_eq u t) ts then some t else none

abbrev pub or_mixed : Option Text → Result ExhibitFail Text
or_mixed none = err mixed_sha
or_mixed (some sha) = ok sha

unfoldable pub check_batches : List Text → List Row → Result ExhibitFail (Unit {0})
check_batches batches runs = guard (same_set (map (λ (r : Row). r.batch_id) runs) batches) batch_set

-- One commit with the prefix, and no dirty row.
unfoldable pub check_sha : Text → List Row → Result ExhibitFail (Unit {0})
check_sha sha_prefix rec = do
  sha ← or_mixed (sole (map (λ (r : Row). r.git_sha) rec))
  guard (starts_with sha sha_prefix) wrong_sha
  guard (all (λ (r : Row). r.dirty == 0) rec) dirty_tree

unfoldable pub check_configs : List Text → List Row → Result ExhibitFail (Unit {0})
check_configs arms rec = guard (same_set (map (λ (r : Row). r.config) rec) arms) wrong_configs

abbrev pub count_arm : Text → List Row → ℕ
count_arm cfg rec = length (keep (of_config cfg) rec)

abbrev pub is_system : Text → Row → Bool
is_system sys r = text_eq r.system sys

-- Of each arm its system and its configuration; an arm has `n` rows, all of its system.
unfoldable pub check_arms : ℕ → List (Text × Text) → List Row → Result ExhibitFail (Unit {0})
check_arms n [] rec = ok tt
check_arms n ((sys, cfg) ∷ arms) rec = do
  guard (count_arm cfg rec == n) (wrong_count cfg (count_arm cfg rec))
  guard (ltb 0 (count_arm cfg rec) && all (is_system sys) (keep (of_config cfg) rec))
      (wrong_system cfg)
  check_arms n arms rec

unfoldable pub check_steal : ℕ → List Row → Result ExhibitFail (Unit {0})
check_steal total rec = do
  guard (all (λ (r : Row). r.steal_ticks == 0) rec) steal
  guard (length rec == total) (wrong_total (length rec))

abbrev pub controls_wanted : List (Text × Text)
controls_wanted =
    (codes "virt", codes "none")
    ∷ (codes "governor", codes "performance")
    ∷ (codes "smt_control", codes "off")
    ∷ (codes "cpufreq_boost", codes "0")
    ∷ []

abbrev pub has_control : Text → Text → Row → Bool
has_control field want r = elim (lookup field r.controls) [ none ↦ false | some v ↦ text_eq v want ]

-- `if field not in rec[0]` raises, there or at the look up.
abbrev first_has : Text → List Row → Bool
first_has field [] = false
first_has field (r ∷ rec) = is_some (lookup field r.controls)

unfoldable pub check_fields : List Row → List (Text × Text) → Result ExhibitFail (Unit {0})
check_fields rec [] = ok tt
check_fields rec ((field, want) ∷ fields) = do
  guard (first_has field rec) (missing_control field)
  guard (all (has_control field want) rec) (wrong_control field)
  check_fields rec fields

-- The twofold medians of the arms' times to the first connect.
unfoldable pub connect_medians : List Text → List Row → Result ExhibitFail (List ℕ)
connect_medians [] rec = ok []
connect_medians (cfg ∷ arms) rec = do
  m ← or_no_data (median (map (λ (r : Row). r.e0_to_first_connect_ns) (keep (of_config cfg) rec)))
  ms ← connect_medians arms rec
  ok (m ∷ ms)

abbrev pub control_tol_ns : ℕ
control_tol_ns = 1_000_000

abbrev pub spread : List ℕ → ℕ
spread [] = 0
spread (m ∷ ms) = highest m ms - lowest m ms

unfoldable pub check_connect : List Text → List Row → Result ExhibitFail (Unit {0})
check_connect arms rec = do
  ms ← connect_medians arms rec
  guard (leb (spread ms) (2 * control_tol_ns)) connect_span

-- One canary in all rows, and no empty one.
unfoldable pub has_canary : Row → Bool
has_canary r = ltb 0 (length r.canary_stvec) && ltb 0 (length r.canary_pv)

abbrev pub same_canary : Row → Row → Bool
same_canary r q = text_eq q.canary_stvec r.canary_stvec && text_eq q.canary_pv r.canary_pv

abbrev pub one_canary : List Row → Bool
one_canary [] = false
one_canary (r ∷ rows) = all (same_canary r) rows

unfoldable pub check_canary : List Row → Result ExhibitFail (Unit {0})
check_canary rows = do
  guard (all has_canary rows) empty_canary
  guard (one_canary rows) mixed_canary

-- `(p["batch_id"], p["trial"], p["config"]) in rec_keys`
unfoldable pub has_row : List Row → PhaseCell → Bool
has_row rec p =
    any
      (λ (r : Row).
        text_eq r.batch_id p.batch_id && text_eq r.trial p.trial && text_eq r.config p.config)
      rec

unfoldable pub is_phase : Text → List Row → PhaseCell → Bool
is_phase name rec p = (p.warmup == 0) && text_eq p.phase name && has_row rec p
