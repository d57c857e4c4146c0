-- ===== src/Pass/Campaign.antt =====
-- `validate_campaign` of scripts/d0070-pcap-pass.py, on the columns that it reads.
use whimbrel.Prelude.{ℕ}
use whimbrel.Prelude.{Bool, false, ◌&&◌, Option, none, some}
use whimbrel.Prelude.{List, [], ◌∷◌, map}
use whimbrel.Prelude.{◌==◌, if◌then◌else◌, is_some}
use whimbrel.Prelude.{length, all, any, keep}
use whimbrel.Prelude.{Result, ok, err, ◌>>=◌, ◌>>◌, guard}
use whimbrel.Prelude.Text.{Text, codes, text_eq, starts_with}
use whimbrel.Prelude.Dict.{Dict, lookup}
use whimbrel.Pcap.Tshark.{PcapError}

-- A row of runs.csv; `controls` has those of the four control columns that the file has.
pub record Run : Type 0 where
  pub batch_id : Text
  pub trial : Text
  pub config : Text
  pub git_sha : Text
  pub warmup : ℕ
  pub dirty : ℕ
  pub steal_ticks : ℕ
  pub e0_to_e4_ns : ℕ
  pub e0_to_e3w_ns : ℕ
  pub pcap_path : Text
  pub controls : Dict Text

-- A row of phases.csv.
pub record PhaseRun : Type 0 where
  pub batch_id : Text
  pub trial : Text
  pub config : Text
  pub phase : Text
  pub warmup : ℕ
  pub ns_since_e2 : ℕ

-- An entry of `CAMPAIGNS`.
pub record Campaign : Type 0 where
  pub label : Text
  pub batches : List Text
  pub sha_prefix : Text

pub data PassFail : Type 0 where
  batch_set : Text → PassFail
  mixed_sha : Text → PassFail
  wrong_sha : Text → PassFail
  dirty_row : Text → PassFail
  wrong_configs : Text → PassFail
  wrong_count : Text → Text → ℕ → PassFail
  steal : Text → PassFail
  wrong_total : Text → ℕ → PassFail
  missing_control : Text → Text → PassFail
  wrong_control : Text → Text → PassFail
  e3g_count : Text → ℕ → PassFail
  pcap_error : PcapError → PassFail
  http_length : ℕ → PassFail
  missing_phase : Text → PassFail
  no_values : PassFail
  analysed : Text → Text → ℕ → PassFail
  fast_not_positive : Text → PassFail
  missing_pcaps : List Text → ℕ → PassFail
  trial_failed : PassFail → ℕ → PassFail
  lost_trials : ℕ → ℕ → PassFail

abbrev pub safe : Text
safe = codes "release-default"

abbrev pub fast : Text
fast = codes "release-fast-boot"

unfoldable pub is_recorded : Run → Bool
is_recorded r = r.warmup == 0

unfoldable pub recorded : List Run → List Run
recorded rows = keep is_recorded rows

unfoldable pub mem : Text → List Text → Bool
mem t ts = any (λ s. text_eq s t) ts

-- Equality of the sets of two lists.
unfoldable pub same_set : List Text → List Text → Bool
same_set xs ys = all (λ x. mem x ys) xs && all (λ y. mem y xs) ys

-- The one element of `{r["git_sha"] for r in rec}`, if there is just one.
unfoldable pub one_sha : List Run → Option Text
one_sha [] = none
one_sha (r ∷ rows) =
    if all (λ (q : Run). text_eq q.git_sha r.git_sha) rows then some r.git_sha else none

abbrev pub has_config : Text → Run → Bool
has_config cfg r = text_eq r.config cfg

unfoldable pub count_config : Text → List Run → ℕ
count_config cfg rec = length (keep (has_config cfg) rec)

abbrev pub want_controls : List (Text × Text)
want_controls =
    (codes "virt", codes "none")
    ∷ (codes "governor", codes "performance")
    ∷ (codes "smt_control", codes "off")
    ∷ (codes "cpufreq_boost", codes "0")
    ∷ []

-- `r[field] == want`
abbrev pub control_is : Text → Text → Run → Bool
control_is field want r = elim (lookup field r.controls) [ none ↦ false | some v ↦ text_eq v want ]

abbrev first_has : Text → List Run → Bool
first_has field [] = false
first_has field (r ∷ rec) = is_some (lookup field r.controls)

unfoldable pub check_controls : Text → List Run → List (Text × Text) → Result PassFail (Unit {0})
check_controls label rec [] = ok tt
check_controls label rec ((field, want) ∷ fields) = do
  guard (first_has field rec) (missing_control label field)
  guard (all (control_is field want) rec) (wrong_control label field)
  check_controls label rec fields

-- `(p["batch_id"], p["trial"], p["config"]) in rec_keys`
unfoldable pub has_run : List Run → PhaseRun → Bool
has_run rec p =
    any
      (λ (r : Run).
        text_eq r.batch_id p.batch_id && text_eq r.trial p.trial && text_eq r.config p.config)
      rec

unfoldable pub is_e3g : List Run → PhaseRun → Bool
is_e3g rec p = (p.warmup == 0) && text_eq p.phase (codes "E3g") && has_run rec p

abbrev sha_of : Text → Option Text → Result PassFail Text
sha_of label none = err (mixed_sha label)
sha_of label (some sha) = ok sha

unfoldable pub check_counts : Text → List Run → Result PassFail (Unit {0})
check_counts label rec = do
  guard (count_config safe rec == 60) (wrong_count label safe (count_config safe rec))
  guard (count_config fast rec == 60) (wrong_count label fast (count_config fast rec))

unfoldable pub validate_campaign : Campaign → List Run → List PhaseRun → Result PassFail (Unit {0})
validate_campaign c runs phases = do
  let rec = recorded runs
  guard (same_set (map (λ (r : Run). r.batch_id) runs) c.batches) (batch_set c.label)
  sha ← sha_of c.label (one_sha rec)
  guard (starts_with sha c.sha_prefix) (wrong_sha c.label)
  guard (all (λ (r : Run). r.dirty == 0) rec) (dirty_row c.label)
  guard (same_set (map (λ (r : Run). r.config) rec) (safe ∷ fast ∷ [])) (wrong_configs c.label)
  check_counts c.label rec
  guard (all (λ (r : Run). r.steal_ticks == 0) rec) (steal c.label)
  guard (length rec == 120) (wrong_total c.label (length rec))
  check_controls c.label rec want_controls
  guard (length (keep (is_e3g rec) phases) == 120)
      (e3g_count c.label (length (keep (is_e3g rec) phases)))
