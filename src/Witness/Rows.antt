-- ===== src/Witness/Rows.antt =====
-- The rows that scripts/regime-witness.py reads, and its predicates on times. A time is in nanoseconds,
-- a median twofold.
use whimbrel.Prelude.{ℕ, ◌+◌, ◌*◌}
use whimbrel.Prelude.{Bool, true, false, Option, none, some}
use whimbrel.Prelude.{List}
use whimbrel.Prelude.{ltb, leb, if◌then◌else◌}
use whimbrel.Prelude.Text.{Text, codes}
use whimbrel.Stats.Percentile.{median}

-- A row of runs.csv; the canary's time is that of its page_verify, where the row has one.
pub record RunLine : Type 0 where
  pub warmup : Text
  pub config : Text
  pub kernel : Text
  pub batch_id : Text
  pub trial : ℕ
  pub run_order : ℕ
  pub e0_mono_ns : ℕ
  pub e0_to_e4_ns : ℕ
  pub canary : Option ℕ

-- A row of phases.csv.
pub record PhaseLine : Type 0 where
  pub batch_id : Text
  pub trial : ℕ
  pub warmup : Text
  pub config : Text
  pub phase : Text
  pub delta_ns : ℕ

pub data WitnessFail : Type 0 where
  no_recorded : WitnessFail
  mixed_kernel : WitnessFail
  no_page_verify : WitnessFail
  wrong_trials : Text → List ℕ → WitnessFail
  no_warmup_values : WitnessFail
  key_error : WitnessFail
  index_error : WitnessFail
  no_warmups : WitnessFail
  no_cluster : WitnessFail

abbrev pub safe_arm : Text
safe_arm = codes "release-default"

abbrev pub m_arm : Text
m_arm = codes "m-release-default"

-- `DIVIDE_MS`, and `DIP_BELOW_MEDIAN_MS`.
abbrev pub divide_ns : ℕ
divide_ns = 14_000_000

abbrev pub dip_ns : ℕ
dip_ns = 1_000_000

pub data Side : Type 0 where
  deflated : Side
  inflated : Side

-- `regime_side`, of a time that is twofold.
unfoldable pub regime_side : ℕ → Side
regime_side twice = if ltb twice (2 * divide_ns) then deflated else inflated

abbrev pub same_side : Side → Side → Bool
same_side deflated deflated = true
same_side inflated inflated = true
same_side deflated inflated = false
same_side inflated deflated = false

abbrev pub dips : ℕ → Option ℕ → Bool
dips val none = false
dips val (some med) = leb (2 * val + 2 * dip_ns) med

unfoldable pub is_dip : ℕ → List ℕ → Bool
is_dip val siblings = dips val (median siblings)
