-- ===== src/Exhibits/Rows.antt =====
-- The rows of a campaign as scripts/report-exhibits.py reads them, and its exceptions.
use whimbrel.Prelude.{ℕ}
use whimbrel.Prelude.{Bool, Option}
use whimbrel.Prelude.{List}
use whimbrel.Prelude.{◌==◌}
use whimbrel.Prelude.{keep}
use whimbrel.Prelude.Text.{Text, codes, text_eq}
use whimbrel.Prelude.Int.{ℤ}
use whimbrel.Prelude.Dict.{Dict}

-- A row of runs.csv; a cell that is missing or empty is `none`, a canary's or a hash's the empty text.
pub record Row : Type 0 where
  pub batch_id : Text
  pub trial : Text
  pub config : Text
  pub system : Text
  pub git_sha : Text
  pub bios_sha256 : Text
  pub kernel_sha256 : Text
  pub canary_stvec : Text
  pub canary_pv : Text
  pub warmup : ℕ
  pub dirty : ℕ
  pub steal_ticks : ℕ
  pub e0_to_e4_ns : ℕ
  pub e0_to_first_connect_ns : ℕ
  pub w_ns : Option ℤ
  pub synack_to_http_ns : Option ℤ
  pub d_fin_ns : Option ℤ
  pub controls : Dict Text

-- A row of phases.csv.
pub record PhaseCell : Type 0 where
  pub batch_id : Text
  pub trial : Text
  pub config : Text
  pub system : Text
  pub phase : Text
  pub warmup : ℕ
  pub ns_since_e2 : Option ℕ

pub data ExhibitFail : Type 0 where
  empty_csv : ExhibitFail
  bad_schema : ExhibitFail
  batch_set : ExhibitFail
  mixed_sha : ExhibitFail
  wrong_sha : ExhibitFail
  dirty_tree : ExhibitFail
  wrong_configs : ExhibitFail
  wrong_count : Text → ℕ → ExhibitFail
  wrong_system : Text → ExhibitFail
  steal : ExhibitFail
  wrong_total : ℕ → ExhibitFail
  missing_control : Text → ExhibitFail
  wrong_control : Text → ExhibitFail
  mixed_lanes : ExhibitFail
  no_canary_column : Text → ExhibitFail
  empty_canary : ExhibitFail
  mixed_canary : ExhibitFail
  bad_canary : Text → ExhibitFail
  wrong_bios : ExhibitFail
  wrong_kernel : Text → ExhibitFail
  no_artifact : Text → ExhibitFail
  no_data : ExhibitFail
  connect_span : ExhibitFail
  not_faster : ExhibitFail
  linux_phases : ℕ → ExhibitFail
  phase_count : Text → Text → ℕ → ExhibitFail
  e3g_count : ℕ → ExhibitFail
  no_e3g : Text → ExhibitFail
  batch_number : ℕ → ExhibitFail
  not_stable : Text → ExhibitFail
  no_startup_cell : ExhibitFail
  no_startup : Text → ExhibitFail
  startup_slower : ExhibitFail
  startup_far : ExhibitFail
  bad_append : Text → ExhibitFail
  no_token : Text → ExhibitFail
  moved_artifact : Text → ExhibitFail
  no_before : Text → ExhibitFail
  outside_window : Text → ExhibitFail

abbrev pub safe : Text
safe = codes "release-default"

abbrev pub fast : Text
fast = codes "release-fast-boot"

abbrev pub m_fast : Text
m_fast = codes "m-release-fast-boot"

abbrev pub m_safe : Text
m_safe = codes "m-release-default"

unfoldable pub is_recorded : Row → Bool
is_recorded r = r.warmup == 0

unfoldable pub recorded : List Row → List Row
recorded rows = keep is_recorded rows

abbrev pub of_config : Text → Row → Bool
of_config cfg r = text_eq r.config cfg
