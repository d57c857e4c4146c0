-- ===== src/Bench/Summary/Metrics.antt =====
-- `metric_table` of scripts/bench.py: the metrics of one arm in one batch.
use whimbrel.Prelude.{ℕ}
use whimbrel.Prelude.{Bool, ◌&&◌, Option}
use whimbrel.Prelude.{List, [], ◌∷◌, ◌++◌, map}
use whimbrel.Prelude.{◌==◌}
use whimbrel.Prelude.{any, keep}
use whimbrel.Prelude.Text.{Text, codes, text_eq}
use whimbrel.Prelude.Int.{ℤ}
use whimbrel.Prelude.Dict.{Dict}
use whimbrel.Bench.Connect.{Schema, old, new, append_value}

-- A row of runs.csv, its metric columns as numbers, which the schema requires. An empty
-- `synack_to_http_ns` is `none`.
pub record SummaryRow : Type 0 where
  pub batch_id : Text
  pub system : Text
  pub config : Text
  pub trial : ℕ
  pub warmup : ℕ
  pub dirty : ℕ
  pub qemu_version : Text
  pub git_sha : Text
  pub controls : Dict Text
  pub steal_ticks : Option ℕ
  pub kernel_sha256 : Text
  pub pcap_path : Text
  pub synack_to_http_ns : Option ℤ
  pub metric : Text → ℕ

-- A row of phases.csv.
pub record PhaseRecord : Type 0 where
  pub batch_id : Text
  pub system : Text
  pub config : Text
  pub trial : ℕ
  pub warmup : ℕ
  pub phase : Text
  pub delta_ns : ℕ
  pub ns_since_e2 : ℕ

abbrev pub new_run_metrics : List Text
new_run_metrics =
    codes "e0_to_first_connect_ns"
    ∷ codes "e0_to_e4_ns"
    ∷ codes "w_ns"
    ∷ codes "d_ack_ns"
    ∷ codes "d_fin_ns"
    ∷ []

abbrev pub old_run_metrics : List Text
old_run_metrics = codes "e0_to_first_connect_ns" ∷ codes "e0_to_e3w_ns" ∷ codes "e0_to_e4_ns" ∷ []

abbrev pub run_keys : Schema → List Text
run_keys new = new_run_metrics
run_keys old = old_run_metrics

unfoldable pub recorded_runs : List SummaryRow → List SummaryRow
recorded_runs runs = keep (λ (r : SummaryRow). r.warmup == 0) runs

-- `key in rec_keys`
unfoldable pub is_of_run : PhaseRecord → SummaryRow → Bool
is_of_run p r = text_eq r.batch_id p.batch_id && (r.trial == p.trial) && text_eq r.config p.config

-- The rows that the loop over the phases does not skip.
unfoldable pub is_counted : List SummaryRow → PhaseRecord → Bool
is_counted rec p = (p.warmup == 0) && any (is_of_run p) rec

abbrev pub delta_key : Text → Text
delta_key name = codes "phase_" ++ (name ++ codes "_delta_ns")

abbrev pub since_key : Text → Text
since_key name = codes "phase_" ++ (name ++ codes "_since_e2_ns")

-- The loop over the phases, for `by_phase`.
unfoldable pub by_phase : Dict (List ℕ) → List PhaseRecord → Dict (List ℕ)
by_phase d [] = d
by_phase d (p ∷ phases) =
    by_phase
      (append_value (since_key p.phase) p.ns_since_e2
        (append_value (delta_key p.phase) p.delta_ns d))
      phases

unfoldable pub e2_to_e3g : List PhaseRecord → List ℕ
e2_to_e3g phases =
    map (λ (p : PhaseRecord). p.ns_since_e2)
      (keep (λ (p : PhaseRecord). text_eq p.phase (codes "E3g")) phases)

abbrev pub if_any : List ℕ → Dict (List ℕ)
if_any [] = []
if_any (v ∷ vals) = (codes "e2_to_e3g_ns", v ∷ vals) ∷ []

unfoldable pub run_metrics : Schema → List SummaryRow → Dict (List ℕ)
run_metrics schema rec = map (λ k. (k, map (λ (r : SummaryRow). r.metric k) rec)) (run_keys schema)

-- The dictionary: what is set later stands first.
unfoldable pub metric_table : Schema → List SummaryRow → List PhaseRecord → Dict (List ℕ)
metric_table schema runs phases =
    let rec = recorded_runs runs in
    let counted = keep (is_counted rec) phases in
    if_any (e2_to_e3g counted) ++ (by_phase [] counted ++ run_metrics schema rec)
