-- ===== src/Pass/Examples.antt =====
-- A campaign of two arms, 60 rows each, whose threads end in two orders.
use whimbrel.Prelude.{
  ℕ, zero, suc, ◌+◌, ◌≡◌, refl, ◌≢◌, true, none, List, [], ◌∷◌, ◌++◌, reverse, All, ok, err, Result,
}
use whimbrel.Prelude.Text.{Text, codes, text_eq, starts_with}
use whimbrel.Prelude.Dict.{lookup}
use whimbrel.Prelude.Int.{pos, ◌-ℤ◌, ◌+ℤ◌}
use whimbrel.Prelude.Sort.{sort}
use whimbrel.Stats.Signed.{median_sorted_ℤ, median_ℤ}
use mathlib.Core.List.{reverse_perm}
use mathlib.Core.List.Perm
use whimbrel.Pcap.Tshark.{PcapError}
use whimbrel.Pcap.Extract.{Extract}
use whimbrel.Pass.Campaign.{
  Run, PhaseRun, Campaign, PassFail, wrong_total, safe, fast, validate_campaign,
}
use whimbrel.Pass.Campaign
use whimbrel.Pass.Analyze
use whimbrel.Pass.Analyze.{Analysis}
use whimbrel.Pass.Verdict
use whimbrel.Pass.Verdict.{Item, Verdict, confirmed, falsified, slow_fin, boot_scaled, render}
use whimbrel.Pass.Run
use whimbrel.Pass.Run.{Outcome, run_pass}
use whimbrel.Pass.Pinned.{IsPinned, validate_campaign-IsPinned, validate_campaign-total}
use whimbrel.Pass.Confirmed.{IsPredicted, render-IsPredicted}
use whimbrel.Pass.Arrival.{run_pass-any_order}

abbrev copies {ℓ} : {A : Type ℓ} → ℕ → A → List A
copies zero a = []
copies (suc n) a = a ∷ copies n a

abbrev run_of : Text → ℕ → Run
run_of cfg warmup = record {
  batch_id = codes "b1";
  trial = codes "7";
  config = cfg;
  git_sha = codes "ab12";
  warmup = warmup;
  dirty = 0;
  steal_ticks = 0;
  e0_to_e4_ns = 9_000_000;
  e0_to_e3w_ns = 1_000_000;
  pcap_path = cfg;
  controls =
      (codes "virt", codes "none")
      ∷ (codes "governor", codes "performance")
      ∷ (codes "smt_control", codes "off")
      ∷ [];
}

abbrev phase_run : Text → Text → ℕ → PhaseRun
phase_run cfg name ns = record {
  batch_id = codes "b1";
  trial = codes "7";
  config = cfg;
  phase = name;
  warmup = 0;
  ns_since_e2 = ns;
}

abbrev with_boost : Run → Run
with_boost r = record {
  batch_id = r.batch_id;
  trial = r.trial;
  config = r.config;
  git_sha = r.git_sha;
  warmup = r.warmup;
  dirty = r.dirty;
  steal_ticks = r.steal_ticks;
  e0_to_e4_ns = r.e0_to_e4_ns;
  e0_to_e3w_ns = r.e0_to_e3w_ns;
  pcap_path = r.pcap_path;
  controls = (codes "cpufreq_boost", codes "0") ∷ r.controls;
}

abbrev runs : List Run
runs =
    with_boost (run_of safe 1)
    ∷ (copies 60 (with_boost (run_of safe 0)) ++ copies 60 (with_boost (run_of fast 0)))

abbrev phases : List PhaseRun
phases =
    phase_run safe (codes "established") 500
    ∷ phase_run fast (codes "established") 500
    ∷ (copies 60 (phase_run safe (codes "E3g") 900) ++ copies 60 (phase_run fast (codes "E3g") 900))

abbrev registered : Campaign
registered = record { label = codes "T36"; batches = codes "b1" ∷ []; sha_prefix = codes "ab" }

program : Unit {0}
unfolding text_eq starts_with lookup ◌-ℤ◌ ◌+ℤ◌ sort median_sorted_ℤ median_ℤ Campaign.is_recorded
    Campaign.recorded Campaign.mem Campaign.same_set Campaign.one_sha Campaign.count_config
    Campaign.check_controls Campaign.has_run Campaign.is_e3g Campaign.check_counts validate_campaign
    Analyze.key_eq Analyze.find_phase Analyze.index_from Analyze.phase_index Analyze.analyze_row
    Verdict.stat Verdict.medians_of Verdict.config_medians Verdict.faults Verdict.predicted
    Verdict.campaign_tally Verdict.tally Verdict.verdict_of render Run.jobs_of Run.results_of
    Run.errors_of Run.collect Run.load Run.load_all Run.analyze_job Run.analyze_all run_pass
program = tt

valid : validate_campaign registered runs phases ≡ ok tt
unfolding program
valid = refl

abbrev exchange_at : ℕ → Extract
exchange_at fin = record {
  w_ns = pos 3_000_000;
  d_ack_ns = pos 50_000;
  d_fin_ns = pos fin;
  synack_to_http_ns = pos 900;
  http_len = 92;
  guest_ftx_ns = none;
  guest_arp_req_n = 1;
}

abbrev extract : ℕ → Text → Result PcapError Extract
extract fin path = ok (exchange_at fin)

abbrev read : Campaign → Result PassFail (List Run × List PhaseRun)
read c = ok (runs, phases)

in_order :
    run_pass (λ p. true) (extract 4_900_000) (λ outs. outs) read (registered ∷ []) ≡ ok confirmed
unfolding program
in_order = refl

slow :
    run_pass (λ p. true) (extract 50_000_000) (λ outs. outs) read (registered ∷ [])
    ≡ ok (falsified (slow_fin (codes "T36") (pos 100_000_000) ∷ []))
unfolding program
slow = refl

run_pass-any_order_example :
    run_pass (λ p. true) (extract 4_900_000) reverse read (registered ∷ []) ≡ ok confirmed
run_pass-any_order_example =
    run_pass-any_order (λ p. true) (extract 4_900_000) (λ outs. outs) reverse Perm.refl reverse_perm
      read (registered ∷ []) confirmed in_order

validate_campaign-IsPinned_example : IsPinned registered runs phases
validate_campaign-IsPinned_example = validate_campaign-IsPinned registered runs phases valid

validate_campaign-total_example :
    validate_campaign registered runs phases ≢ err (wrong_total (codes "T36") 119)
validate_campaign-total_example = validate_campaign-total registered runs phases (codes "T36") 119

abbrev item : Text → ℕ → Item
item cfg fin = (
  codes "T36",
  record {
    config = cfg;
    w_ns = pos 3_000_000;
    d_ack_ns = pos 50_000;
    d_fin_ns = pos fin;
    gap_ns = pos 8_000_000;
    recon_ns = pos (3_000_000 + fin);
    residual_ns = pos (3_000_000 + fin) -ℤ pos 8_000_000;
    synack_to_http_ns = pos 900;
    guest_ns = pos 400;
    cross_ns = pos 500;
  },
)

abbrev items : List Item
items = copies 60 (item safe 5_200_000) ++ copies 60 (item fast 4_900_000)

met : render (registered ∷ []) items ≡ ok confirmed
unfolding program
met = refl

render-IsPredicted_example : All (IsPredicted items) (registered ∷ [])
render-IsPredicted_example = render-IsPredicted (registered ∷ []) items met
