-- ===== src/Pass/Analyze.antt =====
-- `phase_index` and `analyze_row` of scripts/d0070-pcap-pass.py.
use whimbrel.Prelude.{ℕ}
use whimbrel.Prelude.{Bool, ◌&&◌, Option, none, some}
use whimbrel.Prelude.{List, [], ◌∷◌}
use whimbrel.Prelude.{◌==◌, if◌then◌else◌}
use whimbrel.Prelude.{Result, ok, err, ◌>>=◌, ◌>>◌, guard, map_err}
use whimbrel.Prelude.Text.{Text, codes, text_eq}
use whimbrel.Prelude.Int.{ℤ, sub_ℕ, ◌+ℤ◌, ◌-ℤ◌}
use whimbrel.Pcap.Tshark.{PcapError}
use whimbrel.Pcap.Extract.{Extract}
use whimbrel.Pass.Campaign.{Run, PhaseRun, PassFail, pcap_error, http_length, missing_phase}

pub record Key : Type 0 where
  pub batch_id : Text
  pub trial : Text
  pub config : Text
  pub phase : Text

unfoldable pub key_eq : Key → Key → Bool
key_eq a b =
    text_eq a.batch_id b.batch_id
    && text_eq a.trial b.trial
    && text_eq a.config b.config
    && text_eq a.phase b.phase

-- The dict of `phase_index`, the newest binding first.
abbrev pub Index : Type 0
Index = List (Key × ℕ)

unfoldable pub find_phase : Key → Index → Option ℕ
find_phase k [] = none
find_phase k ((j, v) ∷ idx) = if key_eq j k then some v else find_phase k idx

unfoldable pub index_from : Index → List PhaseRun → Index
index_from out [] = out
index_from out (p ∷ phases) =
    let k : Key = record {
      batch_id = p.batch_id;
      trial = p.trial;
      config = p.config;
      phase = p.phase;
    } in
    index_from (if p.warmup == 0 then (k, p.ns_since_e2) ∷ out else out) phases

unfoldable pub phase_index : List PhaseRun → Index
phase_index phases = index_from [] phases

pub record Analysis : Type 0 where
  pub config : Text
  pub w_ns : ℤ
  pub d_ack_ns : ℤ
  pub d_fin_ns : ℤ
  pub gap_ns : ℤ
  pub recon_ns : ℤ
  pub residual_ns : ℤ
  pub synack_to_http_ns : ℤ
  pub guest_ns : ℤ
  pub cross_ns : ℤ

abbrev phase_of : Run → Text → Index → Result PassFail ℕ
phase_of r name idx =
    elim (find_phase
      (record { batch_id = r.batch_id; trial = r.trial; config = r.config; phase = name }) idx) [
        | none ↦ err (missing_phase name)
        | some v ↦ ok v
      ]

-- `extract_pcap` of the row's capture, by its path.
module _ (extract : Text → Result PcapError Extract) where
  unfoldable pub analyze_row : Run → Index → Result PassFail Analysis
  analyze_row row idx = do
    x ← map_err pcap_error (extract row.pcap_path)
    guard (x.http_len == 92) (http_length x.http_len)
    let gap = sub_ℕ row.e0_to_e4_ns row.e0_to_e3w_ns
    e3g ← phase_of row (codes "E3g") idx
    established ← phase_of row (codes "established") idx
    let guest = sub_ℕ e3g established
    let recon = x.w_ns +ℤ x.d_fin_ns
    ok (record {
      config = row.config;
      w_ns = x.w_ns;
      d_ack_ns = x.d_ack_ns;
      d_fin_ns = x.d_fin_ns;
      gap_ns = gap;
      recon_ns = recon;
      residual_ns = recon -ℤ gap;
      synack_to_http_ns = x.synack_to_http_ns;
      guest_ns = guest;
      cross_ns = x.synack_to_http_ns -ℤ guest;
    })
