-- ===== src/Pass/Run.antt =====
-- `run_pass` of scripts/d0070-pcap-pass.py. Trials are analysed by a pool of threads, and their results
-- come in the order in which they end, which `arrive` chooses.
use whimbrel.Prelude.{ℕ}
use whimbrel.Prelude.{Bool, not}
use whimbrel.Prelude.{List, [], ◌∷◌, ◌++◌, map}
use whimbrel.Prelude.{◌==◌, if◌then◌else◌}
use whimbrel.Prelude.{length, keep}
use whimbrel.Prelude.{Result, ok, err, ◌>>=◌, ◌>>◌, guard}
use whimbrel.Prelude.Text.{Text, text_leb}
use whimbrel.Prelude.Sort.{sort}
use whimbrel.Pcap.Tshark.{PcapError}
use whimbrel.Pcap.Extract.{Extract}
use whimbrel.Pass.Campaign.{
  Run, PhaseRun, Campaign, PassFail, missing_pcaps, trial_failed, lost_trials, recorded,
  validate_campaign,
}
use whimbrel.Pass.Analyze.{Index, phase_index, analyze_row}
use whimbrel.Pass.Verdict.{Item, Verdict, render}

-- A campaign's label, one of its recorded rows and its phases.
pub record Job : Type 0 where
  pub label : Text
  pub row : Run
  pub index : Index

unfoldable pub jobs_of : Text → Index → List Run → List Job
jobs_of label idx [] = []
jobs_of label idx (r ∷ rec) = record { label = label; row = r; index = idx } ∷ jobs_of label idx rec

abbrev pub Outcome : Type 0
Outcome = Result PassFail Item

-- The results, in the order of arrival.
unfoldable pub results_of : List Outcome → List Item
results_of [] = []
results_of (ok item ∷ outs) = item ∷ results_of outs
results_of (err e ∷ outs) = results_of outs

unfoldable pub errors_of : List Outcome → List PassFail
errors_of [] = []
errors_of (ok item ∷ outs) = errors_of outs
errors_of (err e ∷ outs) = e ∷ errors_of outs

-- What follows once all threads have ended.
unfoldable pub collect : ℕ → List Outcome → Result PassFail (List Item)
collect jobs outs = elim (errors_of outs) [
  | e ∷ errors ↦ err (trial_failed e (length (e ∷ errors)))
  | [] ↦
      if length (results_of outs) == jobs
      then ok (results_of outs)
      else err (lost_trials (length (results_of outs)) jobs)
]

-- The files of a campaign, from its commit.
module _ (read : Campaign → Result PassFail (List Run × List PhaseRun)) where
  unfoldable pub load : Campaign → Result PassFail (List Job)
  load c = do
    (runs, phases) ← read c
    validate_campaign c runs phases
    ok (jobs_of c.label (phase_index phases) (recorded runs))

  unfoldable pub load_all : List Campaign → Result PassFail (List Job)
  load_all [] = ok []
  load_all (c ∷ camps) = do jobs ← load c; more ← load_all camps; ok (jobs ++ more)

abbrev paths : List Job → List Text
paths jobs = map (λ (j : Job). j.row.pcap_path) jobs

-- `_one`, with the intervals of a capture.
unfoldable pub analyze_job : (Text → Result PcapError Extract) → Job → Outcome
analyze_job extract j = do a ← analyze_row extract j.row j.index; ok (j.label, a)

-- Which captures are there and not empty.
module _ (present : Text → Bool) (extract : Text → Result PcapError Extract)
    (arrive : List Outcome → List Outcome) where
  unfoldable pub analyze_all : List Campaign → List Job → Result PassFail Verdict
  unfolding sort
  analyze_all camps jobs = do
    let missing = keep (λ p. not (present p)) (paths jobs)
    guard (length missing == 0) (missing_pcaps (sort text_leb missing) (length jobs))
    results ← collect (length jobs) (arrive (map (analyze_job extract) jobs))
    render camps results

  unfoldable pub run_pass :
      (Campaign → Result PassFail (List Run × List PhaseRun))
      → List Campaign
      → Result PassFail Verdict
  run_pass read camps = do jobs ← load_all read camps; analyze_all camps jobs
