-- ===== src/Bench/Ended.antt =====
-- What the loop of `cmd_run` has written, when it ends and when a gate stops it.
use whimbrel.Prelude.{ℕ}
use whimbrel.Prelude.{◌≡◌, refl, sym, ap, subst, ◌⊎◌, inl, inr}
use whimbrel.Prelude.{List, [], ◌∷◌, ◌++◌}
use whimbrel.Prelude.{Result, ok, err, Result-cases}
use mathlib.Core.List.{append_assoc, append-nil}
use whimbrel.Prelude.Text.{Text}
use whimbrel.Prelude.Int.{sub_ℕ}
use whimbrel.Bench.Failure.{BenchFail}
use whimbrel.Bench.Host.{require_steal_delta_zero, steal_ticks_from_stat}
use whimbrel.Bench.Trial.{TrialResult}
use whimbrel.Bench.Schedule.{Trial, campaign_trials}
use whimbrel.Bench.Journal.{
  Journal, no_rows, add_rows, is_caught, journal_with, count_trial, Abort, ended, one_trial,
  run_trials, run_campaign,
}
use whimbrel.Bench.Recorded.{
  no_rows-HasRows, IsWhole, HasStopped, add_rows-IsWhole, counted-HasStopped, raised-HasStopped,
}

module _ {W : Type 0} (stat : W → Text × W)
    (run_trial : Trial → W → Result BenchFail TrialResult × W) where
  -- A trial adds its rows, or stops the campaign.
  abbrev Adds : List Trial → Trial → Result Abort (Journal × W) → Type 0
  Adds past t r =
      ((k : Journal) × (v : W) × (r ≡ ok (k, v)) × IsWhole (past ++ (t ∷ [])) k)
      ⊎ ((a : Abort) × (r ≡ err a) × HasStopped past t a)

  ended-Adds :
      (past : List Trial) (t : Trial) (j : Journal) (steal0 : ℕ)
      (r : Result BenchFail TrialResult × W)
      → IsWhole past j
      → Adds past t (ended stat run_trial t j steal0 r)
  unfolding ended
  ended-Adds past t j steal0 (err e, w) is = inr (
    record { reason = e; journal = journal_with t e j (is_caught e) },
    refl,
    raised-HasStopped past t j e is,
  )
  ended-Adds past t j steal0 (ok result, w) is =
      elim (Result-cases (steal_ticks_from_stat (stat w).0)) [
        | inr (e, failed) ↦ inr (
          record { reason = e; journal = count_trial j },
          rw failed refl,
          counted-HasStopped past t j e (inl (inl ((stat w).0, failed))) is,
        )
        | inl (steal1, read) ↦
            elim (Result-cases (require_steal_delta_zero (sub_ℕ steal1 steal0))) [
              | inr (e, failed) ↦ inr (
                record { reason = e; journal = count_trial j },
                rw (read, failed) refl,
                counted-HasStopped past t j e (inl (inr (sub_ℕ steal1 steal0, failed))) is,
              )
              | inl (u, passed) ↦ inl (
                add_rows t result j,
                (stat w).1,
                rw (read, passed) refl,
                add_rows-IsWhole past t result j is,
              )
            ]
      ]

  one_trial-Adds :
      (past : List Trial) (t : Trial) (j : Journal) (w : W)
      → IsWhole past j
      → Adds past t (one_trial stat run_trial t j w)
  unfolding one_trial
  one_trial-Adds past t j w is = elim (Result-cases (steal_ticks_from_stat (stat w).0)) [
    | inr (e, failed) ↦ inr (
      record { reason = e; journal = count_trial j },
      rw failed refl,
      counted-HasStopped past t j e (inl (inl ((stat w).0, failed))) is,
    )
    | inl (steal0, read) ↦ rw read (ended-Adds past t j steal0 (run_trial t (stat w).1) is)
  ]

  -- All trials are run, or the rows are those before the one that stopped.
  abbrev pub Ends : List Trial → List Trial → Result Abort (Journal × W) → Type 0
  Ends past trials r =
      ((k : Journal) × (v : W) × (r ≡ ok (k, v)) × IsWhole (past ++ trials) k)
      ⊎ ((more : List Trial) × (t : Trial) × (rest : List Trial) × (a : Abort) × (r ≡ err a)
          × (trials ≡ more ++ (t ∷ rest))
          × HasStopped (past ++ more) t a)

  run_trials-Ends :
      (past trials : List Trial) (j : Journal) (w : W)
      → IsWhole past j
      → Ends past trials (run_trials stat run_trial trials j w)
  unfolding run_trials
  run_trials-Ends past [] j w is =
      inl (j, w, refl, subst (λ ts. IsWhole ts j) (sym (append-nil past)) is)
  run_trials-Ends past (t ∷ trials) j w is = elim (one_trial-Adds past t j w is) [
    | inr (a, e, stopped) ↦ inr (
      [],
      t,
      trials,
      a,
      rw e refl,
      refl,
      subst (λ ts. HasStopped ts t a) (sym (append-nil past)) stopped,
    )
    | inl (k, v, e, whole) ↦ elim (run_trials-Ends (past ++ (t ∷ [])) trials k v whole) [
      | inl (k', v', e', whole') ↦ inl (
        k',
        v',
        rw (e, e') refl,
        subst (λ ts. IsWhole ts k') (append_assoc past (t ∷ []) trials) whole',
      )
      | inr (more, t', rest, a, e', split, stopped) ↦ inr (
        t ∷ more,
        t',
        rest,
        a,
        rw (e, e') refl,
        ap (λ ts. t ∷ ts) split,
        subst (λ ts. HasStopped ts t' a) (append_assoc past (t ∷ []) more) stopped,
      )
    ]
  ]

  -- A campaign ends with the rows of all its trials in order, numbered from one, with the phase rows
  -- of each and no record of a failure; or it is stopped at a trial, with the rows of the trials before
  -- it only, and either a record of that trial, for an exception that is caught, or none, for a fault of
  -- the steal or an exception that is not caught.
  pub run_campaign-Ends :
      (shuffle : ℕ → List (Text × ℕ) → List (Text × ℕ)) (configs : List Text)
      (n warmup batches seed : ℕ) (w : W)
      → Ends []
          (campaign_trials shuffle configs n warmup batches seed)
          (run_campaign stat run_trial shuffle configs n warmup batches seed w)
  unfolding run_campaign
  run_campaign-Ends shuffle configs n warmup batches seed w =
      run_trials-Ends [] (campaign_trials shuffle configs n warmup batches seed) no_rows w
        (record { rows = no_rows-HasRows; counted = refl; clean = refl })
