-- ===== src/Bench/Recorded.antt =====
-- What a trial adds to the rows of a campaign, and what is left when it is stopped.
use whimbrel.Prelude.{ℕ, zero, suc, ◌+◌}
use whimbrel.Prelude.{◌≡◌, refl, sym, ap, ◌∙◌, ◌⊎◌, inl, inr}
use whimbrel.Prelude.{true, false, arith}
use whimbrel.Prelude.{Bool-cases}
use whimbrel.Prelude.{List, [], ◌∷◌, ◌++◌, map}
use whimbrel.Prelude.{length}
use whimbrel.Prelude.{length-append}
use whimbrel.Prelude.{err}
use mathlib.Core.List.{append_assoc, map-append, append-nil}
use whimbrel.Prelude.Text.{Text}
use whimbrel.Prelude.Int.{ℤ}
use whimbrel.Pcap.Tshark.{key_error, value_error}
use whimbrel.Bench.Failure.{
  BenchFail, pcap_error, no_median, not_comparable, bad_number, missing_phase,
}
use whimbrel.Bench.PhaseRow.{PhaseRow}
use whimbrel.Bench.Host.{require_steal_delta_zero, steal_ticks_from_stat}
use whimbrel.Bench.Trial.{TrialResult}
use whimbrel.Bench.Schedule.{Trial, range}
use whimbrel.Bench.Journal.{
  RunEntry, Journal, no_rows, phase_entries, next_order, add_rows, record_gate_failure, count_trial,
  Abort, is_caught, journal_with,
}

abbrev pub all_phases : List RunEntry → List (Trial × PhaseRow)
all_phases [] = []
all_phases (e ∷ es) = phase_entries e.trial e.result.phases ++ all_phases es

-- The rows are those of these trials, numbered from one, and the phase rows are those of the rows.
pub record HasRows (trials : List Trial) (j : Journal) : Type 0 where
  pub trials_are : map (λ (e : RunEntry). e.trial) j.run_rows ≡ trials
  pub numbered : map (λ (e : RunEntry). e.run_order) j.run_rows ≡ range 1 (length trials)
  pub phases_are : j.phase_rows ≡ all_phases j.run_rows

range-append : (start n : ℕ) → range start (suc n) ≡ range start n ++ ((start + n) ∷ [])
unfolding range
range-append start zero = ap (λ k. k ∷ []) (omega arith)
range-append start (suc n) =
    let last : start + 1 + n ≡ start + suc n = omega arith in
    ap (λ ks. start ∷ ks) (rw last at (range-append (start + 1) n))

all_phases-append : (xs ys : List RunEntry) → all_phases (xs ++ ys) ≡ all_phases xs ++ all_phases ys
all_phases-append [] ys = refl
all_phases-append (x ∷ xs) ys =
    ap (λ rest. phase_entries x.trial x.result.phases ++ rest) (all_phases-append xs ys)
    ∙ sym (append_assoc (phase_entries x.trial x.result.phases) (all_phases xs) (all_phases ys))

pub no_rows-HasRows : HasRows [] no_rows
unfolding range
no_rows-HasRows = record { trials_are = refl; numbered = refl; phases_are = refl }

length-snoc : (done : List Trial) (t : Trial) → length (done ++ (t ∷ [])) ≡ suc (length done)
length-snoc done t = omega (arith, length-append done (t ∷ []))

add_rows-HasRows :
    (done : List Trial) (t : Trial) (result : TrialResult) (j : Journal)
    → HasRows done j
    → j.run_order ≡ length done
    → HasRows (done ++ (t ∷ [])) (add_rows t result j)
unfolding add_rows
add_rows-HasRows done t result j has counted =
    let entry : RunEntry = record { trial = t; run_order = next_order j; result = result } in
    let rows = j.run_rows in
    let order : next_order j ≡ 1 + length done = omega (arith, counted) in
    record {
      trials_are =
          map-append (λ (e : RunEntry). e.trial) rows (entry ∷ [])
          ∙ ap (λ ts. ts ++ (t ∷ [])) has.trials_are;
      numbered =
          map-append (λ (e : RunEntry). e.run_order) rows (entry ∷ [])
          ∙ ap (λ ns. ns ++ (next_order j ∷ [])) has.numbered
          ∙ ap (λ k. range 1 (length done) ++ (k ∷ [])) order
          ∙ sym (range-append 1 (length done))
          ∙ ap (range 1) (sym (length-snoc done t));
      phases_are =
          ap (λ ps. ps ++ phase_entries t result.phases) has.phases_are
          ∙ ap (λ ps. all_phases rows ++ ps) (sym (append-nil (phase_entries t result.phases)))
          ∙ sym (all_phases-append rows (entry ∷ []));
    }

-- An exception of the two readings of the steal, or of their difference.
abbrev pub IsStealFault : BenchFail → Type 0
IsStealFault e =
    ((text : Text) × (steal_ticks_from_stat text ≡ err e))
    ⊎ ((delta : ℤ) × (require_steal_delta_zero delta ≡ err e))

-- An exception of `run_trial` that is not a `BenchFail`.
abbrev pub IsUncaught : BenchFail → Type 0
IsUncaught e =
    ((s : Text) × (e ≡ bad_number s))
    ⊎ ((name : Text) × (e ≡ missing_phase name))
    ⊎ ((name : Text) × (e ≡ pcap_error (key_error name)))
    ⊎ ((s : Text) × (e ≡ pcap_error (value_error s)))
    ⊎ (e ≡ no_median)
    ⊎ (e ≡ not_comparable)

is_caught-IsUncaught : (e : BenchFail) → is_caught e ≡ false → IsUncaught e
unfolding is_caught
is_caught-IsUncaught e h = ground arith

IsUncaught-is_caught : (e : BenchFail) → is_caught e ≡ true → IsUncaught e → ⊥
unfolding is_caught
IsUncaught-is_caught e h u = ground arith

-- The rows of the trials before `t`, which was the next one, and the record of its gate. There is
-- none if the steal has stopped it or an exception that is not caught, and one if that is neither.
pub record HasStopped (past : List Trial) (t : Trial) (a : Abort) : Type 0 where
  pub rows : HasRows past a.journal
  pub counted : a.journal.run_order ≡ suc (length past)
  pub failure :
      ((IsStealFault a.reason ⊎ IsUncaught a.reason) × (a.journal.failures ≡ []))
      ⊎ ((IsUncaught a.reason → ⊥)
          × (a.journal.failures
              ≡ record { trial = t; run_order = suc (length past); gate = a.reason } ∷ []))

-- The rows of these trials, and no failure.
pub record IsWhole (trials : List Trial) (j : Journal) : Type 0 where
  pub rows : HasRows trials j
  pub counted : j.run_order ≡ length trials
  pub clean : j.failures ≡ []

pub add_rows-IsWhole :
    (done : List Trial) (t : Trial) (result : TrialResult) (j : Journal)
    → IsWhole done j
    → IsWhole (done ++ (t ∷ [])) (add_rows t result j)
unfolding add_rows
add_rows-IsWhole done t result j is = record {
  rows = unfold add_rows in add_rows-HasRows done t result j is.rows is.counted;
  counted = ap suc is.counted ∙ sym (length-snoc done t);
  clean = is.clean;
}

pub counted-HasStopped :
    (past : List Trial) (t : Trial) (j : Journal) (e : BenchFail)
    → IsStealFault e ⊎ IsUncaught e
    → IsWhole past j
    → HasStopped past t (record { reason = e; journal = count_trial j })
counted-HasStopped past t j e fault is = record {
  rows = record {
    trials_are = is.rows.trials_are;
    numbered = is.rows.numbered;
    phases_are = is.rows.phases_are;
  };
  counted = ap suc is.counted;
  failure = inl (fault, is.clean);
}

gate-HasStopped :
    (past : List Trial) (t : Trial) (j : Journal) (e : BenchFail)
    → is_caught e ≡ true
    → IsWhole past j
    → HasStopped past t (record { reason = e; journal = record_gate_failure t e j })
unfolding record_gate_failure
gate-HasStopped past t j e caught is = record {
  rows = record {
    trials_are = is.rows.trials_are;
    numbered = is.rows.numbered;
    phases_are = is.rows.phases_are;
  };
  counted = ap suc is.counted;
  failure = inr (IsUncaught-is_caught e caught, rw (is.clean, is.counted) refl);
}

-- An exception of the run of a trial.
pub raised-HasStopped :
    (past : List Trial) (t : Trial) (j : Journal) (e : BenchFail)
    → IsWhole past j
    → HasStopped past t (record { reason = e; journal = journal_with t e j (is_caught e) })
raised-HasStopped past t j e is = elim (Bool-cases (is_caught e)) [
  | inl caught ↦ rw caught (gate-HasStopped past t j e caught is)
  | inr other ↦ rw other (counted-HasStopped past t j e (inr (is_caught-IsUncaught e other)) is)
]
