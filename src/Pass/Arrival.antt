-- ===== src/Pass/Arrival.antt =====
-- The verdict does not depend on the order in which the threads of `run_pass` end.
use whimbrel.Prelude.{ℕ, ◌+◌}
use whimbrel.Prelude.{◌≡◌, refl, sym, ap, ◌∙◌, inl, inr}
use whimbrel.Prelude.{Bool, not, arith}
use whimbrel.Prelude.{List, [], ◌∷◌, map}
use whimbrel.Prelude.{◌==◌, Bool-cases}
use whimbrel.Prelude.{length, keep}
use whimbrel.Prelude.{Result, ok, err, ◌>>=◌, bind-ok}
use mathlib.Core.List.{Perm, Permᴰ}
use mathlib.Core.List.Perm
use mathlib.Core.List.Permᴰ
use mathlib.Core.Logic.{∥∥₁_elim}
use whimbrel.Prelude.Text.{Text}
use whimbrel.Prelude.Perms.{length-perm, keep-perm}
use whimbrel.Prelude.Int.{ℤ, pos, abs}
use whimbrel.Stats.Signed.{median_ℤ-perm}
use whimbrel.Pcap.Tshark.{PcapError}
use whimbrel.Pcap.Extract.{Extract}
use whimbrel.Pass.Campaign.{Run, PhaseRun, Campaign, PassFail, safe, fast}
use whimbrel.Pass.Analyze.{Analysis}
use whimbrel.Pass.Verdict.{
  Item, of_campaign, of_config, or_no_values, stat, medians_of, config_medians, campaign_tally,
  tally, Verdict, render,
}
use whimbrel.Pass.Run.{
  Job, Outcome, results_of, errors_of, collect, load_all, analyze_job, analyze_all, run_pass,
}

results_of-Permᴰ : {xs ys : List Outcome} → Permᴰ xs ys → Permᴰ (results_of xs) (results_of ys)
unfolding results_of
results_of-Permᴰ Permᴰ.nil = Permᴰ.nil
results_of-Permᴰ (Permᴰ.cons {b = ok r} e h) = rw e (Permᴰ.cons refl (results_of-Permᴰ h))
results_of-Permᴰ (Permᴰ.cons {b = err f} e h) = rw e (results_of-Permᴰ h)
results_of-Permᴰ (Permᴰ.swap {a = ok r} {b = ok s} e f) = rw (sym e, sym f) (Permᴰ.swap refl refl)
results_of-Permᴰ (Permᴰ.swap {a = ok r} {b = err s} {l = l} e f) =
    rw (sym e, sym f) (Permᴰ.refl (r ∷ results_of l))
results_of-Permᴰ (Permᴰ.swap {a = err r} {b = ok s} {l = l} e f) =
    rw (sym e, sym f) (Permᴰ.refl (s ∷ results_of l))
results_of-Permᴰ (Permᴰ.swap {a = err r} {b = err s} {l = l} e f) =
    rw (sym e, sym f) (Permᴰ.refl (results_of l))
results_of-Permᴰ (Permᴰ.trans h k) = Permᴰ.trans (results_of-Permᴰ h) (results_of-Permᴰ k)

-- As many fail as are not among the results.
split-outcomes :
    (outs : List Outcome) → length (results_of outs) + length (errors_of outs) ≡ length outs
unfolding results_of errors_of
split-outcomes [] = refl
split-outcomes (ok r ∷ outs) = omega (arith, split-outcomes outs)
split-outcomes (err e ∷ outs) = omega (arith, split-outcomes outs)

results_of-perm : {xs ys : List Outcome} → Perm xs ys → Perm (results_of xs) (results_of ys)
results_of-perm h = ∥∥₁_elim h (hlevel) (λ d. ∣ results_of-Permᴰ d ∣₁)

collect-ok :
    (jobs : ℕ) (outs : List Outcome) (rs : List Item)
    → collect jobs outs ≡ ok rs
    → (errors_of outs ≡ []) × (length (results_of outs) ≡ jobs) × (results_of outs ≡ rs)
unfolding collect
collect-ok jobs outs rs h = ground arith

collect-accepts :
    (jobs : ℕ) (outs : List Outcome)
    → errors_of outs ≡ []
    → length (results_of outs) ≡ jobs
    → collect jobs outs ≡ ok (results_of outs)
unfolding collect
collect-accepts jobs outs none_failed all_there = rw (none_failed, collect) (ground arith)

nil_of-length : {A : Type 0} (xs : List A) → length xs ≡ 0 → xs ≡ []
nil_of-length [] h = refl
nil_of-length (x ∷ xs) h = absurd (omega (arith, h))

collect-perm :
    (jobs : ℕ) (outs outs' : List Outcome) (rs : List Item)
    → Perm outs outs'
    → collect jobs outs ≡ ok rs
    → (rs' : List Item) × (collect jobs outs' ≡ ok rs') × Perm rs rs'
collect-perm jobs outs outs' rs p h =
    let (none_failed, all_there, same) = collect-ok jobs outs rs h in
    let q : Perm (results_of outs) (results_of outs') = results_of-perm p in
    let none_here : errors_of outs' ≡ [] = nil_of-length (errors_of outs') (
      omega (
        arith,
        split-outcomes outs,
        split-outcomes outs',
        length-perm q,
        length-perm p,
        ap (length) none_failed,
      )) in
    (
      results_of outs',
      collect-accepts jobs outs' none_here (sym (length-perm q) ∙ all_there),
      rw (sym same) q,
    )

stat-perm : (column : Item → ℤ) (xs ys : List Item) → Perm xs ys → stat column xs ≡ stat column ys
unfolding stat
stat-perm column xs ys p = ap or_no_values (median_ℤ-perm (Perm.map column p))

medians_of-perm :
    (label cfg : Text) (xs ys : List Item)
    → Perm xs ys
    → medians_of label cfg xs ≡ medians_of label cfg ys
unfolding medians_of
medians_of-perm label cfg xs ys p =
    rw
      (
        length-perm p,
        stat-perm (λ (l, a). Analysis.w_ns a) xs ys p,
        stat-perm (λ (l, a). Analysis.d_fin_ns a) xs ys p,
        stat-perm (λ (l, a). Analysis.residual_ns a) xs ys p,
        stat-perm (λ (l, a). pos (abs (Analysis.cross_ns a))) xs ys p,
      )
      refl

config_medians-perm :
    (label cfg : Text) (xs ys : List Item)
    → Perm xs ys
    → config_medians label cfg xs ≡ config_medians label cfg ys
unfolding config_medians
config_medians-perm label cfg xs ys p =
    medians_of-perm label cfg (keep (of_config cfg) (keep (of_campaign label) xs))
      (keep (of_config cfg) (keep (of_campaign label) ys))
      (keep-perm (of_config cfg) (keep-perm (of_campaign label) p))

tally-perm :
    (camps : List Campaign) (xs ys : List Item) → Perm xs ys → tally xs camps ≡ tally ys camps
unfolding tally campaign_tally
tally-perm [] xs ys p = refl
tally-perm (c ∷ camps) xs ys p =
    rw
      (
        config_medians-perm c.label fast xs ys p,
        config_medians-perm c.label safe xs ys p,
        tally-perm camps xs ys p,
      )
      refl

-- What the pass renders of its results does not depend on their order.
render-perm :
    (camps : List Campaign) (xs ys : List Item) → Perm xs ys → render camps xs ≡ render camps ys
unfolding render
render-perm camps xs ys p = rw (tally-perm camps xs ys p) refl

module _ (present : Text → Bool) (extract : Text → Result PcapError Extract)
    (arrive arrive' : List Outcome → List Outcome)
    (rearranges : (outs : List Outcome) → Perm (arrive outs) outs)
    (rearranges' : (outs : List Outcome) → Perm (arrive' outs) outs) where
  after_threads :
      (camps : List Campaign) (jobs : ℕ) (outs : List Outcome) (v : Verdict)
      → (collect jobs (arrive outs) >>= λ rs. render camps rs) ≡ ok v
      → (collect jobs (arrive' outs) >>= λ rs. render camps rs) ≡ ok v
  after_threads camps jobs outs v h =
      let (rs, collected, rendered) =
        bind-ok (collect jobs (arrive outs)) (λ rs. render camps rs) h in
      let p : Perm (arrive outs) (arrive' outs) =
        Perm.trans (rearranges outs) (Perm.symm (rearranges' outs)) in
      let (rs', collected', q) = collect-perm jobs (arrive outs) (arrive' outs) rs p collected in
      rw collected' (sym (render-perm camps rs rs' q) ∙ rendered)

  analyze_all-any_order :
      (camps : List Campaign) (jobs : List Job) (v : Verdict)
      → analyze_all present extract arrive camps jobs ≡ ok v
      → analyze_all present extract arrive' camps jobs ≡ ok v
  unfolding analyze_all
  analyze_all-any_order camps jobs v h =
      let outs = map (analyze_job extract) jobs in
      let all_there =
        length (keep (λ p. not (present p)) (map (λ (j : Job). j.row.pcap_path) jobs)) == 0 in
      elim (Bool-cases all_there) [
        | inr e ↦ absurd (ground arith)
        | inl e ↦ rw e (after_threads camps (length jobs) outs v (rw e at h))
      ]

  -- If the pass gives a verdict when the threads end in one order, it gives the same verdict when
  -- they end in any other.
  pub run_pass-any_order :
      (read : Campaign → Result PassFail (List Run × List PhaseRun)) (camps : List Campaign)
      (v : Verdict)
      → run_pass present extract arrive read camps ≡ ok v
      → run_pass present extract arrive' read camps ≡ ok v
  unfolding run_pass
  run_pass-any_order read camps v h =
      let (jobs, loaded, rest) =
        bind-ok (load_all read camps) (λ jobs. analyze_all present extract arrive camps jobs) h in
      rw loaded (analyze_all-any_order camps jobs v rest)
