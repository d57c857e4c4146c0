-- ===== src/Bench/Control.antt =====
-- A host is let in only when it is quiet: each CPU's governor, and the other controls.
use whimbrel.Prelude.{ℕ, ◌<◌}
use whimbrel.Prelude.{◌≡◌, refl, sym, ◌∙◌, ◌≢◌, ◌↔◌, inl, inr}
use whimbrel.Prelude.{true, arith}
use whimbrel.Prelude.{List, [], ◌∷◌, ◌++◌}
use whimbrel.Prelude.{Bool-cases}
use whimbrel.Prelude.{length, all, All}
use whimbrel.Prelude.{ok, ok-injective}
use whimbrel.Prelude.Text.{Text, codes, text_eq, text_eq_iff}
use whimbrel.Prelude.Sort.{sort}
use whimbrel.Bench.Host.{listing, summarize_governors, Controls, lower_cpu, require_host_controls}

abbrev pub performance : Text
performance = codes "performance"

all-performance :
    (gov : Text) (govs : List (ℕ × Text))
    → (gov ≡ performance) × (all (λ (d, g). text_eq g gov) govs ≡ true)
    → All (λ (d, g). g ≡ performance) govs
all-performance gov [] h = tt
all-performance gov ((d, g) ∷ govs) (p, h) =
    let same : text_eq g gov ≡ true = ground arith in
    ((text_eq_iff g gov).0 same ∙ p, all-performance gov govs (p, ground arith))

performance-all :
    (govs : List (ℕ × Text))
    → All (λ (d, g). g ≡ performance) govs
    → all (λ (d, g). text_eq g performance) govs ≡ true
performance-all [] h = refl
performance-all ((d, g) ∷ govs) (p, h) =
    rw ((text_eq_iff g performance).1 p) (performance-all govs h)

mixed-not : (rest : Text) → codes "mixed:" ++ rest ≢ performance
mixed-not rest h = ground arith

-- The summary is `performance` exactly if there is a CPU and each one's governor is.
governor_iff :
    (govs : List (ℕ × Text))
    → (summarize_governors govs ≡ ok performance)
      ↔ ((0 < length govs) × All (λ (d, g). g ≡ performance) govs)
unfolding summarize_governors
governor_iff [] = (λ h. ground arith, λ (some_cpu, h). ground arith)
governor_iff ((c, gov) ∷ govs) = (
  λ h. elim (Bool-cases (all (λ (d, g). text_eq g gov) govs)) [
    | inl e ↦
        let same : gov ≡ performance = ok-injective gov performance (rw e at h) in
        (omega arith, (same, all-performance gov govs (same, e)))
    | inr e ↦
        let listed = codes "mixed:" ++ listing (sort lower_cpu ((c, gov) ∷ govs)) in
        absurd (
          mixed-not (listing (sort lower_cpu ((c, gov) ∷ govs)))
            (ok-injective listed performance (rw e at h)))
  ],
  λ (some_cpu, (same, h)). rw (same, performance-all govs h) refl,
)

-- With the governors of the online CPUs summarized, the host is accepted exactly if there is one
-- and each has the governor `performance`, SMT and boost are off, there is no hypervisor, and no
-- steal has been counted.
pub require_host_controls_iff :
    (govs : List (ℕ × Text)) (ctrl : Controls)
    → summarize_governors govs ≡ ok ctrl.governor
    → (require_host_controls ctrl ≡ ok ctrl) ↔ (
        ((0 < length govs) × All (λ (d, g). g ≡ performance) govs)
        × (ctrl.smt_control ≡ codes "off")
        × (ctrl.cpufreq_boost ≡ codes "0")
        × (ctrl.virt ≡ codes "none")
        × (ctrl.steal_start_ticks ≡ 0))
unfolding require_host_controls
require_host_controls_iff govs ctrl summary = (
  λ h.
      let quick : text_eq ctrl.governor performance ≡ true = ground arith in
      let same = (text_eq_iff ctrl.governor performance).0 quick in
      (
        (governor_iff govs).0 (rw same at summary),
        (text_eq_iff ctrl.smt_control (codes "off")).0 (ground arith),
        (text_eq_iff ctrl.cpufreq_boost (codes "0")).0 (ground arith),
        (text_eq_iff ctrl.virt (codes "none")).0 (ground arith),
        ground arith,
      ),
  λ (governors, smt, boost, virt, steal).
      let summed = (governor_iff govs).1 governors in
      let quick : ctrl.governor ≡ performance =
        ok-injective ctrl.governor performance (sym summary ∙ summed) in
      ground (
        arith,
        (text_eq_iff ctrl.governor performance).1 quick,
        (text_eq_iff ctrl.smt_control (codes "off")).1 smt,
        (text_eq_iff ctrl.cpufreq_boost (codes "0")).1 boost,
        (text_eq_iff ctrl.virt (codes "none")).1 virt,
      ),
)
