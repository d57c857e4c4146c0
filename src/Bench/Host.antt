-- ===== src/Bench/Host.antt =====
-- The controls on the host of scripts/bench.py: governors, steal, pinning, the five controls, and the
-- branch.
use whimbrel.Prelude.{ℕ, zero, suc, ◌-◌, ◌*◌, ◌/◌, String}
use whimbrel.Prelude.{Bool, not, Option, none, some}
use whimbrel.Prelude.{List, [], ◌∷◌, ◌++◌}
use whimbrel.Prelude.{ltb, leb, ◌==◌, if◌then◌else◌}
use whimbrel.Prelude.{get_elem?, all}
use whimbrel.Prelude.{Result, ok, err, ◌>>=◌, ◌>>◌, guard}
use whimbrel.Prelude.Text.{Text, codes, text_eq, starts_with, split, splitlines, decimal_text}
use whimbrel.Prelude.Sort.{sort}
use whimbrel.Prelude.Int.{ℤ, pos, negsuc, ltb_ℤ}
use whimbrel.Bench.Failure.{
  BenchFail, no_cpus, steal_backwards, stolen, no_steal_column, no_cpu_line, bad_number,
  host_control, few_cpus, same_core, not_origin, clock_rate,
}
use whimbrel.Bench.Cpus.{to_int}

-- `cpu{c}={gov}`, joined by commas
unfoldable pub listing : List (ℕ × Text) → Text
unfolding decimal_text
listing [] = []
listing ((c, gov) ∷ []) = codes "cpu" ++ decimal_text c ++ codes "=" ++ gov
listing ((c, gov) ∷ d ∷ govs) =
    let rest = listing (d ∷ govs) in
    codes "cpu" ++ decimal_text c ++ codes "=" ++ gov ++ codes "," ++ rest

abbrev pub lower_cpu : ℕ × Text → ℕ × Text → Bool
lower_cpu (c, g) (d, h) = leb c d

-- The governor of each online CPU.
unfoldable pub summarize_governors : List (ℕ × Text) → Result BenchFail Text
unfolding sort listing
summarize_governors [] = err no_cpus
summarize_governors ((c, gov) ∷ govs) =
    if all (λ (d, g). text_eq g gov) govs
    then ok gov
    else ok (codes "mixed:" ++ listing (sort lower_cpu ((c, gov) ∷ govs)))

unfoldable pub require_steal_delta_zero : ℤ → Result BenchFail (Unit {0})
require_steal_delta_zero delta = if ltb_ℤ delta (pos 0) then err steal_backwards else elim delta [
  | pos zero ↦ ok tt
  | pos (suc n) ↦ err (stolen (pos (suc n)))
  | negsuc n ↦ err (stolen (negsuc n))
]

-- `parts[8]` of the aggregate line
abbrev steal_column : Option Text → Result BenchFail ℕ
steal_column none = err no_steal_column
steal_column (some s) = elim (to_int s) [ none ↦ err (bad_number s) | some n ↦ ok n ]

unfoldable pub steal_in_lines : List Text → Result BenchFail ℕ
unfolding starts_with split to_int
steal_in_lines [] = err no_cpu_line
steal_in_lines (line ∷ lines) =
    let later = steal_in_lines lines in
    if starts_with line (codes "cpu ") then steal_column (get_elem? (split line) 8) else later

unfoldable pub steal_ticks_from_stat : Text → Result BenchFail ℕ
unfolding splitlines
steal_ticks_from_stat text = steal_in_lines (splitlines text)

-- `hz` is what `os.sysconf` gives.
unfoldable pub steal_ticks_to_ns : ℕ → ℕ → Result BenchFail ℕ
steal_ticks_to_ns hz ticks = if hz == 0 then err clock_rate else ok (ticks * 1_000_000_000 / hz)

-- The two environment variables, where they are set.
abbrev core_or : ℕ → Option Text → Result BenchFail ℕ
core_or n none = ok n
core_or n (some s) = elim (to_int s) [ none ↦ err (bad_number s) | some c ↦ ok c ]

-- `n` is the count of CPUs.
unfoldable pub pin_cpus : ℕ → Option Text → Option Text → Result BenchFail (ℕ × ℕ)
pin_cpus n qemu client = do
  guard (not (ltb n 2)) few_cpus
  qemu_cpu ← core_or (n - 2) qemu
  client_cpu ← core_or (n - 1) client
  guard (not (qemu_cpu == client_cpu)) same_core
  ok (qemu_cpu, client_cpu)

pub record Controls : Type 0 where
  pub governor : Text
  pub smt_control : Text
  pub cpufreq_boost : Text
  pub virt : Text
  pub steal_start_ticks : ℕ

abbrev want_text : String → Text → String → Result BenchFail (Unit {0})
want_text key got want = guard (text_eq got (codes want)) (host_control (codes key))

-- The loop over `HOST_CONTROL_WANT`, in its order.
unfoldable pub require_host_controls : Controls → Result BenchFail Controls
require_host_controls ctrl = do
  want_text "governor" ctrl.governor "performance"
  want_text "smt_control" ctrl.smt_control "off"
  want_text "cpufreq_boost" ctrl.cpufreq_boost "0"
  want_text "virt" ctrl.virt "none"
  guard (ctrl.steal_start_ticks == 0) (host_control (codes "steal_start_ticks"))
  ok ctrl

pub record Heads : Type 0 where
  pub branch : Text
  pub head : Text
  pub origin : Text

-- With the state given.
unfoldable pub require_origin_sync : Heads → Result BenchFail Heads
require_origin_sync state =
    if not (text_eq state.head state.origin)
    then err (not_origin state.head state.branch state.origin)
    else ok state
