-- ===== src/Bench/Cpus.antt =====
-- `parse_cpu_list` of scripts/bench.py: the kernel's lists of CPUs, such as `0,2-3,7`.
use whimbrel.Prelude.{ℕ, ◌+◌, ◌-◌}
use whimbrel.Prelude.{Bool, ◌&&◌, not, Option, none, some}
use whimbrel.Prelude.{List, [], ◌∷◌, ◌++◌}
use whimbrel.Prelude.{ltb, leb, ◌==◌, if◌then◌else◌}
use whimbrel.Prelude.{length, all, any}
use whimbrel.Prelude.{Result, ok, err}
use whimbrel.Prelude.Text.{Text, strip, split_on, split_once, is_digit, decimal}
use whimbrel.Prelude.Sort.{sort}
use whimbrel.Prelude.Options.{◌>>=◌, ◌>>◌, guard}
use whimbrel.Bench.Failure.{BenchFail, empty_cpu_list, bad_cpu_list}
use whimbrel.Bench.Schedule.{range}

-- `int(s)` of digits with blanks around them; `none` is the `ValueError`.
unfoldable pub to_int : Text → Option ℕ
unfolding strip is_digit decimal
to_int s = let d = strip s in if ltb 0 (length d) && all is_digit d then some (decimal d) else none

abbrev dash : ℕ
dash = 45

-- The first and the last CPU of a field.
abbrev ends : Text → Option (Text × Text) → Option (ℕ × ℕ)
ends part none = do c ← to_int part; some (c, c)
ends part (some (a, b)) = do lo ← to_int a; hi ← to_int b; guard (not (ltb hi lo)); some (lo, hi)

unfoldable pub part_ends : Text → Option (ℕ × ℕ)
unfolding split_once to_int strip
part_ends raw =
    let part = strip raw in do guard (ltb 0 (length part)); ends part (split_once dash part)

-- The loop over the fields.
unfoldable pub all_ends : List Text → Option (List (ℕ × ℕ))
all_ends [] = some []
all_ends (part ∷ parts) = do e ← part_ends part; es ← all_ends parts; some (e ∷ es)

-- `cpus.extend(range(lo, hi + 1))` for each field
unfoldable pub expand : List (ℕ × ℕ) → List ℕ
unfolding range
expand [] = []
expand ((lo, hi) ∷ es) = range lo (hi + 1 - lo) ++ expand es

unfoldable pub has : ℕ → List ℕ → Bool
has c cpus = any (λ d. d == c) cpus

-- `set(cpus)`
unfoldable pub distinct_of : List ℕ → List ℕ
distinct_of [] = []
distinct_of (c ∷ cpus) = let rest = distinct_of cpus in if has c rest then rest else c ∷ rest

unfoldable pub listed : Text → Option (List (ℕ × ℕ)) → Result BenchFail (List ℕ)
unfolding sort
listed raw none = err (bad_cpu_list raw)
listed raw (some []) = err empty_cpu_list
listed raw (some (e ∷ es)) = ok (sort leb (distinct_of (expand (e ∷ es))))

unfoldable pub parse_cpu_list : Text → Result BenchFail (List ℕ)
unfolding strip split_on
parse_cpu_list text =
    let raw = strip text in
    if length raw == 0 then err empty_cpu_list else listed raw (all_ends (split_on 44 raw))
