-- ===== src/Bench/Probe.antt =====
-- `falsifier3_scan` and `d0081_probe_scan` of scripts/bench.py: what no serial log may contain.
use whimbrel.Prelude.{ℕ}
use whimbrel.Prelude.{◌≡◌, sym, ap}
use whimbrel.Prelude.{Bool, not, Option, none, some, arith}
use whimbrel.Prelude.{[], ◌∷◌, ◌++◌}
use whimbrel.Prelude.{◌==◌, if◌then◌else◌}
use whimbrel.Prelude.{drop}
use whimbrel.Prelude.Text.{Text, codes, strip_prefix, run, span, is_space, is_digit, decimal}
use whimbrel.Prelude.Options.{◌>>=◌}

abbrev pub trap_mark : Text
trap_mark = codes "M!"

abbrev pub probe_ratio : Text
probe_ratio = codes "Ratio of byte access time"

abbrev probe_name : Text
probe_name = codes "check_unaligned_access_all_cpus"

abbrev not_space : ℕ → Bool
not_space c = not (is_space c)

-- `\s*`
abbrev blanks : Text → Text
blanks s = let (gone, rest) = span is_space s in rest

-- `D0081_INITCALL_USECS_RE` at one position.
unfoldable pub usecs_match : Text → Option ℕ
unfolding strip_prefix run is_space is_digit decimal
usecs_match s = do
  a ← strip_prefix (codes "initcall " ++ probe_name) s
  let (suffix, b) = span not_space a
  c ← strip_prefix (codes " returned ") b
  (value, d) ← run not_space c
  e ← strip_prefix (codes " after ") d
  (usecs, f) ← run is_digit e
  g ← strip_prefix (codes " usecs") f
  some (decimal usecs)

-- ``\s*`?``
abbrev skip_tick : Text → Text
skip_tick s = elim (strip_prefix (96 ∷ []) s) [ none ↦ s | some t ↦ t ]

-- `D0081_INITCALL_TABLE_RE` at one position.
unfoldable pub table_match : Text → Option ℕ
unfolding strip_prefix run span is_space is_digit decimal
table_match s = do
  a ← strip_prefix (codes "|") s
  (rank, b) ← run is_digit (blanks a)
  c ← strip_prefix (codes "|") (blanks b)
  (dur, d) ← run is_digit (blanks c)
  e ← strip_prefix (codes "|") (blanks d)
  f ← strip_prefix probe_name (skip_tick (blanks e))
  some (decimal dur)

-- A match that is not zero at the front.
abbrev nonzero : Option ℕ → Option ℕ
nonzero none = none
nonzero (some n) = if n == 0 then none else some n

abbrev or_else : Option ℕ → Option ℕ → Option ℕ
or_else none later = later
or_else (some n) later = some n

-- The first match of `finditer` that is not zero. Two matches of these patterns never overlap, so
-- each position is tried.
unfoldable pub first_nonzero : (Text → Option ℕ) → Text → Option ℕ
first_nonzero m [] = nonzero (m [])
first_nonzero m (c ∷ s) = or_else (nonzero (m (c ∷ s))) (first_nonzero m s)

-- The numbers are zero wherever the pattern matches.
abbrev pub IsQuiet : (Text → Option ℕ) → Text → Type 0
IsQuiet m serial = (before rest : Text) (n : ℕ) → serial ≡ before ++ rest → m rest ≡ some n → n ≡ 0

zero_here : (o later : Option ℕ) (n : ℕ) → or_else (nonzero o) later ≡ none → o ≡ some n → n ≡ 0
zero_here o later n h e = ground arith

none_later : (o later : Option ℕ) → or_else o later ≡ none → later ≡ none
none_later none later h = h
none_later (some n) later h = cc

nonzero-zero : (o : Option ℕ) (n : ℕ) → nonzero o ≡ none → o ≡ some n → n ≡ 0
nonzero-zero o n h e = ground arith

-- A log in which the search finds nothing has only zeros.
pub first_nonzero-IsQuiet :
    (m : Text → Option ℕ) (serial : Text) → first_nonzero m serial ≡ none → IsQuiet m serial
unfolding first_nonzero
first_nonzero-IsQuiet m [] h [] rest n e found = nonzero-zero (m []) n h (rw (sym e) at found)
first_nonzero-IsQuiet m [] h (b ∷ before) rest n e found = absurd (ground arith)
first_nonzero-IsQuiet m (c ∷ s) h [] rest n e found =
    zero_here (m (c ∷ s)) (first_nonzero m s) n h (rw (sym e) at found)
first_nonzero-IsQuiet m (c ∷ s) h (b ∷ before) rest n e found =
    first_nonzero-IsQuiet m s (none_later (nonzero (m (c ∷ s))) (first_nonzero m s) h) before rest n
      (ap (drop 1) e) found
