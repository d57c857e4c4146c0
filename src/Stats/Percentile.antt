-- ===== src/Stats/Percentile.antt =====
-- `percentile`, `iqr` and the median of scripts/bench.py and scripts/d0070-pcap-pass.py.
use whimbrel.Prelude.{ℕ, ◌+◌, ◌-◌, ◌*◌, ◌/◌, ◌%◌, min}
use whimbrel.Prelude.{Option, none, some}
use whimbrel.Prelude.{List, [], ◌∷◌}
use whimbrel.Prelude.{leb, ◌==◌, if◌then◌else◌}
use whimbrel.Prelude.{length, get_or}
use whimbrel.Prelude.Sort.{sort}

-- `statistics.median`, twofold: `none` is the `StatisticsError` on no values.
unfoldable pub median_sorted : List ℕ → Option ℕ
median_sorted [] = none
median_sorted (x ∷ xs) =
    let s = x ∷ xs in
    let n = length s in
    if n % 2 == 1
    then some (2 * get_or s (n / 2) 0)
    else some (get_or s (n / 2 - 1) 0 + get_or s (n / 2) 0)

unfoldable pub median : List ℕ → Option ℕ
unfolding sort
median vals = median_sorted (sort leb vals)

-- `percentile(s, q / 4)` of scripts/bench.py, fourfold, for a list that is not empty: `k` is the
-- position in quarters, `f` its floor and `c` its ceiling.
unfoldable pub percentile_at : List ℕ → ℕ → ℕ
percentile_at s q =
    let k = (length s - 1) * q in
    let f = k / 4 in
    let c = (k + 3) / 4 in
    if length s == 1
    then 4 * get_or s 0 0
    else if f == c
    then 4 * get_or s f 0
    else get_or s f 0 * (4 * c - k) + get_or s c 0 * (k - 4 * f)

unfoldable pub percentile : List ℕ → ℕ → Option ℕ
percentile [] q = none
percentile (x ∷ xs) q = some (percentile_at (x ∷ xs) q)

-- The same function of scripts/d0070-pcap-pass.py takes the next position in place of the ceiling.
unfoldable pub pass_percentile_at : List ℕ → ℕ → ℕ
pass_percentile_at s q =
    let k = (length s - 1) * q in
    let f = k / 4 in
    let c = min (f + 1) (length s - 1) in
    if f == c then 4 * get_or s f 0 else get_or s f 0 * (4 * c - k) + get_or s c 0 * (k - 4 * f)

unfoldable pub pass_percentile : List ℕ → ℕ → Option ℕ
pass_percentile [] q = none
pass_percentile (x ∷ xs) q = some (pass_percentile_at (x ∷ xs) q)

-- `iqr`, fourfold
unfoldable pub quartile_range : List ℕ → Option ℕ
quartile_range [] = none
quartile_range (x ∷ s) = some (percentile_at (x ∷ s) 3 - percentile_at (x ∷ s) 1)

unfoldable pub iqr : List ℕ → Option ℕ
iqr vals = quartile_range (sort leb vals)
