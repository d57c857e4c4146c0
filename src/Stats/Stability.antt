-- ===== src/Stats/Stability.antt =====
-- `stability_tol_ns` and `compare_stability` of scripts/bench.py: two batches of a campaign agree.
-- Medians are twofold, and the tolerance, with its two percent, a further hundredfold.
use whimbrel.Prelude.{ℕ, ◌-◌, ◌*◌, min, max}
use whimbrel.Prelude.{Bool, Option, none, some}
use whimbrel.Prelude.{List, [], ◌∷◌, ◌++◌, map}
use whimbrel.Prelude.{ltb, if◌then◌else◌}
use whimbrel.Prelude.{any}
use whimbrel.Prelude.Text.{Text, text_eq, text_leb}
use whimbrel.Prelude.Sort.{sort}
use whimbrel.Prelude.Dict.{Dict, lookup}
use whimbrel.Stats.Percentile.{median}

-- A line of the result: the metric, and whether it is missing or moved.
pub data Drift : Type 0 where
  missing : Text → Drift
  moved : Text → ℕ → ℕ → Drift

unfoldable pub stability_tol : ℕ → ℕ
stability_tol m = max (2 * m) 40_000_000

-- `a.get(name, [])`
abbrev pub values_of : Text → Dict (List ℕ) → List ℕ
values_of name a = elim (lookup name a) [ none ↦ [] | some vs ↦ vs ]

unfoldable pub compare_medians : Text → Option ℕ → Option ℕ → List Drift
compare_medians name none b = missing name ∷ []
compare_medians name (some a) none = missing name ∷ []
compare_medians name (some a) (some b) =
    if ltb (max a b) 2_000_000
    then []
    else if ltb (stability_tol (max a b)) (100 * (max a b - min a b))
    then moved name a b ∷ []
    else []

unfoldable pub has_name : Text → List Text → Bool
has_name name names = any (λ n. text_eq n name) names

-- The elements of a set, of which the last of equal ones is kept.
unfoldable pub distinct_names : List Text → List Text
distinct_names [] = []
distinct_names (n ∷ names) =
    let rest = distinct_names names in if has_name n rest then rest else n ∷ rest

-- `sorted(set(a) | set(b))`
unfoldable pub names_of : Dict (List ℕ) → Dict (List ℕ) → List Text
unfolding sort distinct_names
names_of a b = sort text_leb (distinct_names (map (λ (n, v). n) a ++ map (λ (n, v). n) b))

unfoldable pub compare_names : Dict (List ℕ) → Dict (List ℕ) → List Text → List Drift
compare_names a b [] = []
compare_names a b (name ∷ names) =
    compare_medians name (median (values_of name a)) (median (values_of name b))
    ++ compare_names a b names

unfoldable pub compare_stability : Dict (List ℕ) → Dict (List ℕ) → List Drift
compare_stability a b = compare_names a b (names_of a b)
