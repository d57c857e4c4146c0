-- ===== src/Bench/Online.antt =====
-- What a list of CPUs means: it is read into the CPUs of its ranges, each once and in order.
use whimbrel.Prelude.{ℕ, zero, suc, ◌+◌, ◌-◌, ◌<◌}
use whimbrel.Prelude.{◌≡◌, refl, sym, ◌∙◌, inl, inr}
use whimbrel.Prelude.{Bool, true, false, ◌&&◌, ◌||◌, Option, none, some, arith}
use whimbrel.Prelude.{List, [], ◌∷◌, ◌++◌}
use whimbrel.Prelude.{ltb, leb, ◌==◌, Bool-cases, ==_iff}
use whimbrel.Prelude.{any, All}
use whimbrel.Prelude.{ok, ok-injective}
use whimbrel.Prelude.Text.{Text, strip, split_on}
use whimbrel.Prelude.Sort.{sort, insert, IsSorted, sort-IsSorted}
use whimbrel.Bench.Schedule.{range}
use whimbrel.Bench.Cpus.{all_ends, expand, has, distinct_of, listed, parse_cpu_list}

-- A range of CPUs contains `c`.
abbrev pub covers : ℕ → ℕ × ℕ → Bool
covers c (lo, hi) = leb lo c && leb c hi

-- Each number is below those behind it.
abbrev pub Rises : List ℕ → Type 0
Rises [] = Unit {0}
Rises (c ∷ cpus) = All (λ d. c < d) cpus × Rises cpus

has-append : (c : ℕ) (xs ys : List ℕ) → has c (xs ++ ys) ≡ (has c xs || has c ys)
unfolding has
has-append c [] ys = refl
has-append c (x ∷ xs) ys = ground (arith, has-append c xs ys)

has-range : (c start count : ℕ) → has c (range start count) ≡ (leb start c && ltb c (start + count))
unfolding has range
has-range c start zero = ground arith
has-range c start (suc count) = ground (arith, has-range c (start + 1) count)

has-expand : (c : ℕ) (es : List (ℕ × ℕ)) → has c (expand es) ≡ any (covers c) es
unfolding expand
has-expand c [] = unfold has in refl
has-expand c ((lo, hi) ∷ es) =
    let step = has-append c (range lo (hi + 1 - lo)) (expand es) in
    ground (arith, step, has-range c lo (hi + 1 - lo), has-expand c es)

has-distinct_of : (c : ℕ) (xs : List ℕ) → has c (distinct_of xs) ≡ has c xs
unfolding has distinct_of
has-distinct_of c [] = refl
has-distinct_of c (x ∷ xs) = elim (Bool-cases (x == c)) [
  | inl e ↦ let same : x ≡ c = (==_iff x c).0 e in rw same (ground arith)
  | inr e ↦ ground (arith, has-distinct_of c xs)
]

has-insert : (c x : ℕ) (xs : List ℕ) → has c (insert leb x xs) ≡ ((x == c) || has c xs)
unfolding has insert
has-insert c x [] = refl
has-insert c x (y ∷ xs) = ground (arith, has-insert c x xs)

has-sort : (c : ℕ) (xs : List ℕ) → has c (sort leb xs) ≡ has c xs
unfolding has sort
has-sort c [] = refl
has-sort c (x ∷ xs) = ground (arith, has-insert c x (sort leb xs), has-sort c xs)

-- No number comes twice.
abbrev Fresh : List ℕ → Type 0
Fresh [] = Unit {0}
Fresh (c ∷ cpus) = (has c cpus ≡ false) × Fresh cpus

distinct_of-Fresh : (xs : List ℕ) → Fresh (distinct_of xs)
unfolding distinct_of
distinct_of-Fresh [] = tt
distinct_of-Fresh (x ∷ xs) = elim (Bool-cases (has x (distinct_of xs))) [
  | inl e ↦ rw e (distinct_of-Fresh xs)
  | inr e ↦ rw e (e, distinct_of-Fresh xs)
]

insert-Fresh : (x : ℕ) (xs : List ℕ) → has x xs ≡ false → Fresh xs → Fresh (insert leb x xs)
unfolding insert
insert-Fresh x [] h f = (h, tt)
insert-Fresh x (y ∷ xs) h (g, f) = elim (Bool-cases (leb x y)) [
  | inl e ↦ rw e (h, (g, f))
  | inr e ↦
      let apart : has x xs ≡ false = unfold has in ground arith in
      let still : has y (insert leb x xs) ≡ false =
        has-insert y x xs ∙ unfold has in ground arith in
      rw e (still, insert-Fresh x xs apart f)
]

sort-Fresh : (xs : List ℕ) → Fresh xs → Fresh (sort leb xs)
unfolding sort
sort-Fresh [] f = tt
sort-Fresh (x ∷ xs) (g, f) = insert-Fresh x (sort leb xs) (rw (has-sort x xs) g) (sort-Fresh xs f)

All-above :
    (c : ℕ) (cpus : List ℕ)
    → All (λ d. leb c d ≡ true) cpus
    → has c cpus ≡ false
    → All (λ d. c < d) cpus
unfolding has
All-above c [] h f = tt
All-above c (d ∷ cpus) (g, h) f = (ground arith, All-above c cpus h (ground arith))

IsSorted-Rises : (cpus : List ℕ) → IsSorted leb cpus → Fresh cpus → Rises cpus
IsSorted-Rises [] s f = tt
IsSorted-Rises (c ∷ cpus) (above, s) (fresh, f) =
    (All-above c cpus above fresh, IsSorted-Rises cpus s f)

listed-Reads :
    (raw : Text) (es : Option (List (ℕ × ℕ))) (cpus : List ℕ)
    → listed raw es ≡ ok cpus
    → (found : List (ℕ × ℕ)) × (es ≡ some found)
      × Rises cpus
      × ((c : ℕ) → has c cpus ≡ any (covers c) found)
unfolding listed
listed-Reads raw none cpus h = cc
listed-Reads raw (some []) cpus h = cc
listed-Reads raw (some (e ∷ es)) cpus h =
    let all_cpus = distinct_of (expand (e ∷ es)) in
    let sorted = sort-IsSorted leb (λ x y h. ground arith) (λ x y z h k. ground arith) all_cpus in
    (
      e ∷ es,
      refl,
      rw (sym (ok-injective (sort leb all_cpus) cpus h)) (
          IsSorted-Rises (sort leb all_cpus) sorted
            (sort-Fresh all_cpus (distinct_of-Fresh (expand (e ∷ es))))),
      λ c.
          rw (sym (ok-injective (sort leb all_cpus) cpus h))
            (has-sort c all_cpus ∙ has-distinct_of c (expand (e ∷ es)) ∙ has-expand c (e ∷ es)),
    )

-- If a list of CPUs is read, each of its fields is a range or one CPU, and the result rises and
-- has exactly the CPUs of these ranges.
pub parse_cpu_list-Reads :
    (text : Text) (cpus : List ℕ)
    → parse_cpu_list text ≡ ok cpus
    → (es : List (ℕ × ℕ)) × (all_ends (split_on 44 (strip text)) ≡ some es)
      × Rises cpus
      × ((c : ℕ) → has c cpus ≡ any (covers c) es)
unfolding parse_cpu_list
parse_cpu_list-Reads text cpus h =
    listed-Reads (strip text) (all_ends (split_on 44 (strip text))) cpus (ground arith)
