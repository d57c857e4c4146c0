-- ===== src/Stats/StabilityLaws.antt =====
-- Two batches are stable exactly if each metric of either one is, and then so they are exchanged.
use whimbrel.Prelude.{ℕ, ◌-◌, ◌*◌, ◌≤◌, min, max}
use whimbrel.Prelude.{◌≡◌, refl, sym, ◌∙◌, subst, ◌↔◌, ◌⊎◌, inl, inr}
use whimbrel.Prelude.{Bool, true, false, ◌||◌, some, arith}
use whimbrel.Prelude.{List, [], ◌∷◌, ◌++◌, map, dec_le}
use whimbrel.Prelude.{Bool-cases, Option-cases}
use whimbrel.Prelude.Text.{Text, text_eq, text_eq_iff, text_eq_refl, text_leb}
use whimbrel.Prelude.Sort.{sort, insert}
use whimbrel.Prelude.Dict.{Dict}
use whimbrel.Stats.Percentile.{median}
use whimbrel.Stats.Stability.{
  Drift, stability_tol, values_of, compare_medians, has_name, distinct_names, names_of,
  compare_names, compare_stability,
}

-- Both medians exist; they are below a millisecond, or closer than two percent of the higher one or
-- 200 microseconds, whichever is more.
abbrev pub IsStable : List ℕ → List ℕ → Type 0
IsStable va vb =
    (a : ℕ) × (b : ℕ) × (median va ≡ some a)
    × (median vb ≡ some b)
    × (2_000_000 ≤ max a b
        → (100 * (max a b - min a b) ≤ 2 * max a b) ⊎ (max a b - min a b ≤ 400_000))

compare_pair_iff :
    (name : Text) (a b : ℕ)
    → (compare_medians name (some a) (some b) ≡ []) ↔ (
        2_000_000 ≤ max a b
        → (100 * (max a b - min a b) ≤ 2 * max a b) ⊎ (max a b - min a b ≤ 400_000))
unfolding compare_medians stability_tol
compare_pair_iff name a b = (
  λ h high. elim (dec_le (max a b - min a b) 400_000) [
    | yes near ↦ inr near
    | no far ↦ inl (ground arith)
  ],
  λ close. elim (dec_le 2_000_000 (max a b)) [
    | no low ↦ ground arith
    | yes high ↦ elim (close high) [ inl p ↦ ground arith | inr p ↦ ground arith ]
  ],
)

compare_medians_iff :
    (name : Text) (va vb : List ℕ)
    → (compare_medians name (median va) (median vb) ≡ []) ↔ IsStable va vb
unfolding compare_medians
compare_medians_iff name va vb = elim (Option-cases (median va)) [
  | inl e ↦ (λ h. absurd (ground arith), λ (a, b, f, g, close). absurd (ground arith))
  | inr (a, e) ↦ elim (Option-cases (median vb)) [
    | inl f ↦ (λ h. absurd (ground arith), λ (a', b, g, g', close). absurd (ground arith))
    | inr (b, f) ↦ (
      λ h. (a, b, e, f, (compare_pair_iff name a b).0 (rw (e, f) at h)),
      λ (a', b', g, g', close). rw (g, g') ((compare_pair_iff name a' b').1 close),
    )
  ]
]

has-insert :
    (n x : Text) (xs : List Text)
    → has_name n (insert text_leb x xs) ≡ (text_eq x n || has_name n xs)
unfolding has_name insert
has-insert n x [] = refl
has-insert n x (y ∷ xs) = ground (arith, has-insert n x xs)

has-sort : (n : Text) (xs : List Text) → has_name n (sort text_leb xs) ≡ has_name n xs
unfolding has_name sort
has-sort n [] = refl
has-sort n (x ∷ xs) = ground (arith, has-insert n x (sort text_leb xs), has-sort n xs)

has-distinct_names : (n : Text) (xs : List Text) → has_name n (distinct_names xs) ≡ has_name n xs
unfolding has_name distinct_names
has-distinct_names n [] = refl
has-distinct_names n (x ∷ xs) = elim (Bool-cases (text_eq x n)) [
  | inl e ↦ let same : x ≡ n = (text_eq_iff x n).0 e in rw same (ground arith)
  | inr e ↦ ground (arith, has-distinct_names n xs)
]

has-append :
    (n : Text) (xs ys : List Text) → has_name n (xs ++ ys) ≡ (has_name n xs || has_name n ys)
unfolding has_name
has-append n [] ys = refl
has-append n (x ∷ xs) ys = ground (arith, has-append n xs ys)

-- A metric that one of the two has.
abbrev pub is_metric : Dict (List ℕ) → Dict (List ℕ) → Text → Bool
is_metric a b n = has_name n (map (λ (m, v). m) a) || has_name n (map (λ (m, v). m) b)

has-names_of : (a b : Dict (List ℕ)) (n : Text) → has_name n (names_of a b) ≡ is_metric a b n
unfolding names_of
has-names_of a b n =
    let xs = map (λ (m, v). m) a in
    let ys = map (λ (m, v). m) b in
    has-sort n (distinct_names (xs ++ ys)) ∙ has-distinct_names n (xs ++ ys) ∙ has-append n xs ys

nil-append : (xs ys : List Drift) → xs ++ ys ≡ [] → (xs ≡ []) × (ys ≡ [])
nil-append [] ys h = (refl, h)
nil-append (x ∷ xs) ys h = absurd (ground arith)

or_true : (b : Bool) → (b || true) ≡ true
or_true true = refl
or_true false = refl

compare_names_iff :
    (a b : Dict (List ℕ)) (names : List Text)
    → (compare_names a b names ≡ [])
      ↔ ((n : Text) → has_name n names ≡ true → IsStable (values_of n a) (values_of n b))
unfolding compare_names has_name
compare_names_iff a b [] = (λ h n e. absurd (ground arith), λ h. refl)
compare_names_iff a b (m ∷ names) =
    let here = compare_medians m (median (values_of m a)) (median (values_of m b)) in
    (
      λ h n e.
          let (first, others) = nil-append here (compare_names a b names) h in
          elim (Bool-cases (text_eq m n)) [
            | inl f ↦
                subst (λ k. IsStable (values_of k a) (values_of k b)) ((text_eq_iff m n).0 f)
                  ((compare_medians_iff m (values_of m a) (values_of m b)).0 first)
            | inr f ↦ (compare_names_iff a b names).0 others n (ground arith)
          ],
      λ h.
          let first =
            (compare_medians_iff m (values_of m a) (values_of m b)).1
              (h m (rw (text_eq_refl m) refl)) in
          let others =
            (compare_names_iff a b names).1 (λ n e. h n (rw e (or_true (text_eq m n)))) in
          rw (first, others) refl,
    )

-- The comparison reports nothing exactly if each metric that either batch has is stable.
pub compare_stability_iff :
    (a b : Dict (List ℕ))
    → (compare_stability a b ≡ [])
      ↔ ((n : Text) → is_metric a b n ≡ true → IsStable (values_of n a) (values_of n b))
unfolding compare_stability
compare_stability_iff a b = (
  λ h n e. (compare_names_iff a b (names_of a b)).0 h n (has-names_of a b n ∙ e),
  λ h. (compare_names_iff a b (names_of a b)).1 (λ n e. h n (sym (has-names_of a b n) ∙ e)),
)
