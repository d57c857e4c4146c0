-- ===== src/Witness/Sources.antt =====
-- Where the boots come from that `structural_finding` of scripts/regime-witness.py has in its cluster.
use whimbrel.Prelude.{ℕ, suc, ◌+◌, ◌*◌}
use whimbrel.Prelude.{◌≡◌, refl, sym, ap, ◌∙◌, subst, ◌⊎◌, inl, inr}
use whimbrel.Prelude.{true, false, Option, none, some, arith}
use whimbrel.Prelude.{List, [], ◌∷◌, ◌++◌, map}
use whimbrel.Prelude.{Bool-cases, Option-cases}
use whimbrel.Prelude.{get_elem?}
use whimbrel.Prelude.{ok, ◌>>=◌, Result-cases, ok-injective, bind-ok}
use whimbrel.Witness.Rows.{same_side, regime_side, is_dip}
use whimbrel.Witness.Join.{Join}
use whimbrel.Witness.Positions.{Named, others, first_dips, off_side}
use whimbrel.Witness.Finding.{
  Boot, canary_boot, first_boot, cluster_of_join, cluster_with, cluster_of_row, cluster_of,
}
use whimbrel.Witness.Covers.{HasOffCanary, HasFirstDip}
use mathlib.Core.List.{Memᴰ}
use mathlib.Core.List.Memᴰ

-- The dip of a batch of `rows`, which are those from `start` on.
abbrev IsDipOf : List (List ℕ) → ℕ → List (List ℕ) → ℕ → ℕ → Type 0
IsDipOf all_rows start rows bi v =
    (i : ℕ) × (bi ≡ start + i)
    × ((row : List ℕ) × (get_elem? rows i ≡ some (v ∷ row)))
    × (is_dip v (others bi 0 all_rows) ≡ true)

first_dips-IsDipOf :
    (all_rows : List (List ℕ)) (start : ℕ) (rows : List (List ℕ)) (ds : List (ℕ × ℕ)) (bi v : ℕ)
    → first_dips all_rows start rows ≡ ok ds
    → Memᴰ (bi, v) ds
    → IsDipOf all_rows start rows bi v
unfolding first_dips
first_dips-IsDipOf all_rows start [] ds bi v h m =
    let empty : ds ≡ [] = ground arith in absurd (Memᴰ.not-nil (subst (Memᴰ (bi, v)) empty m))
first_dips-IsDipOf all_rows start ([] ∷ rows) ds bi v h m = absurd (ground arith)
first_dips-IsDipOf all_rows start ((w ∷ r) ∷ rows) ds bi v h m =
    elim (Result-cases (first_dips all_rows (suc start) rows)) [
      | inr (e, failed) ↦ absurd (ground arith)
      | inl (more, found) ↦
          let later : Memᴰ (bi, v) more → IsDipOf all_rows start ((w ∷ r) ∷ rows) bi v = λ m'.
            let (i, at, there, dip) =
              first_dips-IsDipOf all_rows (suc start) rows more bi v found m' in
            (suc i, omega (arith, at), there, dip) in
          elim (Bool-cases (is_dip w (others start 0 all_rows))) [
            | inl e ↦
                let same : ds ≡ (start, w) ∷ more = ground arith in
                elim (Memᴰ.cases_cons (subst (Memᴰ (bi, v)) same m)) [
                  | inl here ↦
                      let is_bi : bi ≡ start = ap (λ (d : ℕ × ℕ). d.0) here in
                      let is_v : v ≡ w = ap (λ (d : ℕ × ℕ). d.1) here in
                      (
                        0,
                        omega (arith, is_bi),
                        (r, ap (λ n. some (n ∷ r)) (sym is_v)),
                        rw (is_bi, is_v) e,
                      )
                  | inr there ↦ later there
                ]
            | inr e ↦ let same : ds ≡ more = ground arith in later (subst (Memᴰ (bi, v)) same m)
          ]
    ]

off_side-HasOffCanary :
    (r : Named) (v : ℕ) → Memᴰ v (off_side r.camp.canary r.camp.med) → HasOffCanary r v
off_side-HasOffCanary r v m = go r.camp.canary m
  where
    go :
        (canary : Option ℕ)
        → Memᴰ v (off_side canary r.camp.med)
        → (canary ≡ some v) × (same_side (regime_side (2 * v)) (regime_side r.camp.med) ≡ false)
    go none m = absurd (Memᴰ.not-nil m)
    go (some w) m = elim (Bool-cases (same_side (regime_side (2 * w)) (regime_side r.camp.med))) [
      | inl e ↦ absurd (Memᴰ.not-nil (rw e at m))
      | inr e ↦ let is : v ≡ w = Memᴰ.eq_of_singleton (rw e at m) in (ap some (sym is), rw is e)
    ]

-- A boot of a campaign with warmups: its canary, which is off, or a first warmup that dips.
abbrev pub IsBootOf : Named → Boot → Type 0
IsBootOf r b =
    (join : Join) × (r.camp.warmup ≡ some join)
    × (((v : ℕ) × (b ≡ canary_boot r.label v) × HasOffCanary r v)
        ⊎ ((bi : ℕ) × (v : ℕ) × (b ≡ first_boot r.label bi v) × HasFirstDip join bi v))

cluster_of_join-IsBootOf :
    (r : Named) (join : Join) (boots : List Boot) (b : Boot)
    → r.camp.warmup ≡ some join
    → cluster_of_join r join ≡ ok boots
    → Memᴰ b boots
    → IsBootOf r b
unfolding cluster_of_join
cluster_of_join-IsBootOf r join boots b is_join h m =
    elim (Result-cases (first_dips join.safe 0 join.safe)) [
      | inr (e, failed) ↦ absurd (ground arith)
      | inl (ds, found) ↦
          let canaries = map (canary_boot r.label) (off_side r.camp.canary r.camp.med) in
          let first = λ (d : ℕ × ℕ). first_boot r.label d.0 d.1 in
          let same : boots ≡ canaries ++ map first ds = ground arith in
          (
            join,
            is_join,
            elim (Memᴰ.append_cases canaries (subst (Memᴰ b) same m)) [
              | inl here ↦
                  let (v, off, is) =
                    Memᴰ.of_map (canary_boot r.label) (off_side r.camp.canary r.camp.med) here in
                  inl (v, sym is, off_side-HasOffCanary r v off)
              | inr there ↦
                  let ((bi, v), dips, is) = Memᴰ.of_map first ds there in
                  let (i, at, row, dip) =
                    first_dips-IsDipOf join.safe 0 join.safe ds bi v found dips in
                  let same_i : i ≡ bi = omega (arith, at) in
                  inr (
                    bi,
                    v,
                    sym is,
                    (
                      subst (λ k. (row : List ℕ) × (get_elem? join.safe k ≡ some (v ∷ row))) same_i
                          row,
                      dip,
                    ),
                  )
            ],
          )
    ]

cluster_of_row-IsBootOf :
    (r : Named) (boots : List Boot) (b : Boot)
    → cluster_of_row r ≡ ok boots
    → Memᴰ b boots
    → IsBootOf r b
unfolding cluster_of_row
cluster_of_row-IsBootOf r boots b h m = elim (Option-cases r.camp.warmup) [
  | inl e ↦
      let empty : ok [] ≡ ok boots = sym (ap (cluster_with r) e) ∙ h in
      absurd (Memᴰ.not-nil (subst (Memᴰ b) (sym (ok-injective [] boots empty)) m))
  | inr (join, e) ↦ cluster_of_join-IsBootOf r join boots b e (sym (ap (cluster_with r) e) ∙ h) m
]

-- Each boot of the cluster is one of a row.
pub cluster_of-IsBootOf :
    (rows : List Named) (boots : List Boot) (b : Boot)
    → cluster_of rows ≡ ok boots
    → Memᴰ b boots
    → (r : Named) × Memᴰ r rows × IsBootOf r b
unfolding cluster_of
cluster_of-IsBootOf [] boots b h m =
    absurd (Memᴰ.not-nil (subst (Memᴰ b) (sym (ok-injective [] boots h)) m))
cluster_of-IsBootOf (r ∷ rows) boots b h m =
    let (here, found, rest) =
      bind-ok (cluster_of_row r) (λ here. cluster_of rows >>= λ more. ok (here ++ more)) h in
    let (more, found', whole) = bind-ok (cluster_of rows) (λ more. ok (here ++ more)) rest in
    elim (Memᴰ.append_cases here
      (subst (Memᴰ b) (sym (ok-injective (here ++ more) boots whole)) m)) [
        | inl first ↦ (r, Memᴰ.head refl, cluster_of_row-IsBootOf r here b found first)
        | inr later ↦
            let (q, there, is) = cluster_of-IsBootOf rows more b found' later in
            (q, Memᴰ.tail there, is)
      ]
