-- ===== src/Witness/Covers.antt =====
-- The cluster of `structural_finding` has each canary that is off and each first warmup that dips.
use whimbrel.Prelude.{ℕ, zero, suc, ◌+◌, ◌*◌}
use whimbrel.Prelude.{◌≡◌, sym, ap, ◌∙◌, subst, inl, inr}
use whimbrel.Prelude.{true, false, Option, none, some, arith}
use whimbrel.Prelude.{List, [], ◌∷◌, ◌++◌, map}
use whimbrel.Prelude.{Bool-cases}
use whimbrel.Prelude.{get_elem?, All}
use whimbrel.Prelude.{ok, ◌>>=◌, Result-cases, ok-injective, bind-ok}
use whimbrel.Prelude.{All-left, All-right, All-of_map}
use whimbrel.Witness.Rows.{same_side, regime_side, is_dip}
use whimbrel.Witness.Join.{Join}
use whimbrel.Witness.Positions.{Named, others, first_dips, off_side}
use whimbrel.Witness.Finding.{
  Boot, canary_boot, first_boot, cluster_of_join, cluster_with, cluster_of_row, cluster_of,
}

-- A canary of a campaign with warmups, on the other side than the recorded median.
abbrev pub HasOffCanary : Named → ℕ → Type 0
HasOffCanary r v =
    (r.camp.canary ≡ some v) × (same_side (regime_side (2 * v)) (regime_side r.camp.med) ≡ false)

-- The first warmup of a batch that dips below the others of its campaign.
abbrev pub HasFirstDip : Join → ℕ → ℕ → Type 0
HasFirstDip join bi v =
    ((row : List ℕ) × (get_elem? join.safe bi ≡ some (v ∷ row)))
    × (is_dip v (others bi 0 join.safe) ≡ true)

-- A campaign whose boots with an off canary and with a dipping first warmup have the property.
abbrev pub Covers : (Boot → Type 0) → Named → Type 0
Covers P r =
    (join : Join)
    → r.camp.warmup ≡ some join
    → ((v : ℕ) → HasOffCanary r v → P (canary_boot r.label v))
      × ((bi v : ℕ) → HasFirstDip join bi v → P (first_boot r.label bi v))

first_dips-parts :
    (all_rows rows : List (List ℕ)) (start w : ℕ) (r : List ℕ) (ds : List (ℕ × ℕ))
    (P : ℕ → ℕ → Type 0)
    → first_dips all_rows start ((w ∷ r) ∷ rows) ≡ ok ds
    → All (λ (bi, v). P bi v) ds
    → (is_dip w (others start 0 all_rows) ≡ true → P start w)
      × ((more : List (ℕ × ℕ)) × (first_dips all_rows (suc start) rows ≡ ok more)
          × All (λ (bi, v). P bi v) more)
unfolding first_dips
first_dips-parts all_rows rows start w r ds P h p =
    elim (Result-cases (first_dips all_rows (suc start) rows)) [
      | inr (e, failed) ↦ absurd (ground arith)
      | inl (more, found) ↦ elim (Bool-cases (is_dip w (others start 0 all_rows))) [
        | inl e ↦
            let same : ds ≡ (start, w) ∷ more = ground arith in
            let both : All (λ (bi, v). P bi v) ((start, w) ∷ more) = rw same at p in
            (λ dip. both.0, (more, found, both.1))
        | inr e ↦
            let same : ds ≡ more = ground arith in
            (λ dip. absurd (ground arith), (more, found, rw same at p))
      ]
    ]

first_dips-finds :
    (all_rows : List (List ℕ)) (start : ℕ) (rows : List (List ℕ)) (ds : List (ℕ × ℕ))
    (P : ℕ → ℕ → Type 0)
    → first_dips all_rows start rows ≡ ok ds
    → All (λ (bi, v). P bi v) ds
    → (i v : ℕ) (row : List ℕ) → get_elem? rows i ≡ some (v ∷ row)
    → is_dip v (others (start + i) 0 all_rows) ≡ true
    → P (start + i) v
first_dips-finds all_rows start [] ds P h p i v row at dip = cc
first_dips-finds all_rows start ([] ∷ rows) ds P h p i v row at dip = unfold first_dips in cc
first_dips-finds all_rows start ((w ∷ r) ∷ rows) ds P h p zero v row at dip =
    let same : w ≡ v = cc in
    let here : start + 0 ≡ start = omega arith in
    rw here (
      subst (P start) same
        ((first_dips-parts all_rows rows start w r ds P h p).0 (rw (here, sym same) at dip)))
first_dips-finds all_rows start ((w ∷ r) ∷ rows) ds P h p (suc i) v row at dip =
    let (more, found, q) = (first_dips-parts all_rows rows start w r ds P h p).1 in
    let there : start + suc i ≡ suc start + i = omega arith in
    rw there
      (first_dips-finds all_rows (suc start) rows more P found q i v row at (rw there at dip))

off_side-finds :
    (canary : Option ℕ) (twice v : ℕ) (P : ℕ → Type 0)
    → All P (off_side canary twice)
    → canary ≡ some v
    → same_side (regime_side (2 * v)) (regime_side twice) ≡ false
    → P v
off_side-finds none twice v P h e off = cc
off_side-finds (some w) twice v P h e off =
    let same : w ≡ v = cc in
    let off' : same_side (regime_side (2 * w)) (regime_side twice) ≡ false = rw (sym same) at off in
    let q : All P (w ∷ []) = rw off' at h in subst P same q.0

cluster_of_join-Covers :
    (r : Named) (join : Join) (boots : List Boot) (P : Boot → Type 0)
    → cluster_of_join r join ≡ ok boots
    → All P boots
    → ((v : ℕ) → HasOffCanary r v → P (canary_boot r.label v))
      × ((bi v : ℕ) → HasFirstDip join bi v → P (first_boot r.label bi v))
unfolding cluster_of_join
cluster_of_join-Covers r join boots P h p = elim (Result-cases (first_dips join.safe 0 join.safe)) [
  | inr (e, failed) ↦ absurd (ground arith)
  | inl (ds, found) ↦
      let canaries = map (canary_boot r.label) (off_side r.camp.canary r.camp.med) in
      let firsts = map (λ (d : ℕ × ℕ). first_boot r.label d.0 d.1) ds in
      let same : canaries ++ firsts ≡ boots = ground arith in
      let q : All P (canaries ++ firsts) = rw same p in
      (
        λ v (is_canary, off).
            off_side-finds r.camp.canary r.camp.med v (λ n. P (canary_boot r.label n))
              (All-of_map (canary_boot r.label) P (off_side r.camp.canary r.camp.med)
                (All-left P canaries firsts q))
              is_canary off,
        λ bi v ((row, at), dip).
            let from_zero : 0 + bi ≡ bi = omega arith in
            subst (λ k. P (first_boot r.label k v)) from_zero
              (first_dips-finds join.safe 0 join.safe ds (λ k n. P (first_boot r.label k n)) found
                (All-of_map (λ (d : ℕ × ℕ). first_boot r.label d.0 d.1) P ds
                  (All-right P canaries firsts q))
                bi v row at
                (subst (λ k. is_dip v (others k 0 join.safe) ≡ true) (sym from_zero) dip)),
      )
]

cluster_of_row-Covers :
    (r : Named) (boots : List Boot) (P : Boot → Type 0)
    → cluster_of_row r ≡ ok boots
    → All P boots
    → Covers P r
unfolding cluster_of_row
cluster_of_row-Covers r boots P h p join is_join =
    cluster_of_join-Covers r join boots P (sym (ap (cluster_with r) is_join) ∙ h) p

pub cluster_of-Covers :
    (rows : List Named) (boots : List Boot) (P : Boot → Type 0)
    → cluster_of rows ≡ ok boots
    → All P boots
    → All (Covers P) rows
unfolding cluster_of
cluster_of-Covers [] boots P h p = tt
cluster_of-Covers (r ∷ rows) boots P h p =
    let (here, found, rest) =
      bind-ok (cluster_of_row r) (λ here. cluster_of rows >>= λ more. ok (here ++ more)) h in
    let (more, found', whole) = bind-ok (cluster_of rows) (λ more. ok (here ++ more)) rest in
    let q : All P (here ++ more) = rw (ok-injective (here ++ more) boots whole) p in
    (
      cluster_of_row-Covers r here P found (All-left P here more q),
      cluster_of-Covers rows more P found' (All-right P here more q),
    )
