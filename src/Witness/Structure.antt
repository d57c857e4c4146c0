-- ===== src/Witness/Structure.antt =====
-- What the structural finding says of the warmups and the canaries.
use whimbrel.Prelude.{ℕ, ◌*◌, ◌≤◌}
use whimbrel.Prelude.{◌≡◌, refl, sym, ap, ◌∙◌, subst, inl, inr}
use whimbrel.Prelude.{Bool, false, some, arith}
use whimbrel.Prelude.{List, [], ◌∷◌, ◌++◌, map}
use whimbrel.Prelude.{get_elem?, keep, All}
use whimbrel.Prelude.{ok, Result-cases}
use whimbrel.Prelude.{All-of_map}
use whimbrel.Prelude.Extrema.{lowest, highest, lowest-le, highest-ge, lowest-All, highest-All}
use whimbrel.Prelude.Members.{All-mem}
use mathlib.Core.List.{Memᴰ}
use whimbrel.Prelude.Sort.{All-map}
use whimbrel.Witness.Rows.{divide_ns}
use whimbrel.Witness.Join.{Join}
use whimbrel.Witness.Positions.{Named}
use whimbrel.Witness.Finding.{
  Boot, time_of, cluster_of, second_of, second_with, second_first, outside, all_outside, Structure,
  finding, structural_finding,
}
use whimbrel.Witness.Covers.{Covers, cluster_of-Covers}
use whimbrel.Witness.Sources.{IsBootOf, cluster_of-IsBootOf}

-- Within the bounds of the cluster.
abbrev pub IsInside : Structure → ℕ → Type 0
IsInside f v = (f.clo ≤ v) × (v ≤ f.chi)

-- The time of a boot of the cluster.
abbrev pub Reaches : Structure → ℕ → Type 0
Reaches f n = (b : Boot) × Memᴰ b f.cluster × (time_of b ≡ n)

-- The first warmup of the second batch of an inflated campaign.
abbrev pub HasSecond : Named → Join → ℕ → Type 0
HasSecond r join v =
    ((row : List ℕ) × (get_elem? join.safe 1 ≡ some (v ∷ row))) × (2 * divide_ns ≤ r.camp.med)

pub record IsStructure (rows : List Named) (f : Structure) : Type 0 where
  pub bounds : All (λ b. IsInside f (time_of b)) f.cluster
  pub low : Reaches f f.clo
  pub high : Reaches f f.chi
  pub covers : All (Covers (λ b. Memᴰ b f.cluster)) rows
  pub sources : (b : Boot) → Memᴰ b f.cluster → (r : Named) × Memᴰ r rows × IsBootOf r b
  pub seconds :
      f.b2_outside ≡ []
      → All
          (λ r.
            (join : Join) (v : ℕ) → r.camp.warmup ≡ some join → HasSecond r join v → IsInside f v)
          rows

All-map_of :
    {A B : Type 0} (f : A → B) (P : B → Type 0) (xs : List A)
    → All (λ x. P (f x)) xs
    → All P (map f xs)
All-map_of f P [] h = tt
All-map_of f P (x ∷ xs) (p, h) = (p, All-map_of f P xs h)

keep_none : {A : Type 0} (p : A → Bool) (xs : List A) → keep p xs ≡ [] → All (λ x. p x ≡ false) xs
keep_none p [] h = tt
keep_none p (x ∷ xs) h = (ground arith, keep_none p xs (ground arith))

append_nil : {A : Type 0} (xs ys : List A) → xs ++ ys ≡ [] → (xs ≡ []) × (ys ≡ [])
append_nil [] ys h = (refl, h)
append_nil (x ∷ xs) ys h = cc

second_first-of :
    (r : Named) (join : Join) (v : ℕ)
    → r.camp.warmup ≡ some join
    → HasSecond r join v
    → second_first r ≡ (r.label, v) ∷ []
unfolding second_first
second_first-of r join v is_join ((row, at), hot) =
    ap (second_with r) is_join ∙ ap (second_of r) at ∙ ground arith

all_outside-none :
    (clo chi : ℕ) (rows : List Named)
    → all_outside clo chi rows ≡ []
    → All
        (λ r.
          (join : Join) (v : ℕ)
          → r.camp.warmup ≡ some join
          → HasSecond r join v
          → (clo ≤ v) × (v ≤ chi))
        rows
unfolding all_outside
all_outside-none clo chi [] h = tt
all_outside-none clo chi (r ∷ rows) h =
    let (here, later) =
      append_nil (keep (outside clo chi) (second_first r)) (all_outside clo chi rows) h in
    (
      λ join v is_join second.
          let inside : keep (outside clo chi) ((r.label, v) ∷ []) ≡ [] =
            rw (second_first-of r join v is_join second) at here in
          (ground arith, ground arith),
      all_outside-none clo chi rows later,
    )

All-both : (P Q : Boot → Type 0) (bs : List Boot) → All P bs → All Q bs → All (λ b. P b × Q b) bs
All-both P Q [] h k = tt
All-both P Q (b ∷ bs) (p, h) (q, k) = ((p, q), All-both P Q bs h k)

-- The cluster, if it is not empty, and the bounds of its times.
finding-parts :
    (rows : List Named) (boots : List Boot) (f : Structure)
    → finding rows boots ≡ ok f
    → (f.cluster ≡ boots)
      × (f.b2_outside ≡ all_outside f.clo f.chi rows)
      × All (λ b. IsInside f (time_of b)) boots
      × Reaches f f.clo
      × Reaches f f.chi
unfolding finding
finding-parts rows [] f h = cc
finding-parts rows (b ∷ boots) f h =
    let clo = lowest (time_of b) (map time_of boots) in
    let chi = highest (time_of b) (map time_of boots) in
    let low = lowest-le (time_of b) (map time_of boots) in
    let high = highest-ge (time_of b) (map time_of boots) in
    let pair : All (λ b'. (clo ≤ time_of b') × (time_of b' ≤ chi)) (b ∷ boots) =
      All-both (λ b'. clo ≤ time_of b') (λ b'. time_of b' ≤ chi) (b ∷ boots)
        (low.0, All-of_map time_of (λ n. clo ≤ n) boots low.1)
        (high.0, All-of_map time_of (λ n. n ≤ chi) boots high.1) in
    let same : b ∷ boots ≡ f.cluster = ground arith in
    let Reached : ℕ → Type 0 = λ n. Reaches f n in
    let self : All (λ b'. Reached (time_of b')) (b ∷ boots) =
      All-map (λ b' m. (b', subst (Memᴰ b') same m, refl)) (b ∷ boots) (All-mem (b ∷ boots)) in
    let is_clo : f.clo ≡ clo = ground arith in
    let is_chi : f.chi ≡ chi = ground arith in
    (
      ground arith,
      ground arith,
      All-map (λ b' (p, q). (omega (arith, is_clo, p), omega (arith, is_chi, q))) (b ∷ boots) pair,
      subst Reached (sym is_clo) (
          lowest-All Reached (time_of b) (map time_of boots) self.0
            (All-map_of time_of Reached boots self.1)),
      subst Reached (sym is_chi) (
          highest-All Reached (time_of b) (map time_of boots) self.0
            (All-map_of time_of Reached boots self.1)),
    )

-- The cluster of a finding has the boot of each canary, of a campaign with warmups, that is on the other
-- side than the recorded median, and that of each first warmup of a batch that dips, and no other. Its
-- bounds are times of the cluster and hold for all of them; and if it calls no second batch's first
-- warmup outside, those of all inflated campaigns are within the bounds.
pub structural_finding-IsStructure :
    (rows : List Named) (f : Structure) → structural_finding rows ≡ ok f → IsStructure rows f
unfolding structural_finding
structural_finding-IsStructure rows f h = elim (Result-cases (cluster_of rows)) [
  | inr (e, failed) ↦ absurd (ground arith)
  | inl (boots, found) ↦
      let (same, outside_is, inside, low, high) = finding-parts rows boots f (ground arith) in
      record {
        bounds = rw same inside;
        low = low;
        high = high;
        covers =
            cluster_of-Covers rows boots (λ b. Memᴰ b f.cluster) found (rw same (All-mem boots));
        sources = λ b m. cluster_of-IsBootOf rows boots b found (subst (Memᴰ b) same m);
        seconds = λ e. all_outside-none f.clo f.chi rows (sym outside_is ∙ e);
      }
]
