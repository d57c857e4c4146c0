-- ===== src/Witness/Finding.antt =====
-- `structural_finding` of scripts/regime-witness.py, up to the text that it makes of its finding.
use whimbrel.Prelude.{ℕ, ◌*◌}
use whimbrel.Prelude.{Bool, true, false, ◌&&◌, not, Option, none, some}
use whimbrel.Prelude.{List, [], ◌∷◌, ◌++◌, map}
use whimbrel.Prelude.{ltb, leb, if◌then◌else◌, is_some}
use whimbrel.Prelude.{length, get_elem?, any, keep}
use whimbrel.Prelude.{Result, ok, err, ◌>>=◌, ◌>>◌, guard}
use whimbrel.Prelude.Text.{Text}
use whimbrel.Prelude.Int.{ℤ}
use whimbrel.Prelude.Extrema.{lowest, highest}
use whimbrel.Witness.Rows.{WitnessFail, no_warmups, no_cluster, divide_ns}
use whimbrel.Witness.Join.{Join}
use whimbrel.Witness.Positions.{
  Named, first_dips, off_side, Instant, not_instant, m_dips, gaps_where,
}

-- A boot of the cluster: a canary, or the first warmup of a batch.
pub data Boot : Type 0 where
  canary_boot : Text → ℕ → Boot
  first_boot : Text → ℕ → ℕ → Boot

abbrev pub time_of : Boot → ℕ
time_of (canary_boot label v) = v
time_of (first_boot label bi v) = v

unfoldable pub cluster_of_join : Named → Join → Result WitnessFail (List Boot)
cluster_of_join r join = do
  dips ← first_dips join.safe 0 join.safe
  ok (
      map (canary_boot r.label) (off_side r.camp.canary r.camp.med)
      ++ map (λ (bi, v). first_boot r.label bi v) dips)

abbrev pub cluster_with : Named → Option Join → Result WitnessFail (List Boot)
cluster_with r none = ok []
cluster_with r (some join) = cluster_of_join r join

unfoldable pub cluster_of_row : Named → Result WitnessFail (List Boot)
cluster_of_row r = cluster_with r r.camp.warmup

-- The boots of the campaigns that have warmups.
unfoldable pub cluster_of : List Named → Result WitnessFail (List Boot)
cluster_of [] = ok []
cluster_of (r ∷ rows) = do here ← cluster_of_row r; more ← cluster_of rows; ok (here ++ more)

-- The second batch's first warmup of an inflated campaign that has warmups.
abbrev pub second_of : Named → Option (List ℕ) → List (Text × ℕ)
second_of r none = []
second_of r (some []) = []
second_of r (some (v ∷ row)) = if leb (2 * divide_ns) r.camp.med then (r.label, v) ∷ [] else []

abbrev pub second_with : Named → Option Join → List (Text × ℕ)
second_with r none = []
second_with r (some join) = second_of r (get_elem? join.safe 1)

unfoldable pub second_first : Named → List (Text × ℕ)
second_first r = second_with r r.camp.warmup

abbrev pub outside : ℕ → ℕ → Text × ℕ → Bool
outside clo chi (label, v) = not (leb clo v && leb v chi)

unfoldable pub all_outside : ℕ → ℕ → List Named → List (Text × ℕ)
all_outside clo chi [] = []
all_outside clo chi (r ∷ rows) = keep (outside clo chi) (second_first r) ++ all_outside clo chi rows

-- The canaries that disagree with their recorded witness.
unfoldable pub disagrees : List Named → List Named
disagrees rows = keep (λ (r : Named). ltb 0 (length (off_side r.camp.canary r.camp.med))) rows

-- What the paragraphs state.
pub record Structure : Type 0 where
  pub cluster : List Boot
  pub clo : ℕ
  pub chi : ℕ
  pub b2_outside : List (Text × ℕ)
  pub disagreeing : List Named
  pub instants : List Instant
  pub m_lane : List (Text × (ℕ × ℕ))
  pub dip_gaps : List ℤ
  pub other_gaps : List ℤ

abbrev pub has_join : Named → Bool
has_join r = is_some r.camp.warmup

unfoldable pub finding : List Named → List Boot → Result WitnessFail Structure
finding rows [] = err no_cluster
finding rows (b ∷ boots) = do
  let clo = lowest (time_of b) (map time_of boots)
  let chi = highest (time_of b) (map time_of boots)
  instants ← not_instant rows
  m_lane ← m_dips rows
  ok (record {
    cluster = b ∷ boots;
    clo = clo;
    chi = chi;
    b2_outside = all_outside clo chi rows;
    disagreeing = disagrees rows;
    instants = instants;
    m_lane = m_lane;
    dip_gaps = gaps_where true rows;
    other_gaps = gaps_where false rows;
  })

unfoldable pub structural_finding : List Named → Result WitnessFail Structure
structural_finding rows = do
  guard (any has_join rows) no_warmups
  boots ← cluster_of rows
  finding rows boots
