-- ===== src/Witness/Positions.antt =====
-- The warmups by their position, and what `structural_finding` of scripts/regime-witness.py makes of them.
use whimbrel.Prelude.{ℕ, zero, suc, ◌*◌}
use whimbrel.Prelude.{Bool, not, Option, none, some}
use whimbrel.Prelude.{List, [], ◌∷◌, ◌++◌, map}
use whimbrel.Prelude.{ltb, if◌then◌else◌}
use whimbrel.Prelude.{get_elem?, keep}
use whimbrel.Prelude.{Result, ok, err, ◌>>=◌}
use whimbrel.Prelude.Text.{Text}
use whimbrel.Prelude.Int.{ℤ}
use whimbrel.Witness.Rows.{WitnessFail, index_error, divide_ns, same_side, regime_side, is_dip}
use whimbrel.Witness.Join.{Gap, Join}
use whimbrel.Witness.Campaign.{Camp}

pub record Named : Type 0 where
  pub label : Text
  pub camp : Camp

abbrev concat : List (List ℕ) → List ℕ
concat [] = []
concat (row ∷ rows) = row ++ concat rows

abbrev pub without : ℕ → List ℕ → List ℕ
without i [] = []
without zero (x ∷ xs) = xs
without (suc i) (x ∷ xs) = x ∷ without i xs

-- All times but the one at a batch and a position.
unfoldable pub others : ℕ → ℕ → List (List ℕ) → List ℕ
others bi tk [] = []
others zero tk (row ∷ rows) = without tk row ++ concat rows
others (suc bi) tk (row ∷ rows) = row ++ others bi tk rows

-- The first warmups that dip, of the batches from `bi` on.
unfoldable pub first_dips : List (List ℕ) → ℕ → List (List ℕ) → Result WitnessFail (List (ℕ × ℕ))
first_dips all_rows bi [] = ok []
first_dips all_rows bi ([] ∷ rows) = err index_error
first_dips all_rows bi ((v ∷ row) ∷ rows) = do
  more ← first_dips all_rows (suc bi) rows
  ok (if is_dip v (others bi 0 all_rows) then (bi, v) ∷ more else more)

-- A canary on the other side than `twice`.
abbrev pub off_side : Option ℕ → ℕ → List ℕ
off_side none twice = []
off_side (some v) twice = if same_side (regime_side (2 * v)) (regime_side twice) then [] else v ∷ []

-- `safe[i][0]`
unfoldable pub first_of : ℕ → List (List ℕ) → Result WitnessFail ℕ
first_of i rows = elim (get_elem? rows i) [
  | none ↦ err index_error
  | some [] ↦ err index_error
  | some (v ∷ row) ↦ ok v
]

-- A canary on the other side than the first warmup of the first batch, and that of the second.
pub record Instant : Type 0 where
  pub label : Text
  pub canary : ℕ
  pub first : ℕ
  pub second : ℕ

abbrev instant_of : Named → ℕ → List (List ℕ) → List ℕ → Result WitnessFail (List Instant)
instant_of r b1 safe [] = ok []
instant_of r b1 safe (v ∷ vs) = do
  b2 ← first_of 1 safe
  ok (record { label = r.label; canary = v; first = b1; second = b2 } ∷ [])

unfoldable pub instants_of_join : Named → Option ℕ → Join → Result WitnessFail (List Instant)
instants_of_join r none join = ok []
instants_of_join r (some v) join = do
  b1 ← first_of 0 join.safe
  instant_of r b1 join.safe (off_side (some v) (2 * b1))

unfoldable pub not_instant : List Named → Result WitnessFail (List Instant)
not_instant [] = ok []
not_instant (r ∷ rows) = do
  here ← elim r.camp.warmup [ none ↦ ok [] | some join ↦ instants_of_join r r.camp.canary join ]
  more ← not_instant rows
  ok (here ++ more)

abbrev m_rows : Named → List (List ℕ)
m_rows r = elim r.camp.warmup [
  | none ↦ []
  | some join ↦ elim join.m [ none ↦ [] | some rows ↦ rows ]
]

unfoldable pub m_dips : List Named → Result WitnessFail (List (Text × (ℕ × ℕ)))
m_dips [] = ok []
m_dips (r ∷ rows) = do
  here ← first_dips (m_rows r) 0 (m_rows r)
  more ← m_dips rows
  ok (map (λ d. (r.label, d)) here ++ more)

-- All times but that of a trial; trial zero has no position.
abbrev others_of_trial : ℕ → ℕ → List (List ℕ) → List ℕ
others_of_trial bi zero rows = concat rows
others_of_trial bi (suc tk) rows = others bi tk rows

abbrev dipped : List (List ℕ) → Gap → Bool
dipped safe g = is_dip g.pv_ns (others_of_trial g.batch g.trial safe)

-- The idle times before the dipped boots of inflated campaigns, or before the others.
unfoldable pub gaps_where : Bool → List Named → List ℤ
gaps_where dip [] = []
gaps_where dip (r ∷ rows) =
    elim r.camp.warmup [
      | none ↦ []
      | some join ↦
          if ltb r.camp.med (2 * divide_ns)
          then []
          else map Gap.gap_ns
              (keep (λ g. if dip then dipped join.safe g else not (dipped join.safe g)) join.gaps)
    ]
    ++ gaps_where dip rows

-- `fmt_wu`: the times of a batch, and which of them are bold.
unfoldable pub fmt_wu : List ℕ → List (List ℕ) → ℕ → ℕ → List (ℕ × Bool)
fmt_wu [] campaign_wu batch_idx ti = []
fmt_wu (v ∷ vals) campaign_wu batch_idx ti =
    (v, is_dip v (others batch_idx ti campaign_wu)) ∷ fmt_wu vals campaign_wu batch_idx (suc ti)
