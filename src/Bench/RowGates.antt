-- ===== src/Bench/RowGates.antt =====
-- The schema of runs.csv and its replay of the steal gate.
use whimbrel.Prelude.{◌≡◌, refl, ap, ◌↔◌}
use whimbrel.Prelude.{true, false, arith}
use whimbrel.Prelude.{List, [], ◌∷◌}
use whimbrel.Prelude.{is_some}
use whimbrel.Prelude.{keep, All}
use whimbrel.Prelude.{ok}
use whimbrel.Prelude.{keep-nil_iff}
use whimbrel.Prelude.Text.{Text, codes}
use whimbrel.Bench.Connect.{
  RunRow, has_column, has_steal, first_stolen, old, new, runs_schema, require_zero_steal,
}

-- A file is of the old schema exactly if it has `e0_to_e3w_ns` and none of the new columns, of the
-- new one exactly if it has all three of them and not the old one, and refused otherwise.
pub runs_schema_iff :
    (fields : List Text)
    → ((runs_schema fields ≡ ok old) ↔ (
        (has_column fields (codes "e0_to_e3w_ns") ≡ true)
        × (has_column fields (codes "w_ns") ≡ false)
        × (has_column fields (codes "d_ack_ns") ≡ false)
        × (has_column fields (codes "d_fin_ns") ≡ false)))
      × ((runs_schema fields ≡ ok new) ↔ (
          (has_column fields (codes "e0_to_e3w_ns") ≡ false)
          × (has_column fields (codes "w_ns") ≡ true)
          × (has_column fields (codes "d_ack_ns") ≡ true)
          × (has_column fields (codes "d_fin_ns") ≡ true)))
unfolding runs_schema
runs_schema_iff fields = (
  (λ h. ground arith, λ (a, b, c, d). ground arith),
  (λ h. ground arith, λ (a, b, c, d). ground arith),
)

first_stolen-nil : (bad : List RunRow) → first_stolen bad ≡ ok tt → bad ≡ []
first_stolen-nil [] h = refl
first_stolen-nil (r ∷ bad) h = cc

-- Rows of a file with the steal column pass exactly if none of them, warmup or not, has steal.
pub require_zero_steal_iff :
    (r : RunRow) (rows : List RunRow)
    → is_some r.steal_ticks ≡ true
    → (require_zero_steal (r ∷ rows) ≡ ok tt) ↔ All (λ q. has_steal q ≡ false) (r ∷ rows)
unfolding require_zero_steal
require_zero_steal_iff r rows h = (
  λ p.
      (keep-nil_iff has_steal (r ∷ rows)).0
        (first_stolen-nil (keep has_steal (r ∷ rows)) (rw h at p)),
  λ p. rw h (ap first_stolen ((keep-nil_iff has_steal (r ∷ rows)).1 p)),
)
