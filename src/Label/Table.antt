-- ===== src/Label/Table.antt =====
-- `fmt_table` and the report of `main` in scripts/label-linux-initcalls.py. `fixed` is how Python prints
-- `r["ns"] / 1e9` with six digits.
use whimbrel.Prelude.{ℕ, suc}
use whimbrel.Prelude.{List, [], ◌∷◌, ◌++◌}
use whimbrel.Prelude.Text.{Text, codes, decimal_text}
use whimbrel.Prelude.TextLaws.{join_lines}
use whimbrel.Prelude.Int.{ℤ, pos, negsuc}
use whimbrel.Label.Run.{Labeled}

-- `f"{n}"`
unfoldable pub int_text : ℤ → Text
int_text (pos n) = decimal_text n
int_text (negsuc n) = codes "-" ++ decimal_text (suc n)

abbrev pub rule_lines : List Text
rule_lines =
    codes "| rank | usecs | symbol | ret | printk_s |" ∷ codes "|---|---:|---|---:|---:|" ∷ []

abbrev pub hole_heading : Text
hole_heading = codes "## Hole window (labels for gap 1), sorted by usecs"

abbrev pub all_heading : Text
all_heading = codes "## All initcalls, sorted by usecs (UART-inflated; not a report number)"

module _ (fixed : ℕ → Text) where
  unfoldable pub table_row : ℕ → Labeled → Text
  table_row i r =
      codes "| "
      ++ (decimal_text i
          ++ (codes " | "
              ++ (decimal_text r.row.usecs
                  ++ (codes " | `"
                      ++ (r.symbol
                          ++ (codes "` | "
                              ++ (int_text r.row.ret
                                  ++ (codes " | " ++ (fixed r.row.ns ++ codes " |")))))))))

  -- The loop over `enumerate(rows, i)`.
  unfoldable pub numbered_rows : ℕ → List Labeled → List Text
  numbered_rows i [] = []
  numbered_rows i (r ∷ rows) = table_row i r ∷ numbered_rows (suc i) rows

  unfoldable pub fmt_table : List Labeled → List Text
  fmt_table rows = rule_lines ++ numbered_rows 1 rows

  -- The lines that are written; the empty one at the end gives the last its newline.
  unfoldable pub report_lines : List Labeled → List Labeled → List Text
  report_lines hole all_rows =
      (hole_heading ∷ [] ∷ [])
      ++ (fmt_table hole ++ (([] ∷ all_heading ∷ [] ∷ []) ++ fmt_table all_rows))

  unfoldable pub report_text : List Labeled → List Labeled → Text
  report_text hole all_rows = join_lines (report_lines hole all_rows)
