-- ===== src/Exhibits/LabelLines.antt =====
-- Each line of the report of scripts/label-linux-initcalls.py is one line.
use whimbrel.Prelude.{ℕ, suc}
use whimbrel.Prelude.{◌≡◌, refl, sym, ap, ◌∙◌}
use whimbrel.Prelude.{true, false, not, arith}
use whimbrel.Prelude.{List, [], ◌∷◌, ◌++◌}
use whimbrel.Prelude.{All, all, All-append}
use whimbrel.Prelude.Text.{Text, codes, is_digit, is_line_end, decimal_text}
use whimbrel.Prelude.TextLaws.{IsLine, join_lines}
use whimbrel.Prelude.Decimal.{decimal_text-IsLine}
use whimbrel.Prelude.Int.{ℤ, pos, negsuc}
use mathlib.Core.List.{append_assoc}
use whimbrel.Label.Run.{Labeled}
use whimbrel.Label.Table.{
  table_row, numbered_rows, fmt_table, report_lines, rule_lines, hole_heading, all_heading,
  int_text,
}
use whimbrel.Exhibits.Initcalls.{is_decimal}
use whimbrel.Exhibits.Reading.{IsReadable, IsFixed}

pub join_lines-append : (xs ys : List Text) → join_lines (xs ++ ys) ≡ join_lines xs ++ join_lines ys
join_lines-append [] ys = refl
join_lines-append (x ∷ xs) ys =
    ap (λ (t : Text). x ++ 10 ∷ t) (join_lines-append xs ys)
    ∙ sym (append_assoc x (10 ∷ join_lines xs) (join_lines ys))

module _ (fixed : ℕ → Text) (is_fixed : IsFixed fixed) where
  is_decimal-no_line_end : (c : ℕ) → is_decimal c ≡ true → is_line_end c ≡ false
  unfolding is_digit is_line_end
  is_decimal-no_line_end c h = ground arith

  fixed-IsLine : (n : ℕ) → IsLine (fixed n)
  fixed-IsLine n = go (fixed n) (is_fixed n).1
    where
      go : (t : Text) → All (λ c. is_decimal c ≡ true) t → IsLine t
      go [] h = tt
      go (c ∷ t) (p, h) = (is_decimal-no_line_end c p, go t h)

  int_text-IsLine : (z : ℤ) → IsLine (int_text z)
  unfolding int_text is_line_end
  int_text-IsLine (pos n) = decimal_text-IsLine n
  int_text-IsLine (negsuc n) = (refl, decimal_text-IsLine (suc n))

  IsLine-append : (s t : Text) → IsLine s → IsLine t → IsLine (s ++ t)
  IsLine-append s t h k = All-append (λ c. is_line_end c ≡ false) s t h k

  row-IsLine : (i : ℕ) (r : Labeled) → IsReadable r → IsLine (table_row fixed i r)
  unfolding table_row is_line_end
  row-IsLine i r (filled, plain, line) =
      let time = fixed r.row.ns ++ codes " |" in
      let ret = int_text r.row.ret ++ (codes " | " ++ time) in
      let symbol = r.symbol ++ (codes "` | " ++ ret) in
      let usecs = decimal_text r.row.usecs ++ (codes " | `" ++ symbol) in
      let rank = decimal_text i ++ (codes " | " ++ usecs) in
      let time_line : IsLine time =
        IsLine-append (fixed r.row.ns) (codes " |") (fixed-IsLine r.row.ns) (refl, (refl, tt)) in
      let ret_line : IsLine ret =
        IsLine-append (int_text r.row.ret) (codes " | " ++ time) (int_text-IsLine r.row.ret)
          (refl, (refl, (refl, time_line))) in
      let symbol_line : IsLine symbol =
        IsLine-append r.symbol (codes "` | " ++ ret) line
          (refl, (refl, (refl, (refl, ret_line)))) in
      let usecs_line : IsLine usecs =
        IsLine-append (decimal_text r.row.usecs) (codes " | `" ++ symbol)
          (decimal_text-IsLine r.row.usecs) (refl, (refl, (refl, (refl, symbol_line)))) in
      let rank_line : IsLine rank =
        IsLine-append (decimal_text i) (codes " | " ++ usecs) (decimal_text-IsLine i)
          (refl, (refl, (refl, usecs_line))) in
      (refl, (refl, rank_line))

  rows-IsLine :
      (i : ℕ) (rows : List Labeled) → All IsReadable rows → All IsLine (numbered_rows fixed i rows)
  unfolding numbered_rows
  rows-IsLine i [] h = tt
  rows-IsLine i (r ∷ rows) (p, h) = (row-IsLine i r p, rows-IsLine (suc i) rows h)

  line_of : (t : Text) → all (λ c. not (is_line_end c)) t ≡ true → IsLine t
  line_of [] h = tt
  line_of (c ∷ t) h = (ground arith, line_of t (ground arith))

  rules-IsLine : All IsLine rule_lines
  unfolding is_line_end
  rules-IsLine = (
    line_of (codes "| rank | usecs | symbol | ret | printk_s |") refl,
    (line_of (codes "|---|---:|---|---:|---:|") refl, tt),
  )

  headings-IsLine : IsLine hole_heading × IsLine all_heading
  unfolding is_line_end
  headings-IsLine = (line_of hole_heading refl, line_of all_heading refl)

  pub report-IsLine :
      (hole all_rows : List Labeled)
      → All IsReadable hole
      → All IsReadable all_rows
      → All IsLine (report_lines fixed hole all_rows)
  unfolding report_lines fmt_table
  report-IsLine hole all_rows h k =
      let first = numbered_rows fixed 1 hole in
      let second = numbered_rows fixed 1 all_rows in
      let tail = [] ∷ all_heading ∷ [] ∷ (rule_lines ++ second) in
      let tables : All IsLine (rule_lines ++ second) =
        All-append IsLine rule_lines second rules-IsLine (rows-IsLine 1 all_rows k) in
      let after : All IsLine tail = (tt, (headings-IsLine.1, (tt, tables))) in
      (
        headings-IsLine.0,
        (
          tt,
          All-append IsLine rule_lines (first ++ tail) rules-IsLine
              (All-append IsLine first tail (rows-IsLine 1 hole h) after),
        ),
      )
