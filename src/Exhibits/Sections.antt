-- ===== src/Exhibits/Sections.antt =====
-- The sections and the header of a label file: what the loops of the reader make of its lines.
use whimbrel.Prelude.{ℕ, suc}
use whimbrel.Prelude.{◌≡◌, refl, sym, ap, ◌∙◌}
use whimbrel.Prelude.{false, Option, none, some}
use whimbrel.Prelude.{List, [], ◌∷◌, ◌++◌}
use whimbrel.Prelude.{All}
use whimbrel.Prelude.Text.{Text, codes, strip_prefix, starts_with, run, is_digit}
use mathlib.Core.List.{append_assoc, append-nil}
use whimbrel.Label.Run.{Labeled}
use whimbrel.Label.Table.{
  table_row, numbered_rows, fmt_table, report_lines, rule_lines, hole_heading, all_heading,
}
use whimbrel.Exhibits.Initcalls.{
  LabelRow, label_row_match, read_row, add_row, Section, outside, hole_section, all_section, Tables,
  section_lines,
}
use whimbrel.Exhibits.Reading.{IsReadable, IsFixed, read_of, label_row_match-table_row}

-- A line of the header is no heading of a section.
abbrev pub IsPlain : Text → Type 0
IsPlain line =
    (starts_with line (codes "## Hole window") ≡ false)
    × (starts_with line (codes "## All initcalls") ≡ false)

add_all : Section → Tables → List LabelRow → Tables
add_all s t [] = t
add_all s t (r ∷ rows) = add_all s (add_row s r t) rows

section_lines-plain :
    (s : Section) (t : Tables) (line : Text) (lines : List Text)
    → IsPlain line
    → section_lines s t (line ∷ lines) ≡ section_lines s (read_row s (label_row_match line) t) lines
unfolding section_lines
section_lines-plain s t line lines (a, b) = rw (a, b) refl

read_outside : (r : Option LabelRow) (t : Tables) → read_row outside r t ≡ t
read_outside none t = refl
read_outside (some r) t = refl

-- The header is no row of a table, whatever it holds.
pub section_lines-header :
    (t : Tables) (header rest : List Text)
    → All IsPlain header
    → section_lines outside t (header ++ rest) ≡ section_lines outside t rest
section_lines-header t [] rest h = refl
section_lines-header t (line ∷ header) rest (p, h) =
    section_lines-plain outside t line (header ++ rest) p
    ∙ rw (read_outside (label_row_match line) t) (section_lines-header t header rest h)

section_lines-rules :
    (s : Section) (t : Tables) (rest : List Text)
    → section_lines s t (rule_lines ++ rest) ≡ section_lines s t rest
unfolding section_lines label_row_match starts_with strip_prefix run is_digit
section_lines-rules s t rest = refl

section_lines-blank :
    (s : Section) (t : Tables) (rest : List Text)
    → section_lines s t ([] ∷ rest) ≡ section_lines s t rest
unfolding section_lines label_row_match starts_with strip_prefix
section_lines-blank s t rest = refl

section_lines-hole :
    (s : Section) (t : Tables) (rest : List Text)
    → section_lines s t (hole_heading ∷ rest) ≡ section_lines hole_section t rest
unfolding section_lines starts_with strip_prefix
section_lines-hole s t rest = refl

section_lines-all :
    (s : Section) (t : Tables) (rest : List Text)
    → section_lines s t (all_heading ∷ rest) ≡ section_lines all_section t rest
unfolding section_lines starts_with strip_prefix
section_lines-all s t rest = refl

add_all-hole :
    (t : Tables) (rows : List LabelRow)
    → add_all hole_section t rows ≡ record { hole = t.hole ++ rows; all_rows = t.all_rows }
unfolding add_all
add_all-hole t [] = rw (append-nil t.hole) refl
add_all-hole t (r ∷ rows) =
    add_all-hole (add_row hole_section r t) rows
    ∙ ap (λ xs. record { hole = xs; all_rows = t.all_rows }) (append_assoc t.hole (r ∷ []) rows)

add_all-all :
    (t : Tables) (rows : List LabelRow)
    → add_all all_section t rows ≡ record { hole = t.hole; all_rows = t.all_rows ++ rows }
unfolding add_all
add_all-all t [] = rw (append-nil t.all_rows) refl
add_all-all t (r ∷ rows) =
    add_all-all (add_row all_section r t) rows
    ∙ ap (λ xs. record { hole = t.hole; all_rows = xs }) (append_assoc t.all_rows (r ∷ []) rows)

no_more : (s : Section) (t : Tables) → section_lines s t [] ≡ t
unfolding section_lines
no_more s t = refl

module _ (fixed : ℕ → Text) (is_fixed : IsFixed fixed) where
  -- The rows of a table as they are read, numbered from one on.
  unfoldable pub reads : ℕ → List Labeled → List LabelRow
  reads i [] = []
  reads i (r ∷ rows) = read_of fixed is_fixed i r ∷ reads (suc i) rows

  row-IsPlain : (i : ℕ) (r : Labeled) → IsPlain (table_row fixed i r)
  unfolding table_row starts_with strip_prefix
  row-IsPlain i r = (refl, refl)

  section_lines-rows :
      (s : Section) (t : Tables) (i : ℕ) (rows : List Labeled) (rest : List Text)
      → All IsReadable rows
      → section_lines s t (numbered_rows fixed i rows ++ rest)
        ≡ section_lines s (add_all s t (reads i rows)) rest
  unfolding numbered_rows reads add_all
  section_lines-rows s t i [] rest h = refl
  section_lines-rows s t i (r ∷ rows) rest (p, h) =
      section_lines-plain s t (table_row fixed i r) (numbered_rows fixed (suc i) rows ++ rest)
        (row-IsPlain i r)
      ∙ rw (label_row_match-table_row fixed is_fixed i r p)
          (section_lines-rows s (add_row s (read_of fixed is_fixed i r) t) (suc i) rows rest h)

  pub section_lines-report :
      (t : Tables) (hole all_rows : List Labeled)
      → All IsReadable hole
      → All IsReadable all_rows
      → section_lines outside t (report_lines fixed hole all_rows)
        ≡ record { hole = t.hole ++ reads 1 hole; all_rows = t.all_rows ++ reads 1 all_rows }
  unfolding report_lines fmt_table
  section_lines-report t hole all_rows h k =
      let first = numbered_rows fixed 1 hole in
      let second = numbered_rows fixed 1 all_rows in
      let tail = [] ∷ all_heading ∷ [] ∷ (rule_lines ++ second) in
      let t' = add_all hole_section t (reads 1 hole) in
      let lined : second ++ [] ≡ second = append-nil second in
      section_lines-hole outside t ([] ∷ (rule_lines ++ (first ++ tail)))
      ∙ section_lines-blank hole_section t (rule_lines ++ (first ++ tail))
      ∙ section_lines-rules hole_section t (first ++ tail)
      ∙ section_lines-rows hole_section t 1 hole tail h
      ∙ section_lines-blank hole_section t' (all_heading ∷ [] ∷ (rule_lines ++ second))
      ∙ section_lines-all hole_section t' ([] ∷ (rule_lines ++ second))
      ∙ section_lines-blank all_section t' (rule_lines ++ second)
      ∙ section_lines-rules all_section t' second
      ∙ ap (section_lines all_section t') (sym lined)
      ∙ section_lines-rows all_section t' 1 all_rows [] k
      ∙ no_more all_section (add_all all_section t' (reads 1 all_rows))
      ∙ add_all-all t' (reads 1 all_rows)
      ∙ ap (λ (u : Tables). record { hole = u.hole; all_rows = u.all_rows ++ reads 1 all_rows })
          (add_all-hole t (reads 1 hole))
