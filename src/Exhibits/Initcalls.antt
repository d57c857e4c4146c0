-- ===== src/Exhibits/Initcalls.antt =====
-- `parse_initcall_label_file` and `lookup_initcall` of scripts/report-exhibits.py: the reader of what
-- scripts/label-linux-initcalls.py has written.
use whimbrel.Prelude.{ℕ}
use whimbrel.Prelude.{Bool, ◌&&◌, ◌||◌, not, Option, none, some}
use whimbrel.Prelude.{List, [], ◌∷◌, ◌++◌}
use whimbrel.Prelude.{◌==◌, if◌then◌else◌}
use whimbrel.Prelude.{length, all, keep}
use whimbrel.Prelude.{Result, ok, err}
use whimbrel.Prelude.Text.{
  Text, codes, text_eq, strip_prefix, starts_with, strip, run, is_digit, is_space, decimal, split,
  splitlines, split_once,
}
use whimbrel.Prelude.Int.{ℤ}
use whimbrel.Prelude.Dict.{Dict, insert, has_key}
use whimbrel.Prelude.Options.{◌>>=◌, ◌>>◌, guard}
use whimbrel.Label.Serial.{signed}

-- `rec`; the time is kept as the text that `float` reads.
pub record LabelRow : Type 0 where
  pub rank : ℕ
  pub usecs : ℕ
  pub symbol : Text
  pub ret : ℤ
  pub printk_s : Text

pub data LabelFileFail : Type 0 where
  no_label_header : LabelFileFail
  no_hole_rows : LabelFileFail
  no_initcall_rows : LabelFileFail
  -- an `IndexError` on a `System.map` line without a digest
  no_digest : LabelFileFail
  not_one : Text → ℕ → LabelFileFail

abbrev pub not_tick : ℕ → Bool
not_tick c = not (c == b'`')

abbrev pub is_decimal : ℕ → Bool
is_decimal c = is_digit c || (c == b'.')

-- `LABEL_ROW_RE`. Each class ends where the text after it begins, so no other way to match is left.
unfoldable pub label_row_match : Text → Option LabelRow
unfolding strip_prefix run is_digit signed decimal is_space
label_row_match line = do
  a ← strip_prefix (codes "| ") line
  (rank, b) ← run is_digit a
  c ← strip_prefix (codes " | ") b
  (usecs, d) ← run is_digit c
  e ← strip_prefix (codes " | `") d
  (symbol, f) ← run not_tick e
  g ← strip_prefix (codes "` | ") f
  (ret, h) ← signed g
  i ← strip_prefix (codes " | ") h
  (printk_s, j) ← run is_decimal i
  k ← strip_prefix (codes " |") j
  guard (all is_space k)
  some (record {
    rank = decimal rank;
    usecs = decimal usecs;
    symbol = symbol;
    ret = ret;
    printk_s = printk_s;
  })

-- `line.split("=", 1)[1]`, where there is one
abbrev pub after_eq : Text → Text
after_eq line = elim (split_once b'=' line) [ none ↦ [] | some (a, b) ↦ b ]

abbrev pub first_word : List Text → Result LabelFileFail Text
first_word [] = err no_digest
first_word (w ∷ words) = ok w

-- One turn of the loop over the header.
unfoldable pub meta_line : Text → Dict Text → Result LabelFileFail (Dict Text)
unfolding starts_with split_once strip split
meta_line line meta =
    if starts_with line (codes "# Image-trimmed sha256=")
    then ok (insert (codes "image_sha") (strip (after_eq line)) meta)
    else if starts_with line (codes "# cmdline=")
    then ok (insert (codes "cmdline") (after_eq line) meta)
    else if starts_with line (codes "# qemu=")
    then ok (insert (codes "qemu") (after_eq line) meta)
    else if starts_with line (codes "# System.map sha256=")
    then elim (first_word (split (after_eq line))) [
      | err e ↦ err e
      | ok w ↦ ok (insert (codes "smap_sha") w meta)
    ]
    else ok meta

unfoldable pub meta_lines : Dict Text → List Text → Result LabelFileFail (Dict Text)
meta_lines meta [] = ok meta
meta_lines meta (line ∷ lines) = elim (meta_line line meta) [
  | err e ↦ err e
  | ok next ↦ meta_lines next lines
]

pub data Section : Type 0 where
  outside : Section
  hole_section : Section
  all_section : Section

pub record Tables : Type 0 where
  pub hole : List LabelRow
  pub all_rows : List LabelRow

abbrev pub add_row : Section → LabelRow → Tables → Tables
add_row outside r t = t
add_row hole_section r t = record { hole = t.hole ++ r ∷ []; all_rows = t.all_rows }
add_row all_section r t = record { hole = t.hole; all_rows = t.all_rows ++ r ∷ [] }

-- A line that is no heading.
abbrev pub read_row : Section → Option LabelRow → Tables → Tables
read_row s none t = t
read_row s (some r) t = add_row s r t

-- The loop over the sections.
unfoldable pub section_lines : Section → Tables → List Text → Tables
unfolding starts_with
section_lines s t [] = t
section_lines s t (line ∷ lines) =
    let in_hole = section_lines hole_section t lines in
    let in_all = section_lines all_section t lines in
    let more = section_lines s (read_row s (label_row_match line) t) lines in
    if starts_with line (codes "## Hole window")
    then in_hole
    else if starts_with line (codes "## All initcalls")
    then in_all
    else more

pub record LabelFile : Type 0 where
  pub hole : List LabelRow
  pub all_rows : List LabelRow
  pub meta : Dict Text

-- What the file is refused for.
unfoldable pub check_label_file : LabelFile → Result LabelFileFail LabelFile
check_label_file f =
    if not (
      has_key (codes "image_sha") f.meta
      && has_key (codes "cmdline") f.meta
      && has_key (codes "qemu") f.meta)
    then err no_label_header
    else if length f.hole == 0
    then err no_hole_rows
    else if length f.all_rows == 0
    then err no_initcall_rows
    else ok f

unfoldable pub label_file_of : List Text → Result LabelFileFail LabelFile
label_file_of lines = elim (meta_lines [] lines) [
  | err e ↦ err e
  | ok meta ↦
      let t = section_lines outside (record { hole = []; all_rows = [] }) lines in
      check_label_file (record { hole = t.hole; all_rows = t.all_rows; meta = meta })
]

unfoldable pub parse_initcall_label_file : Text → Result LabelFileFail LabelFile
unfolding splitlines
parse_initcall_label_file text = label_file_of (splitlines text)

abbrev pub the_one : Text → List LabelRow → Result LabelFileFail LabelRow
the_one symbol [] = err (not_one symbol 0)
the_one symbol (r ∷ []) = ok r
the_one symbol (r ∷ q ∷ rows) = err (not_one symbol (length (r ∷ q ∷ rows)))

unfoldable pub lookup_initcall : List LabelRow → Text → Result LabelFileFail LabelRow
lookup_initcall rows symbol = the_one symbol (keep (λ (r : LabelRow). text_eq r.symbol symbol) rows)
