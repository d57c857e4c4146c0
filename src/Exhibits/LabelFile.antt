-- ===== src/Exhibits/LabelFile.antt =====
-- The file that scripts/linux-initcall-label.sh writes, read back: its header and its two tables.
use whimbrel.Prelude.{ℕ, suc}
use whimbrel.Prelude.{◌≡◌, ◌≢◌, refl, sym, ap, ◌∙◌, inl, inr}
use whimbrel.Prelude.{Bool, true, false, ◌&&◌, arith}
use whimbrel.Prelude.{List, [], ◌∷◌, ◌++◌}
use whimbrel.Prelude.{◌==◌, All, All-append, length, Result-cases}
use whimbrel.Prelude.{ok}
use whimbrel.Prelude.Text.{Text, codes, strip_prefix, starts_with, splitlines}
use whimbrel.Prelude.TextLaws.{IsLine, join_lines, splitlines-join_lines}
use whimbrel.Prelude.Dict.{Dict, has_key}
use whimbrel.Label.Run.{Labeled}
use whimbrel.Label.Table.{
  table_row, numbered_rows, fmt_table, report_lines, report_text, rule_lines, all_heading,
}
use whimbrel.Exhibits.Initcalls.{
  outside, Tables, section_lines, meta_line, meta_lines, check_label_file, label_file_of,
  parse_initcall_label_file,
}
use whimbrel.Exhibits.Reading.{IsReadable, IsFixed}
use whimbrel.Exhibits.Sections.{IsPlain, reads, section_lines-header, section_lines-report}
use whimbrel.Prelude.{keep, subst, Bool-cases}
use whimbrel.Label.Run.{label}
use whimbrel.Label.Laws.{label-IsReport}
use whimbrel.Exhibits.LabelLines.{join_lines-append, report-IsLine}

module _ (fixed : ℕ → Text) (is_fixed : IsFixed fixed) where
  -- A line that is written adds nothing to what the header says.
  abbrev IsSilent : Text → Type 0
  IsSilent line = (meta : Dict Text) → meta_line line meta ≡ ok meta

  meta_lines-silent :
      (meta : Dict Text) (lines : List Text) → All IsSilent lines → meta_lines meta lines ≡ ok meta
  unfolding meta_lines meta_line
  meta_lines-silent meta [] h = refl
  meta_lines-silent meta (line ∷ lines) (p, h) = rw (p meta) (meta_lines-silent meta lines h)

  meta_lines-append :
      (meta next : Dict Text) (xs ys : List Text)
      → meta_lines meta xs ≡ ok next
      → meta_lines meta (xs ++ ys) ≡ meta_lines next ys
  unfolding meta_lines meta_line
  meta_lines-append meta next [] ys h = ground arith
  meta_lines-append meta next (x ∷ xs) ys h = elim (Result-cases (meta_line x meta)) [
    | inr (e, failed) ↦ absurd (ground arith)
    | inl (more, read) ↦ rw read (meta_lines-append more next xs ys (rw read at h))
  ]

  rows-IsSilent : (i : ℕ) (rows : List Labeled) → All IsSilent (numbered_rows fixed i rows)
  unfolding numbered_rows table_row meta_line starts_with strip_prefix
  rows-IsSilent i [] = tt
  rows-IsSilent i (r ∷ rows) = (λ meta. refl, rows-IsSilent (suc i) rows)

  report-IsSilent : (hole all_rows : List Labeled) → All IsSilent (report_lines fixed hole all_rows)
  unfolding report_lines fmt_table meta_line starts_with strip_prefix
  report-IsSilent hole all_rows =
      let tail = [] ∷ all_heading ∷ [] ∷ (rule_lines ++ numbered_rows fixed 1 all_rows) in
      let after : All IsSilent tail =
        (λ m. refl, (λ m. refl, (λ m. refl, (λ m. refl, (λ m. refl, rows-IsSilent 1 all_rows))))) in
      let rows =
        All-append IsSilent (numbered_rows fixed 1 hole) tail (rows-IsSilent 1 hole) after in
      (λ m. refl, (λ m. refl, (λ m. refl, (λ m. refl, rows))))

  reads-some :
      (i : ℕ) (rows : List Labeled)
      → rows ≢ []
      → (length (reads fixed is_fixed i rows) == 0) ≡ false
  unfolding reads
  reads-some i [] h = absurd (h refl)
  reads-some i (r ∷ rows) h = ground arith

  -- A header that says what is wanted.
  abbrev pub HasHeader : Dict Text → Type 0
  HasHeader meta =
      (has_key (codes "image_sha") meta
        && has_key (codes "cmdline") meta
        && has_key (codes "qemu") meta)
      ≡ true

  label_file_of-ok :
      (lines : List Text) (meta : Dict Text) (t : Tables)
      → meta_lines [] lines ≡ ok meta
      → section_lines outside (record { hole = []; all_rows = [] }) lines ≡ t
      → HasHeader meta
      → (length t.hole == 0) ≡ false
      → (length t.all_rows == 0) ≡ false
      → label_file_of lines ≡ ok (record { hole = t.hole; all_rows = t.all_rows; meta = meta })
  unfolding label_file_of check_label_file
  label_file_of-ok lines meta t m read has h k = ground arith

  parse_initcall_label_file-report_text :
      (header : List Text) (meta : Dict Text) (hole all_rows : List Labeled)
      → All IsLine header
      → All IsPlain header
      → meta_lines [] header ≡ ok meta
      → HasHeader meta
      → hole ≢ []
      → all_rows ≢ []
      → All IsReadable hole
      → All IsReadable all_rows
      → parse_initcall_label_file (join_lines header ++ report_text fixed hole all_rows)
        ≡ ok (record {
          hole = reads fixed is_fixed 1 hole;
          all_rows = reads fixed is_fixed 1 all_rows;
          meta = meta;
        })
  unfolding parse_initcall_label_file report_text
  parse_initcall_label_file-report_text header meta hole all_rows l p m has f g h k =
      let report = report_lines fixed hole all_rows in
      let lines = header ++ report in
      let none : Tables = record { hole = []; all_rows = [] } in
      let split : splitlines (join_lines header ++ join_lines report) ≡ lines =
        ap splitlines (sym (join_lines-append header report))
        ∙ splitlines-join_lines lines
            (All-append IsLine header report l (report-IsLine fixed is_fixed hole all_rows h k)) in
      let read : meta_lines [] lines ≡ ok meta =
        meta_lines-append [] meta header report m
        ∙ meta_lines-silent meta report (report-IsSilent hole all_rows) in
      let tables =
        section_lines-header none header report p
        ∙ section_lines-report fixed is_fixed none hole all_rows h k in
      ap label_file_of split
      ∙ label_file_of-ok lines meta
          (record {
            hole = reads fixed is_fixed 1 hole;
            all_rows = reads fixed is_fixed 1 all_rows;
          })
          read tables has (reads-some 1 hole f) (reads-some 1 all_rows g)

  keep-All :
      (p : Labeled → Bool) (rows : List Labeled)
      → All IsReadable rows
      → All IsReadable (keep p rows)
  keep-All p [] h = tt
  keep-All p (r ∷ rows) (q, h) = elim (Bool-cases (p r)) [
    | inl e ↦ rw e (q, keep-All p rows h)
    | inr e ↦ rw e (keep-All p rows h)
  ]

  -- What `label` returns and the report writes under a header is read back: the two tables row by row,
  -- numbered from one on, and the header with them, if it says what is wanted and holds no heading of a
  -- section, and if the symbols are not empty and have no tick and no end of a line.
  pub parse_initcall_label_file-label :
      (serial map_text : Text) (hole labeled : List Labeled)
      → label serial map_text ≡ ok (hole, labeled)
      → All IsReadable labeled
      → (header : List Text) (meta : Dict Text) → All IsLine header
      → All IsPlain header
      → meta_lines [] header ≡ ok meta
      → HasHeader meta
      → parse_initcall_label_file (join_lines header ++ report_text fixed hole labeled)
        ≡ ok (record {
          hole = reads fixed is_fixed 1 hole;
          all_rows = reads fixed is_fixed 1 labeled;
          meta = meta;
        })
  parse_initcall_label_file-label serial map_text hole labeled h readable header meta l p m has =
      let (entries, loaded, report) = label-IsReport serial map_text hole labeled h in
      let in_hole = λ (r : Labeled). r.in_hole in
      let some_labeled : labeled ≢ [] =
        λ none_there. report.not_empty (report.in_window ∙ ap (keep in_hole) none_there) in
      let hole_readable : All IsReadable hole =
        subst (All IsReadable) (sym report.in_window) (keep-All in_hole labeled readable) in
      parse_initcall_label_file-report_text header meta hole labeled l p m has report.not_empty
        some_labeled hole_readable readable
