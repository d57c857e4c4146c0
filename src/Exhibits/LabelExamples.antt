-- ===== src/Exhibits/LabelExamples.antt =====
-- The label file of the labeller's own self-test, written and read.
use whimbrel.Prelude.{ℕ, ◌<◌}
use whimbrel.Prelude.{◌≡◌, ◌≢◌, refl}
use whimbrel.Prelude.{true, arith}
use whimbrel.Prelude.{List, [], ◌∷◌, ◌++◌}
use whimbrel.Prelude.{◌+◌, ◌==◌, ◌&&◌, Bool, not, length, all, All, All-all, All-append}
use whimbrel.Prelude.{Result, ok, err}
use whimbrel.Prelude.Text.{
  Text, codes, decimal_text, text_eq, strip_prefix, starts_with, split_once, strip, lstrip, split,
  is_digit, is_line_end,
}
use whimbrel.Prelude.TextLaws.{IsLine, join_lines}
use whimbrel.Prelude.Decimal.{decimal_text-All, decimal_text_cons}
use whimbrel.Prelude.Dict.{Dict, lookup, has_key}
use whimbrel.Label.Examples as Label
use whimbrel.Label.Run.{Labeled, label}
use whimbrel.Label.SystemMap.{LabelFail}
use whimbrel.Label.Table.{report_text}
use whimbrel.Exhibits.Initcalls
use whimbrel.Exhibits.Initcalls.{not_tick, is_decimal, meta_lines, parse_initcall_label_file}
use whimbrel.Exhibits.Reading.{IsFixed, IsReadable}
use whimbrel.Exhibits.Sections.{IsPlain, reads}
use whimbrel.Exhibits.LabelFile.{parse_initcall_label_file-label}

-- A way to print a time.
abbrev time_text : ℕ → Text
time_text n = decimal_text n ++ codes "."

digit_fits : (d : ℕ) → d < 10 → is_decimal (48 + d) ≡ true
unfolding is_digit
digit_fits d h = ground arith

time_text-some : (n : ℕ) → time_text n ≢ []
time_text-some n h =
    let (x, xs, is, digit) = decimal_text_cons n in
    let bad : x ∷ (xs ++ codes ".") ≡ [] = rw is at h in absurd cc

time_text-IsFixed : IsFixed time_text
unfolding is_digit
time_text-IsFixed n = (
  time_text-some n,
  All-append (λ c. is_decimal c ≡ true) (decimal_text n) (codes ".")
      (decimal_text-All (λ c. is_decimal c ≡ true) digit_fits n) (refl, tt),
)

abbrev header : List Text
header =
    codes "# Image-trimmed sha256=09af"
    ∷ codes "# System.map sha256=beef path=System.map"
    ∷ codes "# cmdline=a=b"
    ∷ codes "# qemu=QEMU 9"
    ∷ codes "#"
    ∷ []

abbrev said : Dict Text
said =
    (codes "qemu", codes "QEMU 9")
    ∷ (codes "cmdline", codes "a=b")
    ∷ (codes "smap_sha", codes "beef")
    ∷ (codes "image_sha", codes "09af")
    ∷ []

abbrev tables_of : Result LabelFail (List Labeled × List Labeled) → List Labeled × List Labeled
tables_of (ok tables) = tables
tables_of (err e) = ([], [])

abbrev hole : List Labeled
unfolding label
hole = (tables_of (label Label.serial Label.smap)).0

abbrev labeled : List Labeled
unfolding label
labeled = (tables_of (label Label.serial Label.smap)).1

returned : label Label.serial Label.smap ≡ ok (hole, labeled)
unfolding label hole labeled
returned = refl

header_read : meta_lines [] header ≡ ok said
unfolding meta_lines Initcalls.meta_line starts_with strip_prefix split_once strip lstrip split
header_read = refl

abbrev is_single : Text → Bool
is_single t = all (λ c. not (is_line_end c)) t

line_of : (t : Text) → is_single t ≡ true → IsLine t
line_of [] h = tt
line_of (c ∷ t) h = (ground arith, line_of t (ground arith))

all_lines : (ts : List Text) → all is_single ts ≡ true → All IsLine ts
all_lines [] h = tt
all_lines (t ∷ ts) h = (line_of t (ground arith), all_lines ts (ground arith))

abbrev is_readable : Labeled → Bool
is_readable r = not (length r.symbol == 0) && all not_tick r.symbol && is_single r.symbol

nonempty : (t : Text) → not (length t == 0) ≡ true → t ≢ []
nonempty [] h e = absurd cc
nonempty (c ∷ t) h e = absurd cc

rows_fit : (rows : List Labeled) → all is_readable rows ≡ true → All IsReadable rows
rows_fit [] h = tt
rows_fit (r ∷ rows) h = (
  (
    nonempty r.symbol (ground arith),
    All-all not_tick r.symbol (ground arith),
    line_of r.symbol (ground arith),
  ),
  rows_fit rows (ground arith),
)

readable : All IsReadable labeled
unfolding label labeled is_line_end
readable = rows_fit labeled refl

lines : All IsLine header
unfolding is_line_end
lines = all_lines header refl

plain : All IsPlain header
unfolding starts_with strip_prefix
plain = ((refl, refl), ((refl, refl), ((refl, refl), ((refl, refl), ((refl, refl), tt)))))

parse_initcall_label_file-label_example :
    parse_initcall_label_file (join_lines header ++ report_text time_text hole labeled)
    ≡ ok (record {
      hole = reads time_text time_text-IsFixed 1 hole;
      all_rows = reads time_text time_text-IsFixed 1 labeled;
      meta = said;
    })
unfolding label hole labeled is_line_end starts_with strip_prefix has_key lookup text_eq
parse_initcall_label_file-label_example =
    parse_initcall_label_file-label time_text time_text-IsFixed Label.serial Label.smap hole labeled
      returned readable header said lines plain header_read refl
