-- ===== src/Pcap/Columns.antt =====
-- A table that tshark gives has all of the columns that were asked for in each of its rows.
use whimbrel.Prelude.{suc}
use whimbrel.Prelude.{◌≡◌, refl, sym, ap, inl, inr}
use whimbrel.Prelude.{Bool, true, false, arith}
use whimbrel.Prelude.{List, [], ◌∷◌, map}
use whimbrel.Prelude.{ltb, ◌==◌, Bool-cases}
use whimbrel.Prelude.{length, keep, All}
use whimbrel.Prelude.{ok}
use whimbrel.Prelude.Text.{Text, strip, splitlines, split_on}
use whimbrel.Pcap.Tshark.{Proc, Row, row_of, table_rows, table_fields, tshark_table}

abbrev pub keys : Row → List Text
keys row = map (λ (k, v). k) row

keys-row_of : (fields parts : List Text) → keys (row_of fields parts) ≡ fields
unfolding row_of
keys-row_of [] parts = refl
keys-row_of (f ∷ fields) [] = ap (◌∷◌ f) (keys-row_of fields [])
keys-row_of (f ∷ fields) (p ∷ parts) = ap (◌∷◌ f) (keys-row_of fields parts)

abbrev pub is_line : Text → Bool
is_line line = ltb 0 (length (strip line))

keys-table_rows :
    (fields lines : List Text)
    → All (λ row. keys row ≡ fields) (table_rows fields lines)
      × (length (table_rows fields lines) ≡ length (keep is_line lines))
unfolding table_rows
keys-table_rows fields [] = (tt, refl)
keys-table_rows fields (line ∷ lines) =
    let (columns, count) = keys-table_rows fields lines in
    elim (Bool-cases (length (strip line) == 0)) [
      | inl e ↦ let blank : is_line line ≡ false = ground arith in rw (e, blank) (columns, count)
      | inr e ↦
          let some_text : is_line line ≡ true = ground arith in
          rw (e, some_text) ((keys-row_of fields (split_on 9 line), columns), ap suc count)
    ]

-- A table has a row for each line of the output that is not blank, and each row has the time, the
-- frame's number and the extra fields as its keys, however many columns the line has.
pub tshark_table-columns :
    (tshark : Text → List Text → Proc) (display_filter : Text) (extra : List Text) (rows : List Row)
    → tshark_table tshark display_filter extra ≡ ok rows
    → All (λ row. keys row ≡ table_fields extra) rows
      × (length rows
          ≡ length (
              keep is_line (splitlines (Proc.stdout (tshark display_filter (table_fields extra))))))
unfolding tshark_table
tshark_table-columns tshark display_filter extra rows h =
    let lines = splitlines (Proc.stdout (tshark display_filter (table_fields extra))) in
    let same : table_rows (table_fields extra) lines ≡ rows = ground arith in
    rw (sym same) (keys-table_rows (table_fields extra) lines)
