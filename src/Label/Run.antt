-- ===== src/Label/Run.antt =====
-- `label` of scripts/label-linux-initcalls.py.
use whimbrel.Prelude.{ℕ}
use whimbrel.Prelude.{Bool, ◌&&◌, Option, none, some}
use whimbrel.Prelude.{List, [], ◌∷◌, ◌++◌}
use whimbrel.Prelude.{ltb, leb, ◌==◌, if◌then◌else◌}
use whimbrel.Prelude.{keep}
use whimbrel.Prelude.{Result, ok, err, ◌>>=◌}
use whimbrel.Prelude.Text.{Text, codes, hex_text}
use whimbrel.Prelude.Sort.{sort}
use whimbrel.Label.SystemMap.{Entry, LabelFail, zero_initcall_lines, window_missing}
use whimbrel.Label.SystemMap.{window_inverted, no_lines_in_window, load_system_map, resolve}
use whimbrel.Label.Serial.{Row, parse_serial}

-- `rec`: the row's fields and the four that `label` adds.
pub record Labeled : Type 0 where
  pub row : Row
  pub name : Text
  pub offset : ℕ
  pub symbol : Text
  pub in_hole : Bool

unfoldable pub symbol_text : Text → ℕ → Text
unfolding hex_text
symbol_text name off = if off == 0 then name else name ++ codes "+0x" ++ hex_text off

-- `rec`, once the address is resolved
abbrev pub labeled_as : ℕ → ℕ → Row → Text × ℕ → Labeled
labeled_as start finish r (name, off) = record {
  row = r;
  name = name;
  offset = off;
  symbol = symbol_text name off;
  in_hole = ltb start r.ns && leb r.ns finish;
}

unfoldable pub label_row : List Entry → ℕ → ℕ → Row → Result LabelFail Labeled
unfolding resolve symbol_text
label_row entries start finish r = do
  found ← resolve r.addr entries
  ok (labeled_as start finish r found)

unfoldable pub label_rows : List Entry → ℕ → ℕ → List Row → Result LabelFail (List Labeled)
unfolding label_row
label_rows entries start finish [] = ok []
label_rows entries start finish (r ∷ rows) = do
  l ← label_row entries start finish r
  rest ← label_rows entries start finish rows
  ok (l ∷ rest)

-- `key=lambda r: r["usecs"], reverse=True`
abbrev pub longer_first : Labeled → Labeled → Bool
longer_first a b = leb b.row.usecs a.row.usecs

-- `if not hole: raise`
unfoldable pub refuse_empty :
    List Labeled → List Labeled → Result LabelFail (List Labeled × List Labeled)
refuse_empty [] labeled = err no_lines_in_window
refuse_empty (l ∷ hole) labeled = ok (l ∷ hole, labeled)

-- The sort, the window's rows, and the refusal of an empty window.
unfoldable pub split_hole : List Labeled → Result LabelFail (List Labeled × List Labeled)
unfolding sort refuse_empty
split_hole rows =
    let labeled = sort longer_first rows in
    refuse_empty (keep (λ (r : Labeled). r.in_hole) labeled) labeled

-- The checks in front of the loop, in their order.
unfoldable pub label_window :
    List Entry → List Row → Option ℕ → Option ℕ → Result LabelFail (List Labeled × List Labeled)
unfolding label_rows split_hole
label_window entries [] start finish = err zero_initcall_lines
label_window entries (r ∷ rows) none finish = err window_missing
label_window entries (r ∷ rows) (some start) none = err window_missing
label_window entries (r ∷ rows) (some start) (some finish) =
    if leb finish start
    then err window_inverted
    else (do labeled ← label_rows entries start finish (r ∷ rows); split_hole labeled)

unfoldable pub label : Text → Text → Result LabelFail (List Labeled × List Labeled)
unfolding load_system_map parse_serial label_window
label serial_text map_text = do
  entries ← load_system_map map_text
  let p = parse_serial serial_text
  label_window entries p.rows p.hole_start p.hole_end
