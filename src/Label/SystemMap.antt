-- ===== src/Label/SystemMap.antt =====
-- `load_system_map` and `resolve` of scripts/label-linux-initcalls.py.
use whimbrel.Prelude.{ℕ, zero, suc, ◌+◌, ◌-◌, ◌*◌, ◌/◌}
use whimbrel.Prelude.{Bool, ◌&&◌, ◌||◌, Option, none, some}
use whimbrel.Prelude.{List, [], ◌∷◌}
use whimbrel.Prelude.{ltb, leb, ◌==◌, if◌then◌else◌}
use whimbrel.Prelude.{length, get_elem?}
use whimbrel.Prelude.{Result, ok, err, ◌>>=◌}
use whimbrel.Prelude.Text.{Text, splitlines, split, int_hex, text_leb}
use whimbrel.Prelude.Sort.{sort}
use mathlib.Core.Option

-- One row `(addr, name)`.
pub record Entry : Type 0 where
  pub addr : ℕ
  pub name : Text

-- The messages of `LabelFail`, and Python's own `IndexError`.
pub data LabelFail : Type 0 where
  no_symbol_rows : LabelFail
  below_system_map : ℕ → ℕ → LabelFail
  offset_too_large : ℕ → Text → ℕ → LabelFail
  zero_initcall_lines : LabelFail
  window_missing : LabelFail
  window_inverted : LabelFail
  no_lines_in_window : LabelFail
  index_error : LabelFail

-- Tuples compare by address, then by name.
unfoldable pub entry_leb : Entry → Entry → Bool
entry_leb a b = ltb a.addr b.addr || ((a.addr == b.addr) && text_leb a.name b.name)

-- A row that has too few words, or no hexadecimal address, is passed over.
unfoldable pub parse_row : Text → Option Entry
unfolding split int_hex
parse_row raw = elim (split raw) [
  | addr ∷ kind ∷ name ∷ rest ↦ Option.map (λ a. record { addr = a; name = name }) (int_hex addr)
  | _ ↦ none
]

unfoldable pub parse_rows : List Text → List Entry
unfolding parse_row
parse_rows [] = []
parse_rows (raw ∷ lines) =
    let rest = parse_rows lines in elim (parse_row raw) [ none ↦ rest | some e ↦ e ∷ rest ]

-- `if not entries: raise`, then `entries.sort()`
unfoldable pub sort_rows : List Entry → Result LabelFail (List Entry)
unfolding entry_leb text_leb sort
sort_rows [] = err no_symbol_rows
sort_rows (e ∷ entries) = ok (sort entry_leb (e ∷ entries))

unfoldable pub load_system_map : Text → Result LabelFail (List Entry)
unfolding parse_rows splitlines sort_rows
load_system_map text = sort_rows (parse_rows (splitlines text))

abbrev pub max_offset : ℕ
max_offset = 64 * 1024

-- The `while lo <= hi`; `end` is `hi + 1`, so that it is never negative, and `best` is `none` for -1.
unfoldable pub search_loop : ℕ → ℕ → List Entry → ℕ → ℕ → Option ℕ → Result LabelFail (Option ℕ)
search_loop zero addr entries lo end best = ok best
search_loop (suc fuel) addr entries lo end best =
    let mid = (lo + end - 1) / 2 in
    let up = search_loop fuel addr entries (mid + 1) end (some mid) in
    let down = search_loop fuel addr entries lo mid best in
    if ltb lo end
    then elim (get_elem? entries mid) [
      | none ↦ err index_error
      | some e ↦ if leb e.addr addr then up else down
    ]
    else ok best

-- The check of the offset of `entries[best]`.
unfoldable pub check_offset : ℕ → Option Entry → Result LabelFail (Text × ℕ)
check_offset addr none = err index_error
check_offset addr (some e) =
    let off = addr - e.addr in
    if leb max_offset off then err (offset_too_large addr e.name off) else ok (e.name, off)

-- What follows the loop. The message of the first failure names `entries[0]`.
unfoldable pub pick : ℕ → List Entry → Option ℕ → Result LabelFail (Text × ℕ)
unfolding check_offset
pick addr [] none = err index_error
pick addr (e ∷ entries) none = err (below_system_map addr e.addr)
pick addr entries (some best) = check_offset addr (get_elem? entries best)

unfoldable pub resolve : ℕ → List Entry → Result LabelFail (Text × ℕ)
unfolding search_loop pick
resolve addr entries = do
  best ← search_loop (length entries) addr entries 0 (length entries) none
  pick addr entries best
