-- ===== src/Label/Examples.antt =====
-- Runs of the label script on the inputs of its own self-test, and its theorems at them.
use whimbrel.Prelude.{String}
use whimbrel.Prelude.{◌≡◌, refl}
use whimbrel.Prelude.{List, [], ◌∷◌, ◌++◌, map}
use whimbrel.Prelude.{Result, ok, err}
use whimbrel.Prelude.Text.{Text, codes}
use whimbrel.Label.SystemMap.{
  Entry, LabelFail, zero_initcall_lines, offset_too_large, load_system_map, resolve,
}
use whimbrel.Label.Serial.{parse_serial}
use whimbrel.Label.Resolve.{Resolves, resolve-Resolves, load_system_map-Ascends}
use whimbrel.Label.Run.{Labeled, label}
use whimbrel.Label.Laws.{IsReport, label-IsReport}

abbrev newline : Text
newline = 10 ∷ []

abbrev pub smap : Text
smap =
    codes "0000000000002000 T bar"
    ++ newline
    ++ codes "0000000000001000 T foo"
    ++ newline
    ++ codes "0000000000003000 T baz"
    ++ newline

abbrev serial_of : String → Text
serial_of last =
    codes "[    0.100000] Key type dns_resolver registered"
    ++ newline
    ++ codes "[    0.200000] initcall 0x1000 returned 0 after 5000 usecs"
    ++ newline
    ++ codes "[    0.250000] initcall 1010 returned 0 after 20000 usecs"
    ++ newline
    ++ codes "[    0.300000] clk: Disabling unused clocks"
    ++ newline
    ++ codes last
    ++ newline

abbrev pub serial : Text
serial = serial_of "[    0.400000] initcall 0x2000 returned 0 after 90000 usecs"

abbrev symbols : Result LabelFail (List Labeled × List Labeled) → List Text × List Text
symbols (ok (hole, labeled)) =
    (map (λ (l : Labeled). l.symbol) hole, map (λ (l : Labeled). l.symbol) labeled)
symbols (err e) = ([], [])

selftest :
    symbols (label serial smap)
    ≡ (codes "foo+0x10" ∷ codes "foo" ∷ [], codes "bar" ∷ codes "foo+0x10" ∷ codes "foo" ∷ [])
unfolding label
selftest = refl

selftest_far :
    label (serial_of "[    0.400000] initcall 0x20000 returned 0 after 90000 usecs") smap
    ≡ err (offset_too_large 0x20000 (codes "baz") 0x1d000)
unfolding label
selftest_far = refl

selftest_zero_lines :
    label (codes "[    0.200000] xinitcall 0x1000 returned 0 after 5000 usecs") smap
    ≡ err zero_initcall_lines
unfolding label
selftest_zero_lines = refl

abbrev table : List Entry
table =
    record { addr = 0x1000; name = codes "foo" }
    ∷ record { addr = 0x2000; name = codes "bar" }
    ∷ record { addr = 0x3000; name = codes "baz" }
    ∷ []

loaded : load_system_map smap ≡ ok table
unfolding load_system_map
loaded = refl

resolve-Resolves_example : Resolves 0x2fff table (resolve 0x2fff table)
resolve-Resolves_example =
    resolve-Resolves 0x2fff table (load_system_map-Ascends smap table loaded).0
      (load_system_map-Ascends smap table loaded).1

abbrev tables : Result LabelFail (List Labeled × List Labeled) → List Labeled × List Labeled
tables (ok t) = t
tables (err e) = ([], [])

hole : List Labeled
unfolding label
hole = (tables (label serial smap)).0

labeled : List Labeled
unfolding label
labeled = (tables (label serial smap)).1

labels : label serial smap ≡ ok (hole, labeled)
unfolding hole labeled
labels = refl

label-IsReport_example :
    (entries : List Entry) × (load_system_map smap ≡ ok entries)
    × IsReport entries (parse_serial serial).rows hole labeled
label-IsReport_example = label-IsReport serial smap hole labeled labels
