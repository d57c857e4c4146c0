-- ===== src/Merge/Classify.antt =====
-- `classify` and `_record_not_final` of scripts/linux-merge-warnings.py.
use whimbrel.Prelude.{ℕ, zero, suc}
use whimbrel.Prelude.{◌&&◌, not, none, some}
use whimbrel.Prelude.{List, [], ◌∷◌, ◌++◌}
use whimbrel.Prelude.{if◌then◌else◌}
use whimbrel.Prelude.{length}
use whimbrel.Prelude.Text.{Text, codes, text_eq, strip, splitlines}
use whimbrel.Prelude.Dict.{Dict, has_key}
use whimbrel.Merge.Kconfig.{bare, is_unset_line, mem, unset, fragment_symbols, merge_overrides}
use whimbrel.Merge.Kconfig.{
  redefined_match, redundant_match, not_final_match, requested_match, actual_match,
}

-- The informational lines, without their wording.
pub data Info : Type 0 where
  redefined redundant vanished unsolicited : Text → Info
  annotated : Text → Text → Text → Info
  dependent_drops : ℕ → Info

-- `TEST FAIL: merge did not stick`: the symbol, what was asked for and what was found.
pub record Failure : Type 0 where
  pub cfg : Text
  pub want : Text
  pub got : Text

-- The three lists that the loop appends to.
pub record Lists : Type 0 where
  pub info : List Info
  pub fails : List Failure
  pub drops : List Text

abbrev pub no_lines : Lists
no_lines = record { info = []; fails = []; drops = [] }

abbrev pub add_info : Info → Lists → Lists
add_info i l = record l { info = l.info ++ i ∷ [] }

abbrev pub add_fail : Failure → Lists → Lists
add_fail f l = record l { fails = l.fails ++ f ∷ [] }

abbrev pub add_drop : Text → Lists → Lists
add_drop cfg l = record l { drops = l.drops ++ cfg ∷ [] }

abbrev pub or_absent : Text → Text
or_absent [] = codes "absent"
or_absent (c ∷ act) = c ∷ act

-- A symbol that the fragment names and that did not stick: annotated or failed.
unfoldable pub record_asked : Text → Text → Text → List Text → Lists → Lists
record_asked cfg want got overrides l =
    if mem (bare cfg) overrides
    then add_info (annotated cfg want got) l
    else add_fail (record { cfg = cfg; want = want; got = got }) l

-- `_record_not_final`
unfoldable pub record_not_final : Text → Text → Text → Dict Text → List Text → Lists → Lists
unfolding record_asked
record_not_final cfg requested actual in_frag overrides l =
    let req = strip requested in
    let act = strip actual in
    let asked = has_key (bare cfg) in_frag in
    let want = if is_unset_line req cfg then unset else req in
    let got = or_absent act in
    if is_unset_line req cfg && is_unset_line act cfg
    then add_info (vanished cfg) l
    else if is_unset_line req cfg && not (is_unset_line act cfg)
    then (if asked then record_asked cfg want got overrides l else add_info (unsolicited cfg) l)
    else if not (is_unset_line req cfg) && is_unset_line act cfg
    then (if not asked then add_drop cfg l else record_asked cfg want got overrides l)
    else if asked
    then record_asked cfg want got overrides l
    else add_drop cfg l

-- What the lines behind a "not in final" line say, and the lines that are left.
pub record Request : Type 0 where
  pub requested : Text
  pub actual : Text
  pub rest : List Text

-- The inner `while`: at most `budget` more lines, to the actual value or a blank line.
unfoldable pub read_request : ℕ → Text → List Text → Request
unfolding requested_match actual_match strip text_eq
read_request zero requested lines = record { requested = requested; actual = []; rest = lines }
read_request (suc budget) requested [] = record { requested = requested; actual = []; rest = [] }
read_request (suc budget) requested (line ∷ lines) = elim (requested_match line) [
  | some value ↦ read_request budget value lines
  | none ↦ elim (actual_match line) [
    | some value ↦ record { requested = requested; actual = value; rest = lines }
    | none ↦
        let on = read_request budget requested lines in
        if text_eq (strip line) []
        then record { requested = requested; actual = []; rest = lines }
        else on
  ]
]

-- What one line of the log is.
pub data Line : Type 0 where
  is_redefined is_redundant is_not_final : Text → Line
  other : Line

unfoldable pub line_kind : Text → Line
unfolding redefined_match redundant_match not_final_match
line_kind line = elim (redefined_match line) [
  | some cfg ↦ is_redefined cfg
  | none ↦ elim (redundant_match line) [
    | some cfg ↦ is_redundant cfg
    | none ↦ elim (not_final_match line) [ some cfg ↦ is_not_final cfg | none ↦ other ]
  ]
]

-- Where the next round begins.
unfoldable pub after_line : Line → List Text → List Text
after_line (is_not_final cfg) lines = (read_request 4 [] lines).rest
after_line (is_redefined cfg) lines = lines
after_line (is_redundant cfg) lines = lines
after_line other lines = lines

module _ (in_frag : Dict Text) (overrides : List Text) where
  -- What a round appends.
  unfoldable pub record_line : Line → List Text → Lists → Lists
  record_line (is_redefined cfg) lines l = add_info (redefined cfg) l
  record_line (is_redundant cfg) lines l = add_info (redundant cfg) l
  record_line (is_not_final cfg) lines l =
      let r = read_request 4 [] lines in
      record_not_final cfg r.requested r.actual in_frag overrides l
  record_line other lines l = l

  -- The outer `while`: each round takes a line at least, so the number of lines is enough fuel.
  unfoldable pub classify_loop : ℕ → List Text → Lists → Lists
  classify_loop zero lines l = l
  classify_loop (suc fuel) [] l = l
  classify_loop (suc fuel) (line ∷ lines) l =
      let kind = line_kind line in
      classify_loop fuel (after_line kind lines) (record_line kind lines l)

-- `if drops: info.append(...)`
unfoldable pub summarize_drops : Lists → Lists
summarize_drops l = elim l.drops [
  | [] ↦ l
  | cfg ∷ drops ↦ add_info (dependent_drops (length l.drops)) l
]

unfoldable pub classify : Text → Text → Lists
classify frag log =
    let lines = splitlines log in
    summarize_drops
      (classify_loop (fragment_symbols frag) (merge_overrides frag) (length lines) lines no_lines)

-- `check_merge_log`: the exit status.
unfoldable pub check_merge_log : Text → Text → ℕ
check_merge_log frag log = elim (classify frag log).fails [ [] ↦ 0 | f ∷ fails ↦ 1 ]
