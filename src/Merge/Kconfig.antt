-- ===== src/Merge/Kconfig.antt =====
-- The lines that scripts/linux-merge-warnings.py recognises: fragments, `.config` and annotations.
use whimbrel.Prelude.{ℕ}
use whimbrel.Prelude.{sym}
use whimbrel.Prelude.{Bool, true, false, ◌&&◌, ◌||◌, not, Option, none, some}
use whimbrel.Prelude.{List, [], ◌∷◌, ◌++◌}
use whimbrel.Prelude.{leb, ◌==◌, if◌then◌else◌}
use whimbrel.Prelude.Text.{
  Text, codes, text_eq, strip_prefix, run, is_word, strip, lstrip, splitlines,
}
use whimbrel.Prelude.Options.{◌>>=◌}
use whimbrel.Prelude.Dict.{Dict, insert}

abbrev pub config_ : Text
config_ = codes "CONFIG_"

-- `[A-Z0-9_]`
unfoldable pub is_symbol : ℕ → Bool
is_symbol c = (leb 65 c && leb c 90) || (leb 48 c && leb c 57) || (c == b'_')

-- `in` on a set of texts
unfoldable pub mem : Text → List Text → Bool
unfolding text_eq
mem k [] = false
mem k (j ∷ ks) = text_eq j k || mem k ks

-- `bare`
unfoldable pub bare : Text → Text
unfolding strip_prefix
bare cfg = elim (strip_prefix config_ cfg) [ none ↦ cfg | some name ↦ name ]

abbrev pub unset_line : Text → Text
unset_line cfg = codes "# " ++ cfg ++ codes " is not set"

-- `is_unset_line`
unfoldable pub is_unset_line : Text → Text → Bool
unfolding strip text_eq
is_unset_line val cfg = let v = strip val in text_eq v [] || text_eq v (unset_line cfg)

-- `$`
abbrev at_end : Text → Option (Unit {0})
at_end [] = some tt
at_end (c ∷ s) = none

-- `FRAG_Y_RE` and `CFG_Y_RE`: the symbol and what follows the sign.
unfoldable pub y_match : Text → Option (Text × Text)
y_match s = do
  a ← strip_prefix config_ s
  (sym, b) ← run is_symbol a
  val ← strip_prefix (codes "=") b
  some (sym, val)

-- `FRAG_N_RE` and `CFG_N_RE`
unfoldable pub n_match : Text → Option Text
n_match s = do
  a ← strip_prefix (codes "# CONFIG_") s
  (sym, b) ← run is_symbol a
  c ← strip_prefix (codes " is not set") b
  end ← at_end c
  some sym

abbrev pub unset : Text
unset = codes "unset"

-- What one line sets, in a fragment and in a `.config`.
unfoldable pub setting : Text → Option (Text × Text)
setting s = elim (y_match s) [
  | some (sym, val) ↦ some (sym, strip val)
  | none ↦ (do sym ← n_match s; some (sym, unset))
]

-- The two loops: a later line of a symbol replaces an earlier one.
unfoldable pub settings : (Text → Text) → Dict Text → List Text → Dict Text
settings clean d [] = d
settings clean d (raw ∷ lines) = elim (setting (clean raw)) [
  | none ↦ settings clean d lines
  | some (sym, val) ↦ settings clean (insert sym val d) lines
]

-- `fragment_symbols`, which strips each line first
unfoldable pub fragment_symbols : Text → Dict Text
fragment_symbols frag = settings strip [] (splitlines frag)

-- `parse_final_config`, which does not
unfoldable pub parse_final_config : Text → Dict Text
parse_final_config text = settings (λ line. line) [] (splitlines text)

-- `([A-Z0-9_]+)\b`
abbrev ends_word : Text → Bool
ends_word [] = true
ends_word (c ∷ s) = not (is_word c)

name_here : Text → Option Text
unfolding run is_symbol is_word
name_here s = do (sym, rest) ← run is_symbol s; if ends_word rest then some sym else none

-- `MERGE_OVERRIDE_RE`: the prefix `CONFIG_` is skipped if a name still follows it.
unfoldable pub override_match : Text → Option Text
unfolding strip_prefix name_here
override_match s = do
  a ← strip_prefix (codes "# merge-override ") s
  elim (strip_prefix config_ a) [
    | none ↦ name_here a
    | some b ↦ elim (name_here b) [ none ↦ name_here a | some sym ↦ some sym ]
  ]

overrides_of : List Text → List Text
unfolding override_match strip
overrides_of [] = []
overrides_of (raw ∷ lines) =
    let rest = overrides_of lines in
    elim (override_match (strip raw)) [ none ↦ rest | some sym ↦ sym ∷ rest ]

-- `merge_overrides`
unfoldable pub merge_overrides : Text → List Text
unfolding overrides_of splitlines
merge_overrides frag = overrides_of (splitlines frag)

-- `Value of CONFIG_X is ...` and the like: the symbol with its prefix.
unfoldable pub value_match : Text → Text → Text → Option Text
unfolding strip_prefix run is_symbol
value_match before after line = do
  a ← strip_prefix before line
  b ← strip_prefix config_ a
  (name, c) ← run is_symbol b
  rest ← strip_prefix after c
  some (config_ ++ name)

-- `REDEFINED_RE`, `REDUNDANT_RE`, `NOT_FINAL_RE`
unfoldable pub redefined_match : Text → Option Text
unfolding value_match
redefined_match = value_match (codes "Value of ") (codes " is redefined by fragment ")

unfoldable pub redundant_match : Text → Option Text
unfolding value_match
redundant_match = value_match (codes "Value of ") (codes " is redundant by fragment ")

unfoldable pub not_final_match : Text → Option Text
unfolding value_match
not_final_match = value_match (codes "Value requested for ") (codes " not in final .config")

-- `REQUESTED_RE`, `ACTUAL_RE`
unfoldable pub requested_match : Text → Option Text
unfolding strip_prefix lstrip
requested_match line = do v ← strip_prefix (codes "Requested value:") line; some (lstrip v)

unfoldable pub actual_match : Text → Option Text
unfolding strip_prefix lstrip
actual_match line = do v ← strip_prefix (codes "Actual value:") line; some (lstrip v)
