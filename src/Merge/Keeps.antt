-- ===== src/Merge/Keeps.antt =====
-- `check_keeps` of scripts/linux-merge-warnings.py, and the round trip of a `.config`.
use whimbrel.Prelude.{All-append}
use whimbrel.Prelude.{ℕ}
use whimbrel.Prelude.{◌≡◌, refl, sym, ap, ◌↔◌, ◌⊎◌, inl, inr}
use whimbrel.Prelude.{Bool, true, false, not, Option, none, some, arith}
use whimbrel.Prelude.{List, [], ◌∷◌, ◌++◌, map, reverse}
use whimbrel.Prelude.{keep, keep-nil_iff, All}
use mathlib.Core.List.{reverse_aux}
use mathlib.Core.Option.{some-injective}
use whimbrel.Prelude.Sort.{All-map}
use whimbrel.Prelude.Text.{Text, codes, text_eq, text_eq_iff, strip, strip_prefix, is_line_end}
use whimbrel.Prelude.TextLaws.{
  IsLine, strip_prefix-append, run-append, join_lines, splitlines-join_lines,
}
use whimbrel.Prelude.Dict.{Dict, lookup}
use whimbrel.Merge.Kconfig.{
  config_, is_symbol, unset, y_match, n_match, setting, settings, parse_final_config,
}

-- `KEEP_Y`
abbrev pub keep_y : List Text
keep_y =
    codes "TTY"
    ∷ codes "SERIAL_8250"
    ∷ codes "SERIAL_8250_CONSOLE"
    ∷ codes "SERIAL_OF_PLATFORM"
    ∷ codes "PRINTK"
    ∷ codes "NETDEVICES"
    ∷ codes "VIRTIO_MENU"
    ∷ codes "VIRTIO_MMIO"
    ∷ codes "VIRTIO_NET"
    ∷ codes "NET"
    ∷ codes "INET"
    ∷ codes "BLK_DEV_INITRD"
    ∷ codes "BINFMT_ELF"
    ∷ codes "DEVTMPFS"
    ∷ codes "FUTEX"
    ∷ []

-- A row of the table, without its wording.
pub record Kept : Type 0 where
  pub sym : Text
  pub got : Text
  pub passed : Bool

abbrev pub or_else_absent : Option Text → Text
or_else_absent none = codes "absent"
or_else_absent (some v) = v

unfoldable pub kept_row : Dict Text → Text → Kept
kept_row final sym =
    let got = or_else_absent (lookup sym final) in
    record { sym = sym; got = got; passed = text_eq got (codes "y") }

unfoldable pub kept_rows : Dict Text → List Text → List Kept
kept_rows final [] = []
kept_rows final (sym ∷ syms) = kept_row final sym ∷ kept_rows final syms

-- The table, and the rows that fail.
unfoldable pub check_keeps : Text → List Kept × List Kept
check_keeps cfg_text =
    let table = kept_rows (parse_final_config cfg_text) keep_y in
    (table, keep (λ (k : Kept). not k.passed) table)

-- What a line of a `.config` says of a symbol: its value, or that it is not set.
pub record Setting : Type 0 where
  pub sym : Text
  pub val : Option Text

abbrev pub HasName : Text → Type 0
HasName [] = ⊥
HasName (c ∷ s) = All (λ x. is_symbol x ≡ true) (c ∷ s)

abbrev pub HasValue : Option Text → Type 0
HasValue none = Unit
HasValue (some v) = IsLine v × (strip v ≡ v)

abbrev pub IsWellFormed : Setting → Type 0
IsWellFormed s = HasName s.sym × HasValue s.val

abbrev pub print_val : Text → Option Text → Text
print_val sym none = codes "# CONFIG_" ++ sym ++ codes " is not set"
print_val sym (some v) = config_ ++ sym ++ b'=' ∷ v

abbrev pub print_setting : Setting → Text
print_setting s = print_val s.sym s.val

abbrev pub val_text : Option Text → Text
val_text none = unset
val_text (some v) = v

abbrev pub entry_of : Setting → Text × Text
entry_of s = (s.sym, val_text s.val)

abbrev pub print_config : List Setting → Text
print_config ss = join_lines (map print_setting ss)

outside : (c : ℕ) → c ≡ 61 ⊎ c ≡ 32 → is_symbol c ≡ false
unfolding is_symbol
outside c h = ground arith

y_match-print :
    (c : ℕ) (s v : Text) → HasName (c ∷ s) → y_match (print_val (c ∷ s) (some v)) ≡ some (c ∷ s, v)
unfolding y_match
y_match-print c s v h = rw (
  strip_prefix-append config_ (c ∷ s ++ 61 ∷ v),
  run-append is_symbol c s 61 v h (outside 61 (inl refl)),
  strip_prefix-append (codes "=") v,
)

y_match-hash : (sym : Text) → y_match (print_val sym none) ≡ none
unfolding y_match strip_prefix
y_match-hash sym = refl

n_match-print :
    (c : ℕ) (s : Text) → HasName (c ∷ s) → n_match (print_val (c ∷ s) none) ≡ some (c ∷ s)
unfolding n_match
n_match-print c s h =
    let tail = codes "is not set" in
    rw (
      strip_prefix-append (codes "# CONFIG_") (c ∷ s ++ 32 ∷ tail),
      run-append is_symbol c s 32 tail h (outside 32 (inr refl)),
      strip_prefix-append (32 ∷ tail) [],
    )

setting-print :
    (sym : Text) (val : Option Text)
    → HasName sym
    → HasValue val
    → setting (print_val sym val) ≡ some (sym, val_text val)
unfolding setting
setting-print [] val h hv = absurd h
setting-print (c ∷ s) none h hv = rw (y_match-hash (c ∷ s), n_match-print c s h, setting)
setting-print (c ∷ s) (some v) h (line, stripped) = rw (y_match-print c s v h, stripped, setting)

settings-print :
    (ss : List Setting) (d : Dict Text)
    → All IsWellFormed ss
    → settings (λ line. line) d (map print_setting ss) ≡ reverse_aux (map entry_of ss) d
unfolding settings
settings-print [] d h = refl
settings-print (s ∷ ss) d ((name, value), h) =
    rw (setting-print s.sym s.val name value, settings) (settings-print ss (entry_of s ∷ d) h)

symbol_line : (c : ℕ) → is_symbol c ≡ true → is_line_end c ≡ false
unfolding is_symbol is_line_end
symbol_line c h = ground arith

name-IsLine : (sym : Text) → HasName sym → IsLine sym
name-IsLine [] h = absurd h
name-IsLine (c ∷ s) h = All-map symbol_line (c ∷ s) h

literal-IsLine :
    IsLine (codes "# CONFIG_")
    × IsLine config_
    × IsLine (codes " is not set")
    × (is_line_end 61 ≡ false)
unfolding is_line_end
literal-IsLine = ground arith

print_setting-IsLine :
    (sym : Text) (val : Option Text) → HasName sym → HasValue val → IsLine (print_val sym val)
print_setting-IsLine sym none h hv =
    All-append _ (codes "# CONFIG_") _ literal-IsLine.0
      (All-append _ sym _ (name-IsLine sym h) literal-IsLine.2)
print_setting-IsLine sym (some v) h (line, stripped) =
    All-append _ config_ _ literal-IsLine.1
      (All-append _ sym (61 ∷ v) (name-IsLine sym h) (literal-IsLine.3, line))

print_config-IsLine : (ss : List Setting) → All IsWellFormed ss → All IsLine (map print_setting ss)
print_config-IsLine [] h = tt
print_config-IsLine (s ∷ ss) ((name, value), h) =
    (print_setting-IsLine s.sym s.val name value, print_config-IsLine ss h)

-- A printed `.config` is read back whole, the settings of symbols that are not set included: the
-- dict holds the settings in the reverse order, so that the last line of a symbol counts.
pub parse_final_config-print :
    (ss : List Setting)
    → All IsWellFormed ss
    → parse_final_config (print_config ss) ≡ reverse (map entry_of ss)
unfolding parse_final_config
parse_final_config-print ss h =
    rw (splitlines-join_lines (map print_setting ss) (print_config-IsLine ss h))
      (settings-print ss [] h)

-- The kept symbols of a text, each with `y`.
abbrev pub IsKept : Text → Text → Type 0
IsKept cfg_text sym = lookup sym (parse_final_config cfg_text) ≡ some (codes "y")

is_y_iff :
    (o : Option Text) → (text_eq (or_else_absent o) (codes "y") ≡ true) ↔ (o ≡ some (codes "y"))
is_y_iff none = (λ h. absurd (unfold text_eq in let no_text : false ≡ true = h in cc), λ h. cc)
is_y_iff (some v) = (
  λ h. ap some ((text_eq_iff v (codes "y")).0 h),
  λ h. (text_eq_iff v (codes "y")).1 (some-injective v _ h),
)

not-false : (b : Bool) → not b ≡ false → b ≡ true
not-false true h = refl
not-false false h = cc

kept_row_iff :
    (final : Dict Text) (sym : Text)
    → ((kept_row final sym).passed ≡ true) ↔ (lookup sym final ≡ some (codes "y"))
unfolding kept_row
kept_row_iff final sym = is_y_iff (lookup sym final)

kept_rows_iff :
    (final : Dict Text) (syms : List Text)
    → All (λ (k : Kept). not k.passed ≡ false) (kept_rows final syms)
      ↔ All (λ s. lookup s final ≡ some (codes "y")) syms
unfolding kept_rows
kept_rows_iff final [] = (λ _. tt, λ _. tt)
kept_rows_iff final (s ∷ syms) =
    let (row, back) = kept_row_iff final s in
    let (rows, backs) = kept_rows_iff final syms in
    (
      λ h. (row (not-false (kept_row final s).passed h.0), rows h.1),
      λ h. (ap not (back h.0), backs h.1),
    )

-- The check of a `.config` has no failure if and only if each of the kept symbols is set to `y`
-- there, by its last line.
pub check_keeps_iff :
    (cfg_text : Text)
    → ((check_keeps cfg_text).1 ≡ [])
      ↔ All (λ s. lookup s (parse_final_config cfg_text) ≡ some (codes "y")) keep_y
unfolding check_keeps
check_keeps_iff cfg_text =
    let rows = kept_rows (parse_final_config cfg_text) keep_y in
    let (to, from) = keep-nil_iff (λ (k : Kept). not k.passed) rows in
    let (every, each) = kept_rows_iff (parse_final_config cfg_text) keep_y in
    (λ h. every (to h), λ h. from (each h))
