-- ===== src/Label/Serial.antt =====
-- `parse_serial` of scripts/label-linux-initcalls.py: printk stamps, the window, initcall returns.
use whimbrel.Prelude.{ℕ, zero, suc, ◌+◌, ◌*◌}
use whimbrel.Prelude.{Bool, false, Option, none, some}
use whimbrel.Prelude.{List, [], ◌∷◌, ◌++◌, reverse}
use whimbrel.Prelude.{◌==◌, if◌then◌else◌, is_some}
use whimbrel.Prelude.{take}
use whimbrel.Prelude.Text.{Text, codes, strip_prefix, lstrip, is_digit, decimal}
use whimbrel.Prelude.Text.{
  contains, splitlines, hex_value, int_hex, run, one_space, spaces, is_word,
}
use whimbrel.Prelude.Int.{ℤ, pos, sub_ℕ}
use whimbrel.Prelude.Options.{◌>>=◌}

-- `s.ljust(n, "0")`
ljust : ℕ → Text → Text
ljust zero s = s
ljust (suc n) [] = b'0' ∷ ljust n []
ljust (suc n) (c ∷ s) = c ∷ ljust n s

unfoldable pub printk_ns : Text → Text → ℕ
unfolding ljust decimal
printk_ns sec frac = decimal sec * 1_000_000_000 + decimal (take 9 (ljust 9 frac))

-- `PRINTK_RE`: the seconds, the fraction and the message.
unfoldable pub printk_match : Text → Option (Text × Text × Text)
unfolding run strip_prefix lstrip is_digit one_space
printk_match line = do
  a ← strip_prefix (codes "[") line
  (sec, b) ← run is_digit (lstrip a)
  c ← strip_prefix (codes ".") b
  (frac, d) ← run is_digit c
  e ← strip_prefix (codes "]") d
  msg ← one_space e
  some (sec, frac, msg)

abbrev is_hex : ℕ → Bool
is_hex c = is_some (hex_value c)

-- `(?:0x)?`
abbrev skip_0x : Text → Text
skip_0x s = elim (strip_prefix (codes "0x") s) [ none ↦ s | some t ↦ t ]

-- `-?\d+` as a number, and what follows it.
unfoldable pub signed : Text → Option (ℤ × Text)
unfolding strip_prefix run is_digit decimal
signed s = elim (strip_prefix (codes "-") s) [
  | none ↦ (do (n, rest) ← run is_digit s; some (pos (decimal n), rest))
  | some t ↦ (do (n, rest) ← run is_digit t; some (sub_ℕ 0 (decimal n), rest))
]

pub record Returned : Type 0 where
  pub addr : ℕ
  pub ret : ℤ
  pub usecs : ℕ

-- `INITCALL_RET_RE` at one position. The class of digits ends where `\s+` begins, so no other way
-- to match is left.
unfoldable pub returned_here : Text → Option Returned
unfolding strip_prefix spaces hex_value run signed is_digit decimal int_hex
returned_here s = do
  a ← strip_prefix (codes "initcall") s
  b ← spaces a
  (hex, c) ← run is_hex (skip_0x b)
  addr ← int_hex hex
  d ← spaces c
  e ← strip_prefix (codes "returned") d
  f ← spaces e
  (ret, g) ← signed f
  h ← spaces g
  i ← strip_prefix (codes "after") h
  j ← spaces i
  (usecs, k) ← run is_digit j
  l ← spaces k
  rest ← strip_prefix (codes "usecs") l
  some (record { addr = addr; ret = ret; usecs = decimal usecs })

-- `search`: the first position that matches; `\b` wants no word character before it.
search_returned : Bool → Text → Option Returned
unfolding returned_here is_word
search_returned inside [] = none
search_returned inside (c ∷ s) =
    let later = search_returned (is_word c) s in
    if inside then later else elim (returned_here (c ∷ s)) [ none ↦ later | some r ↦ some r ]

unfoldable pub initcall_returned : Text → Option Returned
unfolding search_returned
initcall_returned msg = search_returned false msg

-- One dict of `rows`.
pub record Row : Type 0 where
  pub addr : ℕ
  pub ret : ℤ
  pub usecs : ℕ
  pub ns : ℕ
  pub line : Text

pub record Parsed : Type 0 where
  pub rows : List Row
  pub hole_start : Option ℕ
  pub hole_end : Option ℕ

abbrev pub hole_start_sub : Text
hole_start_sub = codes "Key type dns_resolver registered"

abbrev pub hole_end_sub : Text
hole_end_sub = codes "clk: Disabling unused clocks"

-- `raw.rstrip("\r")`
drop_returns : Text → Text
drop_returns [] = []
drop_returns (c ∷ s) = if c == 13 then drop_returns s else c ∷ s

-- The loop's body on a line that matches `PRINTK_RE`.
unfoldable pub take_message : Parsed → ℕ → Text → Parsed
unfolding contains initcall_returned
take_message p ts msg =
    let start = if contains hole_start_sub msg then some ts else p.hole_start in
    let finish = if contains hole_end_sub msg then some ts else p.hole_end in
    let rows : List Row = elim (initcall_returned msg) [
      | none ↦ p.rows
      | some r ↦
          p.rows ++ record { addr = r.addr; ret = r.ret; usecs = r.usecs; ns = ts; line = msg } ∷ []
    ] in
    record { rows = rows; hole_start = start; hole_end = finish }

unfoldable pub parse_line : Parsed → Text → Parsed
unfolding drop_returns printk_match printk_ns take_message
parse_line p raw = elim (printk_match (reverse (drop_returns (reverse raw)))) [
  | none ↦ p
  | some (sec, frac, msg) ↦ take_message p (printk_ns sec frac) msg
]

parse_lines : Parsed → List Text → Parsed
unfolding parse_line
parse_lines p [] = p
parse_lines p (raw ∷ lines) = parse_lines (parse_line p raw) lines

unfoldable pub parse_serial : Text → Parsed
unfolding parse_lines splitlines
parse_serial text =
    parse_lines (record { rows = []; hole_start = none; hole_end = none }) (splitlines text)
