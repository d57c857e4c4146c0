-- ===== src/Prelude/Text.antt =====
-- Text as its list of code points, and the methods of `str` that the scripts use.
use Prim.Native.Nat.{ℕ, zero, suc, ◌+◌, ◌-◌, ◌*◌, ◌/◌, ◌%◌}
use Prim.Native.Char.{code}
use Prim.Native.String.{String}
use mathlib.Core.Path.{◌≡◌, refl}
use mathlib.Core.Logic.{◌↔◌}
use mathlib.Core.Bool.{Bool, true, false, ◌&&◌, ◌||◌}
use mathlib.Core.Option.{Option, none, some}
use mathlib.Core.List.{List, [], ◌∷◌, reverse}
use native.Mathlib.Omega.{arith}
use whimbrel.Prelude.Tests.{ltb, leb, ◌==◌, if◌then◌else◌, is_some}

abbrev pub Text : Type 0
Text = List ℕ

abbrev pub codes : String → Text
codes String.[] = []
codes (String.◌∷◌ c s) = code c ∷ codes s

unfoldable pub text_eq : Text → Text → Bool
text_eq [] [] = true
text_eq [] (d ∷ t) = false
text_eq (c ∷ s) [] = false
text_eq (c ∷ s) (d ∷ t) = (c == d) && text_eq s t

pub text_eq_iff : (s t : Text) → (text_eq s t ≡ true) ↔ (s ≡ t)
unfolding text_eq
text_eq_iff [] [] = (λ _. refl, λ _. refl)
text_eq_iff [] (d ∷ t) = (λ h. cc, λ h. cc)
text_eq_iff (c ∷ s) [] = (λ h. cc, λ h. cc)
text_eq_iff (c ∷ s) (d ∷ t) = ground (arith, text_eq_iff s t)

pub text_eq_refl : (s : Text) → text_eq s s ≡ true
text_eq_refl s = (text_eq_iff s s).1 refl

-- `s.startswith(p)`, with what follows the prefix.
unfoldable pub strip_prefix : Text → Text → Option Text
strip_prefix [] s = some s
strip_prefix (c ∷ p) [] = none
strip_prefix (c ∷ p) (d ∷ s) = if c == d then strip_prefix p s else none

unfoldable pub starts_with : Text → Text → Bool
unfolding strip_prefix
starts_with s p = is_some (strip_prefix p s)

-- `p in s`
unfoldable pub contains : Text → Text → Bool
unfolding strip_prefix
contains p [] = is_some (strip_prefix p [])
contains p (c ∷ s) = is_some (strip_prefix p (c ∷ s)) || contains p s

-- The longest run of characters of a class, as a regular expression's `[...]*` takes it.
unfoldable pub span : (ℕ → Bool) → Text → Text × Text
span p [] = ([], [])
span p (c ∷ s) = let (run, rest) = span p s in if p c then (c ∷ run, rest) else ([], c ∷ s)

-- `str.isspace` of one character
unfoldable pub is_space : ℕ → Bool
is_space c =
    (leb 9 c && leb c 13)
    || (leb 28 c && leb c 32)
    || (c == 0x85)
    || (c == 0xa0)
    || (c == 0x1680)
    || (leb 0x2000 c && leb c 0x200a)
    || (c == 0x2028)
    || (c == 0x2029)
    || (c == 0x202f)
    || (c == 0x205f)
    || (c == 0x3000)

-- `s.lstrip()`
unfoldable pub lstrip : Text → Text
unfolding is_space
lstrip [] = []
lstrip (c ∷ s) = if is_space c then lstrip s else c ∷ s

-- `s.strip()`
unfoldable pub strip : Text → Text
unfolding lstrip
strip s = reverse (lstrip (reverse (lstrip s)))

-- The line boundaries of `str.splitlines`, `\r\n` apart.
unfoldable pub is_line_end : ℕ → Bool
is_line_end c =
    (leb 10 c && leb c 13)
    || (leb 28 c && leb c 30)
    || (c == 0x85)
    || (c == 0x2028)
    || (c == 0x2029)

-- Puts a character in front of the first line of those that follow it.
abbrev extend : ℕ → List Text → List Text
extend c [] = (c ∷ []) ∷ []
extend c (line ∷ lines) = (c ∷ line) ∷ lines

-- `s.splitlines()`: the last line needs no end, and `\r\n` ends one line.
unfoldable pub splitlines : Text → List Text
unfolding is_line_end
splitlines [] = []
splitlines (c ∷ []) = if is_line_end c then [] ∷ [] else (c ∷ []) ∷ []
splitlines (c ∷ d ∷ s) =
    let rest = splitlines (d ∷ s) in
    let after_pair = splitlines s in
    if (c == 13) && (d == 10)
    then [] ∷ after_pair
    else if is_line_end c
    then [] ∷ rest
    else extend c rest

abbrev add_word : Text → List Text → List Text
add_word [] ws = ws
add_word (c ∷ w) ws = (c ∷ w) ∷ ws

-- `s.split()`: `word` is the word under way, reversed.
split_from : Text → Text → List Text
unfolding is_space
split_from word [] = add_word (reverse word) []
split_from word (c ∷ s) =
    let next = split_from [] s in
    let more = split_from (c ∷ word) s in if is_space c then add_word (reverse word) next else more

unfoldable pub split : Text → List Text
unfolding split_from
split s = split_from [] s

-- `s.split(c)`: there is always at least one field.
unfoldable pub split_on : ℕ → Text → List Text
split_on sep [] = [] ∷ []
split_on sep (c ∷ s) = let rest = split_on sep s in if c == sep then [] ∷ rest else extend c rest

-- `s.split(c, 1)`, where `c` occurs
unfoldable pub split_once : ℕ → Text → Option (Text × Text)
split_once sep [] = none
split_once sep (c ∷ s) =
    let rest = split_once sep s in
    if c == sep then some ([], s) else elim rest [ none ↦ none | some (a, b) ↦ some (c ∷ a, b) ]

unfoldable pub is_digit : ℕ → Bool
is_digit c = leb 48 c && leb c 57

-- The value of a run of decimal digits.
unfoldable pub decimal_from : ℕ → Text → ℕ
decimal_from acc [] = acc
decimal_from acc (c ∷ s) = decimal_from (acc * 10 + (c - 48)) s

unfoldable pub decimal : Text → ℕ
unfolding decimal_from
decimal s = decimal_from 0 s

-- `s <= t` on texts: by the first character that differs.
unfoldable pub text_leb : Text → Text → Bool
text_leb [] t = true
text_leb (c ∷ s) [] = false
text_leb (c ∷ s) (d ∷ t) = ltb c d || ((c == d) && text_leb s t)

pub text_leb_total : (s t : Text) → text_leb s t ≡ false → text_leb t s ≡ true
unfolding text_leb
text_leb_total [] t h = cc
text_leb_total (c ∷ s) [] h = refl
text_leb_total (c ∷ s) (d ∷ t) h = ground (arith, text_leb_total s t)

pub text_leb_trans :
    (s t u : Text) → text_leb s t ≡ true → text_leb t u ≡ true → text_leb s u ≡ true
unfolding text_leb
text_leb_trans [] t u h k = refl
text_leb_trans (c ∷ s) [] u h k = cc
text_leb_trans (c ∷ s) (d ∷ t) [] h k = cc
text_leb_trans (c ∷ s) (d ∷ t) (e ∷ u) h k = ground (arith, text_leb_trans s t u)

-- The value of a hexadecimal digit.
unfoldable pub hex_value : ℕ → Option ℕ
hex_value c =
    if leb 48 c && leb c 57
    then some (c - 48)
    else if leb 65 c && leb c 70
    then some (c - 55)
    else if leb 97 c && leb c 102
    then some (c - 87)
    else none

-- Digits with single underscores between them; `after` says whether one may follow.
hex_digits : ℕ → Bool → Text → Option ℕ
unfolding hex_value
hex_digits acc after [] = if after then some acc else none
hex_digits acc after (c ∷ s) =
    let skip = hex_digits acc false s in
    elim (hex_value c) [
      | some v ↦ hex_digits (acc * 16 + v) true s
      | none ↦ if (c == b'_') && after then skip else none
    ]

-- `int(s, 16)` of a word; `none` is the `ValueError`. A minus sign is read as an error.
unfoldable pub int_hex : Text → Option ℕ
unfolding hex_digits strip_prefix
int_hex s =
    let unsigned : Text = elim (strip_prefix (codes "+") s) [ none ↦ s | some t ↦ t ] in
    elim (strip_prefix (codes "0x") unsigned) [
      | some [] ↦ none
      | some (c ∷ t) ↦ hex_digits 0 true (c ∷ t)
      | none ↦ elim (strip_prefix (codes "0X") unsigned) [
        | some [] ↦ none
        | some (c ∷ t) ↦ hex_digits 0 true (c ∷ t)
        | none ↦ hex_digits 0 false unsigned
      ]
    ]

-- A run of one or more characters of a class, and what follows it: `[...]+`.
abbrev nonempty_run : Text × Text → Option (Text × Text)
nonempty_run ([], rest) = none
nonempty_run (c ∷ run, rest) = some (c ∷ run, rest)

unfoldable pub run : (ℕ → Bool) → Text → Option (Text × Text)
unfolding span
run p s = nonempty_run (span p s)

-- `\s` once
unfoldable pub one_space : Text → Option Text
unfolding is_space
one_space [] = none
one_space (c ∷ s) = if is_space c then some s else none

-- `\s+`
unfoldable pub spaces : Text → Option Text
unfolding one_space lstrip
spaces s = elim (one_space s) [ none ↦ none | some t ↦ some (lstrip t) ]

-- `\w`, of ASCII
unfoldable pub is_word : ℕ → Bool
is_word c =
    (leb 48 c && leb c 57) || (leb 65 c && leb c 90) || (leb 97 c && leb c 122) || (c == b'_')

-- One digit, in lower case.
abbrev pub digit_char : ℕ → ℕ
digit_char d = if ltb d 10 then 48 + d else 87 + d

-- `f"{n:x}"` and `f"{n}"`: the digits of `n`, in front of those done. The fuel is above `n`.
unfoldable pub base_text : ℕ → ℕ → ℕ → Text → Text
base_text base zero n done = done
base_text base (suc fuel) n done =
    let digits = digit_char (n % base) ∷ done in
    let more = base_text base fuel (n / base) digits in if ltb n base then digits else more

unfoldable pub hex_text : ℕ → Text
unfolding base_text
hex_text n = base_text 16 (suc n) n []

unfoldable pub decimal_text : ℕ → Text
unfolding base_text
decimal_text n = base_text 10 (suc n) n []
