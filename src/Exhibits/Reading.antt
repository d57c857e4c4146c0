-- ===== src/Exhibits/Reading.antt =====
-- The report of scripts/label-linux-initcalls.py is read back whole by `parse_initcall_label_file`.
use whimbrel.Prelude.{ℕ, suc}
use whimbrel.Prelude.{◌≡◌, ◌≢◌, refl, sym, ap, ◌∙◌}
use whimbrel.Prelude.{Bool, true, false, some, arith}
use whimbrel.Prelude.{[], ◌∷◌, ◌++◌}
use whimbrel.Prelude.{◌==◌, All}
use whimbrel.Prelude.Text.{Text, codes, strip_prefix, run, is_digit, decimal, decimal_text}
use whimbrel.Prelude.TextLaws.{run-append, IsLine}
use whimbrel.Prelude.Decimal.{decimal-decimal_text, run-decimal_text, decimal_text_cons}
use whimbrel.Prelude.Int.{ℤ, pos, negsuc, sub_ℕ}
use whimbrel.Label.Serial.{signed}
use whimbrel.Label.Run.{Labeled}
use whimbrel.Label.Table.{int_text, table_row}
use whimbrel.Exhibits.Initcalls.{LabelRow, not_tick, is_decimal, label_row_match}

not_minus : (x : ℕ) → is_digit x ≡ true → (b'-' == x) ≡ false
unfolding is_digit
not_minus x h = ground arith

-- Without a sign the number is the run of digits.
signed_plain :
    (x : ℕ) (s : Text) (digits rest : Text)
    → is_digit x ≡ true
    → run is_digit (x ∷ s) ≡ some (digits, rest)
    → signed (x ∷ s) ≡ some (pos (decimal digits), rest)
unfolding signed strip_prefix
signed_plain x s digits rest h e = ground (arith, not_minus x h)

signed_minus :
    (s digits rest : Text)
    → run is_digit s ≡ some (digits, rest)
    → signed (b'-' ∷ s) ≡ some (sub_ℕ 0 (decimal digits), rest)
unfolding signed strip_prefix
signed_minus s digits rest e = rw e refl

signed-int_text :
    (z : ℤ) (c : ℕ) (s : Text) → is_digit c ≡ false → signed (int_text z ++ c ∷ s) ≡ some (z, c ∷ s)
unfolding int_text
signed-int_text (pos n) c s e =
    let (x, xs, is, digit) = decimal_text_cons n in
    let found : run is_digit (x ∷ xs ++ c ∷ s) ≡ some (x ∷ xs, c ∷ s) =
      rw is at (run-decimal_text n c s e) in
    let value : decimal (x ∷ xs) ≡ n = ap decimal (sym is) ∙ decimal-decimal_text n in
    rw is (signed_plain x (xs ++ c ∷ s) (x ∷ xs) (c ∷ s) digit found)
    ∙ ap (λ v. some (pos v, c ∷ s)) value
signed-int_text (negsuc n) c s e =
    let value : sub_ℕ 0 (suc n) ≡ negsuc n = ground arith in
    signed_minus (decimal_text (suc n) ++ c ∷ s) (decimal_text (suc n)) (c ∷ s)
      (run-decimal_text (suc n) c s e)
    ∙ ap (λ v. some (sub_ℕ 0 v, c ∷ s)) (decimal-decimal_text (suc n))
    ∙ ap (λ z. some (z, c ∷ s)) value

-- A row that the expression of the reader can match: a symbol that is not empty and has no tick.
abbrev pub IsReadable : Labeled → Type 0
IsReadable r = (r.symbol ≢ []) × All (λ c. not_tick c ≡ true) r.symbol × IsLine r.symbol

-- How a time is printed: some digits with a point.
abbrev pub IsFixed : (ℕ → Text) → Type 0
IsFixed fixed = (n : ℕ) → (fixed n ≢ []) × All (λ c. is_decimal c ≡ true) (fixed n)

run-some :
    (p : ℕ → Bool) (t : Text) (c : ℕ) (s : Text)
    → t ≢ []
    → All (λ x. p x ≡ true) t
    → p c ≡ false
    → run p (t ++ c ∷ s) ≡ some (t, c ∷ s)
run-some p [] c s h all e = absurd (h refl)
run-some p (x ∷ xs) c s h all e = run-append p x xs c s all e

space_no_digit : is_digit 32 ≡ false
unfolding is_digit
space_no_digit = refl

space_no_decimal : is_decimal 32 ≡ false
unfolding is_digit
space_no_decimal = refl

module _ (fixed : ℕ → Text) (is_fixed : IsFixed fixed) where
  -- What the reader makes of a row of the table.
  abbrev pub read_of : ℕ → Labeled → LabelRow
  read_of i r = record {
    rank = i;
    usecs = r.row.usecs;
    symbol = r.symbol;
    ret = r.row.ret;
    printk_s = fixed r.row.ns;
  }

  pub label_row_match-table_row :
      (i : ℕ) (r : Labeled)
      → IsReadable r
      → label_row_match (table_row fixed i r) ≡ some (read_of i r)
  unfolding label_row_match table_row strip_prefix
  label_row_match-table_row i r (filled, plain, line) =
      let time = codes " |" in
      let ret = codes " | " ++ (fixed r.row.ns ++ time) in
      let symbol = codes "` | " ++ (int_text r.row.ret ++ ret) in
      let usecs = codes " | `" ++ (r.symbol ++ symbol) in
      let (some_digits, digits) = is_fixed r.row.ns in
      rw
        (
          run-decimal_text i 32 (codes "| " ++ (decimal_text r.row.usecs ++ usecs)) space_no_digit,
          run-decimal_text r.row.usecs 32 (codes "| `" ++ (r.symbol ++ symbol)) space_no_digit,
          run-some not_tick r.symbol b'`' (codes " | " ++ (int_text r.row.ret ++ ret)) filled plain
              refl,
          signed-int_text r.row.ret 32 (codes "| " ++ (fixed r.row.ns ++ time)) space_no_digit,
          run-some is_decimal (fixed r.row.ns) 32 (codes "|") some_digits digits space_no_decimal,
          decimal-decimal_text i,
          decimal-decimal_text r.row.usecs,
        )
        refl
