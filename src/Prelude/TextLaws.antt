-- ===== src/Prelude/TextLaws.antt =====
-- Laws of the text functions: prefixes, runs of a class, and lines that were joined.
use Prim.Native.Nat.{ℕ}
use mathlib.Core.Path.{◌≡◌, refl, ap, ◌∙◌}
use mathlib.Core.Bool.{Bool, true, false}
use mathlib.Core.Option.{some}
use mathlib.Core.List.{List, [], ◌∷◌, ◌++◌}
use native.Mathlib.Omega.{arith}
use whimbrel.Prelude.Tests.{◌==◌}
use whimbrel.Prelude.Lists.{All}
use whimbrel.Prelude.Text.{Text, strip_prefix, span, run, is_line_end, splitlines}

pub strip_prefix-append : (p s : Text) → strip_prefix p (p ++ s) ≡ some s
unfolding strip_prefix
strip_prefix-append [] s = refl
strip_prefix-append (c ∷ p) s = ground (arith, strip_prefix-append p s)

-- A run of the class up to a character outside it.
pub span-append :
    (p : ℕ → Bool) (xs : Text) (c : ℕ) (s : Text)
    → All (λ x. p x ≡ true) xs
    → p c ≡ false
    → span p (xs ++ c ∷ s) ≡ (xs, c ∷ s)
unfolding span
span-append p [] c s h e = rw e refl
span-append p (x ∷ xs) c s (q, h) e = rw (q, span-append p xs c s h e) refl

pub run-append :
    (p : ℕ → Bool) (x : ℕ) (xs : Text) (c : ℕ) (s : Text)
    → All (λ x. p x ≡ true) (x ∷ xs)
    → p c ≡ false
    → run p (x ∷ xs ++ c ∷ s) ≡ some (x ∷ xs, c ∷ s)
unfolding run
run-append p x xs c s h e = rw (span-append p (x ∷ xs) c s h e) refl

-- No character of the text ends a line.
abbrev pub IsLine : Text → Type 0
IsLine = All (λ c. is_line_end c ≡ false)

not_return : (c : ℕ) → is_line_end c ≡ false → (c == 13) ≡ false
unfolding is_line_end
not_return c h = ground arith

-- Lines that were each ended by a newline are read back.
pub splitlines-append :
    (line rest : Text) → IsLine line → splitlines (line ++ 10 ∷ rest) ≡ line ∷ splitlines rest
unfolding splitlines
splitlines-append [] [] h = refl
splitlines-append [] (d ∷ rest) h = refl
splitlines-append (c ∷ []) rest (e, h) = rw (not_return c e, e, splitlines-append [] rest tt) refl
splitlines-append (c ∷ d ∷ line) rest (e, h) =
    rw (not_return c e, e, splitlines-append (d ∷ line) rest h) refl

-- `"".join(line + "\n" for line in lines)`
abbrev pub join_lines : List Text → Text
join_lines [] = []
join_lines (line ∷ lines) = line ++ 10 ∷ join_lines lines

pub splitlines-join_lines :
    (lines : List Text) → All IsLine lines → splitlines (join_lines lines) ≡ lines
splitlines-join_lines [] h = unfold splitlines in refl
splitlines-join_lines (line ∷ lines) (h, hs) =
    splitlines-append line (join_lines lines) h ∙ ap (◌∷◌ line) (splitlines-join_lines lines hs)
