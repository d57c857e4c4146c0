-- ===== src/Merge/Fuel.antt =====
-- The loop of `classify` never needs more rounds than the log has lines.
use whimbrel.Prelude.{ℕ, zero, suc, ◌+◌, ◌≤◌}
use whimbrel.Prelude.{◌≡◌, refl, inl, inr}
use whimbrel.Prelude.{arith}
use whimbrel.Prelude.{List, [], ◌∷◌}
use whimbrel.Prelude.{Bool-cases, Option-cases}
use whimbrel.Prelude.{length}
use whimbrel.Prelude.Text.{Text, text_eq, strip}
use whimbrel.Prelude.Dict.{Dict}
use Prim.Native.Nat.add
use whimbrel.Merge.Kconfig.{requested_match, actual_match}
use whimbrel.Merge.Classify.{
  Lists, Line, is_redefined, is_redundant, is_not_final, other, line_kind,
}
use whimbrel.Merge.Classify.{read_request, after_line, record_line, classify_loop}

-- Reading a report leaves no more lines than it was given.
read_request-le :
    (budget : ℕ) (requested : Text) (lines : List Text)
    → length (read_request budget requested lines).rest ≤ length lines
unfolding read_request
read_request-le zero requested lines = omega arith
read_request-le (suc budget) requested [] = omega arith
read_request-le (suc budget) requested (line ∷ lines) = elim (Option-cases (requested_match line)) [
  | inr (v, e) ↦ rw e (omega (arith, read_request-le budget v lines))
  | inl e ↦ rw e (elim (Option-cases (actual_match line)) [
    | inr (v, f) ↦ rw f (omega arith)
    | inl f ↦ rw f (elim (Bool-cases (text_eq (strip line) [])) [
      | inl g ↦ rw g (omega arith)
      | inr g ↦ rw g (omega (arith, read_request-le budget requested lines))
    ])
  ])
]

after_line-le : (k : Line) (lines : List Text) → length (after_line k lines) ≤ length lines
unfolding after_line
after_line-le (is_not_final cfg) lines = read_request-le 4 [] lines
after_line-le (is_redefined cfg) lines = omega arith
after_line-le (is_redundant cfg) lines = omega arith
after_line-le other lines = omega arith

-- With at least as much fuel as lines, the result does not depend on the fuel: the loop of
-- `classify` ends by its own test.
pub classify_loop_enough :
    (in_frag : Dict Text) (overrides : List Text) (fuel more : ℕ) (lines : List Text) (l : Lists)
    → length lines ≤ fuel
    → classify_loop in_frag overrides (fuel + more) lines l
      ≡ classify_loop in_frag overrides fuel lines l
unfolding classify_loop
classify_loop_enough d o zero zero lines l h = refl
classify_loop_enough d o zero (suc more) [] l h = rw add.zero refl
classify_loop_enough d o zero (suc more) (line ∷ lines) l h = absurd (omega arith)
classify_loop_enough d o (suc fuel) more [] l h = rw add.suc refl
classify_loop_enough d o (suc fuel) more (line ∷ lines) l h =
    let k = line_kind line in
    rw add.suc (
      classify_loop_enough d o fuel more (after_line k lines) (record_line d o k lines l)
        (omega (arith, after_line-le k lines)))
