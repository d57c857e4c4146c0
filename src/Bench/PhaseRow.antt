-- ===== src/Bench/PhaseRow.antt =====
-- The line formats of the phase dump that `parse_phases` of scripts/bench.py reads.
use whimbrel.Prelude.{ℕ}
use whimbrel.Prelude.{◌≡◌, refl, inl, inr}
use whimbrel.Prelude.{Bool, ◌&&◌, not, Option, none, some, arith}
use whimbrel.Prelude.{[], ◌∷◌}
use whimbrel.Prelude.{◌==◌, Option-cases}
use whimbrel.Prelude.{all, keep}
use whimbrel.Prelude.Text.{
  Text, codes, strip_prefix, starts_with, strip, is_space, is_digit, decimal, run,
}
use whimbrel.Prelude.Options.{◌>>=◌, ◌>>◌, guard}

pub record PhaseRow : Type 0 where
  pub phase : Text
  pub ticks : ℕ
  pub ns_since_e2 : ℕ
  pub delta_ticks : ℕ
  pub delta_ns : ℕ
  pub since_ticks : ℕ

-- `name=(\d+)` at the front
number_after : Text → Text → Option (ℕ × Text)
unfolding strip_prefix run is_digit decimal
number_after name s = do a ← strip_prefix name s; (n, rest) ← run is_digit a; some (decimal n, rest)

abbrev not_space : ℕ → Bool
not_space c = not (is_space c)

-- `PHASE_ROW_RE`
unfoldable pub row_match : Text → Option PhaseRow
unfolding number_after
row_match line = do
  a ← strip_prefix (codes "PHASE ") line
  (name, b) ← run not_space a
  (ticks, c) ← number_after (codes " ticks=") b
  (ns, d) ← number_after (codes " ns=") c
  (since, e) ← number_after (codes " since_start=") d
  (since_ns, f) ← number_after (codes " ns=") e
  (delta, g) ← number_after (codes " delta=") f
  (delta_ns, h) ← number_after (codes " ns=") g
  guard (all is_space h)
  some (record {
    phase = name;
    ticks = ticks;
    ns_since_e2 = since_ns;
    delta_ticks = delta;
    delta_ns = delta_ns;
    since_ticks = since;
  })

-- `PHASE_UNSET_RE`
unfoldable pub unset_match : Text → Option Text
unset_match line = do
  a ← strip_prefix (codes "PHASE ") line
  (name, b) ← run not_space a
  c ← strip_prefix (codes " unset") b
  guard (all is_space c)
  some name

-- `raw.replace("\r", "").strip()`
unfoldable pub clean : Text → Text
clean raw = strip (keep (λ c. not (c == 13)) raw)

-- A line that the loop does not skip.
unfoldable pub is_data : Text → Bool
is_data line = starts_with line (codes "PHASE") && not (starts_with line (codes "PHASE ticks ("))

not_both :
    (b : Text) (n : ℕ) (rest : Text)
    → number_after (codes " ticks=") b ≡ some (n, rest)
    → strip_prefix (codes " unset") b ≡ none
unfolding number_after strip_prefix
not_both [] n rest h = ground arith
not_both (c ∷ []) n rest h = ground arith
not_both (c ∷ d ∷ b) n rest h = ground arith

-- A row is not a line of an unset stamp.
pub row_match-not_unset :
    (line : Text) (row : PhaseRow) → row_match line ≡ some row → unset_match line ≡ none
unfolding row_match unset_match
row_match-not_unset line row h = elim (Option-cases (strip_prefix (codes "PHASE ") line)) [
  | inl e ↦ rw e refl
  | inr (a, e) ↦ elim (Option-cases (run not_space a)) [
    | inl f ↦ rw (e, f) refl
    | inr ((name, b), f) ↦ elim (Option-cases (number_after (codes " ticks=") b)) [
      | inl g ↦ absurd (ground arith)
      | inr ((n, rest), g) ↦ rw (e, f, not_both b n rest g) refl
    ]
  ]
]
