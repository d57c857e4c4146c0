-- ===== src/Bench/Dump.antt =====
-- A phase dump that is accepted is whole: each line is a row, and the rows add up to the listen time.
use whimbrel.Prelude.{ℕ, ◌+◌, ◌≤◌, max}
use whimbrel.Prelude.{◌≡◌, refl, sym, ap, ◌≢◌, ◌↔◌, inl, inr}
use whimbrel.Prelude.{true, Option, none, some, arith}
use whimbrel.Prelude.{List, [], ◌∷◌, map}
use whimbrel.Prelude.{Bool-cases, Option-cases, is_some}
use whimbrel.Prelude.{take, keep}
use whimbrel.Prelude.{ok, err, ◌>>=◌, Result-cases, ok-injective, bind-ok}
use whimbrel.Prelude.Text.{Text, codes, text_eq, text_eq_iff, splitlines}
use whimbrel.Bench.Failure.{missing_phase}
use whimbrel.Bench.PhaseRow.{PhaseRow, row_match, unset_match, clean, is_data, row_match-not_unset}
use whimbrel.Bench.Phases.{
  row_then, phase_rows, named, first_row, last_row, tick_ns, stamp_overhead_ns, sum_upto,
  assert_phases_sum_to_e3g, check_rows, parse_phases,
}

-- The data lines of a serial log, in order.
abbrev pub data_lines : Text → List Text
data_lines serial = keep is_data (map clean (splitlines serial))

row_then-match :
    (line : Text) (unset : Option Text) (m : Option PhaseRow) (row : PhaseRow)
    → row_then line unset m ≡ ok row
    → m ≡ some row
unfolding row_then
row_then-match line (some name) m row h = cc
row_then-match line none none row h = cc
row_then-match line none (some r) row h = ap some (ok-injective r row h)

map-phase_rows :
    (lines : List Text) (rows : List PhaseRow)
    → phase_rows lines ≡ ok rows
    → map some rows ≡ map row_match (keep is_data (map clean lines))
unfolding phase_rows
map-phase_rows [] rows h = rw (sym (ok-injective [] rows h)) refl
map-phase_rows (raw ∷ lines) rows h = elim (Bool-cases (is_data (clean raw))) [
  | inr e ↦ rw e (map-phase_rows lines rows (rw e at h))
  | inl e ↦
      let line = clean raw in
      let (row, taken, more) =
        bind-ok (row_then line (unset_match line) (row_match line))
          (λ row. phase_rows lines >>= λ rest. ok (row ∷ rest)) (rw e at h) in
      let (rest, others, done) = bind-ok (phase_rows lines) (λ rest. ok (row ∷ rest)) more in
      let this = row_then-match line (unset_match line) (row_match line) row taken in
      rw (e, this, sym (ok-injective (row ∷ rest) rows done))
        (ap (◌∷◌ (some row)) (map-phase_rows lines rest others))
]

-- What `check_rows` wants of the rows, in its own words.
pub record IsDump (rows : List PhaseRow) : Type 0 where
  pub starts : map (λ (r : PhaseRow). r.phase) (take 1 rows) ≡ codes "_start" ∷ []
  pub stamp_a : named (codes "stamp_a") rows ≡ true
  pub floor_row : PhaseRow
  pub floor : last_row (codes "stamp_b") rows ≡ some floor_row
  pub listen_row : PhaseRow
  pub listen : first_row (codes "E3g") rows ≡ some listen_row
  pub above :
      listen_row.ns_since_e2 ≤ sum_upto listen_row.ns_since_e2 rows + max floor_row.delta_ns tick_ns
  pub below :
      sum_upto listen_row.ns_since_e2 rows ≤ listen_row.ns_since_e2 + max floor_row.delta_ns tick_ns

named-last_row :
    (name : Text) (rows : List PhaseRow) → named name rows ≡ is_some (last_row name rows)
unfolding named last_row
named-last_row name [] = refl
named-last_row name (r ∷ rows) = ground (arith, named-last_row name rows)

named-first_row :
    (name : Text) (rows : List PhaseRow) → named name rows ≡ is_some (first_row name rows)
unfolding named first_row
named-first_row name [] = refl
named-first_row name (r ∷ rows) = ground (arith, named-first_row name rows)

is_some-cases : {A : Type 0} (o : Option A) → is_some o ≡ true → (a : A) × (o ≡ some a)
is_some-cases none h = cc
is_some-cases (some a) h = (a, refl)

stamped :
    (rows : List PhaseRow) (overhead : ℕ)
    → assert_phases_sum_to_e3g rows ≡ ok overhead
    → (f : PhaseRow) × (l : PhaseRow) × (last_row (codes "stamp_b") rows ≡ some f)
      × (first_row (codes "E3g") rows ≡ some l)
      × (l.ns_since_e2 ≤ sum_upto l.ns_since_e2 rows + max f.delta_ns tick_ns)
      × (sum_upto l.ns_since_e2 rows ≤ l.ns_since_e2 + max f.delta_ns tick_ns)
unfolding assert_phases_sum_to_e3g stamp_overhead_ns
stamped rows overhead h = elim (Option-cases (last_row (codes "stamp_b") rows)) [
  | inl e ↦ absurd (ground arith)
  | inr (f, e) ↦ elim (Option-cases (first_row (codes "E3g") rows)) [
    | inl g ↦ absurd (ground arith)
    | inr (l, g) ↦ (f, l, e, g, ground arith, ground arith)
  ]
]

check_rows-IsDump :
    (rows found : List PhaseRow) → check_rows rows ≡ ok found → IsDump rows × (found ≡ rows)
unfolding check_rows
check_rows-IsDump [] found h = cc
check_rows-IsDump (r ∷ rest) found h = elim (Result-cases (assert_phases_sum_to_e3g (r ∷ rest))) [
  | inr (e, failed) ↦ absurd (ground arith)
  | inl (overhead, passed) ↦
      let (f, l, floor, listen, above, below) = stamped (r ∷ rest) overhead passed in
      let start : text_eq r.phase (codes "_start") ≡ true = ground arith in
      (
        record {
          starts = ap (λ (name : Text). name ∷ []) ((text_eq_iff r.phase (codes "_start")).0 start);
          stamp_a = ground arith;
          floor_row = f;
          floor = floor;
          listen_row = l;
          listen = listen;
          above = above;
          below = below;
        },
        ground arith,
      )
]

check_rows_accepts : (rows : List PhaseRow) → IsDump rows → check_rows rows ≡ ok rows
unfolding check_rows assert_phases_sum_to_e3g stamp_overhead_ns
check_rows_accepts [] d = ground arith
check_rows_accepts (r ∷ rest) d = ground (
  arith,
  named-last_row (codes "stamp_b") (r ∷ rest),
  named-first_row (codes "E3g") (r ∷ rest),
  text_eq_iff r.phase (codes "_start"),
)

phase_rows-accepts :
    (lines : List Text) (rows : List PhaseRow)
    → map some rows ≡ map row_match (keep is_data (map clean lines))
    → phase_rows lines ≡ ok rows
unfolding phase_rows row_then
phase_rows-accepts [] [] h = refl
phase_rows-accepts [] (r ∷ rows) h = absurd (ground arith)
phase_rows-accepts (raw ∷ lines) [] h = elim (Bool-cases (is_data (clean raw))) [
  | inr e ↦ rw e (phase_rows-accepts lines [] (rw e at h))
  | inl e ↦ absurd (ground arith)
]
phase_rows-accepts (raw ∷ lines) (r ∷ rows) h = elim (Bool-cases (is_data (clean raw))) [
  | inr e ↦ rw e (phase_rows-accepts lines (r ∷ rows) (rw e at h))
  | inl e ↦
      let this : row_match (clean raw) ≡ some r = ground arith in
      let rest : phase_rows lines ≡ ok rows = phase_rows-accepts lines rows (ground arith) in
      rw (e, this, row_match-not_unset (clean raw) r this, rest) refl
]

-- `parse_phases` returns rows exactly if each data line of the log is a row, in order and with
-- nothing left out, the first row is `_start`, `stamp_a`, `stamp_b` and `E3g` are among them, and
-- the deltas up to `E3g` add up to its time, within the cost of a stamp.
pub parse_phases_iff :
    (serial : Text) (rows : List PhaseRow)
    → (parse_phases serial ≡ ok rows)
      ↔ ((map some rows ≡ map row_match (data_lines serial)) × IsDump rows)
unfolding parse_phases
parse_phases_iff serial rows = (
  λ h.
      let (read, lines, checked) = bind-ok (phase_rows (splitlines serial)) check_rows h in
      let (dump, same) = check_rows-IsDump read rows checked in
      rw same (map-phase_rows (splitlines serial) read lines, dump),
  λ (lines, dump).
      rw (phase_rows-accepts (splitlines serial) rows lines) (check_rows_accepts rows dump),
)

phase_rows-finds : (lines : List Text) (name : Text) → phase_rows lines ≢ err (missing_phase name)
unfolding phase_rows row_then
phase_rows-finds [] name h = cc
phase_rows-finds (raw ∷ lines) name h = ground (arith, phase_rows-finds lines name)

check_rows-finds : (rows : List PhaseRow) (name : Text) → check_rows rows ≢ err (missing_phase name)
unfolding check_rows assert_phases_sum_to_e3g stamp_overhead_ns
check_rows-finds [] name h = cc
check_rows-finds (r ∷ rest) name h =
    ground
      (arith, named-last_row (codes "stamp_b") (r ∷ rest), named-first_row (codes "E3g") (r ∷ rest))

-- A dump never fails for a row that is looked up and missing: the names are tested first.
pub parse_phases-finds : (serial name : Text) → parse_phases serial ≢ err (missing_phase name)
unfolding parse_phases
parse_phases-finds serial name h = elim (Result-cases (phase_rows (splitlines serial))) [
  | inl (rows, e) ↦ check_rows-finds rows name (rw e at h)
  | inr (e, failed) ↦ phase_rows-finds (splitlines serial) name (ground arith)
]
