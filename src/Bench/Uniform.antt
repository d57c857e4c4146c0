-- ===== src/Bench/Uniform.antt =====
-- Rows that may be aggregated come from one tree, one QEMU and one state of the host.
use whimbrel.Prelude.{◌<◌}
use whimbrel.Prelude.{◌≡◌, refl, ◌↔◌, inl, inr}
use whimbrel.Prelude.{Bool, true, false, ◌||◌, arith}
use whimbrel.Prelude.{List, [], ◌∷◌}
use whimbrel.Prelude.{◌==◌, Bool-cases, is_some}
use whimbrel.Prelude.{length, all, keep, All}
use whimbrel.Prelude.{ok, bind-ok}
use whimbrel.Prelude.Text.{Text, text_eq, text_eq_iff}
use whimbrel.Prelude.Dict.{lookup}
use whimbrel.Bench.Connect.{runs_schema}
use whimbrel.Bench.Aggregate.{
  AggRow, unanimous, control_of, check_control, check_controls, control_fields, is_recorded,
  check_recorded, assert_aggregatable,
}

-- All rows, of which there is one, have the same text in a column.
abbrev pub IsOne : {A : Type 0} → (A → Text) → List A → Type 0
IsOne column rows = (0 < length rows) × ((v : Text) × All (λ q. column q ≡ v) rows)

all-same :
    {A : Type 0} (column : A → Text) (v : Text) (rows : List A)
    → all (λ q. text_eq (column q) v) rows ≡ true
    → All (λ q. column q ≡ v) rows
all-same column v [] h = tt
all-same column v (q ∷ rows) h =
    let here : text_eq (column q) v ≡ true = ground arith in
    ((text_eq_iff (column q) v).0 here, all-same column v rows (ground arith))

same-all :
    {A : Type 0} (column : A → Text) (v : Text) (rows : List A)
    → All (λ q. column q ≡ v) rows
    → all (λ q. text_eq (column q) v) rows ≡ true
same-all column v [] h = refl
same-all column v (q ∷ rows) (p, h) =
    rw ((text_eq_iff (column q) v).1 p, same-all column v rows h) refl

unanimous_iff :
    {A : Type 0} (column : A → Text) (rows : List A)
    → (unanimous column rows ≡ true) ↔ IsOne column rows
unfolding unanimous
unanimous_iff column [] =
    (λ h. absurd (ground arith), λ (some_row, h). absurd (omega (arith, some_row)))
unanimous_iff column (r ∷ rows) = (
  λ h. (omega arith, (column r, (refl, all-same column (column r) rows h))),
  λ (some_row, (v, (p, h))). same-all column (column r) rows (rw p h),
)

-- A control that the first row has is one in all rows.
abbrev pub IsUniform : List AggRow → Text → Type 0
IsUniform [] field = Unit {0}
IsUniform (r ∷ rows) field =
    is_some (lookup field r.controls) ≡ true → IsOne (control_of field) (r ∷ rows)

check_control_iff :
    (rows : List AggRow) (field : Text) → (check_control rows field ≡ ok tt) ↔ IsUniform rows field
unfolding check_control
check_control_iff [] field = (λ h. tt, λ h. refl)
check_control_iff (r ∷ rows) field = elim (Bool-cases (is_some (lookup field r.controls))) [
  | inr e ↦ (λ h f. absurd (ground arith), λ h. rw e refl)
  | inl e ↦ (
    λ h f. (unanimous_iff (control_of field) (r ∷ rows)).0 (ground arith),
    λ h. rw (e, (unanimous_iff (control_of field) (r ∷ rows)).1 (h e)) refl,
  )
]

check_controls_iff :
    (rows : List AggRow) (fields : List Text)
    → (check_controls rows fields ≡ ok tt) ↔ All (IsUniform rows) fields
unfolding check_controls
check_controls_iff rows [] = (λ h. tt, λ h. refl)
check_controls_iff rows (f ∷ fields) = (
  λ h. (
    (check_control_iff rows f).0 (ground arith),
    (check_controls_iff rows fields).0 (ground arith),
  ),
  λ (p, h). rw ((check_control_iff rows f).1 p) ((check_controls_iff rows fields).1 h),
)

all-clean :
    (allow_dirty : Bool) (rows : List AggRow)
    → all (λ (q : AggRow). (q.dirty == 0) || allow_dirty) rows ≡ true
    → allow_dirty ≡ false
    → All (λ (q : AggRow). q.dirty ≡ 0) rows
all-clean allow_dirty [] h f = tt
all-clean allow_dirty (q ∷ rows) h f = (ground arith, all-clean allow_dirty rows (ground arith) f)

-- What rows have to share.
pub record IsAggregatable (allow_dirty : Bool) (rows : List AggRow) : Type 0 where
  pub clean : allow_dirty ≡ false → All (λ (q : AggRow). q.dirty ≡ 0) rows
  pub one_qemu : IsOne (λ (q : AggRow). q.qemu_version) rows
  pub one_tree : IsOne (λ (q : AggRow). q.git_sha) rows
  pub one_host : All (IsUniform rows) control_fields

check_recorded-IsAggregatable :
    (allow_dirty : Bool) (rows : List AggRow)
    → check_recorded allow_dirty rows ≡ ok tt
    → IsAggregatable allow_dirty rows
unfolding check_recorded
check_recorded-IsAggregatable allow_dirty [] h = cc
check_recorded-IsAggregatable allow_dirty (r ∷ rows) h = record {
  clean = all-clean allow_dirty (r ∷ rows) (ground arith);
  one_qemu = (unanimous_iff (λ (q : AggRow). q.qemu_version) (r ∷ rows)).0 (ground arith);
  one_tree = (unanimous_iff (λ (q : AggRow). q.git_sha) (r ∷ rows)).0 (ground arith);
  one_host = (check_controls_iff (r ∷ rows) control_fields).0 (ground arith);
}

-- Rows that pass are not empty once the warmups are left out, and the recorded ones are of a clean
-- tree unless a dirty one is allowed, of one QEMU, one commit and one value of each control that
-- the file has.
pub assert_aggregatable-IsAggregatable :
    (columns : List Text) (allow_dirty : Bool) (runs : List AggRow)
    → assert_aggregatable columns allow_dirty runs ≡ ok tt
    → IsAggregatable allow_dirty (keep is_recorded runs)
unfolding assert_aggregatable
assert_aggregatable-IsAggregatable columns allow_dirty [] h = cc
assert_aggregatable-IsAggregatable columns allow_dirty (r ∷ runs) h =
    let recorded = keep is_recorded (r ∷ runs) in
    let (schema, known, rest) =
      bind-ok (runs_schema columns) (λ schema. check_recorded allow_dirty recorded) h in
    check_recorded-IsAggregatable allow_dirty recorded rest
