-- ===== src/Bench/Summary/Tables.antt =====
-- What `metric_table` collects under each of its keys.
use whimbrel.Prelude.{ℕ}
use whimbrel.Prelude.{◌≡◌, refl, sym, ap, ◌∙◌, inl, inr}
use whimbrel.Prelude.{false, none, arith}
use whimbrel.Prelude.{List, [], ◌∷◌, ◌++◌, map}
use whimbrel.Prelude.{◌==◌, ◌&&◌, if◌then◌else◌, Bool-cases}
use whimbrel.Prelude.{keep, any}
use whimbrel.Prelude.Text.{Text, codes, text_eq}
use whimbrel.Prelude.Dict.{Dict, lookup}
use mathlib.Core.List.{append-nil, append_assoc}
use whimbrel.Stats.Stability.{values_of}
use whimbrel.Bench.Connect.{Schema, old, new, append_value}
use whimbrel.Bench.Groups.{lookup-append_value}
use whimbrel.Bench.Summary.Metrics.{
  SummaryRow, PhaseRecord, recorded_runs, is_of_run, is_counted, delta_key, since_key, by_phase,
  e2_to_e3g, if_any, run_metrics, metric_table,
}
use whimbrel.Bench.Summary.Keys.{
  values-or_empty, text_eq-false, text_eq-between, delta-since, at, at-left, at-right,
  lookup-by_phase,
}

-- The counted rows of a phase.
abbrev pub of_phase : Text → List PhaseRecord → List PhaseRecord
of_phase name phases = keep (λ (p : PhaseRecord). text_eq p.phase name) phases

at-append_value_other :
    (k j : Text) (v : ℕ) (d : Dict (List ℕ))
    → text_eq j k ≡ false
    → at k (append_value j v d) ≡ at k d
at-append_value_other k j v d e = rw (lookup-append_value k j v d) (rw e (append-nil (at k d)))

-- A value of a phase goes in front of those of the rows that follow.
at-append_value :
    (k j n name : Text) (v : ℕ) (d : Dict (List ℕ)) (rest : List ℕ)
    → text_eq j k ≡ text_eq name n
    → at k (append_value j v d) ++ rest ≡ at k d ++ (if text_eq name n then v ∷ rest else rest)
at-append_value k j n name v d rest e = rw (lookup-append_value k j v d) (
    rw e (elim (Bool-cases (text_eq name n)) [
      | inl f ↦ rw f (append_assoc (at k d) (v ∷ []) rest)
      | inr f ↦ rw f (ap (λ xs. xs ++ rest) (append-nil (at k d)))
    ]))

map-of_phase :
    (value : PhaseRecord → ℕ) (n : Text) (p : PhaseRecord) (phases : List PhaseRecord)
    → map value (of_phase n (p ∷ phases)) ≡ (
        if text_eq p.phase n
        then value p ∷ map value (of_phase n phases)
        else map value (of_phase n phases))
map-of_phase value n p phases = elim (Bool-cases (text_eq p.phase n)) [
  | inl e ↦ rw e refl
  | inr e ↦ rw e refl
]

at-delta :
    (n : Text) (d : Dict (List ℕ)) (phases : List PhaseRecord)
    → at (delta_key n) (by_phase d phases)
      ≡ at (delta_key n) d ++ map (λ (p : PhaseRecord). p.delta_ns) (of_phase n phases)
unfolding by_phase
at-delta n d [] = sym (append-nil (at (delta_key n) d))
at-delta n d (p ∷ phases) =
    let first = append_value (delta_key p.phase) p.delta_ns d in
    let rest = map (λ (q : PhaseRecord). q.delta_ns) (of_phase n phases) in
    let since =
      text_eq-false (since_key p.phase) (delta_key n) (λ h. delta-since n p.phase (sym h)) in
    at-delta n (append_value (since_key p.phase) p.ns_since_e2 first) phases
    ∙ ap (λ xs. xs ++ rest)
        (at-append_value_other (delta_key n) (since_key p.phase) p.ns_since_e2 first since)
    ∙ at-append_value (delta_key n) (delta_key p.phase) n p.phase p.delta_ns d rest
        (text_eq-between (codes "phase_") (codes "_delta_ns") p.phase n)
    ∙ ap (λ xs. at (delta_key n) d ++ xs)
        (sym (map-of_phase (λ (q : PhaseRecord). q.delta_ns) n p phases))

at-since :
    (n : Text) (d : Dict (List ℕ)) (phases : List PhaseRecord)
    → at (since_key n) (by_phase d phases)
      ≡ at (since_key n) d ++ map (λ (p : PhaseRecord). p.ns_since_e2) (of_phase n phases)
unfolding by_phase
at-since n d [] = sym (append-nil (at (since_key n) d))
at-since n d (p ∷ phases) =
    let first = append_value (delta_key p.phase) p.delta_ns d in
    let rest = map (λ (q : PhaseRecord). q.ns_since_e2) (of_phase n phases) in
    let delta = text_eq-false (delta_key p.phase) (since_key n) (delta-since p.phase n) in
    at-since n (append_value (since_key p.phase) p.ns_since_e2 first) phases
    ∙ at-append_value (since_key n) (since_key p.phase) n p.phase p.ns_since_e2 first rest
        (text_eq-between (codes "phase_") (codes "_since_e2_ns") p.phase n)
    ∙ ap (λ xs. xs ++ (if text_eq p.phase n then p.ns_since_e2 ∷ rest else rest))
        (at-append_value_other (since_key n) (delta_key p.phase) p.delta_ns d delta)
    ∙ ap (λ xs. at (since_key n) d ++ xs)
        (sym (map-of_phase (λ (q : PhaseRecord). q.ns_since_e2) n p phases))

-- No phase has this key.
abbrev IsOther : Text → Type 0
IsOther c = (n : Text) → (text_eq (delta_key n) c ≡ false) × (text_eq (since_key n) c ≡ false)

abbrev e4_key : Text
e4_key = codes "e0_to_e4_ns"

abbrev e3g_key : Text
e3g_key = codes "e2_to_e3g_ns"

e4-IsOther : IsOther e4_key
unfolding text_eq
e4-IsOther n = (refl, refl)

e3g-IsOther : IsOther e3g_key
unfolding text_eq
e3g-IsOther n = (refl, refl)

lookup-if_any :
    (k : Text) (vals : List ℕ) → text_eq e3g_key k ≡ false → lookup k (if_any vals) ≡ none
unfolding lookup
lookup-if_any k [] e = refl
lookup-if_any k (v ∷ vals) e = rw e refl

lookup-append_none :
    (k : Text) (d e : Dict (List ℕ)) → lookup k d ≡ none → lookup k (d ++ e) ≡ lookup k e
unfolding lookup
lookup-append_none k [] e h = refl
lookup-append_none k ((j, vs) ∷ d) e h = elim (Bool-cases (text_eq j k)) [
  | inl f ↦ absurd (ground arith)
  | inr f ↦ rw f (lookup-append_none k d e (rw f at h))
]

at-if_any :
    (vals : List ℕ) (d : Dict (List ℕ))
    → lookup e3g_key d ≡ none
    → at e3g_key (if_any vals ++ d) ≡ vals
unfolding lookup text_eq
at-if_any [] d h = rw h refl
at-if_any (v ∷ vals) d h = refl

-- The run metrics have no phase's key.
module _ (rec : List SummaryRow) (n : Text) where
  delta-run_metrics : (schema : Schema) → lookup (delta_key n) (run_metrics schema rec) ≡ none
  unfolding lookup run_metrics text_eq
  delta-run_metrics new = refl
  delta-run_metrics old = refl

  since-run_metrics : (schema : Schema) → lookup (since_key n) (run_metrics schema rec) ≡ none
  unfolding lookup run_metrics text_eq
  since-run_metrics new = refl
  since-run_metrics old = refl

  e3g-run_metrics : (schema : Schema) → lookup e3g_key (run_metrics schema rec) ≡ none
  unfolding lookup run_metrics text_eq
  e3g-run_metrics new = refl
  e3g-run_metrics old = refl

  e4-run_metrics :
      (schema : Schema)
      → at e4_key (run_metrics schema rec) ≡ map (λ (r : SummaryRow). r.metric e4_key) rec
  unfolding lookup run_metrics text_eq
  e4-run_metrics new = refl
  e4-run_metrics old = refl

before_delta : (n : Text) → text_eq e3g_key (delta_key n) ≡ false
unfolding text_eq
before_delta n = refl

before_since : (n : Text) → text_eq e3g_key (since_key n) ≡ false
unfolding text_eq
before_since n = refl

before_e4 : text_eq e3g_key e4_key ≡ false
unfolding text_eq
before_e4 = refl

-- The rows that are no warmups, and the phases of such rows that are no warmups either.
abbrev pub recorded_rows : List SummaryRow → List SummaryRow
recorded_rows runs = keep (λ (r : SummaryRow). r.warmup == 0) runs

abbrev pub recorded_phases : List SummaryRow → List PhaseRecord → List PhaseRecord
recorded_phases runs phases =
    keep
      (λ (p : PhaseRecord).
        (p.warmup == 0)
        && any
            (λ (r : SummaryRow).
              text_eq r.batch_id p.batch_id && (r.trial == p.trial) && text_eq r.config p.config)
            (recorded_rows runs))
      phases

-- What is under the keys of a phase, of the whole time to the response and of the guest's start: the
-- values of the recorded rows, and of the phases of recorded rows, in the order of the files.
pub metric_table-holds :
    (schema : Schema) (runs : List SummaryRow) (phases : List PhaseRecord) (n : Text)
    → let table = metric_table schema runs phases in
      let counted = recorded_phases runs phases in
      (values_of (delta_key n) table ≡ map (λ (p : PhaseRecord). p.delta_ns) (of_phase n counted))
      × (values_of (since_key n) table
          ≡ map (λ (p : PhaseRecord). p.ns_since_e2) (of_phase n counted))
      × (values_of e4_key table ≡ map (λ (r : SummaryRow). r.metric e4_key) (recorded_rows runs))
      × (values_of e3g_key table
          ≡ map (λ (p : PhaseRecord). p.ns_since_e2) (of_phase (codes "E3g") counted))
unfolding metric_table e2_to_e3g lookup recorded_runs is_counted is_of_run
metric_table-holds schema runs phases n =
    let rec = recorded_runs runs in
    let counted = keep (is_counted rec) phases in
    let first = e2_to_e3g counted in
    let rest = by_phase [] counted ++ run_metrics schema rec in
    let table = if_any first ++ rest in
    (
      values-or_empty (delta_key n) table
          ∙ at-right (delta_key n) (if_any first) rest
              (lookup-if_any (delta_key n) first (before_delta n))
          ∙ at-left (delta_key n) (by_phase [] counted) (run_metrics schema rec)
              (delta-run_metrics rec n schema)
          ∙ at-delta n [] counted,
      values-or_empty (since_key n) table
          ∙ at-right (since_key n) (if_any first) rest
              (lookup-if_any (since_key n) first (before_since n))
          ∙ at-left (since_key n) (by_phase [] counted) (run_metrics schema rec)
              (since-run_metrics rec n schema)
          ∙ at-since n [] counted,
      values-or_empty e4_key table
          ∙ at-right e4_key (if_any first) rest (lookup-if_any e4_key first before_e4)
          ∙ at-right e4_key (by_phase [] counted) (run_metrics schema rec)
              (lookup-by_phase e4_key [] counted e4-IsOther refl)
          ∙ e4-run_metrics rec n schema,
      values-or_empty e3g_key table
          ∙ at-if_any first rest (
              lookup-append_none e3g_key (by_phase [] counted) (run_metrics schema rec)
                (lookup-by_phase e3g_key [] counted e3g-IsOther refl)
              ∙ e3g-run_metrics rec n schema),
    )
