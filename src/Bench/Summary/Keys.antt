-- ===== src/Bench/Summary/Keys.antt =====
-- The keys of `metric_table`: no two of them collide, and what is found under one that is not added.
use whimbrel.Prelude.{ℕ}
use whimbrel.Prelude.{◌≡◌, refl, sym, ap, ◌∙◌, inl, inr}
use whimbrel.Prelude.{false, none, arith}
use whimbrel.Prelude.{List, [], ◌∷◌, ◌++◌, reverse}
use whimbrel.Prelude.{Bool-cases, Option-cases}
use whimbrel.Prelude.{get_or}
use whimbrel.Prelude.Text.{Text, codes, text_eq, text_eq_iff, text_eq_refl}
use whimbrel.Prelude.Dict.{Dict, lookup}
use mathlib.Core.List.{append_cancel_left, append_cancel_right, reverse-append}
use whimbrel.Stats.Stability.{values_of}
use whimbrel.Bench.Connect.{append_value}
use whimbrel.Bench.Groups.{or_empty}
use whimbrel.Bench.Summary.Metrics.{PhaseRecord, delta_key, since_key, by_phase}

pub values-or_empty : (k : Text) (d : Dict (List ℕ)) → values_of k d ≡ or_empty (lookup k d)
values-or_empty k d = elim (Option-cases (lookup k d)) [
  | inl e ↦ ground arith
  | inr (vs, e) ↦ ground arith
]

-- Two keys of the same kind are equal exactly if their phases are.
pub text_eq-false : (s t : Text) → (s ≡ t → ⊥) → text_eq s t ≡ false
text_eq-false s t differ = elim (Bool-cases (text_eq s t)) [
  | inl e ↦ absurd (differ ((text_eq_iff s t).0 e))
  | inr e ↦ e
]

pub text_eq-between :
    (prefix suffix s t : Text)
    → text_eq (prefix ++ (s ++ suffix)) (prefix ++ (t ++ suffix)) ≡ text_eq s t
text_eq-between prefix suffix s t = elim (Bool-cases (text_eq s t)) [
  | inl e ↦
      let same = (text_eq_iff s t).0 e in rw (e, same) (text_eq_refl (prefix ++ (t ++ suffix)))
  | inr e ↦
      let apart : text_eq (prefix ++ (s ++ suffix)) (prefix ++ (t ++ suffix)) ≡ false =
        text_eq-false (prefix ++ (s ++ suffix)) (prefix ++ (t ++ suffix)) λ h.
          let inner = append_cancel_left prefix (s ++ suffix) (t ++ suffix) h in
          let same = (text_eq_iff s t).1 (append_cancel_right s t suffix inner) in
          absurd (ground arith) in
      apart ∙ sym e
]

-- The fourth character from the end.
abbrev fourth_last : Text → ℕ
fourth_last t = get_or (reverse t) 3 0

fourth_last-delta : (s : Text) → fourth_last (delta_key s) ≡ b'a'
fourth_last-delta s =
    ap (λ t. get_or t 3 0)
      (reverse-append (codes "phase_") (s ++ codes "_delta_ns")
        ∙ ap (λ t. t ++ reverse (codes "phase_")) (reverse-append s (codes "_delta_ns")))

fourth_last-since : (s : Text) → fourth_last (since_key s) ≡ b'2'
fourth_last-since s =
    ap (λ t. get_or t 3 0)
      (reverse-append (codes "phase_") (s ++ codes "_since_e2_ns")
        ∙ ap (λ t. t ++ reverse (codes "phase_")) (reverse-append s (codes "_since_e2_ns")))

pub delta-since : (s t : Text) → delta_key s ≡ since_key t → ⊥
delta-since s t h =
    let same : b'a' ≡ b'2' = sym (fourth_last-delta s) ∙ ap fourth_last h ∙ fourth_last-since t in
    absurd (omega (arith, same))

-- `d.get(k, [])`
abbrev pub at : Text → Dict (List ℕ) → List ℕ
at k d = or_empty (lookup k d)

pub at-left : (k : Text) (d e : Dict (List ℕ)) → lookup k e ≡ none → at k (d ++ e) ≡ at k d
unfolding lookup
at-left k [] e h = rw h refl
at-left k ((j, vs) ∷ d) e h = elim (Bool-cases (text_eq j k)) [
  | inl f ↦ rw f refl
  | inr f ↦ rw f (at-left k d e h)
]

pub at-right : (k : Text) (d e : Dict (List ℕ)) → lookup k d ≡ none → at k (d ++ e) ≡ at k e
unfolding lookup
at-right k [] e h = refl
at-right k ((j, vs) ∷ d) e h = elim (Bool-cases (text_eq j k)) [
  | inl f ↦ absurd (ground arith)
  | inr f ↦ rw f (at-right k d e (rw f at h))
]

pub lookup-append_value_other :
    (c k : Text) (v : ℕ) (d : Dict (List ℕ))
    → text_eq k c ≡ false
    → lookup c d ≡ none
    → lookup c (append_value k v d) ≡ none
unfolding lookup append_value
lookup-append_value_other c k v [] e h = rw e refl
lookup-append_value_other c k v ((j, vs) ∷ d) e h = elim (Bool-cases (text_eq j c)) [
  | inl f ↦ absurd (ground arith)
  | inr f ↦ elim (Bool-cases (text_eq j k)) [
    | inl g ↦ rw (g, f) (rw f at h)
    | inr g ↦ rw (g, f) (lookup-append_value_other c k v d e (rw f at h))
  ]
]

-- A key that is of no phase is not added.
pub lookup-by_phase :
    (c : Text) (d : Dict (List ℕ)) (phases : List PhaseRecord)
    → ((n : Text) → (text_eq (delta_key n) c ≡ false) × (text_eq (since_key n) c ≡ false))
    → lookup c d ≡ none
    → lookup c (by_phase d phases) ≡ none
unfolding by_phase
lookup-by_phase c d [] other h = h
lookup-by_phase c d (p ∷ phases) other h =
    let (delta, since) = other p.phase in
    let first = append_value (delta_key p.phase) p.delta_ns d in
    lookup-by_phase c (append_value (since_key p.phase) p.ns_since_e2 first) phases other (
      lookup-append_value_other c (since_key p.phase) p.ns_since_e2 first since
        (lookup-append_value_other c (delta_key p.phase) p.delta_ns d delta h))
