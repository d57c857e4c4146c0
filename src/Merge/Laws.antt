-- ===== src/Merge/Laws.antt =====
-- What `classify` makes of each "not in final" report of the log, and when the gate fails.
use whimbrel.Prelude.{ℕ, zero, suc, ◌+◌}
use whimbrel.Prelude.{◌≡◌, refl, sym, ap, ◌∙◌, ◌↔◌, inl, inr}
use whimbrel.Prelude.{Bool, true, false, ◌&&◌, not, arith}
use whimbrel.Prelude.{List, [], ◌∷◌, ◌++◌, map}
use whimbrel.Prelude.{if◌then◌else◌, Bool-cases}
use whimbrel.Prelude.{length, keep, keep-nil_iff, All}
use whimbrel.Prelude.{length-append}
use mathlib.Core.List.{append-nil, append_assoc, map-append}
use whimbrel.Prelude.Text.{Text, strip, splitlines}
use whimbrel.Prelude.Dict.{Dict, has_key}
use whimbrel.Merge.Kconfig.{bare, is_unset_line, mem, unset, fragment_symbols, merge_overrides}
use whimbrel.Merge.Classify.{Failure, Lists, no_lines, Line}
use whimbrel.Merge.Classify.{
  is_redefined, is_redundant, or_absent, vanished, unsolicited, annotated, is_not_final, other,
  line_kind,
}
use whimbrel.Merge.Classify.{
  read_request, after_line, record_line, record_not_final, classify_loop, classify,
}
use whimbrel.Merge.Classify.{summarize_drops, check_merge_log}

-- One report of the log.
pub record Ask : Type 0 where
  pub cfg : Text
  pub requested : Text
  pub actual : Text

ask_of : Line → List Text → List Ask
ask_of (is_not_final cfg) lines =
    let r = read_request 4 [] lines in
    record { cfg = cfg; requested = r.requested; actual = r.actual } ∷ []
ask_of (is_redefined cfg) lines = []
ask_of (is_redundant cfg) lines = []
ask_of other lines = []

-- The reports of a log, in their order.
pub asks : ℕ → List Text → List Ask
asks zero lines = []
asks (suc fuel) [] = []
asks (suc fuel) (line ∷ lines) =
    let kind = line_kind line in ask_of kind lines ++ asks fuel (after_line kind lines)

keep-append {ℓ} :
    {A : Type ℓ} (p : A → Bool) (xs ys : List A) → keep p (xs ++ ys) ≡ keep p xs ++ keep p ys
keep-append p [] ys = refl
keep-append p (x ∷ xs) ys = elim (Bool-cases (p x)) [
  | inl e ↦ rw e (ap (◌∷◌ x) (keep-append p xs ys))
  | inr e ↦ rw e (keep-append p xs ys)
]

module _ (in_frag : Dict Text) (overrides : List Text) where
  pub asked : Ask → Bool
  asked a = has_key (bare a.cfg) in_frag

  pub asked_unset : Ask → Bool
  asked_unset a = is_unset_line (strip a.requested) a.cfg

  pub ends_unset : Ask → Bool
  ends_unset a = is_unset_line (strip a.actual) a.cfg

  -- The fragment names the symbol, no annotation excuses it, and it did not just vanish.
  pub is_bad : Ask → Bool
  unfolding asked asked_unset ends_unset
  is_bad a = asked a && not (mem (bare a.cfg) overrides) && not (asked_unset a && ends_unset a)

  -- The fragment does not name the symbol, and it was to have a value.
  pub is_drop : Ask → Bool
  unfolding asked asked_unset
  is_drop a = not (asked a) && not (asked_unset a)

  failure_cfgs : Lists → List Text
  failure_cfgs l = map (λ (f : Failure). f.cfg) l.fails

  map-snoc {ℓ κ} :
      {A : Type ℓ} {B : Type κ} (f : A → B) (xs : List A) (x : A)
      → map f (xs ++ x ∷ []) ≡ map f xs ++ f x ∷ []
  map-snoc f [] x = refl
  map-snoc f (y ∷ xs) x = ap (◌∷◌ (f y)) (map-snoc f xs x)

  record_not_final-verdict :
      (a : Ask) (l : Lists)
      → let l' = record_not_final a.cfg a.requested a.actual in_frag overrides l in
        (failure_cfgs l' ≡ (if is_bad a then failure_cfgs l ++ a.cfg ∷ [] else failure_cfgs l))
        × (l'.drops ≡ (if is_drop a then l.drops ++ a.cfg ∷ [] else l.drops))
        × (length l'.info + length l'.fails + length l'.drops
            ≡ length l.info + length l.fails + length l.drops + 1)
  unfolding record_not_final is_bad is_drop failure_cfgs
  record_not_final-verdict a l =
      let f : Failure = record {
        cfg = a.cfg;
        want = if asked_unset a then unset else strip a.requested;
        got = or_absent (strip a.actual);
      } in
      ground (
        arith,
        map-snoc (λ (f : Failure). f.cfg) l.fails f,
        length-append l.fails (f ∷ []),
        length-append l.drops (a.cfg ∷ []),
        length-append l.info (vanished a.cfg ∷ []),
        length-append l.info (unsolicited a.cfg ∷ []),
        length-append l.info (annotated a.cfg f.want f.got ∷ []),
      )

  cfgs : List Ask → List Text
  cfgs = map (λ (a : Ask). a.cfg)

  cfgs_if :
      (b : Bool) (a : Ask) (before : List Text)
      → (if b then before ++ a.cfg ∷ [] else before) ≡ before ++ cfgs (if b then a ∷ [] else [])
  unfolding cfgs
  cfgs_if true a before = refl
  cfgs_if false a before = sym (append-nil before)

  Follows : Lists → Lists → List Ask → Type 0
  Follows l l' found =
      (failure_cfgs l' ≡ failure_cfgs l ++ cfgs (keep is_bad found))
      × (l'.drops ≡ l.drops ++ cfgs (keep is_drop found))

  record_line-Follows :
      (k : Line) (lines : List Text) (l : Lists)
      → Follows l (record_line in_frag overrides k lines l) (ask_of k lines)
  unfolding record_line ask_of Follows cfgs failure_cfgs
  record_line-Follows (is_redefined cfg) lines l = (sym (append-nil _), sym (append-nil _))
  record_line-Follows (is_redundant cfg) lines l = (sym (append-nil _), sym (append-nil _))
  record_line-Follows other lines l = (sym (append-nil _), sym (append-nil _))
  record_line-Follows (is_not_final cfg) lines l =
      let r = read_request 4 [] lines in
      let a : Ask = record { cfg = cfg; requested = r.requested; actual = r.actual } in
      let v = record_not_final-verdict a l in
      (v.0 ∙ cfgs_if (is_bad a) a (failure_cfgs l), v.1 ∙ cfgs_if (is_drop a) a l.drops)

  Follows-trans :
      (l l' l'' : Lists) (found more : List Ask)
      → Follows l l' found
      → Follows l' l'' more
      → Follows l l'' (found ++ more)
  unfolding Follows cfgs
  Follows-trans l l' l'' found more (f, d) (g, e) = (
    rw (keep-append, map-append, ← append_assoc, ← f) g,
    rw (keep-append, map-append, ← append_assoc, ← d) e,
  )

  -- Every bad report fails once and every drop is listed once, in the order of the log, and nothing
  -- else fails or is dropped.
  classify_loop-Follows :
      (fuel : ℕ) (lines : List Text) (l : Lists)
      → Follows l (classify_loop in_frag overrides fuel lines l) (asks fuel lines)
  unfolding classify_loop asks
  classify_loop-Follows zero lines l =
      unfold Follows cfgs in (sym (append-nil _), sym (append-nil _))
  classify_loop-Follows (suc fuel) [] l =
      unfold Follows cfgs in (sym (append-nil _), sym (append-nil _))
  classify_loop-Follows (suc fuel) (line ∷ lines) l =
      let k = line_kind line in
      let l' = record_line in_frag overrides k lines l in
      Follows-trans l l' _ (ask_of k lines) _ (record_line-Follows k lines l)
        (classify_loop-Follows fuel (after_line k lines) l')

cfgs-eq-nil : (found : List Ask) → map (λ (a : Ask). a.cfg) found ≡ [] → found ≡ []
cfgs-eq-nil [] h = refl
cfgs-eq-nil (a ∷ found) h = cc

-- The reports that `classify` meets in a log.
abbrev pub reports : Text → List Ask
reports log = asks (length (splitlines log)) (splitlines log)

abbrev pub bad_in : Text → Ask → Bool
bad_in frag = is_bad (fragment_symbols frag) (merge_overrides frag)

abbrev pub drop_in : Text → Ask → Bool
drop_in frag = is_drop (fragment_symbols frag) (merge_overrides frag)

fails-summarize_drops :
    (l : Lists) → ((summarize_drops l).fails ≡ l.fails) × ((summarize_drops l).drops ≡ l.drops)
unfolding summarize_drops
fails-summarize_drops l = ground arith

-- `classify` fails exactly the reports on symbols that the fragment names, without an annotation
-- and without the symbol having vanished as asked; it drops exactly the reports on symbols that the
-- fragment does not name and that were to have a value; both in the order of the log.
pub classify-reports :
    (frag log : Text)
    → (map (λ (f : Failure). f.cfg) (classify frag log).fails
        ≡ map (λ (a : Ask). a.cfg) (keep (bad_in frag) (reports log)))
      × ((classify frag log).drops ≡ map (λ (a : Ask). a.cfg) (keep (drop_in frag) (reports log)))
unfolding classify Follows cfgs failure_cfgs
classify-reports frag log =
    let lines = splitlines log in
    let l =
      classify_loop (fragment_symbols frag) (merge_overrides frag) (length lines) lines no_lines in
    let (f, d) =
      classify_loop-Follows (fragment_symbols frag) (merge_overrides frag) (length lines) lines
        no_lines in
    let (same_fails, same_drops) = fails-summarize_drops l in
    (ap (map (λ (f : Failure). f.cfg)) same_fails ∙ f, same_drops ∙ d)

-- The gate passes if and only if no report of the log is bad.
pub check_merge_log_iff :
    (frag log : Text)
    → (check_merge_log frag log ≡ 0) ↔ All (λ a. bad_in frag a ≡ false) (reports log)
unfolding check_merge_log
check_merge_log_iff frag log = go (classify frag log).fails (classify-reports frag log).0
  where
    go :
        (fails : List Failure)
        → (map (λ (f : Failure). f.cfg) fails
            ≡ map (λ (a : Ask). a.cfg) (keep (bad_in frag) (reports log)))
        → ((elim fails as (λ _. ℕ) [ [] ↦ 0 | f ∷ fs ↦ 1 ]) ≡ 0)
          ↔ All (λ a. bad_in frag a ≡ false) (reports log)
    go [] h = (λ _. (keep-nil_iff (bad_in frag) (reports log)).0 (cfgs-eq-nil _ (sym h)), λ _. refl)
    go (f ∷ fs) h = (
      λ e. absurd (omega arith),
      λ none_bad. absurd (
          let e : f.cfg ∷ map (λ (f : Failure). f.cfg) fs ≡ [] =
            rw ((keep-nil_iff (bad_in frag) (reports log)).1 none_bad) at h in
          cc),
    )
