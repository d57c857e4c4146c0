-- ===== src/Pass/Pinned.antt =====
-- A campaign that is validated is the one that was registered: its batches, its tree, its counts.
use whimbrel.Prelude.{All-all}
use whimbrel.Prelude.{ℕ, ◌+◌}
use whimbrel.Prelude.{◌≡◌, refl, sym, subst, ◌≢◌, ◌⊎◌, inl, inr}
use whimbrel.Prelude.{true, some, arith}
use whimbrel.Prelude.{List, [], ◌∷◌, map}
use whimbrel.Prelude.{◌==◌, Bool-cases, Option-cases}
use whimbrel.Prelude.{length, all, keep, All}
use whimbrel.Prelude.{ok, err, Result-cases}
use whimbrel.Prelude.Text.{Text, text_eq, text_eq_iff, starts_with}
use whimbrel.Pass.Campaign.{
  Run, PhaseRun, Campaign, wrong_total, safe, fast, recorded, mem, same_set, one_sha, count_config,
  want_controls, control_is, check_controls, is_e3g, check_counts, validate_campaign,
}

all-mem :
    (xs ys : List Text) (t : Text)
    → all (λ x. mem x ys) xs ≡ true
    → mem t xs ≡ true
    → mem t ys ≡ true
unfolding mem
all-mem [] ys t h m = absurd (ground arith)
all-mem (x ∷ xs) ys t h m = elim (Bool-cases (text_eq x t)) [
  | inl e ↦ subst (λ u. mem u ys ≡ true) ((text_eq_iff x t).0 e) (unfold mem in ground arith)
  | inr e ↦ all-mem xs ys t (ground arith) (ground arith)
]

-- Lists with equal sets have the same members.
pub same_set-mem : (xs ys : List Text) (t : Text) → same_set xs ys ≡ true → mem t xs ≡ mem t ys
unfolding same_set
same_set-mem xs ys t h =
    let there = all-mem xs ys t (ground arith) in
    let back = all-mem ys xs t (ground arith) in ground (arith, there, back)

-- A row of one of the two arms.
abbrev pub IsArm : Run → Type 0
IsArm r = (r.config ≡ safe) ⊎ (r.config ≡ fast)

mem-arm : (c : Text) → mem c (safe ∷ fast ∷ []) ≡ true → (c ≡ safe) ⊎ (c ≡ fast)
unfolding mem
mem-arm c h = elim (Bool-cases (text_eq safe c)) [
  | inl e ↦ inl (sym ((text_eq_iff safe c).0 e))
  | inr e ↦ inr (sym ((text_eq_iff fast c).0 (ground arith)))
]

All-arms :
    (rec : List Run)
    → all (λ c. mem c (safe ∷ fast ∷ [])) (map (λ (r : Run). r.config) rec) ≡ true
    → All IsArm rec
All-arms [] h = tt
All-arms (r ∷ rec) h = (mem-arm r.config (ground arith), All-arms rec (ground arith))

-- The two arms are told apart, so that each row counts for one of them.
count-arms :
    (rec : List Run) → All IsArm rec → count_config safe rec + count_config fast rec ≡ length rec
unfolding count_config text_eq
count-arms [] h = refl
count-arms (r ∷ rec) (inl e, h) = rw e (omega (arith, count-arms rec h))
count-arms (r ∷ rec) (inr e, h) = rw e (omega (arith, count-arms rec h))

one_sha-All :
    (rec : List Run) (sha : Text) → one_sha rec ≡ some sha → All (λ (r : Run). r.git_sha ≡ sha) rec
unfolding one_sha
one_sha-All [] sha h = cc
one_sha-All (r ∷ rec) sha h =
    let same : all (λ (q : Run). text_eq q.git_sha r.git_sha) rec ≡ true = ground arith in
    let is_sha : r.git_sha ≡ sha = ground arith in
    (is_sha, shas rec (rw is_sha at (All-all (λ (q : Run). text_eq q.git_sha r.git_sha) rec same)))
  where
    shas :
        (rows : List Run)
        → All (λ (q : Run). text_eq q.git_sha sha ≡ true) rows
        → All (λ (q : Run). q.git_sha ≡ sha) rows
    shas [] p = tt
    shas (q ∷ rows) (e, p) = ((text_eq_iff q.git_sha sha).0 e, shas rows p)

-- Each control has its value in all recorded rows.
abbrev pub HasControls : List Run → Type 0
HasControls rec = All (λ (field, want). all (control_is field want) rec ≡ true) want_controls

check_controls-passes :
    (label : Text) (rec : List Run) (fields : List (Text × Text))
    → check_controls label rec fields ≡ ok tt
    → All (λ (field, want). all (control_is field want) rec ≡ true) fields
unfolding check_controls
check_controls-passes label rec [] h = tt
check_controls-passes label rec ((field, want) ∷ fields) h =
    (ground arith, check_controls-passes label rec fields (ground arith))

-- What the pass relies on in a campaign.
pub record IsPinned (c : Campaign) (runs : List Run) (phases : List PhaseRun) : Type 0 where
  pub batches : (t : Text) → mem t (map (λ (r : Run). r.batch_id) runs) ≡ mem t c.batches
  pub sha : Text
  pub one_tree : All (λ (r : Run). r.git_sha ≡ sha) (recorded runs)
  pub prefix : starts_with sha c.sha_prefix ≡ true
  pub clean : All (λ (r : Run). (r.dirty == 0) ≡ true) (recorded runs)
  pub no_steal : All (λ (r : Run). (r.steal_ticks == 0) ≡ true) (recorded runs)
  pub arms : All IsArm (recorded runs)
  pub per_arm : (count_config safe (recorded runs) ≡ 60) × (count_config fast (recorded runs) ≡ 60)
  pub total : length (recorded runs) ≡ 120
  pub controls : HasControls (recorded runs)
  pub e3g : length (keep (is_e3g (recorded runs)) phases) ≡ 120

validate_campaign-sha :
    (c : Campaign) (runs : List Run) (phases : List PhaseRun)
    → validate_campaign c runs phases ≡ ok tt
    → (sha : Text) × (one_sha (recorded runs) ≡ some sha) × (starts_with sha c.sha_prefix ≡ true)
unfolding validate_campaign
validate_campaign-sha c runs phases h = elim (Option-cases (one_sha (recorded runs))) [
  | inl e ↦ absurd (ground arith)
  | inr (sha, e) ↦ (sha, e, ground arith)
]

validate_campaign-guards :
    (c : Campaign) (runs : List Run) (phases : List PhaseRun)
    → validate_campaign c runs phases ≡ ok tt
    → (same_set (map (λ (r : Run). r.batch_id) runs) c.batches ≡ true)
      × (all (λ (r : Run). r.dirty == 0) (recorded runs) ≡ true)
      × (same_set (map (λ (r : Run). r.config) (recorded runs)) (safe ∷ fast ∷ []) ≡ true)
      × (check_counts c.label (recorded runs) ≡ ok tt)
      × (all (λ (r : Run). r.steal_ticks == 0) (recorded runs) ≡ true)
      × (check_controls c.label (recorded runs) want_controls ≡ ok tt)
      × (length (keep (is_e3g (recorded runs)) phases) ≡ 120)
unfolding validate_campaign
validate_campaign-guards c runs phases h = ground arith

counts :
    (label : Text) (rec : List Run)
    → check_counts label rec ≡ ok tt
    → (count_config safe rec ≡ 60) × (count_config fast rec ≡ 60)
unfolding check_counts
counts label rec h = (ground arith, ground arith)

arms_of :
    (rec : List Run)
    → same_set (map (λ (r : Run). r.config) rec) (safe ∷ fast ∷ []) ≡ true
    → All IsArm rec
unfolding same_set
arms_of rec h = All-arms rec (ground arith)

-- A campaign passes only if its rows are of the registered batches, its recorded ones of one
-- commit with the registered prefix, clean, without steal, 60 of each of the two arms and no other,
-- on a host with the four controls, and 120 phase rows give their listen time.
pub validate_campaign-IsPinned :
    (c : Campaign) (runs : List Run) (phases : List PhaseRun)
    → validate_campaign c runs phases ≡ ok tt
    → IsPinned c runs phases
validate_campaign-IsPinned c runs phases h =
    let rec = recorded runs in
    let (sha, is_sha, prefix) = validate_campaign-sha c runs phases h in
    let (batches, clean, configs, counted, no_steal, controls, e3g) =
      validate_campaign-guards c runs phases h in
    let arms = arms_of rec configs in
    let (safes, fasts) = counts c.label rec counted in
    record {
      batches = λ t. same_set-mem (map (λ (r : Run). r.batch_id) runs) c.batches t batches;
      sha = sha;
      one_tree = one_sha-All rec sha is_sha;
      prefix = prefix;
      clean = All-all (λ (r : Run). r.dirty == 0) rec clean;
      no_steal = All-all (λ (r : Run). r.steal_ticks == 0) rec no_steal;
      arms = arms;
      per_arm = (safes, fasts);
      total = omega (arith, count-arms rec arms, safes, fasts);
      controls = check_controls-passes c.label rec want_controls controls;
      e3g = e3g;
    }

check_counts-total :
    (label l : Text) (rec : List Run) (n : ℕ) → check_counts label rec ≢ err (wrong_total l n)
unfolding check_counts
check_counts-total label l rec n h = ground arith

check_controls-total :
    (label l : Text) (rec : List Run) (n : ℕ) (fields : List (Text × Text))
    → check_controls label rec fields ≢ err (wrong_total l n)
unfolding check_controls
check_controls-total label l rec n [] h = cc
check_controls-total label l rec n ((field, want) ∷ fields) h =
    ground (arith, check_controls-total label l rec n fields)

-- The test of the total never fires: the counts of the two arms have settled it.
pub validate_campaign-total :
    (c : Campaign) (runs : List Run) (phases : List PhaseRun) (label : Text) (n : ℕ)
    → validate_campaign c runs phases ≢ err (wrong_total label n)
unfolding validate_campaign
validate_campaign-total c runs phases label n h =
    let rec = recorded runs in
    elim (Bool-cases (same_set (map (λ (r : Run). r.config) rec) (safe ∷ fast ∷ []))) [
      | inr e ↦ ground arith
      | inl e ↦ elim (Result-cases (check_counts c.label rec)) [
        | inr (f, e') ↦ ground (arith, check_counts-total c.label label rec n)
        | inl (u, e') ↦
            let (safes, fasts) = counts c.label rec e' in
            let all_there : length rec ≡ 120 =
              omega (arith, count-arms rec (arms_of rec e), safes, fasts) in
            ground (arith, all_there, check_controls-total c.label label rec n want_controls)
      ]
    ]
