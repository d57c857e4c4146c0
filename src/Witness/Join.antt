-- ===== src/Witness/Join.antt =====
-- `_pv_map`, `_arm_warmups` and `warmup_join` of scripts/regime-witness.py.
use whimbrel.Prelude.{ℕ, zero, suc, ◌+◌, ◌-◌}
use whimbrel.Prelude.{Bool, ◌&&◌, Option, none, some}
use whimbrel.Prelude.{List, [], ◌∷◌, ◌++◌, map}
use whimbrel.Prelude.{leb, ◌==◌, if◌then◌else◌}
use whimbrel.Prelude.{length, get_elem?, keep}
use whimbrel.Prelude.{Result, ok, err, ◌>>=◌, ◌>>◌, guard}
use whimbrel.Prelude.Text.{Text, codes, text_eq, text_leb}
use whimbrel.Prelude.Int.{ℤ, sub_ℕ}
use whimbrel.Prelude.Sort.{sort}
use whimbrel.Stats.Stability.{distinct_names}
use whimbrel.Witness.Rows.{
  RunLine, PhaseLine, WitnessFail, wrong_trials, no_warmup_values, key_error, index_error, safe_arm,
  m_arm,
}

-- The dict of `_pv_map`: batch and trial, and the time.
abbrev pub PvMap : Type 0
PvMap = List ((Text × ℕ) × ℕ)

abbrev pub key_is : Text → ℕ → Text × ℕ → Bool
key_is b t (c, u) = text_eq c b && (u == t)

-- `out[(b, t)] = v`
unfoldable pub put : Text → ℕ → ℕ → PvMap → PvMap
put b t v [] = ((b, t), v) ∷ []
put b t v ((k, w) ∷ pv) =
    let rest = put b t v pv in if key_is b t k then (k, v) ∷ pv else (k, w) ∷ rest

unfoldable pub get : Text → ℕ → PvMap → Option ℕ
get b t [] = none
get b t ((k, w) ∷ pv) = if key_is b t k then some w else get b t pv

unfoldable pub is_warmup_pv : Text → PhaseLine → Bool
is_warmup_pv config p =
    text_eq p.warmup (codes "1") && text_eq p.config config && text_eq p.phase (codes "page_verify")

unfoldable pub pv_from : Text → PvMap → List PhaseLine → PvMap
pv_from config out [] = out
pv_from config out (p ∷ phases) =
    pv_from config (if is_warmup_pv config p then put p.batch_id p.trial p.delta_ns out else out)
      phases

unfoldable pub pv_map : List PhaseLine → Text → PvMap
pv_map phases config = pv_from config [] phases

-- `[t for bb, t in pv if bb == b]`
unfoldable pub trials_of : Text → PvMap → List ℕ
trials_of b [] = []
trials_of b (((c, t), v) ∷ pv) = let rest = trials_of b pv in if text_eq c b then t ∷ rest else rest

abbrev or_key {ℓ} : {A : Type ℓ} → Option A → Result WitnessFail A
or_key none = err key_error
or_key (some a) = ok a

-- The row of a batch; its sorted trials are 1, 2 and 3.
unfoldable pub batch_row : PvMap → Text → Result WitnessFail (List ℕ)
batch_row pv b = do
  let trials = sort leb (trials_of b pv)
  guard (text_eq trials (1 ∷ 2 ∷ 3 ∷ [])) (wrong_trials b trials)
  first ← or_key (get b 1 pv)
  second ← or_key (get b 2 pv)
  third ← or_key (get b 3 pv)
  ok (first ∷ second ∷ third ∷ [])

unfoldable pub batch_rows : PvMap → List Text → Result WitnessFail (List (List ℕ))
batch_rows pv [] = ok []
batch_rows pv (b ∷ batches) = do row ← batch_row pv b; rows ← batch_rows pv batches; ok (row ∷ rows)

-- `none` if there are no times.
unfoldable pub arm_warmups : List Text → PvMap → Result WitnessFail (Option (List (List ℕ)))
arm_warmups batches [] = ok none
arm_warmups batches (e ∷ pv) = do rows ← batch_rows (e ∷ pv) batches; ok (some rows)

unfoldable pub is_warmup_run : RunLine → Bool
is_warmup_run r = text_eq r.warmup (codes "1") && text_eq r.config safe_arm

-- The batch's index, the trial, its time, and the idle time before it.
pub record Gap : Type 0 where
  pub batch : ℕ
  pub trial : ℕ
  pub pv_ns : ℕ
  pub gap_ns : ℤ

-- `row[trial - 1]`, where the index -1 is that of the last.
abbrev pub at_trial : List ℕ → ℕ → Option ℕ
at_trial row zero = get_elem? row (length row - 1)
at_trial row (suc i) = get_elem? row i

abbrev idle : RunLine → RunLine → ℤ
idle prev r = sub_ℕ r.e0_mono_ns (prev.e0_mono_ns + prev.e0_to_e4_ns)

abbrev or_index {ℓ} : {A : Type ℓ} → Option A → Result WitnessFail A
or_index none = err index_error
or_index (some a) = ok a

-- The gaps of a batch's rows after the first, of which `prev` is the one before.
unfoldable pub gaps_after : ℕ → List ℕ → RunLine → List RunLine → Result WitnessFail (List Gap)
gaps_after bi row prev [] = ok []
gaps_after bi row prev (r ∷ rs) = do
  here ←
      (if is_warmup_run r
        then (do
          pv ← or_index (at_trial row r.trial)
          ok (record { batch = bi; trial = r.trial; pv_ns = pv; gap_ns = idle prev r } ∷ []))
        else ok [])
  more ← gaps_after bi row r rs
  ok (here ++ more)

abbrev batch_gaps : ℕ → List ℕ → List RunLine → Result WitnessFail (List Gap)
batch_gaps bi row [] = ok []
batch_gaps bi row (r ∷ rs) = gaps_after bi row r rs

abbrev by_order : RunLine → RunLine → Bool
by_order r q = leb r.run_order q.run_order

unfoldable pub all_gaps :
    ℕ → List RunLine → List Text → List (List ℕ) → Result WitnessFail (List Gap)
unfolding sort
all_gaps bi runs [] rows = ok []
all_gaps bi runs (b ∷ batches) [] = err index_error
all_gaps bi runs (b ∷ batches) (row ∷ rows) = do
  here ← batch_gaps bi row (sort by_order (keep (λ (r : RunLine). text_eq r.batch_id b) runs))
  more ← all_gaps (suc bi) runs batches rows
  ok (here ++ more)

pub record Join : Type 0 where
  pub batches : List Text
  pub safe : List (List ℕ)
  pub m : Option (List (List ℕ))
  pub gaps : List Gap

abbrev or_no_values : Option (List (List ℕ)) → Result WitnessFail (List (List ℕ))
or_no_values none = err no_warmup_values
or_no_values (some rows) = ok rows

-- `sorted({r["batch_id"] for r in rows})`
unfoldable pub batches_of : List RunLine → List Text
unfolding sort
batches_of rows = sort text_leb (distinct_names (map (λ (r : RunLine). r.batch_id) rows))

unfoldable pub join_batches : List RunLine → List PhaseLine → List Text → Result WitnessFail Join
join_batches runs phases batches = do
  found ← arm_warmups batches (pv_map phases safe_arm)
  safe ← or_no_values found
  m ← arm_warmups batches (pv_map phases m_arm)
  gaps ← all_gaps 0 runs batches safe
  ok (record { batches = batches; safe = safe; m = m; gaps = gaps })

-- `none` if no warmup of the safe arm ran.
unfoldable pub warmup_join : List RunLine → List PhaseLine → Result WitnessFail (Option Join)
warmup_join runs phases = elim (keep is_warmup_run runs) [
  | [] ↦ ok none
  | r ∷ wu_runs ↦ (do join ← join_batches runs phases (batches_of (r ∷ wu_runs)); ok (some join))
]
