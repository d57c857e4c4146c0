-- ===== src/Exhibits/Lanes.antt =====
-- `require_e2e3g_stable` and `require_delta_s_sane` of scripts/report-exhibits.py. A median is twofold.
use whimbrel.Prelude.{ℕ, ◌-◌, ◌*◌, min, max}
use whimbrel.Prelude.{Bool, true, ◌&&◌, ◌||◌, not, Option, none, some}
use whimbrel.Prelude.{List, [], ◌∷◌, map}
use whimbrel.Prelude.{ltb, leb, ◌==◌}
use whimbrel.Prelude.{length, any, keep}
use whimbrel.Prelude.{Result, ok, err, ◌>>=◌, ◌>>◌, guard}
use whimbrel.Prelude.Text.{Text, codes, text_eq, text_leb}
use whimbrel.Prelude.Int.{ℤ, negsuc, sub_ℕ, abs, ltb_ℤ, ◌+ℤ◌, ◌-ℤ◌}
use whimbrel.Prelude.Sort.{sort}
use whimbrel.Stats.Percentile.{median}
use whimbrel.Stats.Signed.{median_ℤ}
use whimbrel.Stats.Stability.{distinct_names}
use whimbrel.Exhibits.Rows.{
  Row, PhaseCell, ExhibitFail, no_data, no_e3g, batch_number, not_stable, no_startup_cell,
  no_startup, startup_slower, startup_far, fast, m_fast, of_config,
}

-- `config` and, if one is given, `batch_id`.
abbrev in_batch : Option Text → Text → Bool
in_batch none b = true
in_batch (some want) b = text_eq b want

unfoldable pub is_key : List Row → Text → Option Text → PhaseCell → Bool
is_key rec config batch p =
    any
      (λ (r : Row).
        text_eq r.config config
        && in_batch batch r.batch_id
        && text_eq r.batch_id p.batch_id
        && text_eq r.trial p.trial)
      rec

unfoldable pub is_e3g_cell : List Row → Text → Option Text → PhaseCell → Bool
is_e3g_cell rec config batch p =
    (p.warmup == 0)
    && text_eq p.phase (codes "E3g")
    && text_eq p.config config
    && is_key rec config batch p

-- The values that are there.
abbrev pub present : List (Option ℕ) → List ℕ
present [] = []
present (none ∷ vals) = present vals
present (some v ∷ vals) = v ∷ present vals

unfoldable pub e2e3g_vals :
    List Row → List PhaseCell → Text → Option Text → Result ExhibitFail (List ℕ)
e2e3g_vals rec phases config batch = do
  let vals =
      present (map (λ (p : PhaseCell). p.ns_since_e2) (keep (is_e3g_cell rec config batch) phases))
  guard (ltb 0 (length vals)) (no_e3g config)
  ok vals

abbrev pub or_no_data {ℓ} : {A : Type ℓ} → Option A → Result ExhibitFail A
or_no_data none = err no_data
or_no_data (some a) = ok a

unfoldable pub e2e3g_median : List Row → List PhaseCell → Text → Option Text → Result ExhibitFail ℕ
e2e3g_median rec phases config batch = do
  vals ← e2e3g_vals rec phases config batch
  or_no_data (median vals)

-- Below a millisecond, or no further apart than two percent and 0.2 ms.
unfoldable pub is_stable : ℕ → ℕ → Bool
is_stable a b = ltb (max a b) 2_000_000 || leb (50 * (max a b - min a b)) (max (max a b) 20_000_000)

unfoldable pub batches_of : List Row → List Text
unfolding sort
batches_of rec = sort text_leb (distinct_names (map (λ (r : Row). r.batch_id) rec))

unfoldable pub stable_in :
    List Row → List PhaseCell → Text → List Text → Result ExhibitFail (Unit {0})
stable_in rec phases config (b ∷ c ∷ []) = do
  first ← e2e3g_median rec phases config (some b)
  second ← e2e3g_median rec phases config (some c)
  guard (is_stable first second) (not_stable config)
stable_in rec phases config batches = err (batch_number (length batches))

unfoldable pub require_e2e3g_stable :
    List Row → List PhaseCell → Text → Result ExhibitFail (Unit {0})
require_e2e3g_stable rec phases config = stable_in rec phases config (batches_of rec)

abbrev or_no_cell : Option ℤ → Result ExhibitFail ℤ
or_no_cell none = err no_startup_cell
or_no_cell (some v) = ok v

-- What passes between the connection and the first ARP.
unfoldable pub s_trial_ns : Row → Result ExhibitFail ℤ
s_trial_ns row = do
  w ← or_no_cell row.w_ns
  synack ← or_no_cell row.synack_to_http_ns
  fin ← or_no_cell row.d_fin_ns
  ok (sub_ℕ row.e0_to_e4_ns row.e0_to_first_connect_ns -ℤ ((w +ℤ synack) +ℤ fin))

unfoldable pub s_of : List Row → Result ExhibitFail (List ℤ)
s_of [] = ok []
s_of (r ∷ rows) = do s ← s_trial_ns r; more ← s_of rows; ok (s ∷ more)

unfoldable pub s_vals : List Row → Text → Result ExhibitFail (List ℤ)
s_vals rec config = do
  vals ← s_of (keep (of_config config) rec)
  guard (ltb 0 (length vals)) (no_startup config)
  ok vals

unfoldable pub s_median : List Row → Text → Result ExhibitFail ℤ
s_median rec config = do vals ← s_vals rec config; or_no_data (median_ℤ vals)

-- -0.3 ms and 3 ms, for a difference of medians.
abbrev pub ds_falsify_slower : ℤ
ds_falsify_slower = negsuc 599_999

abbrev pub ds_falsify_abs : ℕ
ds_falsify_abs = 6_000_000

unfoldable pub require_delta_s_sane : List Row → Result ExhibitFail ℤ
require_delta_s_sane rec = do
  a ← s_median rec fast
  b ← s_median rec m_fast
  let delta = a -ℤ b
  guard (not (ltb_ℤ delta ds_falsify_slower)) startup_slower
  guard (leb (abs delta) ds_falsify_abs) startup_far
  ok delta
