-- ===== src/Witness/Campaign.antt =====
-- `campaign` of scripts/regime-witness.py.
use whimbrel.Prelude.{ℕ}
use whimbrel.Prelude.{Bool, ◌&&◌, Option, none, some}
use whimbrel.Prelude.{List, [], ◌∷◌, map}
use whimbrel.Prelude.{length, all, keep}
use whimbrel.Prelude.{Result, ok, err, ◌>>=◌, ◌>>◌, guard}
use whimbrel.Prelude.Text.{Text, codes, text_eq}
use whimbrel.Prelude.Extrema.{lowest, highest}
use whimbrel.Stats.Percentile.{median}
use whimbrel.Witness.Rows.{
  RunLine, PhaseLine, WitnessFail, no_recorded, mixed_kernel, no_page_verify, safe_arm,
}
use whimbrel.Witness.Join.{Join, batches_of, warmup_join}

-- A campaign; its median is twofold.
pub record Camp : Type 0 where
  pub kernel : Text
  pub n : ℕ
  pub med : ℕ
  pub lo : ℕ
  pub hi : ℕ
  pub canary : Option ℕ
  pub batches : List Text
  pub warmup : Option Join

unfoldable pub is_recorded_run : RunLine → Bool
is_recorded_run r = text_eq r.warmup (codes "0") && text_eq r.config safe_arm

unfoldable pub is_recorded_pv : PhaseLine → Bool
is_recorded_pv p =
    text_eq p.config safe_arm
    && text_eq p.phase (codes "page_verify")
    && text_eq p.warmup (codes "0")

-- The recorded times of page_verify of the safe arm.
unfoldable pub recorded_pv : List PhaseLine → List ℕ
recorded_pv phases = map (λ (p : PhaseLine). p.delta_ns) (keep is_recorded_pv phases)

abbrev or_no_pv : Option ℕ → Result WitnessFail ℕ
or_no_pv none = err no_page_verify
or_no_pv (some m) = ok m

abbrev pub min_of : List ℕ → ℕ
min_of [] = 0
min_of (x ∷ xs) = lowest x xs

abbrev pub max_of : List ℕ → ℕ
max_of [] = 0
max_of (x ∷ xs) = highest x xs

-- The campaign of recorded runs, of which there is one.
unfoldable pub with_recorded :
    List RunLine → List PhaseLine → RunLine → List RunLine → Result WitnessFail Camp
with_recorded runs phases r rec = do
  guard (all (λ (q : RunLine). text_eq q.kernel r.kernel) rec) mixed_kernel
  let pv = recorded_pv phases
  med ← or_no_pv (median pv)
  warmup ← warmup_join runs phases
  ok (record {
    kernel = r.kernel;
    n = length pv;
    med = med;
    lo = min_of pv;
    hi = max_of pv;
    canary = r.canary;
    batches = batches_of (r ∷ rec);
    warmup = warmup;
  })

unfoldable pub campaign : List RunLine → List PhaseLine → Result WitnessFail Camp
campaign runs phases = elim (keep is_recorded_run runs) [
  | [] ↦ err no_recorded
  | r ∷ rec ↦ with_recorded runs phases r rec
]
