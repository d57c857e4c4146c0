-- ===== src/Bench/Schedule.antt =====
-- The order of the trials in a campaign of scripts/bench.py.
use whimbrel.Prelude.{ℕ, zero, suc, ◌+◌}
use whimbrel.Prelude.{Bool, true, false}
use whimbrel.Prelude.{List, [], ◌∷◌, ◌++◌}
use whimbrel.Prelude.Text.{Text}

-- `range(start, start + count)`
unfoldable pub range : ℕ → ℕ → List ℕ
range start zero = []
range start (suc count) = start ∷ range (start + 1) count

-- One call of `one_trial`.
pub record Trial : Type 0 where
  pub batch : ℕ
  pub config : Text
  pub trial : ℕ
  pub is_warmup : Bool

-- `[(cfg, trial) for trial in trials]` for one configuration
unfoldable pub with_config : Text → List ℕ → List (Text × ℕ)
with_config cfg [] = []
with_config cfg (t ∷ trials) = (cfg, t) ∷ with_config cfg trials

-- `[(cfg, trial) for cfg in configs for trial in trials]`
unfoldable pub pairs : List Text → List ℕ → List (Text × ℕ)
unfolding with_config
pairs [] trials = []
pairs (cfg ∷ configs) trials = with_config cfg trials ++ pairs configs trials

-- One round of the warmup loop.
unfoldable pub warmup_round : ℕ → ℕ → List Text → List Trial
warmup_round batch w [] = []
warmup_round batch w (cfg ∷ configs) =
    record { batch = batch; config = cfg; trial = w; is_warmup = true }
    ∷ warmup_round batch w configs

unfoldable pub warmups : ℕ → List ℕ → List Text → List Trial
unfolding warmup_round
warmups batch [] configs = []
warmups batch (w ∷ ws) configs = warmup_round batch w configs ++ warmups batch ws configs

unfoldable pub recorded_trials : ℕ → List (Text × ℕ) → List Trial
recorded_trials batch [] = []
recorded_trials batch ((cfg, t) ∷ schedule) =
    record { batch = batch; config = cfg; trial = t; is_warmup = false }
    ∷ recorded_trials batch schedule

-- `random.Random(seed).shuffle`, which is not modelled: it gives some rearrangement.
module _ (shuffle : ℕ → List (Text × ℕ) → List (Text × ℕ)) where
  unfoldable pub recorded_schedule : List Text → ℕ → ℕ → ℕ → ℕ → List (Text × ℕ)
  unfolding pairs range
  recorded_schedule configs n warmup seed batch =
      shuffle (seed + batch) (pairs configs (range (warmup + 1) n))

  unfoldable pub batch_trials : List Text → ℕ → ℕ → ℕ → ℕ → List Trial
  unfolding warmups recorded_trials recorded_schedule
  batch_trials configs n warmup seed batch =
      warmups batch (range 1 warmup) configs
      ++ recorded_trials batch (recorded_schedule configs n warmup seed batch)

  unfoldable pub batches_trials : List Text → ℕ → ℕ → ℕ → List ℕ → List Trial
  unfolding batch_trials
  batches_trials configs n warmup seed [] = []
  batches_trials configs n warmup seed (b ∷ bs) =
      batch_trials configs n warmup seed b ++ batches_trials configs n warmup seed bs

  -- The calls of `one_trial` in the loop over the batches.
  unfoldable pub campaign_trials : List Text → ℕ → ℕ → ℕ → ℕ → List Trial
  unfolding batches_trials
  campaign_trials configs n warmup batches seed =
      batches_trials configs n warmup seed (range 1 batches)
