-- ===== src/Client/Calibrate.antt =====
-- `calibrate` of scripts/bench-client.py.
use whimbrel.Prelude.{ℕ, zero, suc, ◌+◌, ◌-◌, ◌*◌, ◌/◌, ◌≤◌, ◌<◌, max}
use whimbrel.Prelude.{◌≡◌, refl, ap}
use whimbrel.Prelude.{Bool, true, false, Option, none, some, arith}
use whimbrel.Prelude.{List, [], ◌∷◌}
use whimbrel.Prelude.{leb}
use whimbrel.Prelude.{length, get_or, All}
use whimbrel.Prelude.{Result, ok, err}
use whimbrel.Prelude.Options.{◌>>=◌}
use whimbrel.Prelude.Sort.{sort, sort-All, length-sort}
use whimbrel.Stats.PercentileLaws.{Ascends, sort-Ascends}
use whimbrel.Client.Net.{Net, Moves}
use whimbrel.Client.Wait.{wait_until, wait_until-waits}
use whimbrel.Client.Attempt.{attempt_connect}
use whimbrel.Client.Loop.{cadence_ns, Stop, hung, no_deltas, deltas}

pub record Calibration : Type 0 where
  pub n : ℕ
  pub cadence_target_ns : ℕ
  pub granularity_ns : ℕ
  pub granularity_min_ns : ℕ
  pub granularity_max_ns : ℕ
  pub granularity_p25_ns : ℕ
  pub granularity_p75_ns : ℕ

-- The summary of the sorted differences, which fails if there is none.
unfoldable pub calibration : ℕ → List ℕ → Result Stop Calibration
calibration n [] = err no_deltas
calibration n (d ∷ ds) =
    let sorted = d ∷ ds in
    ok (record {
      n = n;
      cadence_target_ns = cadence_ns;
      granularity_ns = get_or sorted (length sorted / 2) 0;
      granularity_min_ns = d;
      granularity_max_ns = get_or sorted (length sorted - 1) 0;
      granularity_p25_ns = get_or sorted (length sorted / 4) 0;
      granularity_p75_ns = get_or sorted (3 * length sorted / 4) 0;
    })

unfoldable pub summary : ℕ → Option (List ℕ) → Result Stop Calibration
summary n none = err hung
summary n (some times) = calibration n (sort leb (deltas times))

-- Each attempt is a millisecond or more after the last.
abbrev pub AreApart : ℕ → List ℕ → Type 0
AreApart from [] = Unit
AreApart from (t ∷ ts) = (from ≤ t) × AreApart (t + cadence_ns) ts

module _ {W : Type 0} (net : Net W) where
  -- `if sock is not None: sock.close()`
  abbrev pub closed : Bool × W → W
  closed (true, w) = net.close w
  closed (false, w) = w

  -- The times of the attempts of the loop, or `none` if a wait does not end.
  unfoldable pub attempt_times : ℕ → ℕ → W → Option (List ℕ)
  attempt_times zero next_t w = some []
  attempt_times (suc n) next_t w = do
    u ← wait_until net next_t w
    let v = net.clock u
    times ← attempt_times n (net.now v + cadence_ns) (closed (attempt_connect net v))
    some (net.now v ∷ times)

  unfoldable pub calibrate : ℕ → W → Result Stop Calibration
  calibrate n w = let v = net.clock w in summary n (attempt_times n (net.now v) v)

  attempt_times-AreApart :
      (moves : Moves net) (n from : ℕ) (w : W)
      → (ts : List ℕ) × (attempt_times n from w ≡ some ts) × (length ts ≡ n) × AreApart from ts
  unfolding attempt_times
  attempt_times-AreApart moves zero from w = ([], refl, refl, tt)
  attempt_times-AreApart moves (suc n) from w =
      let (u, waited, reached, later) = wait_until-waits net moves from w in
      let v = net.clock u in
      let (ts, e, counted, apart) =
        attempt_times-AreApart moves n (net.now v + cadence_ns) (closed (attempt_connect net v)) in
      (
        net.now v ∷ ts,
        rw (waited, e) refl,
        ap suc counted,
        (omega (arith, reached, moves.clock_moves u), apart),
      )

deltas-AreApart :
    (from : ℕ) (ts : List ℕ)
    → AreApart from ts
    → All (λ d. cadence_ns ≤ d) (deltas ts) × (suc (length (deltas ts)) ≡ max 1 (length ts))
deltas-AreApart from [] p = (tt, refl)
deltas-AreApart from (t ∷ []) p = (tt, refl)
deltas-AreApart from (t ∷ u ∷ ts) (h, p) =
    let (all_apart, counted) = deltas-AreApart (t + cadence_ns) (u ∷ ts) p in
    ((omega (arith, p.0), all_apart), omega (arith, counted))

-- The granularities ascend, from one that is at least the cadence.
pub record IsCalibrated (n : ℕ) (c : Calibration) : Type 0 where
  pub size : c.n ≡ n
  pub paced : cadence_ns ≤ c.granularity_min_ns
  pub low : c.granularity_min_ns ≤ c.granularity_p25_ns
  pub middle : c.granularity_p25_ns ≤ c.granularity_ns
  pub high : c.granularity_ns ≤ c.granularity_p75_ns
  pub top : c.granularity_p75_ns ≤ c.granularity_max_ns

calibration-IsCalibrated :
    (n : ℕ) (ds : List ℕ)
    → 0 < length ds
    → Ascends ds
    → All (λ d. cadence_ns ≤ d) ds
    → (c : Calibration) × (calibration n ds ≡ ok c) × IsCalibrated n c
unfolding calibration
calibration-IsCalibrated n [] full up far = absurd (omega (arith, full))
calibration-IsCalibrated n (d ∷ ds) full up (first, far) =
    let k = length ds in
    (
      _,
      refl,
      record {
        size = refl;
        paced = first;
        low = up 0 (suc k / 4) (omega arith) (omega arith);
        middle = up (suc k / 4) (suc k / 2) (omega arith) (omega arith);
        high = up (suc k / 2) (3 * suc k / 4) (omega arith) (omega arith);
        top = up (3 * suc k / 4) (suc k - 1) (omega arith) (omega arith);
      },
    )

-- With two attempts or more, and if the clock does not go back and shows one time at no more than a
-- fixed number of readings in a row, a calibration ends with granularities that ascend and are not
-- below the cadence.
pub calibrate-IsCalibrated :
    {W : Type 0} (net : Net W) (moves : Moves net) (n : ℕ) (w : W)
    → 2 ≤ n
    → (c : Calibration) × (calibrate net n w ≡ ok c) × IsCalibrated n c
unfolding calibrate summary
calibrate-IsCalibrated net moves n w two =
    let v = net.clock w in
    let (ts, e, counted, apart) = attempt_times-AreApart net moves n (net.now v) v in
    let (far, measured) = deltas-AreApart (net.now v) ts apart in
    let (c, is_c, good) =
      calibration-IsCalibrated n (sort leb (deltas ts))
        (omega (arith, length-sort leb (deltas ts), measured, counted, two))
        (sort-Ascends (deltas ts)) (sort-All leb (λ d. cadence_ns ≤ d) (deltas ts) far) in
    (c, rw e is_c, good)
