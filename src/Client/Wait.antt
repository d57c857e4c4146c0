-- ===== src/Client/Wait.antt =====
-- `wait_until` of scripts/bench-client.py.
use whimbrel.Prelude.{ℕ, zero, suc, ◌+◌, ◌-◌, ◌*◌, ◌≤◌, ◌<◌}
use whimbrel.Prelude.{◌≡◌, ◌⊎◌, inl, inr}
use whimbrel.Prelude.{Option, none, some, arith}
use whimbrel.Prelude.{ltb, leb, if◌then◌else◌, Bool-cases}
use whimbrel.Client.Net.{Net, Moves}

mul_mono : (a b k : ℕ) → a ≤ b → a * k ≤ b * k
mul_mono a b k h = grind arith

module _ {W : Type 0} (net : Net W) where
  -- `if remain > 200_000: time.sleep((remain - 100_000) / 1e9)`
  unfoldable pub pause : ℕ → W → W
  pause remain w = if ltb 200_000 remain then net.sleep (remain - 100_000) w else w

  -- The loop, for at most `fuel` rounds.
  unfoldable pub wait_loop : ℕ → ℕ → W → Option W
  wait_loop zero deadline w = none
  wait_loop (suc fuel) deadline w =
      let v = net.clock w in
      let again = wait_loop fuel deadline (pause (deadline - net.now v) v) in
      if leb deadline (net.now v) then some v else again

  -- How many rounds are left at most: for each nanosecond the readings that may show one time.
  abbrev left : ℕ → ℕ → ℕ → ℕ
  left deadline now stalls = (deadline - now) * suc net.most_stalls + stalls

  -- As many rounds as are left, and one that shows the end, are enough.
  unfoldable pub wait_until : ℕ → W → Option W
  wait_until deadline w = wait_loop (suc (left deadline (net.now w) (net.stalls w))) deadline w

  -- A later time, or fewer readings at the same one.
  left-lt :
      (deadline n n' s s' : ℕ)
      → n ≤ n'
      → (n < n') ⊎ (s' < s)
      → s' ≤ net.most_stalls
      → n < deadline
      → left deadline n' s' < left deadline n s
  left-lt deadline n n' s s' h (inl later) few early = omega (
    arith,
    mul_mono (suc (deadline - n')) (deadline - n) (suc net.most_stalls) (omega arith),
    few,
  )
  left-lt deadline n n' s s' h (inr fewer) few early =
      omega
        (arith, mul_mono (deadline - n') (deadline - n) (suc net.most_stalls) (omega arith), fewer)

  left-le :
      (deadline n n' s s' : ℕ)
      → n ≤ n'
      → (n < n') ⊎ (s' ≤ s)
      → s' ≤ net.most_stalls
      → n < deadline
      → left deadline n' s' ≤ left deadline n s
  left-le deadline n n' s s' h (inl later) few early =
      omega (arith, left-lt deadline n n' s s' h (inl later) few early)
  left-le deadline n n' s s' h (inr fewer) few early =
      omega (arith, left-lt deadline n n' (suc s) s' h (inr (omega arith)) few early)

  module _ (moves : Moves net) where
    pause-moves : (remain : ℕ) (w : W) → net.now w ≤ net.now (pause remain w)
    unfolding pause
    pause-moves remain w = ground (arith, moves.sleep_moves (remain - 100_000) w)

    pause-left :
        (deadline remain : ℕ) (w : W)
        → net.now w < deadline
        → left deadline (net.now (pause remain w)) (net.stalls (pause remain w))
          ≤ left deadline (net.now w) (net.stalls w)
    unfolding pause
    pause-left deadline remain w early = elim (Bool-cases (ltb 200_000 remain)) [
      | inl e ↦
          let u = net.sleep (remain - 100_000) w in
          rw e (
            left-le deadline (net.now w) (net.now u) (net.stalls w) (net.stalls u)
              (moves.sleep_moves (remain - 100_000) w) (moves.sleep_keeps (remain - 100_000) w)
              (moves.stalls_few u) early)
      | inr e ↦ rw e (omega arith)
    ]

    wait_loop-waits :
        (fuel deadline : ℕ) (w : W)
        → left deadline (net.now w) (net.stalls w) < fuel
        → (u : W) × (wait_loop fuel deadline w ≡ some u)
          × (deadline ≤ net.now u)
          × (net.now w ≤ net.now u)
    unfolding wait_loop
    wait_loop-waits zero deadline w enough = absurd (omega (arith, enough))
    wait_loop-waits (suc fuel) deadline w enough =
        let v = net.clock w in
        elim (Bool-cases (leb deadline (net.now v))) [
          | inl e ↦ (v, ground arith, ground arith, moves.clock_moves w)
          | inr e ↦
              let later = moves.clock_moves w in
              let u = pause (deadline - net.now v) v in
              let early : net.now v < deadline = ground arith in
              let read =
                left-lt deadline (net.now w) (net.now v) (net.stalls w) (net.stalls v) later
                  (moves.clock_turns w) (moves.stalls_few v) (omega (arith, later, early)) in
              let paused = pause-left deadline (deadline - net.now v) v early in
              let (x, waited, reached, on) =
                wait_loop-waits fuel deadline u (omega (arith, read, paused, enough)) in
              (
                x,
                rw e waited,
                reached,
                omega (arith, later, pause-moves (deadline - net.now v) v, on),
              )
        ]

    -- The wait ends, at or after the time that it waits for.
    pub wait_until-waits :
        (deadline : ℕ) (w : W)
        → (u : W) × (wait_until deadline w ≡ some u)
          × (deadline ≤ net.now u)
          × (net.now w ≤ net.now u)
    unfolding wait_until
    wait_until-waits deadline w =
        wait_loop-waits (suc (left deadline (net.now w) (net.stalls w))) deadline w (omega arith)
