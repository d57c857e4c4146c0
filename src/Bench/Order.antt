-- ===== src/Bench/Order.antt =====
-- The campaign boots each arm the registered number of times, whatever the shuffle does.
use whimbrel.Prelude.{ℕ, zero, suc, ◌+◌, ◌*◌}
use whimbrel.Prelude.{◌≡◌, refl, ap, ◌∙◌}
use whimbrel.Prelude.{Bool, ◌&&◌, arith}
use whimbrel.Prelude.{List, [], ◌∷◌, ◌++◌}
use whimbrel.Prelude.{ltb, leb, ◌==◌, if◌then◌else◌}
use mathlib.Core.List.{Perm, Permᴰ}
use mathlib.Core.Logic.{∥∥₁_elim}
use native.Mathlib.Nat.{ℕ_set}
use whimbrel.Prelude.Text.{Text, text_eq}
use whimbrel.Bench.Schedule.{
  range, Trial, with_config, pairs, warmup_round, warmups, recorded_trials,
}
use whimbrel.Bench.Schedule.{recorded_schedule, batch_trials, batches_trials, campaign_trials}

-- How many elements pass a test.
module _ {ℓ} {A : Type ℓ} (p : A → Bool) where
  abbrev pub times : List A → ℕ
  times [] = 0
  times (x ∷ xs) = (if p x then 1 else 0) + times xs

  times-append : (xs ys : List A) → times (xs ++ ys) ≡ times xs + times ys
  times-append [] ys = omega arith
  times-append (x ∷ xs) ys = omega (arith, times-append xs ys)

  times-Permᴰ : {xs ys : List A} → Permᴰ xs ys → times xs ≡ times ys
  times-Permᴰ Permᴰ.nil = refl
  times-Permᴰ (Permᴰ.cons {a = a} {b = b} {l₁ = xs} {l₂ = ys} e h) =
      rw e (ap (λ (k : ℕ). (if p b then 1 else 0) + k) (times-Permᴰ h))
  times-Permᴰ (Permᴰ.swap e f) = rw (e, f) (omega arith)
  times-Permᴰ (Permᴰ.trans h k) = times-Permᴰ h ∙ times-Permᴰ k

  times-perm : {xs ys : List A} → Perm xs ys → times xs ≡ times ys
  times-perm {xs} {ys} h = ∥∥₁_elim h (ℕ_set (times xs) (times ys)) times-Permᴰ

-- The row of batch `b`, configuration `c` and trial `t`.
abbrev pub is_row : ℕ → Text → ℕ → Trial → Bool
is_row b c t r = (r.batch == b) && text_eq r.config c && (r.trial == t)

abbrev is_pair : Text → ℕ → Text × ℕ → Bool
is_pair c t (cfg, trial) = text_eq cfg c && (trial == t)

abbrev pub in_range : ℕ → ℕ → ℕ → Bool
in_range start count t = leb start t && ltb t (start + count)

times-range :
    (t start count : ℕ)
    → times (λ i. i == t) (range start count) ≡ (if in_range start count t then 1 else 0)
unfolding range
times-range t start zero = ground arith
times-range t start (suc count) = ground (arith, times-range t (start + 1) count)

module _ (b : ℕ) (c : Text) (t : ℕ) where
  times-with_config :
      (cfg : Text) (trials : List ℕ)
      → times (is_pair c t) (with_config cfg trials)
        ≡ (if text_eq cfg c then times (λ i. i == t) trials else 0)
  unfolding with_config
  times-with_config cfg [] = ground arith
  times-with_config cfg (i ∷ trials) = ground (arith, times-with_config cfg trials)

  times-pairs :
      (configs : List Text) (trials : List ℕ)
      → times (is_pair c t) (pairs configs trials)
        ≡ times (λ cfg. text_eq cfg c) configs * times (λ i. i == t) trials
  unfolding pairs
  times-pairs [] trials = omega arith
  times-pairs (cfg ∷ configs) trials = ground (
    arith,
    times-append (is_pair c t) (with_config cfg trials) (pairs configs trials),
    times-with_config cfg trials,
    times-pairs configs trials,
  )

  times-warmup_round :
      (batch w : ℕ) (configs : List Text)
      → times (is_row b c t) (warmup_round batch w configs)
        ≡ (if (batch == b) && (w == t) then times (λ cfg. text_eq cfg c) configs else 0)
  unfolding warmup_round
  times-warmup_round batch w [] = ground arith
  times-warmup_round batch w (cfg ∷ configs) = ground (arith, times-warmup_round batch w configs)

  times-warmups :
      (batch : ℕ) (ws : List ℕ) (configs : List Text)
      → times (is_row b c t) (warmups batch ws configs)
        ≡ (if batch == b then times (λ cfg. text_eq cfg c) configs * times (λ i. i == t) ws else 0)
  unfolding warmups
  times-warmups batch [] configs = ground arith
  times-warmups batch (w ∷ ws) configs = ground (
    arith,
    times-append (is_row b c t) (warmup_round batch w configs) (warmups batch ws configs),
    times-warmup_round batch w configs,
    times-warmups batch ws configs,
  )

  times-recorded_trials :
      (batch : ℕ) (schedule : List (Text × ℕ))
      → times (is_row b c t) (recorded_trials batch schedule)
        ≡ (if batch == b then times (is_pair c t) schedule else 0)
  unfolding recorded_trials
  times-recorded_trials batch [] = ground arith
  times-recorded_trials batch ((cfg, i) ∷ schedule) =
      ground (arith, times-recorded_trials batch schedule)

module _ (shuffle : ℕ → List (Text × ℕ) → List (Text × ℕ))
    (rearranges : (seed : ℕ) (xs : List (Text × ℕ)) → Perm (shuffle seed xs) xs)
    (configs : List Text) (n warmup seed : ℕ) (b : ℕ) (c : Text) (t : ℕ) where
  arms_named : ℕ
  arms_named = times (λ cfg. text_eq cfg c) configs

  times-recorded_schedule :
      (batch : ℕ)
      → times (is_pair c t) (recorded_schedule shuffle configs n warmup seed batch)
        ≡ arms_named * (if in_range (warmup + 1) n t then 1 else 0)
  unfolding recorded_schedule arms_named
  times-recorded_schedule batch =
      let trials = range (warmup + 1) n in
      times-perm (is_pair c t) (rearranges (seed + batch) (pairs configs trials))
      ∙ times-pairs b c t configs trials
      ∙ ap (λ (k : ℕ). times (λ cfg. text_eq cfg c) configs * k) (times-range t (warmup + 1) n)

  times-batch_trials :
      (batch : ℕ)
      → times (is_row b c t) (batch_trials shuffle configs n warmup seed batch)
        ≡ (if (batch == b) && in_range 1 (warmup + n) t then arms_named else 0)
  unfolding batch_trials arms_named
  times-batch_trials batch =
      let schedule = recorded_schedule shuffle configs n warmup seed batch in
      let early = warmups batch (range 1 warmup) configs in
      ground (
        arith,
        times-append (is_row b c t) early (recorded_trials batch schedule),
        times-warmups b c t batch (range 1 warmup) configs,
        times-range t 1 warmup,
        times-recorded_trials b c t batch schedule,
        times-recorded_schedule batch,
      )

  times-batches_trials :
      (bs : List ℕ)
      → times (is_row b c t) (batches_trials shuffle configs n warmup seed bs)
        ≡ times (λ i. i == b) bs * (if in_range 1 (warmup + n) t then arms_named else 0)
  unfolding batches_trials
  times-batches_trials [] = omega arith
  times-batches_trials (batch ∷ bs) = ground (
    arith,
    times-append (is_row b c t) (batch_trials shuffle configs n warmup seed batch)
        (batches_trials shuffle configs n warmup seed bs),
    times-batch_trials batch,
    times-batches_trials bs,
  )

  -- For each batch that is run and each trial number up to `warmup + n`, warmups first and without
  -- a gap, a configuration is booted exactly as often as the campaign names it; no other row
  -- arises. The shuffle may be any rearrangement.
  pub times-campaign_trials :
      (batches : ℕ)
      → times (is_row b c t) (campaign_trials shuffle configs n warmup batches seed) ≡ (
          if in_range 1 batches b && in_range 1 (warmup + n) t
          then times (λ cfg. text_eq cfg c) configs
          else 0)
  unfolding campaign_trials arms_named
  times-campaign_trials batches =
      ground (arith, times-batches_trials (range 1 batches), times-range b 1 batches)
