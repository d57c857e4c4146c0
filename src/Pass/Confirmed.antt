-- ===== src/Pass/Confirmed.antt =====
-- What the verdict `CONFIRMED` means: each campaign has met the prediction.
use whimbrel.Prelude.{◌+◌, ◌≤◌}
use whimbrel.Prelude.{◌≡◌, sym, ◌⊎◌, inl, inr}
use whimbrel.Prelude.{true, arith}
use whimbrel.Prelude.{List, [], ◌∷◌}
use whimbrel.Prelude.{Bool-cases}
use whimbrel.Prelude.{length, All}
use whimbrel.Prelude.{length-append}
use whimbrel.Prelude.{ok, ◌>>=◌, Result-cases, ok-injective, bind-ok}
use whimbrel.Prelude.Int.{pos, abs, ltb_ℤ, ◌+ℤ◌, ◌-ℤ◌}
use whimbrel.Stats.Signed.{leb_ℤ}
use whimbrel.Pass.Campaign.{Campaign, safe, fast}
use whimbrel.Pass.Verdict.{
  Item, Medians, config_medians, pred_dfin_max, within, predicted, Tally, join, campaign_tally,
  tally, confirmed, verdict_of, render,
}

-- The fast arm's FIN comes within 5 ms and positively, the safe arm's in less than twice that, and
-- the residuals are within 1 ms, of zero or of each other. Medians are twofold.
pub record IsPredicted (results : List Item) (c : Campaign) : Type 0 where
  pub fast_arm : Medians
  pub safe_arm : Medians
  pub is_fast : config_medians c.label fast results ≡ ok fast_arm
  pub is_safe : config_medians c.label safe results ≡ ok safe_arm
  pub positive : ltb_ℤ (pos 0) fast_arm.d_fin ≡ true
  pub quick : leb_ℤ fast_arm.d_fin pred_dfin_max ≡ true
  pub flat : ltb_ℤ safe_arm.d_fin (fast_arm.d_fin +ℤ fast_arm.d_fin) ≡ true
  pub closes :
      ((abs fast_arm.residual ≤ 2_000_000) × (abs safe_arm.residual ≤ 2_000_000))
      ⊎ (abs (fast_arm.residual -ℤ safe_arm.residual) ≤ 2_000_000)

predicted-means :
    (f s : Medians)
    → predicted f s ≡ true
    → (leb_ℤ f.d_fin pred_dfin_max ≡ true)
      × (ltb_ℤ s.d_fin (f.d_fin +ℤ f.d_fin) ≡ true)
      × (((abs f.residual ≤ 2_000_000) × (abs s.residual ≤ 2_000_000))
          ⊎ (abs (f.residual -ℤ s.residual) ≤ 2_000_000))
unfolding predicted
predicted-means f s h = elim (Bool-cases (within (f.residual -ℤ s.residual))) [
  | inl e ↦ (ground arith, ground arith, inr (ground arith))
  | inr e ↦ (ground arith, ground arith, inl (ground arith))
]

-- A campaign adds one to the predicted ones, or nothing.
campaign_tally-IsPredicted :
    (results : List Item) (c : Campaign) (t : Tally)
    → campaign_tally results c ≡ ok t
    → (length t.predict_ok ≡ 0) ⊎ ((length t.predict_ok ≡ 1) × IsPredicted results c)
unfolding campaign_tally
campaign_tally-IsPredicted results c t h =
    elim (Result-cases (config_medians c.label fast results)) [
      | inr (e, failed) ↦ absurd (ground arith)
      | inl (f, is_fast) ↦ elim (Result-cases (config_medians c.label safe results)) [
        | inr (e, failed) ↦ absurd (ground arith)
        | inl (s, is_safe) ↦ elim (Bool-cases (predicted f s)) [
          | inr e ↦ inl (ground arith)
          | inl e ↦
              let (quick, flat, closes) = predicted-means f s e in
              inr (
                ground arith,
                record {
                  fast_arm = f;
                  safe_arm = s;
                  is_fast = is_fast;
                  is_safe = is_safe;
                  positive = ground arith;
                  quick = quick;
                  flat = flat;
                  closes = closes;
                },
              )
        ]
      ]
    ]

tally-IsPredicted :
    (results : List Item) (camps : List Campaign) (t : Tally)
    → tally results camps ≡ ok t
    → (length t.predict_ok ≤ length camps)
      × (length t.predict_ok ≡ length camps → All (IsPredicted results) camps)
unfolding tally
tally-IsPredicted results [] t h = (ground arith, λ e. tt)
tally-IsPredicted results (c ∷ camps) t h =
    let (first, counted, more) =
      bind-ok (campaign_tally results c)
        (λ first. tally results camps >>= λ rest. ok (join first rest)) h in
    let (rest, others, whole) = bind-ok (tally results camps) (λ rest. ok (join first rest)) more in
    let (most, all_others) = tally-IsPredicted results camps rest others in
    let total : length t.predict_ok ≡ length first.predict_ok + length rest.predict_ok =
      rw (sym (ok-injective (join first rest) t whole))
        (length-append first.predict_ok rest.predict_ok) in
    elim (campaign_tally-IsPredicted results c first counted) [
      | inl missed ↦
          (omega (arith, total, missed, most), λ e. absurd (omega (arith, total, missed, most, e)))
      | inr (one, met) ↦
          (omega (arith, total, one, most), λ e. (met, all_others (omega (arith, total, one, e))))
    ]

-- If the pass renders `CONFIRMED`, every campaign has met the prediction.
pub render-IsPredicted :
    (camps : List Campaign) (results : List Item)
    → render camps results ≡ ok confirmed
    → All (IsPredicted results) camps
unfolding render verdict_of
render-IsPredicted camps results h =
    let (t, counted, is_verdict) = bind-ok (tally results camps) (λ t. ok (verdict_of camps t)) h in
    (tally-IsPredicted results camps t counted).1 (ground arith)
