-- ===== src/Pass/Verdict.antt =====
-- The medians and the verdict of `render_table` of scripts/d0070-pcap-pass.py. A median is twofold.
use whimbrel.Prelude.{Bool, ◌&&◌, ◌||◌, not, Option, none, some}
use whimbrel.Prelude.{List, [], ◌∷◌, ◌++◌, map}
use whimbrel.Prelude.{◌==◌, if◌then◌else◌}
use whimbrel.Prelude.{length, keep}
use whimbrel.Prelude.{Result, ok, err, ◌>>=◌, ◌>>◌, guard}
use whimbrel.Prelude.Text.{Text, text_eq}
use whimbrel.Prelude.Int.{ℤ, pos, abs, ltb_ℤ, ◌+ℤ◌, ◌-ℤ◌}
use whimbrel.Stats.Signed.{leb_ℤ, median_ℤ}
use whimbrel.Pass.Campaign.{Campaign, PassFail, no_values, analysed, fast_not_positive, safe, fast}
use whimbrel.Pass.Analyze.{Analysis}

-- An analysed trial and the label of its campaign.
abbrev pub Item : Type 0
Item = Text × Analysis

-- The medians of a configuration that the verdict looks at.
pub record Medians : Type 0 where
  pub w : ℤ
  pub d_fin : ℤ
  pub residual : ℤ
  pub cross_abs : ℤ

abbrev pub of_campaign : Text → Item → Bool
of_campaign label (l, a) = text_eq l label

abbrev pub of_config : Text → Item → Bool
of_config cfg (l, a) = text_eq a.config cfg

abbrev pub or_no_values : Option ℤ → Result PassFail ℤ
or_no_values none = err no_values
or_no_values (some m) = ok m

-- The median of `stat_pair`.
unfoldable pub stat : (Item → ℤ) → List Item → Result PassFail ℤ
stat column rows = or_no_values (median_ℤ (map column rows))

-- The medians of a configuration's rows, of which there have to be 60.
unfoldable pub medians_of : Text → Text → List Item → Result PassFail Medians
medians_of label cfg rows = do
  guard (length rows == 60) (analysed label cfg (length rows))
  w ← stat (λ (l, a). Analysis.w_ns a) rows
  d_fin ← stat (λ (l, a). Analysis.d_fin_ns a) rows
  residual ← stat (λ (l, a). Analysis.residual_ns a) rows
  cross ← stat (λ (l, a). pos (abs (Analysis.cross_ns a))) rows
  ok (record { w = w; d_fin = d_fin; residual = residual; cross_abs = cross })

-- One turn of the inner loop.
unfoldable pub config_medians : Text → Text → List Item → Result PassFail Medians
config_medians label cfg results =
    medians_of label cfg (keep (of_config cfg) (keep (of_campaign label) results))

pub data Fault : Type 0 where
  slow_fin : Text → ℤ → Fault
  boot_scaled : Text → ℤ → ℤ → Fault

-- The limits, for medians that are twofold.
abbrev pub falsify_dfin : ℤ
falsify_dfin = pos 20_000_000

abbrev pub pred_dfin_max : ℤ
pred_dfin_max = pos 10_000_000

abbrev pub pred_recon : ℤ
pred_recon = pos 2_000_000

-- `ratio >= PRED_RATIO_MAX`, where the divisor is positive.
abbrev pub scales : Medians → Medians → Bool
scales f s = leb_ℤ (f.d_fin +ℤ f.d_fin) s.d_fin

unfoldable pub faults : Text → Medians → Medians → List Fault
faults label f s =
    (if leb_ℤ falsify_dfin f.d_fin then slow_fin label f.d_fin ∷ [] else [])
    ++ (if scales f s then boot_scaled label f.d_fin s.d_fin ∷ [] else [])

abbrev pub within : ℤ → Bool
within z = leb_ℤ (pos (abs z)) pred_recon

unfoldable pub predicted : Medians → Medians → Bool
predicted f s =
    leb_ℤ f.d_fin pred_dfin_max
    && not (scales f s)
    && ((within f.residual && within s.residual) || within (f.residual -ℤ s.residual))

pub record Tally : Type 0 where
  pub falsify : List Fault
  pub predict_ok : List Text

unfoldable pub campaign_tally : List Item → Campaign → Result PassFail Tally
campaign_tally results c = do
  f ← config_medians c.label fast results
  s ← config_medians c.label safe results
  guard (ltb_ℤ (pos 0) f.d_fin) (fast_not_positive c.label)
  ok (record {
    falsify = faults c.label f s;
    predict_ok = if predicted f s then c.label ∷ [] else [];
  })

abbrev pub join : Tally → Tally → Tally
join t u = record { falsify = t.falsify ++ u.falsify; predict_ok = t.predict_ok ++ u.predict_ok }

-- The loop over the campaigns.
unfoldable pub tally : List Item → List Campaign → Result PassFail Tally
tally results [] = ok (record { falsify = []; predict_ok = [] })
tally results (c ∷ camps) = do t ← campaign_tally results c; u ← tally results camps; ok (join t u)

pub data Verdict : Type 0 where
  falsified : List Fault → Verdict
  confirmed : Verdict
  intermediate : Verdict

unfoldable pub verdict_of : List Campaign → Tally → Verdict
verdict_of camps t = elim t.falsify [
  | x ∷ xs ↦ falsified (x ∷ xs)
  | [] ↦ if length t.predict_ok == length camps then confirmed else intermediate
]

unfoldable pub render : List Campaign → List Item → Result PassFail Verdict
render camps results = do t ← tally results camps; ok (verdict_of camps t)
