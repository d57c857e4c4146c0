-- ===== src/Witness/Classify.antt =====
-- `family_corroborated` and `classify_row` of scripts/regime-witness.py.
use whimbrel.Prelude.{ℕ, ◌-◌, ◌*◌}
use whimbrel.Prelude.{Bool, false, ◌&&◌, ◌||◌, not, Option, none, some}
use whimbrel.Prelude.{List, ◌∷◌, map}
use whimbrel.Prelude.{ltb, leb, if◌then◌else◌}
use whimbrel.Prelude.{any}
use whimbrel.Prelude.Text.{Text, codes, contains}
use whimbrel.Prelude.Extrema.{lowest, highest}
use whimbrel.Witness.Rows.{divide_ns, Side, deflated, inflated, same_side, regime_side}
use whimbrel.Witness.Campaign.{Camp}

pub data Uniform : Type 0 where
  yes : Uniform
  mixed : Uniform
  span : ℕ → Uniform

pub data CanaryVerdict : Type 0 where
  agree : CanaryVerdict
  disagree : CanaryVerdict
  pre_canary : CanaryVerdict
  not_applicable : CanaryVerdict

-- The derived cells of a row; no regime is given outside a corroborated family.
pub record Cells : Type 0 where
  pub regime : Option Side
  pub uniform : Uniform
  pub verdict : CanaryVerdict

abbrev pub uniform_of : Camp → Uniform
uniform_of c =
    let side = regime_side c.med in
    if same_side (regime_side (2 * c.lo)) side && same_side (regime_side (2 * c.hi)) side
    then yes
    else mixed

-- The times of a canary are printed with three decimals and read back: `printed` are the microseconds
-- that a time in nanoseconds is printed as.
module _ (printed : ℕ → ℕ) where
  -- The side of a printed canary.
  unfoldable pub canary_side : ℕ → Side
  canary_side pv = if leb 14_000 (printed pv) then inflated else deflated

  -- `(float(...) < DIVIDE_MS) != (c["med"] < DIVIDE_MS)`
  abbrev pub differs : Option ℕ → ℕ → Bool
  differs none med = false
  differs (some pv) med = not (same_side (canary_side pv) (regime_side med))

  abbrev canary_differs : Camp → Bool
  canary_differs c = differs c.canary c.med

  -- The family of a kernel, of which there is one campaign at least.
  unfoldable pub family_corroborated : Camp → List Camp → Bool
  family_corroborated c fam =
      let meds = map (λ (d : Camp). d.med) fam in
      (ltb (lowest c.med meds) (2 * divide_ns) && ltb (2 * divide_ns) (highest c.med meds))
      || any canary_differs (c ∷ fam)

  unfoldable pub verdict_of : Text → Bool → Option ℕ → Side → CanaryVerdict
  verdict_of note corroborated none side =
      if contains (codes "canary") note then not_applicable else pre_canary
  verdict_of note corroborated (some pv) side =
      if not corroborated || same_side (canary_side pv) side then agree else disagree

  unfoldable pub classify_row : Text → Camp → Bool → Cells
  classify_row note c corroborated =
      let side = regime_side c.med in
      record {
        regime = if corroborated then some side else none;
        uniform = if corroborated then uniform_of c else span (c.hi - c.lo);
        verdict = verdict_of note corroborated c.canary side;
      }
