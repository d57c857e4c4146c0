-- ===== src/Exhibits/Window.antt =====
-- What a comparison without the alignment probe has over the others.
use whimbrel.Prelude.{ℕ, ◌+◌, ◌≤◌}
use whimbrel.Prelude.{◌≡◌}
use whimbrel.Prelude.{true, Option, some}
use whimbrel.Prelude.{List, [], ◌∷◌}
use whimbrel.Prelude.{all, All}
use whimbrel.Prelude.{ok}
use whimbrel.Prelude.Text.{Text, codes, contains}
use whimbrel.Prelude.Dict.{Dict, lookup}
use whimbrel.Exhibits.Rows.{Row, PhaseCell, recorded}
use whimbrel.Exhibits.Gates.{has_canary, one_canary}
use whimbrel.Exhibits.Validate.{linux_artifacts, e4_median}
use whimbrel.Exhibits.Systems.{IsComparison}
use whimbrel.Exhibits.Unprobed.{linux_appends, first_canary, probe_token, append_of, same_images}

-- The two manifests give each of these files the same digest.
abbrev pub HasSame : Dict Text → Dict Text → List Text → Type 0
HasSame here before names =
    All (λ name. (d : Text) × (lookup name here ≡ some d) × (lookup name before ≡ some d)) names

-- The median of an arm lies from 27 to 16 ms below its earlier one.
abbrev pub IsInWindow : List Row → List Row → List Text → Type 0
IsInWindow rec before cfgs =
    All
      (λ cfg.
        (m : ℕ) × (b : ℕ) × (e4_median cfg rec ≡ ok m)
        × (e4_median cfg (recorded before) ≡ ok b)
        × (b ≤ m + 54_000_000)
        × (m + 32_000_000 ≤ b))
      cfgs

pub record IsUnprobed (batches : List Text) (prefix : Text) (n : ℕ) (manifest : Text)
    (before : Option (List Row)) (earlier : Option Text) (runs : List Row) (phases : List PhaseCell)
    : Type 0 where
  pub comparison : IsComparison batches prefix n manifest runs phases
  pub filled : all has_canary (recorded runs) ≡ true
  pub canary : one_canary (recorded runs) ≡ true
  pub values : ℕ × ℕ
  pub numbers : first_canary (recorded runs) ≡ ok values
  pub appends : Dict Text
  pub named : linux_appends manifest ≡ ok appends
  pub quiet : contains probe_token (append_of (codes "quiet") appends) ≡ true
  pub instrumented : contains probe_token (append_of (codes "instrumented") appends) ≡ true
  pub same :
      (text : Text)
      → earlier ≡ some text
      → (here : Dict Text) × (there : Dict Text) × (linux_artifacts manifest ≡ ok here)
        × (linux_artifacts text ≡ ok there)
        × HasSame here there same_images
  pub window :
      (rows : List Row)
      → before ≡ some rows
      → IsInWindow (recorded runs) rows (codes "trimmed" ∷ codes "stock" ∷ [])
