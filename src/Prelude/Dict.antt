-- ===== src/Prelude/Dict.antt =====
-- Python dicts as association lists: the newest binding stands first and hides older ones.
use whimbrel.Prelude.Text.{Text, text_eq}
use whimbrel.Prelude.Tests.{if◌then◌else◌}
use mathlib.Core.Bool.{Bool, true, false}
use mathlib.Core.Option.{Option, none, some}
use mathlib.Core.List.{List, [], ◌∷◌}

abbrev pub Dict {ℓ} : Type ℓ → Type ℓ
Dict V = List (Text × V)

module _ {ℓ} {V : Type ℓ} where
  -- `d.get(k)`
  unfoldable pub lookup : Text → Dict V → Option V
  lookup k [] = none
  lookup k ((j, v) ∷ d) = if text_eq j k then some v else lookup k d

  -- `d[k] = v`
  abbrev pub insert : Text → V → Dict V → Dict V
  insert k v d = (k, v) ∷ d

  -- `k in d`
  unfoldable pub has_key : Text → Dict V → Bool
  unfolding lookup
  has_key k d = elim (lookup k d) [ none ↦ false | some v ↦ true ]
