-- ===== src/Prelude/Groups.antt =====
-- The groups of `d.setdefault(key, []).append(value)` in a loop, each of them: no key comes twice, and
-- the members of a group are the values of all rows of its key.
use mathlib.Core.Path.{◌≡◌, refl, sym, ◌∙◌}
use mathlib.Core.Logic.{◌↔◌, inl, inr}
use mathlib.Core.Bool.{Bool, true, false}
use mathlib.Core.List.{List, [], ◌∷◌}
use whimbrel.Prelude.Tests.{Bool-cases}
use whimbrel.Prelude.Lists.{All}
use whimbrel.Prelude.Sort.{All-map}
use whimbrel.Prelude.Grouping.{
  Group, append_to, members_of, group_from, group_by, values_under, members-group_by,
}

module _ {ℓ κ} {K : Type ℓ} {V : Type κ} (same : K → K → Bool) where
  -- A key that no group has.
  abbrev IsNew : K → List (Group K V) → Type 0
  IsNew k d = All (λ (g : Group K V). same k g.key ≡ false) d

  -- No key comes twice.
  abbrev AreDistinct : List (Group K V) → Type 0
  AreDistinct [] = Unit
  AreDistinct (g ∷ d) = IsNew g.key d × AreDistinct d

  append_to-IsNew :
      (j k : K) (v : V) (d : List (Group K V))
      → same j k ≡ false
      → IsNew j d
      → IsNew j (append_to same k v d)
  unfolding append_to
  append_to-IsNew j k v [] other h = (other, tt)
  append_to-IsNew j k v (g ∷ d) other (p, h) = elim (Bool-cases (same g.key k)) [
    | inl e ↦ rw e (p, h)
    | inr e ↦ rw e (p, append_to-IsNew j k v d other h)
  ]

  append_to-AreDistinct :
      (k : K) (v : V) (d : List (Group K V)) → AreDistinct d → AreDistinct (append_to same k v d)
  unfolding append_to
  append_to-AreDistinct k v [] h = (tt, tt)
  append_to-AreDistinct k v (g ∷ d) (p, h) = elim (Bool-cases (same g.key k)) [
    | inl e ↦ rw e (p, h)
    | inr e ↦ rw e (append_to-IsNew g.key k v d e p, append_to-AreDistinct k v d h)
  ]

  group_from-AreDistinct {μ} :
      {A : Type μ} (key : A → K) (value : A → V) (d : List (Group K V)) (rows : List A)
      → AreDistinct d
      → AreDistinct (group_from same key value d rows)
  unfolding group_from
  group_from-AreDistinct key value d [] h = h
  group_from-AreDistinct key value d (r ∷ rows) h =
      group_from-AreDistinct key value (append_to same (key r) (value r) d) rows
        (append_to-AreDistinct (key r) (value r) d h)

  module _ (same_iff : (j k : K) → (same j k ≡ true) ↔ (j ≡ k)) where
    -- Each group is what is found under its key.
    AreDistinct-own :
        (d : List (Group K V))
        → AreDistinct d
        → All (λ (g : Group K V). members_of same g.key d ≡ g.members) d
    unfolding members_of
    AreDistinct-own [] h = tt
    AreDistinct-own (g ∷ d) (p, h) =
        (rw ((same_iff g.key g.key).1 refl) refl, All-zip d p (AreDistinct-own d h))
      where
        All-zip :
            (e : List (Group K V))
            → IsNew g.key e
            → All (λ (f : Group K V). members_of same f.key d ≡ f.members) e
            → All (λ (f : Group K V). members_of same f.key (g ∷ d) ≡ f.members) e
        All-zip [] p h = tt
        All-zip (f ∷ e) (other, p) (own, h) = (rw other own, All-zip e p h)

    -- The members of each group are the values of the rows of its key, in their order.
    pub group_by-members {μ} :
        {A : Type μ} (key : A → K) (value : A → V) (rows : List A)
        → All
            (λ (g : Group K V). g.members ≡ values_under same same_iff key value g.key rows)
            (group_by same key value rows)
    unfolding group_by
    group_by-members key value rows =
        All-map (λ g own. sym own ∙ members-group_by same same_iff key value rows g.key)
          (group_by same key value rows)
          (AreDistinct-own (group_by same key value rows)
            (group_from-AreDistinct key value [] rows tt))
