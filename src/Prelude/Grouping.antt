-- ===== src/Prelude/Grouping.antt =====
-- `d.setdefault(key, []).append(value)` in a loop: groups in the order in which their keys come, and
-- that they are the values of the rows of each key.
use mathlib.Core.Path.{◌≡◌, refl, sym, ◌∙◌, subst}
use mathlib.Core.Logic.{◌↔◌, ◌⊎◌, inl, inr}
use mathlib.Core.Bool.{Bool, true}
use mathlib.Core.List.{List, [], ◌∷◌, ◌++◌, map, append-nil, append_assoc}
use native.Mathlib.Omega.{arith}
use whimbrel.Prelude.Tests.{if◌then◌else◌, Bool-cases}
use whimbrel.Prelude.Lists.{keep, All}
use whimbrel.Prelude.Sort

pub record Group {ℓ κ} (K : Type ℓ) (V : Type κ) : Type (ℓ ⊔ κ) where
  pub key : K
  pub members : List V

module _ {ℓ κ} {K : Type ℓ} {V : Type κ} (same : K → K → Bool) where
  unfoldable pub append_to : K → V → List (Group K V) → List (Group K V)
  append_to k v [] = record { key = k; members = v ∷ [] } ∷ []
  append_to k v (g ∷ d) =
      let rest = append_to k v d in
      if same g.key k then record { key = g.key; members = g.members ++ v ∷ [] } ∷ d else g ∷ rest

  -- `d.get(key, [])`
  unfoldable pub members_of : K → List (Group K V) → List V
  members_of k [] = []
  members_of k (g ∷ d) = if same g.key k then g.members else members_of k d

  -- The loop over the rows.
  unfoldable pub group_from {μ} :
      {A : Type μ} → (A → K) → (A → V) → List (Group K V) → List A → List (Group K V)
  group_from key value d [] = d
  group_from key value d (r ∷ rows) = group_from key value (append_to (key r) (value r) d) rows

  unfoldable pub group_by {μ} : {A : Type μ} → (A → K) → (A → V) → List A → List (Group K V)
  group_by key value rows = group_from key value [] rows

  -- A value under a key, and nothing under another.
  abbrev added : K → V → K → List V
  added k v j = if same k j then v ∷ [] else []

  module _ (same_iff : (j k : K) → (same j k ≡ true) ↔ (j ≡ k)) where
    members-append_to :
        (j k : K) (v : V) (d : List (Group K V))
        → members_of j (append_to k v d) ≡ members_of j d ++ added k v j
    unfolding members_of append_to
    members-append_to j k v [] = elim (Bool-cases (same k j)) [
      | inl e ↦ rw e refl
      | inr e ↦ rw e refl
    ]
    members-append_to j k v (g ∷ d) = elim (Bool-cases (same g.key k)) [
      | inl e ↦
          let at : g.key ≡ k = (same_iff g.key k).0 e in
          rw e (elim (Bool-cases (same g.key j)) [
            | inl f ↦ rw (f, rw at at f) refl
            | inr f ↦ rw (f, rw at at f) (sym (append-nil (members_of j d)))
          ])
      | inr e ↦ rw e (elim (Bool-cases (same g.key j)) [
        | inl f ↦ elim (Bool-cases (same k j)) [
          | inl h ↦
              let bad : same g.key k ≡ true =
                (same_iff g.key k).1 ((same_iff g.key j).0 f ∙ sym ((same_iff k j).0 h)) in
              absurd (ground arith)
          | inr h ↦ rw (f, h) (sym (append-nil g.members))
        ]
        | inr f ↦ rw f (members-append_to j k v d)
      ])
    ]

    -- The values of the rows of a key, in their order.
    abbrev pub values_under {μ} : {A : Type μ} → (A → K) → (A → V) → K → List A → List V
    values_under key value j rows = map value (keep (λ r. same (key r) j) rows)

    members-group_from {μ} :
        {A : Type μ} (key : A → K) (value : A → V) (j : K) (d : List (Group K V)) (rows : List A)
        → members_of j (group_from key value d rows)
          ≡ members_of j d ++ values_under key value j rows
    unfolding group_from
    members-group_from key value j d [] = sym (append-nil (members_of j d))
    members-group_from key value j d (r ∷ rows) =
        members-group_from key value j (append_to (key r) (value r) d) rows
        ∙ rw (members-append_to j (key r) (value r) d) (
            append_assoc (members_of j d) (added (key r) (value r) j)
              (values_under key value j rows)
            ∙ elim (Bool-cases (same (key r) j)) [ inl e ↦ rw e refl | inr e ↦ rw e refl ])

    -- The groups are the function that takes a key to the values of its rows, in their order.
    pub members-group_by {μ} :
        {A : Type μ} (key : A → K) (value : A → V) (rows : List A) (j : K)
        → members_of j (group_by key value rows) ≡ values_under key value j rows
    unfolding group_by members_of
    members-group_by key value rows j = members-group_from key value j [] rows

  module _ (same_iff : (j k : K) → (same j k ≡ true) ↔ (j ≡ k)) where
    -- What holds of each group holds of what is found under a key, if there is anything.
    pub members_of-All {μ} :
        (P : Group K V → Type μ) (d : List (Group K V)) (j : K)
        → All P d
        → (members_of j d ≡ []) ⊎ P (record { key = j; members = members_of j d })
    unfolding members_of
    members_of-All P [] j h = inl refl
    members_of-All P (g ∷ d) j (p, h) = elim (Bool-cases (same g.key j)) [
      | inl e ↦ inr (
          rw e
            (subst (λ k. P (record { key = k; members = g.members })) ((same_iff g.key j).0 e) p))
      | inr e ↦ rw e (members_of-All P d j h)
    ]

-- What holds of all elements holds of them sorted, and back.
module _ {ℓ} {A : Type ℓ} (le : A → A → Bool) where
  module _ {κ} (P : A → Type κ) where
    insert-All : (x : A) (xs : List A) → P x → All P xs → All P (Sort.insert le x xs)
    unfolding Sort.insert
    insert-All x [] p h = (p, tt)
    insert-All x (y ∷ ys) p (q, h) = elim (Bool-cases (le x y)) [
      | inl e ↦ rw e (p, (q, h))
      | inr e ↦ rw e (q, insert-All x ys p h)
    ]

    All-insert : (x : A) (xs : List A) → All P (Sort.insert le x xs) → P x × All P xs
    unfolding Sort.insert
    All-insert x [] h = h
    All-insert x (y ∷ ys) h = elim (Bool-cases (le x y)) [
      | inl e ↦ rw e at h
      | inr e ↦
          let (q, more) : P y × All P (Sort.insert le x ys) = rw e at h in
          let (p, rest) = All-insert x ys more in (p, (q, rest))
    ]

    pub sort-All : (xs : List A) → All P xs → All P (Sort.sort le xs)
    unfolding Sort.sort
    sort-All [] h = tt
    sort-All (x ∷ xs) (p, h) = insert-All x (Sort.sort le xs) p (sort-All xs h)

    pub All-sort : (xs : List A) → All P (Sort.sort le xs) → All P xs
    unfolding Sort.sort
    All-sort [] h = tt
    All-sort (x ∷ xs) h = let (p, rest) = All-insert x (Sort.sort le xs) h in (p, All-sort xs rest)
