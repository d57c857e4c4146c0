-- ===== src/Prelude/Members.antt =====
-- Membership in a list, and in one that a test has filtered.
use mathlib.Core.Path.{◌≡◌, refl, ap, ◌∙◌, subst}
use mathlib.Core.Logic.{inl, inr}
use mathlib.Core.Bool.{Bool, true}
use mathlib.Core.List.{List, [], ◌∷◌, Memᴰ}
use mathlib.Core.List.Memᴰ
use whimbrel.Prelude.Tests.{Bool-cases}
use whimbrel.Prelude.Lists.{keep, All}
use whimbrel.Prelude.Sort.{All-map}

module _ {ℓ} {A : Type ℓ} (p : A → Bool) where
  pub mem-keep : (x : A) (xs : List A) → Memᴰ x xs → p x ≡ true → Memᴰ x (keep p xs)
  mem-keep x [] m h = elim m [ ]
  mem-keep x (y ∷ xs) (Memᴰ.head e) h = rw (subst (λ z. p z ≡ true) e h) (Memᴰ.head e)
  mem-keep x (y ∷ xs) (Memᴰ.tail m) h = elim (Bool-cases (p y)) [
    | inl e ↦ rw e (Memᴰ.tail (mem-keep x xs m h))
    | inr e ↦ rw e (mem-keep x xs m h)
  ]

  pub keep-mem : (x : A) (xs : List A) → Memᴰ x (keep p xs) → Memᴰ x xs × (p x ≡ true)
  keep-mem x [] m = absurd (Memᴰ.not-nil m)
  keep-mem x (y ∷ xs) m = elim (Bool-cases (p y)) [
    | inl e ↦ elim (Memᴰ.cases_cons (rw e at m)) [
      | inl is ↦ (Memᴰ.head is, ap p is ∙ e)
      | inr more ↦ let (mem, h) = keep-mem x xs more in (Memᴰ.tail mem, h)
    ]
    | inr e ↦ let (mem, h) = keep-mem x xs (rw e at m) in (Memᴰ.tail mem, h)
  ]

module _ {ℓ} {A : Type ℓ} where
  -- All elements are members.
  pub All-mem : (xs : List A) → All (λ x. Memᴰ x xs) xs
  All-mem [] = tt
  All-mem (x ∷ xs) = (Memᴰ.head refl, All-map (λ y m. Memᴰ.tail m) xs (All-mem xs))
