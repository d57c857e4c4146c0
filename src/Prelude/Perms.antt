-- ===== src/Prelude/Perms.antt =====
-- What a rearrangement leaves as it is: lists that arrive in another order.
use mathlib.Core.Path.{◌≡◌, refl, sym, ap, ◌∙◌}
use mathlib.Core.Logic.{inl, inr, ∥∥₁_elim}
use mathlib.Core.Bool.{Bool, true, false}
use mathlib.Core.List.{List, [], ◌∷◌, Perm, Permᴰ}
use mathlib.Core.List.Permᴰ
use native.Mathlib.Nat.{ℕ_set}
use native.Mathlib.Omega.{arith}
use whimbrel.Prelude.Tests.{Bool-cases}
use whimbrel.Prelude.Lists.{length, keep}
use whimbrel.Prelude.Sort.{insert, sort}

module _ {ℓ} {A : Type ℓ} where
  pub length-Permᴰ : {xs ys : List A} → Permᴰ xs ys → length xs ≡ length ys
  length-Permᴰ Permᴰ.nil = refl
  length-Permᴰ (Permᴰ.cons e h) = omega (arith, length-Permᴰ h)
  length-Permᴰ (Permᴰ.swap e f) = refl
  length-Permᴰ (Permᴰ.trans h k) = length-Permᴰ h ∙ length-Permᴰ k

  pub length-perm : {xs ys : List A} → Perm xs ys → length xs ≡ length ys
  length-perm {xs} {ys} h = ∥∥₁_elim h (ℕ_set (length xs) (length ys)) length-Permᴰ

  module _ (p : A → Bool) where
    keep-Permᴰ : {xs ys : List A} → Permᴰ xs ys → Permᴰ (keep p xs) (keep p ys)
    keep-Permᴰ Permᴰ.nil = Permᴰ.nil
    keep-Permᴰ (Permᴰ.cons {a = a} {b = b} e h) = rw e (elim (Bool-cases (p b)) [
      | inl f ↦ rw f (Permᴰ.cons refl (keep-Permᴰ h))
      | inr f ↦ rw f (keep-Permᴰ h)
    ])
    keep-Permᴰ (Permᴰ.swap {a = a} {b = b} {l = l} e f) =
        rw (sym e, sym f)
          (elim (Bool-cases (p a)) [
            | inl g ↦ elim (Bool-cases (p b)) [
              | inl k ↦ rw (g, k) (Permᴰ.swap refl refl)
              | inr k ↦ rw (g, k) (Permᴰ.refl (a ∷ keep p l))
            ]
            | inr g ↦ elim (Bool-cases (p b)) [
              | inl k ↦ rw (g, k) (Permᴰ.refl (b ∷ keep p l))
              | inr k ↦ rw (g, k) (Permᴰ.refl (keep p l))
            ]
          ])
    keep-Permᴰ (Permᴰ.trans h k) = Permᴰ.trans (keep-Permᴰ h) (keep-Permᴰ k)

    pub keep-perm : {xs ys : List A} → Perm xs ys → Perm (keep p xs) (keep p ys)
    keep-perm h = ∥∥₁_elim h (hlevel) (λ d. ∣ keep-Permᴰ d ∣₁)

  -- Of an order in which no two elements are equivalent, the sort forgets how its input was ordered.
  module _ (le : A → A → Bool) (total : (x y : A) → le x y ≡ false → le y x ≡ true)
      (trans : (x y z : A) → le x y ≡ true → le y z ≡ true → le x z ≡ true)
      (antisym : (x y : A) → le x y ≡ true → le y x ≡ true → x ≡ y) where
    insert_comm :
        (x y : A) (zs : List A) → insert le x (insert le y zs) ≡ insert le y (insert le x zs)
    unfolding insert
    insert_comm x y [] = ground (arith, total x y, antisym x y)
    insert_comm x y (z ∷ zs) = ground (
      arith,
      total x y,
      antisym x y,
      trans x y z,
      trans y x z,
      total x z,
      total y z,
      insert_comm x y zs,
    )

    sort-Permᴰ : {xs ys : List A} → Permᴰ xs ys → sort le xs ≡ sort le ys
    unfolding sort
    sort-Permᴰ Permᴰ.nil = refl
    sort-Permᴰ (Permᴰ.cons {b = b} e h) = rw e (ap (insert le b) (sort-Permᴰ h))
    sort-Permᴰ (Permᴰ.swap {a = a} {b = b} {l = l} e f) =
        rw (sym e, sym f) (insert_comm a b (sort le l))
    sort-Permᴰ (Permᴰ.trans h k) = sort-Permᴰ h ∙ sort-Permᴰ k

    pub sort-perm_eq :
        (hset : IsSet (List A)) {xs ys : List A} → Perm xs ys → sort le xs ≡ sort le ys
    sort-perm_eq hset {xs} {ys} h = ∥∥₁_elim h (hset (sort le xs) (sort le ys)) sort-Permᴰ
