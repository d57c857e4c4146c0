-- ===== src/Bench/Groups.antt =====
-- The groups of the first-connect control hold the recorded times of each arm of each batch.
use whimbrel.Prelude.{ℕ}
use whimbrel.Prelude.{◌≡◌, refl, sym, ap, ◌∙◌, inl, inr}
use whimbrel.Prelude.{Bool, true, false, ◌&&◌, Option, none, some, arith}
use whimbrel.Prelude.{List, [], ◌∷◌, ◌++◌, map}
use whimbrel.Prelude.{◌==◌, if◌then◌else◌, Bool-cases}
use whimbrel.Prelude.{keep}
use whimbrel.Prelude.Text.{Text, text_eq, text_eq_iff, text_eq_refl}
use whimbrel.Prelude.Dict.{Dict, lookup}
use whimbrel.Bench.Connect.{RunRow, append_value, append_in, batch_of, by_batch_from, by_batch}

-- `d.get(k, empty)`
abbrev pub or_empty : {A : Type 0} → Option (List A) → List A
or_empty none = []
or_empty (some d) = d

abbrev pub of_arm : Text → Text → Dict (Dict (List ℕ)) → List ℕ
of_arm b c d = or_empty (lookup c (or_empty (lookup b d)))

abbrev is_arm : Text → Text → RunRow → Bool
is_arm b c r = text_eq (batch_of r) b && text_eq r.config c

-- The times of the recorded rows of one arm in one batch, in the order of the file.
abbrev pub times_of : Text → Text → List RunRow → List ℕ
times_of b c runs =
    map (λ (r : RunRow). r.e0_to_first_connect_ns)
      (keep (is_arm b c) (keep (λ (r : RunRow). r.warmup == 0) runs))

module _ {ℓ} {A : Type ℓ} where
  append_nil : (xs : List A) → xs ++ [] ≡ xs
  append_nil [] = refl
  append_nil (x ∷ xs) = ap (◌∷◌ x) (append_nil xs)

  append_assoc : (xs ys zs : List A) → (xs ++ ys) ++ zs ≡ xs ++ (ys ++ zs)
  append_assoc [] ys zs = refl
  append_assoc (x ∷ xs) ys zs = ap (◌∷◌ x) (append_assoc xs ys zs)

-- Two texts of which only one is `c`.
other : (j k c : Text) → text_eq j k ≡ false → text_eq j c ≡ true → text_eq k c ≡ false
other j k c e f = elim (Bool-cases (text_eq k c)) [
  | inr g ↦ g
  | inl g ↦
      let same : j ≡ k = (text_eq_iff j c).0 f ∙ sym ((text_eq_iff k c).0 g) in
      let again = (text_eq_iff j k).1 same in absurd (ground arith)
]

pub lookup-append_value :
    (c k : Text) (v : ℕ) (d : Dict (List ℕ))
    → or_empty (lookup c (append_value k v d))
      ≡ or_empty (lookup c d) ++ (if text_eq k c then v ∷ [] else [])
unfolding lookup append_value
lookup-append_value c k v [] = ground arith
lookup-append_value c k v ((j, vs) ∷ d) = elim (Bool-cases (text_eq j k)) [
  | inl e ↦
      let same = (text_eq_iff j k).0 e in
      rw same (
        rw (text_eq_refl k) (elim (Bool-cases (text_eq k c)) [
          | inl f ↦ rw f refl
          | inr f ↦ rw f (sym (append_nil (or_empty (lookup c d))))
        ]))
  | inr e ↦ elim (Bool-cases (text_eq j c)) [
    | inl f ↦ rw (e, f, other j k c e f) (sym (append_nil vs))
    | inr f ↦ rw (e, f) (lookup-append_value c k v d)
  ]
]

of_arm-append_in :
    (b c j k : Text) (v : ℕ) (d : Dict (Dict (List ℕ)))
    → of_arm b c (append_in j k v d)
      ≡ of_arm b c d ++ (if text_eq j b && text_eq k c then v ∷ [] else [])
unfolding lookup append_in
of_arm-append_in b c j k v [] = elim (Bool-cases (text_eq j b)) [
  | inl e ↦ rw e (elim (Bool-cases (text_eq k c)) [ inl f ↦ rw f refl | inr f ↦ rw f refl ])
  | inr e ↦ rw e refl
]
of_arm-append_in b c j k v ((i, e) ∷ d) = elim (Bool-cases (text_eq i j)) [
  | inl f ↦
      let same = (text_eq_iff i j).0 f in
      rw same (
        rw (text_eq_refl j) (elim (Bool-cases (text_eq j b)) [
          | inl g ↦ rw g (lookup-append_value c k v e)
          | inr g ↦ rw g (sym (append_nil (of_arm b c d)))
        ]))
  | inr f ↦ elim (Bool-cases (text_eq i b)) [
    | inl g ↦ rw (f, g, other i j b f g) (sym (append_nil (or_empty (lookup c e))))
    | inr g ↦ rw (f, g) (of_arm-append_in b c j k v d)
  ]
]

of_arm-by_batch_from :
    (b c : Text) (d : Dict (Dict (List ℕ))) (rows : List RunRow)
    → of_arm b c (by_batch_from d rows)
      ≡ of_arm b c d ++ map (λ (r : RunRow). r.e0_to_first_connect_ns) (keep (is_arm b c) rows)
unfolding by_batch_from
of_arm-by_batch_from b c d [] = sym (append_nil (of_arm b c d))
of_arm-by_batch_from b c d (r ∷ rows) =
    of_arm-by_batch_from b c (append_in (batch_of r) r.config r.e0_to_first_connect_ns d) rows
    ∙ rw (of_arm-append_in b c (batch_of r) r.config r.e0_to_first_connect_ns d)
        (elim (Bool-cases (is_arm b c r)) [
          | inl e ↦ rw e (
              append_assoc (of_arm b c d) (r.e0_to_first_connect_ns ∷ [])
                (map (λ (q : RunRow). q.e0_to_first_connect_ns) (keep (is_arm b c) rows)))
          | inr e ↦ rw e (
              append_assoc (of_arm b c d) []
                (map (λ (q : RunRow). q.e0_to_first_connect_ns) (keep (is_arm b c) rows)))
        ])

-- Under each batch and arm the groups hold exactly the times of its recorded rows, in order; no
-- warmup is among them.
pub of_arm-by_batch :
    (b c : Text) (runs : List RunRow) → of_arm b c (by_batch runs) ≡ times_of b c runs
unfolding by_batch lookup
of_arm-by_batch b c runs = of_arm-by_batch_from b c [] (keep (λ (r : RunRow). r.warmup == 0) runs)
