-- ===== src/Label/Resolve.antt =====
-- What `resolve` answers: the last symbol that does not lie above the address.
use whimbrel.Prelude.{ℕ, zero, suc, ◌+◌, ◌-◌, ◌/◌, ◌≤◌, ◌<◌}
use whimbrel.Prelude.{◌≡◌, refl, ap, subst, ◌≢◌, inl, inr}
use whimbrel.Prelude.{Bool, true, false, Option, none, some, arith}
use whimbrel.Prelude.{List, [], ◌∷◌}
use whimbrel.Prelude.{ltb, leb, ltb→lt, leb→le, leb-false→lt, ◌==◌, Bool-cases, ==_iff}
use whimbrel.Prelude.{length, get_elem?, All}
use whimbrel.Prelude.{get_elem?-lt-length, get_elem?-some}
use whimbrel.Prelude.{Result, ok, err, ◌>>=◌, ok-injective}
use whimbrel.Prelude.Text.{Text, splitlines, text_leb_total, text_leb_trans}
use whimbrel.Prelude.Sort.{sort, insert, IsSorted, sort-IsSorted}
use whimbrel.Label.SystemMap.{Entry, LabelFail, below_system_map, offset_too_large}
use whimbrel.Label.SystemMap.{sort_rows, entry_leb, parse_rows, load_system_map}
use mathlib.Core.Option.{some-injective}
use whimbrel.Label.SystemMap.{max_offset, search_loop, pick, resolve}

-- Addresses do not fall along the table.
abbrev pub Ascends : List Entry → Type 0
Ascends es =
    (i j : ℕ) (d e : Entry)
    → i < j
    → get_elem? es i ≡ some d
    → get_elem? es j ≡ some e
    → d.addr ≤ e.addr

-- Everything behind index `b` lies above the address.
abbrev pub IsAbove : ℕ → List Entry → ℕ → Type 0
IsAbove addr es from = (j : ℕ) (d : Entry) → from ≤ j → get_elem? es j ≡ some d → addr < d.addr

-- The last entry that does not lie above the address.
abbrev pub IsLast : ℕ → List Entry → ℕ → Entry → Type 0
IsLast addr es b e = (get_elem? es b ≡ some e) × (e.addr ≤ addr) × IsAbove addr es (suc b)

abbrev pub Best : ℕ → List Entry → Result LabelFail (Option ℕ) → Type 0
Best addr es (err e) = ⊥
Best addr es (ok none) = IsAbove addr es 0
Best addr es (ok (some b)) = (e : Entry) × IsLast addr es b e

abbrev Chosen : ℕ → List Entry → ℕ → Option ℕ → Type 0
Chosen addr es lo none = lo ≡ 0
Chosen addr es lo (some b) =
    (e : Entry) × (lo ≡ suc b) × (get_elem? es b ≡ some e) × (e.addr ≤ addr)

module _ (addr : ℕ) (es : List Entry) (asc : Ascends es) where
  finish :
      (lo : ℕ) (best : Option ℕ)
      → IsAbove addr es lo
      → Chosen addr es lo best
      → Best addr es (ok best)
  finish lo none above c = λ j d h. above j d (omega arith)
  finish lo (some b) above (e, l, g, le) = (e, (g, le, λ j d h. above j d (omega arith)))

  -- If the middle lies above the address, all behind it does.
  IsAbove-mid :
      (mid : ℕ) (e : Entry) → get_elem? es mid ≡ some e → addr < e.addr → IsAbove addr es mid
  IsAbove-mid mid e g lt j d h gj = elim (Bool-cases (mid == j)) [
    | inl same ↦ let p : mid ≡ j = (==_iff mid j).0 same in ground (arith, ap (get_elem? es) p)
    | inr other ↦ omega (arith, asc mid j e d (ground arith) g gj)
  ]

  search_loop-Best :
      (fuel lo end : ℕ) (best : Option ℕ)
      → end - lo ≤ fuel
      → lo ≤ end
      → end ≤ length es
      → IsAbove addr es end
      → Chosen addr es lo best
      → Best addr es (search_loop fuel addr es lo end best)
  unfolding search_loop
  search_loop-Best zero lo end best f le fits above c =
      let same : end ≡ lo = omega arith in finish lo best (subst (IsAbove addr es) same above) c
  search_loop-Best (suc fuel) lo end best f le fits above c = elim (Bool-cases (ltb lo end)) [
    | inr done ↦
        let same : end ≡ lo = ground arith in
        rw done (finish lo best (subst (IsAbove addr es) same above) c)
    | inl more ↦
        let lt : lo < end = ltb→lt lo end more in
        let mid = (lo + end - 1) / 2 in
        let (e, g) = get_elem?-some es mid (omega arith) in
        rw (more, g)
          (elim (Bool-cases (leb e.addr addr)) [
            | inl low ↦ rw low (
                search_loop-Best fuel (mid + 1) end (some mid) (omega arith) (omega arith) fits
                  above (e, omega arith, g, leb→le e.addr addr low))
            | inr high ↦ rw high (
                search_loop-Best fuel lo mid best (omega arith) (omega arith) (omega arith)
                  (IsAbove-mid mid e g (leb-false→lt e.addr addr high)) c)
          ])
  ]

-- The specification of `resolve`, for each way in which it returns or raises.
abbrev pub Resolves : ℕ → List Entry → Result LabelFail (Text × ℕ) → Type 0
Resolves addr es (ok (name, off)) =
    (b : ℕ) × (e : Entry) × IsLast addr es b e
    × (e.name ≡ name)
    × (e.addr + off ≡ addr)
    × (off < max_offset)
Resolves addr es (err (below_system_map a first)) = IsAbove addr es 0
Resolves addr es (err (offset_too_large a name off)) =
    (b : ℕ) × (e : Entry) × IsLast addr es b e
    × (e.name ≡ name)
    × (e.addr + off ≡ addr)
    × (max_offset ≤ off)
Resolves addr es (err _) = ⊥

pick-Resolves :
    (addr : ℕ) (es : List Entry) (best : Option ℕ)
    → es ≢ []
    → Best addr es (ok best)
    → Resolves addr es (pick addr es best)
unfolding pick
pick-Resolves addr [] none ne b = absurd (ne refl)
pick-Resolves addr (e ∷ es) none ne b = b
pick-Resolves addr [] (some i) ne b = absurd (ne refl)
pick-Resolves addr (x ∷ es) (some i) ne (e, (g, le, above)) =
    rw (g, pick)
      (elim (Bool-cases (leb max_offset (addr - e.addr))) [
        | inl far ↦ rw far (i, e, (g, le, above), refl, omega arith, leb→le _ _ far)
        | inr near ↦ rw near (i, e, (g, le, above), refl, omega arith, leb-false→lt _ _ near)
      ])

-- On a table that ascends and is not empty, `resolve` names the last symbol at or below the
-- address with its distance below 64 KiB, or raises for the reason it gives: every symbol lies
-- above the address, or the last one that does not is 64 KiB or more away.
pub resolve-Resolves :
    (addr : ℕ) (es : List Entry) → Ascends es → es ≢ [] → Resolves addr es (resolve addr es)
unfolding resolve
resolve-Resolves addr es asc ne = step (search_loop (length es) addr es 0 (length es) none) (
    search_loop-Best addr es asc (length es) 0 (length es) none (omega arith) (omega arith)
      (omega arith) (λ j d h g. absurd (omega (arith, get_elem?-lt-length es j g))) refl)
  where
    step :
        (r : Result LabelFail (Option ℕ)) → Best addr es r → Resolves addr es (r >>= pick addr es)
    step (ok best) b = pick-Resolves addr es best ne b
    step (err e) b = absurd b

entry_leb_total : (a b : Entry) → entry_leb a b ≡ false → entry_leb b a ≡ true
unfolding entry_leb
entry_leb_total a b h = ground (arith, text_leb_total a.name b.name)

entry_leb_trans :
    (a b c : Entry) → entry_leb a b ≡ true → entry_leb b c ≡ true → entry_leb a c ≡ true
unfolding entry_leb
entry_leb_trans a b c h k = ground (arith, text_leb_trans a.name b.name c.name)

entry_leb→le : (a b : Entry) → entry_leb a b ≡ true → a.addr ≤ b.addr
unfolding entry_leb
entry_leb→le a b h = ground arith

All-get {ℓ κ} :
    {A : Type ℓ} (P : A → Type κ) (xs : List A) (i : ℕ) {a : A}
    → All P xs
    → get_elem? xs i ≡ some a
    → P a
All-get P [] i h g = cc
All-get P (x ∷ xs) zero (p, h) g = subst P (some-injective x _ g) p
All-get P (x ∷ xs) (suc i) (p, h) g = All-get P xs i h g

IsSorted→Ascends : (es : List Entry) → IsSorted entry_leb es → Ascends es
IsSorted→Ascends [] s i j d e lt gi gj = cc
IsSorted→Ascends (x ∷ es) (below, s) i zero d e lt gi gj = absurd (omega arith)
IsSorted→Ascends (x ∷ es) (below, s) zero (suc j) d e lt gi gj =
    subst (λ (y : Entry). y.addr ≤ e.addr) (some-injective x d gi)
      (entry_leb→le x e (All-get (λ y. entry_leb x y ≡ true) es j below gj))
IsSorted→Ascends (x ∷ es) (below, s) (suc i) (suc j) d e lt gi gj =
    IsSorted→Ascends es s i j d e (omega arith) gi gj

insert-ne {ℓ} : {A : Type ℓ} (le : A → A → Bool) (x : A) (xs : List A) → insert le x xs ≢ []
unfolding insert
insert-ne le x [] h = cc
insert-ne le x (y ∷ ys) h = ground arith

sort_rows-Ascends : (rows es : List Entry) → sort_rows rows ≡ ok es → Ascends es × (es ≢ [])
unfolding sort_rows
sort_rows-Ascends [] es h = cc
sort_rows-Ascends (x ∷ rows) es h =
    subst (λ (t : List Entry). Ascends t × (t ≢ [])) (ok-injective _ _ h)
      (
        IsSorted→Ascends (sort entry_leb (x ∷ rows))
            (sort-IsSorted entry_leb entry_leb_total entry_leb_trans (x ∷ rows)),
        unfold sort in insert-ne entry_leb x (sort entry_leb rows),
      )

-- A loaded table is not empty, and its addresses ascend whatever the order of the file's rows.
pub load_system_map-Ascends :
    (text : Text) (es : List Entry) → load_system_map text ≡ ok es → Ascends es × (es ≢ [])
unfolding load_system_map
load_system_map-Ascends text es h = sort_rows-Ascends (parse_rows (splitlines text)) es h
