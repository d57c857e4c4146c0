-- ===== src/Label/Laws.antt =====
-- The two tables that `label` returns.
use whimbrel.Prelude.{ℕ, ◌≤◌, ◌<◌}
use whimbrel.Prelude.{◌≡◌, refl, sym, subst, ◌≢◌, ◌↔◌, inl, inr}
use whimbrel.Prelude.{true, false, Option, none, some, arith}
use whimbrel.Prelude.{List, [], ◌∷◌, map}
use whimbrel.Prelude.{leb, leb-false→lt, Bool-cases}
use whimbrel.Prelude.{keep, All}
use whimbrel.Prelude.{ok, ok-injective, bind-ok}
use mathlib.Core.List.{Perm}
use mathlib.Core.List.Perm
use whimbrel.Prelude.Text.{Text}
use whimbrel.Prelude.Sort.{sort, IsSorted, sort-IsSorted, sort-perm, sort-All}
use whimbrel.Label.SystemMap.{Entry, load_system_map, resolve}
use whimbrel.Label.Serial.{Row, parse_serial}
use whimbrel.Label.Resolve.{Resolves, resolve-Resolves, load_system_map-Ascends}
use whimbrel.Label.Run.{
  Labeled, labeled_as, symbol_text, label_row, label_rows, longer_first, split_hole, refuse_empty,
  label_window, label,
}

-- A row that carries the right symbol, and is marked exactly if its stamp lies in the window.
pub record IsLabeled (entries : List Entry) (start finish : ℕ) (l : Labeled) : Type 0 where
  pub resolved : Resolves l.row.addr entries (ok (l.name, l.offset))
  pub symbol : l.symbol ≡ symbol_text l.name l.offset
  pub marked : (l.in_hole ≡ true) ↔ ((start < l.row.ns) × (l.row.ns ≤ finish))

-- What a successful run returns: every parsed row once, longest first, each with its symbol, and
-- beside them those in the window, of which there is at least one.
pub record IsReport (entries : List Entry) (rows : List Row) (hole labeled : List Labeled)
    : Type 0 where
  pub start : ℕ
  pub finish : ℕ
  pub window : start < finish
  pub complete : Perm (map (λ (l : Labeled). l.row) labeled) rows
  pub sound : All (IsLabeled entries start finish) labeled
  pub descending : IsSorted longer_first labeled
  pub in_window : hole ≡ keep (λ (l : Labeled). l.in_hole) labeled
  pub not_empty : hole ≢ []

module _ (entries : List Entry) (start finish : ℕ)
    (right : (addr : ℕ) → Resolves addr entries (resolve addr entries)) where
  labeled_as-IsLabeled :
      (r : Row) (found : Text × ℕ)
      → Resolves r.addr entries (ok found)
      → IsLabeled entries start finish (labeled_as start finish r found)
  labeled_as-IsLabeled r (name, off) resolved = record {
    resolved = resolved;
    symbol = refl;
    marked = ground arith;
  }

  label_row-IsLabeled :
      (r : Row) (l : Labeled)
      → label_row entries start finish r ≡ ok l
      → (l.row ≡ r) × IsLabeled entries start finish l
  unfolding label_row
  label_row-IsLabeled r l h =
      let (found, e, made) =
        bind-ok (resolve r.addr entries) (λ f. ok (labeled_as start finish r f)) h in
      subst (λ (k : Labeled). (k.row ≡ r) × IsLabeled entries start finish k)
        (ok-injective _ l made)
        (refl, labeled_as-IsLabeled r found (subst (Resolves r.addr entries) e (right r.addr)))

  label_rows-IsLabeled :
      (rows : List Row) (ls : List Labeled)
      → label_rows entries start finish rows ≡ ok ls
      → (map (λ (l : Labeled). l.row) ls ≡ rows) × All (IsLabeled entries start finish) ls
  unfolding label_rows
  label_rows-IsLabeled [] ls h =
      subst
        (λ (t : List Labeled).
          (map (λ (l : Labeled). l.row) t ≡ []) × All (IsLabeled entries start finish) t)
        (ok-injective [] ls h) (refl, tt)
  label_rows-IsLabeled (r ∷ rows) ls h =
      let (l, e, more) = bind-ok (label_row entries start finish r) _ h in
      let (rest, f, made) = bind-ok (label_rows entries start finish rows) _ more in
      let (same, sound) = label_row-IsLabeled r l e in
      let (sames, sounds) = label_rows-IsLabeled rows rest f in
      subst
        (λ (t : List Labeled).
          (map (λ (l : Labeled). l.row) t ≡ r ∷ rows) × All (IsLabeled entries start finish) t)
        (ok-injective (l ∷ rest) ls made) (cc, (sound, sounds))

longer_first_total : (a b : Labeled) → longer_first a b ≡ false → longer_first b a ≡ true
longer_first_total a b h = ground arith

longer_first_trans :
    (a b c : Labeled) → longer_first a b ≡ true → longer_first b c ≡ true → longer_first a c ≡ true
longer_first_trans a b c h k = ground arith

refuse_empty-eq-ok :
    (kept labeled hole table : List Labeled)
    → refuse_empty kept labeled ≡ ok (hole, table)
    → (kept ≡ hole) × (labeled ≡ table) × (hole ≢ [])
unfolding refuse_empty
refuse_empty-eq-ok [] labeled hole table h = cc
refuse_empty-eq-ok (l ∷ kept) labeled hole table h = (cc, cc, λ e. cc)

module _ (entries : List Entry) (rows : List Row) (start finish : ℕ) where
  split_hole-IsReport :
      (ls hole labeled : List Labeled)
      → start < finish
      → map (λ (l : Labeled). l.row) ls ≡ rows
      → All (IsLabeled entries start finish) ls
      → split_hole ls ≡ ok (hole, labeled)
      → IsReport entries rows hole labeled
  unfolding split_hole
  split_hole-IsReport ls hole labeled window same sound h =
      let table = sort longer_first ls in
      let (kept, sorted, some_left) =
        refuse_empty-eq-ok (keep (λ (r : Labeled). r.in_hole) table) table hole labeled h in
      subst (IsReport entries rows hole) sorted (record {
        start = start;
        finish = finish;
        window = window;
        complete =
            subst (Perm (map (λ (l : Labeled). l.row) table)) same
              (Perm.map (λ (l : Labeled). l.row) (sort-perm longer_first ls));
        sound = sort-All longer_first (IsLabeled entries start finish) ls sound;
        descending = sort-IsSorted longer_first longer_first_total longer_first_trans ls;
        in_window = sym kept;
        not_empty = some_left;
      })

label_window-IsReport :
    (entries : List Entry) (rows : List Row) (start finish : Option ℕ) (hole labeled : List Labeled)
    → ((addr : ℕ) → Resolves addr entries (resolve addr entries))
    → label_window entries rows start finish ≡ ok (hole, labeled)
    → IsReport entries rows hole labeled
unfolding label_window
label_window-IsReport entries [] start finish hole labeled right h = cc
label_window-IsReport entries (r ∷ rows) none finish hole labeled right h = cc
label_window-IsReport entries (r ∷ rows) (some a) none hole labeled right h = cc
label_window-IsReport entries (r ∷ rows) (some a) (some b) hole labeled right h =
    elim (Bool-cases (leb b a)) [
      | inl inverted ↦ absurd (ground arith)
      | inr proper ↦
          let (ls, e, split) =
            bind-ok (label_rows entries a b (r ∷ rows)) split_hole (rw proper at h) in
          let (same, sound) = label_rows-IsLabeled entries a b right (r ∷ rows) ls e in
          split_hole-IsReport entries (r ∷ rows) a b ls hole labeled (leb-false→lt b a proper) same
            sound split
    ]

-- If `label` returns, its second table holds every initcall line of the log exactly once, longest
-- first, each with the symbol that `System.map` has for its address, and its first table is the
-- part of it that lies in the window, which is not empty.
pub label-IsReport :
    (serial_text map_text : Text) (hole labeled : List Labeled)
    → label serial_text map_text ≡ ok (hole, labeled)
    → (entries : List Entry) × (load_system_map map_text ≡ ok entries)
      × IsReport entries (parse_serial serial_text).rows hole labeled
unfolding label
label-IsReport serial_text map_text hole labeled h =
    let (entries, loaded, rest) = bind-ok (load_system_map map_text) _ h in
    let (asc, ne) = load_system_map-Ascends map_text entries loaded in
    let p = parse_serial serial_text in
    (
      entries,
      loaded,
      label_window-IsReport entries p.rows p.hole_start p.hole_end hole labeled
          (λ addr. resolve-Resolves addr entries asc ne) rest,
    )
