-- ===== src/Bench/Losses.antt =====
-- What `arp_signature` of scripts/bench.py reports.
use whimbrel.Prelude.{◌≡◌, refl, subst, sym, ◌∙◌, ◌↔◌, inl, inr}
use whimbrel.Prelude.{true, Option, none, some, arith}
use whimbrel.Prelude.{List, [], ◌∷◌}
use whimbrel.Prelude.{Option-cases, Bool-cases}
use whimbrel.Prelude.{keep, All}
use whimbrel.Prelude.Text.{text_eq_iff}
use whimbrel.Prelude.Int.{ℤ, ltb_ℤ, ◌-ℤ◌}
use whimbrel.Prelude.Sort.{sort, All-map}
use whimbrel.Prelude.Grouping.{
  Group, members_of, members-group_by, members_of-All, sort-All, All-sort,
}
use whimbrel.Prelude.Members.{mem-keep, keep-mem}
use whimbrel.Prelude.Groups.{group_by-members}
use whimbrel.Prelude.{map_id, ok}
use whimbrel.Prelude.Text.{Text, codes}
use whimbrel.Bench.Connect.{has_column}
use whimbrel.Bench.Signature.{arp_signature}
use whimbrel.Bench.Signature.{
  FtxRow, ArpArm, LossEvent, arp_loss_margin, arp_arm, same_arp_arm, by_arp_arm, arp_groups,
  ftx_values, upper_median, loss_event, row_loss, row_losses, losses_from, arm_losses, all_losses,
}
use mathlib.Core.List.{Memᴰ}
use mathlib.Core.List.Memᴰ

same_arp_arm_iff : (a b : ArpArm) → (same_arp_arm a b ≡ true) ↔ (a ≡ b)
unfolding same_arp_arm
same_arp_arm_iff a b = ground (arith, text_eq_iff a.system b.system, text_eq_iff a.config b.config)

-- The rows of an arm.
abbrev pub rows_at : List FtxRow → ArpArm → List FtxRow
rows_at runs a = keep (λ (r : FtxRow). same_arp_arm (arp_arm r) a) runs

-- An event is that of a row whose value exceeds the median of the values of its arm by more than 20 ms.
abbrev pub IsLoss : List FtxRow → LossEvent → Type 0
IsLoss runs l =
    (r : FtxRow) × (ftx : ℤ) × (med : ℤ) × Memᴰ r runs
    × (r.guest_ftx_ns ≡ some ftx)
    × (upper_median (ftx_values (rows_at runs (arp_arm r))) ≡ some med)
    × (ltb_ℤ arp_loss_margin (ftx -ℤ med) ≡ true)
    × (l ≡ loss_event (arp_arm r) med r ftx)

-- The rows of a list that are late against a median.
abbrev IsLate : ArpArm → ℤ → List FtxRow → LossEvent → Type 0
IsLate a med rows l =
    (r : FtxRow) × (ftx : ℤ) × Memᴰ r rows
    × (r.guest_ftx_ns ≡ some ftx)
    × (ltb_ℤ arp_loss_margin (ftx -ℤ med) ≡ true)
    × (l ≡ loss_event a med r ftx)

row_loss-IsLate :
    (a : ArpArm) (med : ℤ) (r : FtxRow) (rows : List FtxRow) (o : Option ℤ) (l : LossEvent)
    → r.guest_ftx_ns ≡ o
    → Memᴰ l (row_loss a med r o)
    → IsLate a med (r ∷ rows) l
unfolding row_loss
row_loss-IsLate a med r rows none l e m = absurd (Memᴰ.not-nil m)
row_loss-IsLate a med r rows (some ftx) l e m =
    elim (Bool-cases (ltb_ℤ arp_loss_margin (ftx -ℤ med))) [
      | inl above ↦ (r, ftx, Memᴰ.head refl, e, above, Memᴰ.eq_of_singleton (rw above at m))
      | inr below ↦ absurd (Memᴰ.not-nil (rw below at m))
    ]

row_losses-IsLate :
    (a : ArpArm) (med : ℤ) (rows : List FtxRow) (l : LossEvent)
    → Memᴰ l (row_losses a med rows)
    → IsLate a med rows l
unfolding row_losses
row_losses-IsLate a med [] l m = absurd (Memᴰ.not-nil m)
row_losses-IsLate a med (r ∷ rows) l m =
    elim (Memᴰ.append_cases (row_loss a med r r.guest_ftx_ns) m) [
      | inl here ↦ row_loss-IsLate a med r rows r.guest_ftx_ns l refl here
      | inr there ↦
          let (q, ftx, mem, cell, above, is) = row_losses-IsLate a med rows l there in
          (q, ftx, Memᴰ.tail mem, cell, above, is)
    ]

IsLate-row_losses :
    (a : ArpArm) (med ftx : ℤ) (r : FtxRow) (rows : List FtxRow)
    → Memᴰ r rows
    → r.guest_ftx_ns ≡ some ftx
    → ltb_ℤ arp_loss_margin (ftx -ℤ med) ≡ true
    → Memᴰ (loss_event a med r ftx) (row_losses a med rows)
unfolding row_losses row_loss
IsLate-row_losses a med ftx r [] m h above = elim m [ ]
IsLate-row_losses a med ftx r (q ∷ rows) (Memᴰ.head e) h above =
    subst (λ p. Memᴰ (loss_event a med r ftx) (row_losses a med (p ∷ rows))) e
      (rw (h, above) (Memᴰ.head refl))
IsLate-row_losses a med ftx r (q ∷ rows) (Memᴰ.tail m) h above =
    Memᴰ.append_right (row_loss a med q q.guest_ftx_ns)
      (IsLate-row_losses a med ftx r rows m h above)

all_losses-some {ℓ} :
    (P : Type ℓ) (l : LossEvent) (groups : List (Group ArpArm FtxRow))
    → All (λ (g : Group ArpArm FtxRow). Memᴰ l (arm_losses g) → P) groups
    → Memᴰ l (all_losses groups)
    → P
unfolding all_losses
all_losses-some P l [] h m = absurd (Memᴰ.not-nil m)
all_losses-some P l (g ∷ groups) (p, h) m = elim (Memᴰ.append_cases (arm_losses g) m) [
  | inl here ↦ p here
  | inr there ↦ all_losses-some P l groups h there
]

all_losses-each :
    (groups : List (Group ArpArm FtxRow))
    → All
        (λ (g : Group ArpArm FtxRow).
          (l : LossEvent) → Memᴰ l (arm_losses g) → Memᴰ l (all_losses groups))
        groups
unfolding all_losses
all_losses-each [] = tt
all_losses-each (g ∷ groups) = (
  λ l m. Memᴰ.append_left (all_losses groups) m,
  All-map (λ f h l m. Memᴰ.append_right (arm_losses g) (h l m)) groups (all_losses-each groups),
)

losses_from-IsLoss :
    (runs : List FtxRow) (a : ArpArm) (l : LossEvent)
    → Memᴰ l (losses_from a (rows_at runs a) (upper_median (ftx_values (rows_at runs a))))
    → IsLoss runs l
unfolding losses_from
losses_from-IsLoss runs a l m =
    let late = λ (r : FtxRow). same_arp_arm (arp_arm r) a in
    elim (Option-cases (upper_median (ftx_values (rows_at runs a)))) [
      | inl e ↦ absurd (Memᴰ.not-nil (rw e at m))
      | inr (med, e) ↦
          let (r, ftx, mem, cell, above, is) =
            row_losses-IsLate a med (rows_at runs a) l (rw e at m) in
          let (there, arm) = keep-mem late r runs mem in
          let at : arp_arm r ≡ a = (same_arp_arm_iff (arp_arm r) a).0 arm in
          (r, ftx, med, there, cell, rw at e, above, rw at is)
    ]

losses_from-mem :
    (a : ArpArm) (rows : List FtxRow) (r : FtxRow) (ftx med : ℤ)
    → Memᴰ r rows
    → r.guest_ftx_ns ≡ some ftx
    → upper_median (ftx_values rows) ≡ some med
    → ltb_ℤ arp_loss_margin (ftx -ℤ med) ≡ true
    → Memᴰ (loss_event a med r ftx) (losses_from a rows (upper_median (ftx_values rows)))
unfolding losses_from
losses_from-mem a rows r ftx med m cell e above =
    rw e (IsLate-row_losses a med ftx r rows m cell above)

arp_groups-own :
    (runs : List FtxRow)
    → All (λ (g : Group ArpArm FtxRow). g.members ≡ rows_at runs g.key) (arp_groups runs)
unfolding arp_groups
arp_groups-own runs =
    All-map (λ g e. e ∙ map_id (rows_at runs g.key)) (arp_groups runs)
      (group_by-members same_arp_arm same_arp_arm_iff arp_arm (λ (r : FtxRow). r) runs)

arp_groups-at :
    (runs : List FtxRow) (a : ArpArm) → members_of same_arp_arm a (arp_groups runs) ≡ rows_at runs a
unfolding arp_groups
arp_groups-at runs a =
    members-group_by same_arp_arm same_arp_arm_iff arp_arm (λ (r : FtxRow). r) runs a
    ∙ map_id (rows_at runs a)

losses-IsLoss :
    (runs : List FtxRow) (l : LossEvent)
    → Memᴰ l (all_losses (sort by_arp_arm (arp_groups runs)))
    → IsLoss runs l
losses-IsLoss runs l m =
    let own : All (λ (g : Group ArpArm FtxRow). Memᴰ l (arm_losses g) → IsLoss runs l)
        (arp_groups runs) =
      All-map
        (λ g e here.
          losses_from-IsLoss runs g.key l (
            subst (λ rows. Memᴰ l (losses_from g.key rows (upper_median (ftx_values rows)))) e
              here))
        (arp_groups runs) (arp_groups-own runs) in
    all_losses-some (IsLoss runs l) l (sort by_arp_arm (arp_groups runs))
      (sort-All by_arp_arm (λ g. Memᴰ l (arm_losses g) → IsLoss runs l) (arp_groups runs) own) m

IsLoss-losses :
    (runs : List FtxRow) (l : LossEvent)
    → IsLoss runs l
    → Memᴰ l (all_losses (sort by_arp_arm (arp_groups runs)))
IsLoss-losses runs l (r, ftx, med, m, cell, e, above, is) =
    let a = arp_arm r in
    let out = all_losses (sort by_arp_arm (arp_groups runs)) in
    let P = λ (g : Group ArpArm FtxRow). (k : LossEvent) → Memᴰ k (arm_losses g) → Memᴰ k out in
    let there =
      mem-keep (λ (q : FtxRow). same_arp_arm (arp_arm q) a) r runs m
        ((same_arp_arm_iff a a).1 refl) in
    let at = arp_groups-at runs a in
    let each =
      All-sort by_arp_arm P (arp_groups runs)
        (all_losses-each (sort by_arp_arm (arp_groups runs))) in
    elim (members_of-All same_arp_arm same_arp_arm_iff P (arp_groups runs) a each) [
      | inl empty ↦ absurd (Memᴰ.not-nil (subst (Memᴰ r) (sym at ∙ empty) there))
      | inr p ↦
          let found = losses_from-mem a (rows_at runs a) r ftx med there cell e above in
          Memᴰ.cast is (
            p (loss_event a med r ftx) (
              subst
                (λ rows.
                  Memᴰ (loss_event a med r ftx)
                    (losses_from a rows (upper_median (ftx_values rows))))
                (sym at) found))
    ]

-- An event is reported exactly if a row of the file has a value that exceeds the median of the values
-- of its arm by more than 20 ms, and the event says so.
pub arp_signature_iff :
    (columns : List Text) (runs : List FtxRow) (out : List LossEvent)
    → arp_signature columns runs ≡ ok out
    → (l : LossEvent) → Memᴰ l out ↔ IsLoss runs l
unfolding arp_signature
arp_signature_iff columns [] out h l = absurd (ground arith)
arp_signature_iff columns (r ∷ runs) out h l =
    elim (Bool-cases (has_column columns (codes "guest_ftx_ns"))) [
      | inl e ↦
          let is : all_losses (sort by_arp_arm (arp_groups (r ∷ runs))) ≡ out = ground arith in
          (
            λ m. losses-IsLoss (r ∷ runs) l (rw is m),
            λ loss. subst (Memᴰ l) is (IsLoss-losses (r ∷ runs) l loss),
          )
      | inr e ↦ absurd (ground arith)
    ]
