-- ===== src/Bench/Signature.antt =====
-- `arp_signature` of scripts/bench.py: the trials whose first transmission is late against their arm.
use whimbrel.Prelude.{◌/◌}
use whimbrel.Prelude.{Bool, ◌&&◌, not, Option, none, some}
use whimbrel.Prelude.{List, [], ◌∷◌, ◌++◌}
use whimbrel.Prelude.{if◌then◌else◌}
use whimbrel.Prelude.{length, get_elem?}
use whimbrel.Prelude.{Result, ok, err}
use whimbrel.Prelude.Text.{Text, codes, text_eq, text_leb}
use whimbrel.Prelude.Int.{ℤ, pos, ltb_ℤ, ◌-ℤ◌}
use whimbrel.Prelude.Sort.{sort}
use whimbrel.Prelude.Grouping.{Group, group_by}
use whimbrel.Stats.Signed.{leb_ℤ}
use whimbrel.Bench.Connect.{has_column}
use whimbrel.Bench.Failure.{BenchFail, no_ftx_column}

-- A row of runs.csv; an empty `guest_ftx_ns` is `none`.
pub record FtxRow : Type 0 where
  pub batch_id : Text
  pub system : Text
  pub config : Text
  pub trial : Text
  pub warmup : Text
  pub guest_ftx_ns : Option ℤ
  pub guest_arp_req_n : Text

-- `(system, config)`
pub record ArpArm : Type 0 where
  pub system : Text
  pub config : Text

-- A dict of `out`.
pub record LossEvent : Type 0 where
  pub system : Text
  pub config : Text
  pub batch_id : Text
  pub trial : Text
  pub warmup : Text
  pub guest_ftx_ns : ℤ
  pub arm_median_ns : ℤ
  pub excess_ns : ℤ
  pub guest_arp_req_n : Text

abbrev pub arp_loss_margin : ℤ
arp_loss_margin = pos 20_000_000

abbrev pub arp_arm : FtxRow → ArpArm
arp_arm r = record { system = r.system; config = r.config }

unfoldable pub same_arp_arm : ArpArm → ArpArm → Bool
same_arp_arm a b = text_eq a.system b.system && text_eq a.config b.config

-- The order of the keys, which are pairs.
abbrev pub by_arp_arm : Group ArpArm FtxRow → Group ArpArm FtxRow → Bool
by_arp_arm g h =
    if not (text_eq g.key.system h.key.system)
    then text_leb g.key.system h.key.system
    else text_leb g.key.config h.key.config

unfoldable pub arp_groups : List FtxRow → List (Group ArpArm FtxRow)
arp_groups runs = group_by same_arp_arm arp_arm (λ (r : FtxRow). r) runs

-- The values of the cells that are not empty.
unfoldable pub ftx_values : List FtxRow → List ℤ
ftx_values [] = []
ftx_values (r ∷ rows) =
    let rest = ftx_values rows in elim r.guest_ftx_ns [ none ↦ rest | some ftx ↦ ftx ∷ rest ]

-- `vals[len(vals) // 2]` of the sorted values, if there are some.
unfoldable pub upper_median : List ℤ → Option ℤ
upper_median vals = get_elem? (sort leb_ℤ vals) (length vals / 2)

abbrev pub loss_event : ArpArm → ℤ → FtxRow → ℤ → LossEvent
loss_event arm med r ftx = record {
  system = arm.system;
  config = arm.config;
  batch_id = r.batch_id;
  trial = r.trial;
  warmup = r.warmup;
  guest_ftx_ns = ftx;
  arm_median_ns = med;
  excess_ns = ftx -ℤ med;
  guest_arp_req_n = r.guest_arp_req_n;
}

-- One turn of the inner loop.
unfoldable pub row_loss : ArpArm → ℤ → FtxRow → Option ℤ → List LossEvent
row_loss arm med r none = []
row_loss arm med r (some ftx) =
    if ltb_ℤ arp_loss_margin (ftx -ℤ med) then loss_event arm med r ftx ∷ [] else []

unfoldable pub row_losses : ArpArm → ℤ → List FtxRow → List LossEvent
row_losses arm med [] = []
row_losses arm med (r ∷ rows) = row_loss arm med r r.guest_ftx_ns ++ row_losses arm med rows

-- One turn of the outer loop.
unfoldable pub losses_from : ArpArm → List FtxRow → Option ℤ → List LossEvent
losses_from arm rows none = []
losses_from arm rows (some med) = row_losses arm med rows

abbrev pub arm_losses : Group ArpArm FtxRow → List LossEvent
arm_losses g = losses_from g.key g.members (upper_median (ftx_values g.members))

unfoldable pub all_losses : List (Group ArpArm FtxRow) → List LossEvent
all_losses [] = []
all_losses (g ∷ groups) = arm_losses g ++ all_losses groups

-- `columns` are the keys of the first row.
unfoldable pub arp_signature : List Text → List FtxRow → Result BenchFail (List LossEvent)
arp_signature columns [] = err no_ftx_column
arp_signature columns (r ∷ runs) =
    if has_column columns (codes "guest_ftx_ns")
    then ok (all_losses (sort by_arp_arm (arp_groups (r ∷ runs))))
    else err no_ftx_column
