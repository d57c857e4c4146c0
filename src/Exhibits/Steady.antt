-- ===== src/Exhibits/Steady.antt =====
-- What the gates on the two lanes of scripts/report-exhibits.py let pass.
use whimbrel.Prelude.{ℕ, ◌*◌, ◌≤◌}
use whimbrel.Prelude.{◌≡◌, refl, inl, inr}
use whimbrel.Prelude.{true, false, some, arith}
use whimbrel.Prelude.{List, [], ◌∷◌}
use whimbrel.Prelude.{leb}
use whimbrel.Prelude.{ok, Result-cases}
use whimbrel.Prelude.Text.{Text}
use whimbrel.Prelude.Int.{ℤ, abs, ltb_ℤ, ◌-ℤ◌}
use whimbrel.Bench.Connect.{check_span}
use whimbrel.Bench.Span.{IsClose, check_span_iff}
use whimbrel.Exhibits.Rows.{Row, PhaseCell, fast, m_fast}
use whimbrel.Exhibits.Lanes.{
  e2e3g_median, is_stable, batches_of, stable_in, require_e2e3g_stable, s_median, ds_falsify_slower,
  ds_falsify_abs, require_delta_s_sane,
}
use whimbrel.Exhibits.Gates.{control_tol_ns, spread, connect_medians, check_connect}
use whimbrel.Exhibits.Firmware.{check_sane}

-- The medians of the two batches of an arm are stable.
abbrev pub HasStable : List Row → List PhaseCell → Text → Type 0
HasStable rec phases cfg =
    (b : Text) × (c : Text) × (first : ℕ) × (second : ℕ) × (batches_of rec ≡ b ∷ c ∷ [])
    × (e2e3g_median rec phases cfg (some b) ≡ ok first)
    × (e2e3g_median rec phases cfg (some c) ≡ ok second)
    × (is_stable first second ≡ true)

stable_in-parts :
    (rec : List Row) (phases : List PhaseCell) (cfg : Text) (bs : List Text)
    → batches_of rec ≡ bs
    → stable_in rec phases cfg bs ≡ ok tt
    → HasStable rec phases cfg
unfolding stable_in
stable_in-parts rec phases cfg [] e h = absurd (ground arith)
stable_in-parts rec phases cfg (b ∷ []) e h = absurd (ground arith)
stable_in-parts rec phases cfg (b ∷ c ∷ d ∷ bs) e h = absurd (ground arith)
stable_in-parts rec phases cfg (b ∷ c ∷ []) e h =
    elim (Result-cases (e2e3g_median rec phases cfg (some b))) [
      | inr (f, failed) ↦ absurd (ground arith)
      | inl (first, e1) ↦ elim (Result-cases (e2e3g_median rec phases cfg (some c))) [
        | inr (f, failed) ↦ absurd (ground arith)
        | inl (second, e2) ↦ (b, c, first, second, e, e1, e2, ground arith)
      ]
    ]

pub require_e2e3g_stable-HasStable :
    (rec : List Row) (phases : List PhaseCell) (cfg : Text)
    → require_e2e3g_stable rec phases cfg ≡ ok tt
    → HasStable rec phases cfg
unfolding require_e2e3g_stable
require_e2e3g_stable-HasStable rec phases cfg h =
    stable_in-parts rec phases cfg (batches_of rec) refl h

-- The startup of the two lanes differs by no more than 3 ms, and the shim's is not slower than 0.3 ms.
abbrev pub IsSane : List Row → Type 0
IsSane rec =
    (a : ℤ) × (b : ℤ) × (s_median rec fast ≡ ok a)
    × (s_median rec m_fast ≡ ok b)
    × (ltb_ℤ (a -ℤ b) ds_falsify_slower ≡ false)
    × (abs (a -ℤ b) ≤ ds_falsify_abs)

pub check_sane-IsSane : (rec : List Row) → check_sane rec ≡ ok tt → IsSane rec
unfolding check_sane require_delta_s_sane
check_sane-IsSane rec h = elim (Result-cases (s_median rec fast)) [
  | inr (f, failed) ↦ absurd (ground arith)
  | inl (a, e) ↦ elim (Result-cases (s_median rec m_fast)) [
    | inr (f, failed) ↦ absurd (ground arith)
    | inl (b, e') ↦ (a, b, e, e', ground arith, ground arith)
  ]
]

-- The first connects of any two arms have medians within a millisecond.
abbrev pub HasClose : List Text → List Row → Type 0
HasClose arms rec =
    (ms : List ℕ) × (connect_medians arms rec ≡ ok ms) × IsClose (2 * control_tol_ns) ms

spread-IsClose :
    (ms : List ℕ) → leb (spread ms) (2 * control_tol_ns) ≡ true → IsClose (2 * control_tol_ns) ms
spread-IsClose [] h = tt
spread-IsClose (m ∷ ms) h = (check_span_iff (m ∷ ms)).0 (unfold check_span in ground arith)

pub check_connect-HasClose :
    (arms : List Text) (rec : List Row) → check_connect arms rec ≡ ok tt → HasClose arms rec
unfolding check_connect
check_connect-HasClose arms rec h = elim (Result-cases (connect_medians arms rec)) [
  | inr (e, failed) ↦ absurd (ground arith)
  | inl (ms, found) ↦ (ms, found, spread-IsClose ms (ground arith))
]
