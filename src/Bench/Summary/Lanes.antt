-- ===== src/Bench/Summary/Lanes.antt =====
-- The values of `s_header_lines`, and those that scripts/report-exhibits.py computes from the same row.
use whimbrel.Prelude.{◌*◌, ◌≤◌}
use whimbrel.Prelude.{◌≡◌, refl, ap, subst}
use whimbrel.Prelude.{Bool, not, Option, some, arith}
use whimbrel.Prelude.{List, [], ◌∷◌, map}
use whimbrel.Prelude.{Result-cases, Option-cases, inl, inr}
use whimbrel.Prelude.{keep}
use whimbrel.Prelude.{ok, bind-ok}
use whimbrel.Prelude.Text.{Text, codes, text_eq, text_eq_iff}
use whimbrel.Prelude.Int.{ℤ, pos, sub_ℕ, ◌+ℤ◌, ◌-ℤ◌, abs}
use whimbrel.Prelude.Grouping.{values_under, members-group_by}
use whimbrel.Stats.Signed.{median_ℤ}
use whimbrel.Pcap.Tshark.{Proc}
use whimbrel.Exhibits.Rows
use whimbrel.Exhibits.Rows.{ExhibitFail}
use whimbrel.Exhibits.Lanes.{s_trial_ns}
use whimbrel.Bench.Arms.{fast_config, safe_config}
use whimbrel.Bench.Connect.{control_tol_ns}
use whimbrel.Bench.Summary.Metrics.{SummaryRow, recorded_runs}
use whimbrel.Bench.Summary.Startup.{
  StartupLines, in_shim_lane, some_median, check_profiles, startup_ns, lines_of, median_of,
  row_s_ns, all_s_ns, startup_lines, header_of, s_header_lines,
}

-- The values of an arm, in the order of the rows.
abbrev pub s_of_config : Text → List (SummaryRow × ℤ) → List ℤ
s_of_config config vals =
    values_under text_eq text_eq_iff (λ (v : SummaryRow × ℤ). v.0.config)
      (λ (v : SummaryRow × ℤ). v.1) config vals

-- The lines of values: the default lane alone is pooled, and where both profiles of that lane are
-- there, their medians are within a millisecond.
pub record IsHeader (vals : List (SummaryRow × ℤ)) (lines : StartupLines) : Type 0 where
  pub pooled :
      median_ℤ (
        map
          (λ (v : SummaryRow × ℤ). v.1)
          (keep (λ (v : SummaryRow × ℤ). not (in_shim_lane v)) vals))
      ≡ some lines.pooled
  pub shim : lines.shim ≡ median_ℤ (map (λ (v : SummaryRow × ℤ). v.1) (keep in_shim_lane vals))
  pub fast : lines.fast ≡ median_ℤ (s_of_config fast_config vals)
  pub slow : lines.slow ≡ median_ℤ (s_of_config safe_config vals)
  pub near :
      (a b : ℤ) → lines.fast ≡ some a → lines.slow ≡ some b → abs (a -ℤ b) ≤ 2 * control_tol_ns

some_median-ok : (vals : List ℤ) (m : ℤ) → some_median vals ≡ ok m → median_ℤ vals ≡ some m
some_median-ok vals m h = elim (Option-cases (median_ℤ vals)) [
  | inl e ↦ absurd (ground arith)
  | inr (n, e) ↦ ground arith
]

check_profiles-near :
    (x y : Option ℤ) (a b : ℤ)
    → check_profiles x y ≡ ok tt
    → x ≡ some a
    → y ≡ some b
    → abs (a -ℤ b) ≤ 2 * control_tol_ns
check_profiles-near x y a b h e f =
    let both : check_profiles (some a) (some b) ≡ ok tt = rw (e, f) at h in ground arith

median_of-selected :
    (config : Text) (vals : List (SummaryRow × ℤ))
    → median_of config vals ≡ median_ℤ (s_of_config config vals)
median_of-selected config vals = ap median_ℤ (
    members-group_by text_eq text_eq_iff (λ (v : SummaryRow × ℤ). v.0.config)
      (λ (v : SummaryRow × ℤ). v.1) vals config)

startup_lines-IsHeader :
    (vals : List (SummaryRow × ℤ)) (lines : StartupLines)
    → startup_lines vals ≡ ok lines
    → IsHeader vals lines
unfolding startup_lines
startup_lines-IsHeader vals lines h =
    let outside =
      map (λ (v : SummaryRow × ℤ). v.1)
        (keep (λ (v : SummaryRow × ℤ). not (in_shim_lane v)) vals) in
    elim (Result-cases (some_median outside)) [
      | inr (e, failed) ↦ absurd (ground arith)
      | inl (pooled, med) ↦
          let same : lines_of pooled vals ≡ lines = ground arith in
          let near : check_profiles (median_of fast_config vals) (median_of safe_config vals)
              ≡ ok tt =
            ground arith in
          subst (IsHeader vals) same (record {
            pooled = some_median-ok outside pooled med;
            shim = refl;
            fast = median_of-selected fast_config vals;
            slow = median_of-selected safe_config vals;
            near = λ a b.
                check_profiles-near (median_of fast_config vals) (median_of safe_config vals) a b
                  near;
          })
    ]

header_of-some :
    (present : Text → Bool) (tshark : Text → Text → List Text → Proc) (float_ns : Text → Option ℤ)
    → (rec : List SummaryRow) (lines : StartupLines)
    → header_of present tshark float_ns rec ≡ ok lines
    → (vals : List (SummaryRow × ℤ)) × (all_s_ns present tshark float_ns rec ≡ ok vals)
      × (startup_lines vals ≡ ok lines)
unfolding header_of
header_of-some present tshark float_ns [] lines h = absurd (ground arith)
header_of-some present tshark float_ns (r ∷ rec) lines h =
    bind-ok (all_s_ns present tshark float_ns (r ∷ rec)) startup_lines h

-- A row as the other script reads it: the same cells.
abbrev pub HasCells : SummaryRow → Rows.Row → Type 0
HasCells r q =
    (q.e0_to_e4_ns ≡ r.metric (codes "e0_to_e4_ns"))
    × (q.e0_to_first_connect_ns ≡ r.metric (codes "e0_to_first_connect_ns"))
    × (q.w_ns ≡ some (pos (r.metric (codes "w_ns"))))
    × (q.synack_to_http_ns ≡ r.synack_to_http_ns)
    × (q.d_fin_ns ≡ some (pos (r.metric (codes "d_fin_ns"))))

module _ (present : Text → Bool) (tshark : Text → Text → List Text → Proc)
    (float_ns : Text → Option ℤ) where
  -- The lines that are printed are the medians of the recorded rows: that of the default lane without
  -- the shim lane, that of the shim lane, and those of the two profiles of the default lane, which
  -- where both are there are within a millisecond.
  pub s_header_lines-IsHeader :
      (runs : List SummaryRow) (lines : StartupLines)
      → s_header_lines present tshark float_ns runs ≡ ok lines
      → (vals : List (SummaryRow × ℤ)) × (all_s_ns present tshark float_ns (recorded_runs runs)
          ≡ ok vals)
        × IsHeader vals lines
  unfolding s_header_lines
  s_header_lines-IsHeader runs lines h =
      let (vals, computed, printed) =
        header_of-some present tshark float_ns (recorded_runs runs) lines h in
      (vals, computed, startup_lines-IsHeader vals lines printed)

  -- The two scripts compute the same value from a row whose cells are all there.
  pub row_s_ns-agrees :
      (r : SummaryRow) (q : Rows.Row) (syn : ℤ)
      → HasCells r q
      → r.synack_to_http_ns ≡ some syn
      → (s : ℤ) × (row_s_ns present tshark float_ns r ≡ ok s) × (s_trial_ns q ≡ ok s)
  unfolding row_s_ns startup_ns s_trial_ns
  row_s_ns-agrees r q syn (e4, connect, w, synack, fin) there =
      let value : ℤ =
        sub_ℕ (r.metric (codes "e0_to_e4_ns")) (r.metric (codes "e0_to_first_connect_ns"))
        -ℤ ((pos (r.metric (codes "w_ns")) +ℤ syn) +ℤ pos (r.metric (codes "d_fin_ns"))) in
      (value, rw there refl, rw (w, synack, there, fin, e4, connect) refl)
