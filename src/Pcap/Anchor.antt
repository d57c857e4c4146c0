-- ===== src/Pcap/Anchor.antt =====
-- The SYN that the grid test measures is the first one at or after the guest's first frame.
use whimbrel.Prelude.{◌≡◌, refl, sym, ap, inl, inr}
use whimbrel.Prelude.{Bool, true, false, Option, arith}
use whimbrel.Prelude.{List, [], ◌∷◌, ◌++◌}
use whimbrel.Prelude.{Bool-cases}
use whimbrel.Prelude.{All}
use whimbrel.Prelude.{ok, ◌>>=◌, Result-cases, ok-injective, bind-ok}
use whimbrel.Prelude.Text.{Text}
use whimbrel.Prelude.Int.{ℤ, pos, ltb_ℤ, ◌-ℤ◌, ◌+ℤ◌, ◌≤ℤ◌, int_laws}
use whimbrel.Pcap.Tshark.{Proc, no_guest_tx, Row, tshark_table}
use whimbrel.Pcap.Extract.{guest_tx_filter, first_match}
use whimbrel.Pcap.Grid.{
  syn_in_filter, some_syns, time_s, not_before, flushed, on_grid, grid_frames, grid_after,
  assert_syn_grid,
}

module _ (tshark : Text → List Text → Proc) (float_ps : Text → Option ℤ) where
  -- A SYN that came before the guest's first frame: slirp's probe.
  abbrev pub IsProbe : ℤ → Row → Type 0
  IsProbe t_tx r = (t : ℤ) × (time_s float_ps r ≡ ok t) × (not_before t_tx t ≡ false)

  pub record IsAnchored (limit dt : ℤ) : Type 0 where
    pub tx : Row
    pub t_tx : ℤ
    pub probes : List Row
    pub syn : Row
    pub later : List Row
    pub is_tx : first_match tshark float_ps guest_tx_filter [] no_guest_tx ≡ ok tx
    pub at_tx : time_s float_ps tx ≡ ok t_tx
    pub rows : tshark_table tshark syn_in_filter [] ≡ ok (probes ++ syn ∷ later)
    pub before : All (IsProbe t_tx) probes
    pub at_syn : time_s float_ps syn ≡ ok (t_tx +ℤ dt)
    pub within : (pos 0 ≤ℤ dt) × (ltb_ℤ dt limit ≡ true)

  flushed-first :
      (t_tx : ℤ) (rows : List Row) (r : Row) (t : ℤ) (rest : List (Row × ℤ))
      → flushed float_ps t_tx rows ≡ ok ((r, t) ∷ rest)
      → (probes : List Row) × (later : List Row) × (rows ≡ probes ++ r ∷ later)
        × All (IsProbe t_tx) probes
        × (time_s float_ps r ≡ ok t)
  unfolding flushed
  flushed-first t_tx [] r t rest h = ground arith
  flushed-first t_tx (q ∷ rows) r t rest h = elim (Result-cases (time_s float_ps q)) [
    | inr (e, failed) ↦ absurd (ground arith)
    | inl (u, timed) ↦ elim (Bool-cases (not_before t_tx u)) [
      | inr early ↦
          let more : flushed float_ps t_tx rows ≡ ok ((r, t) ∷ rest) = ground arith in
          let (probes, later, split, before, at) = flushed-first t_tx rows r t rest more in
          (q ∷ probes, later, rw split refl, ((u, timed, early), before), at)
      | inl late ↦ elim (Result-cases (flushed float_ps t_tx rows)) [
        | inr (e, failed) ↦ absurd (ground arith)
        | inl (found, others) ↦
            let same : ◌≡◌ {A = List (Row × ℤ)} ((q, u) ∷ found) ((r, t) ∷ rest) =
              ok-injective ((q, u) ∷ found) ((r, t) ∷ rest) (rw (timed, others, late) at h) in
            let row_same : q ≡ r = cc in
            let time_same : u ≡ t = cc in
            ([], rows, rw row_same refl, tt, rw (sym row_same, sym time_same) timed)
      ]
    ]
  ]

  undo : (a b : ℤ) → b ≡ a +ℤ (b -ℤ a)
  undo a b = grind int_laws

  on_grid-within :
      (limit t_tx dt : ℤ) (late : List (Row × ℤ))
      → on_grid limit t_tx late ≡ ok dt
      → (syn : Row) × (rest : List (Row × ℤ)) × (late ≡ (syn, t_tx +ℤ dt) ∷ rest)
        × (pos 0 ≤ℤ dt)
        × (ltb_ℤ dt limit ≡ true)
  unfolding on_grid
  on_grid-within limit t_tx dt [] h = ground arith
  on_grid-within limit t_tx dt ((syn, t_syn) ∷ rest) h =
      let is_dt : t_syn -ℤ t_tx ≡ dt = ground arith in
      let at_syn : t_syn ≡ t_tx +ℤ dt = rw (sym is_dt) (undo t_tx t_syn) in
      (syn, rest, ap (λ t. (syn, t) ∷ rest) at_syn, ground arith, ground arith)

  some_syns-same : (rows found : List Row) → some_syns rows ≡ ok found → rows ≡ found
  some_syns-same [] found h = ground arith
  some_syns-same (r ∷ rows) found h = ok-injective (r ∷ rows) found h

  grid_frames-found :
      (present : Bool) (tx : Row) (syn_rows : List Row)
      → grid_frames tshark float_ps present ≡ ok (tx, syn_rows)
      → (first_match tshark float_ps guest_tx_filter [] no_guest_tx ≡ ok tx)
        × (tshark_table tshark syn_in_filter [] ≡ ok syn_rows)
  unfolding grid_frames
  grid_frames-found present tx syn_rows h =
      elim (Result-cases (tshark_table tshark syn_in_filter [])) [
        | inr (e, failed) ↦ absurd (ground arith)
        | inl (rows, e) ↦
            let same : some_syns rows ≡ ok syn_rows = ground arith in
            (ground arith, rw (e, some_syns-same rows syn_rows same) refl)
      ]

  -- If the grid test returns an interval, it lies within the limit and ends at the first SYN that
  -- is not before the guest's first frame; each SYN in front of that one is.
  pub assert_syn_grid-IsAnchored :
      (present : Bool) (limit dt : ℤ)
      → assert_syn_grid tshark float_ps present limit ≡ ok dt
      → IsAnchored limit dt
  unfolding assert_syn_grid grid_after
  assert_syn_grid-IsAnchored present limit dt h =
      let ((tx, syn_rows), found, h1) =
        bind-ok (grid_frames tshark float_ps present)
          (λ (tx, syn_rows). grid_after tshark float_ps limit tx syn_rows) h in
      let (is_tx, rows) = grid_frames-found present tx syn_rows found in
      let (t_tx, at_tx, h2) =
        bind-ok (time_s float_ps tx)
          (λ t_tx. flushed float_ps t_tx syn_rows >>= λ late. on_grid limit t_tx late) h1 in
      let (late, flush, h3) =
        bind-ok (flushed float_ps t_tx syn_rows) (λ late. on_grid limit t_tx late) h2 in
      let (syn, rest, first, forward, within) = on_grid-within limit t_tx dt late h3 in
      let (probes, later, split, before, at_syn) =
        flushed-first t_tx syn_rows syn (t_tx +ℤ dt) rest (rw first at flush) in
      record {
        tx = tx;
        t_tx = t_tx;
        probes = probes;
        syn = syn;
        later = later;
        is_tx = is_tx;
        at_tx = at_tx;
        rows = rw (sym split) rows;
        before = before;
        at_syn = at_syn;
        within = (forward, within);
      }
