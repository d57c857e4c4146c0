-- ===== src/Exhibits/Unprobed.antt =====
-- `validate_t48c` of scripts/report-exhibits.py and what it calls: the comparison whose Linux arms skip
-- the alignment probe, against the earlier comparison. Medians are twofold.
use whimbrel.Prelude.{ℕ}
use whimbrel.Prelude.{Bool, false, ◌||◌, not, Option, none, some}
use whimbrel.Prelude.{List, [], ◌∷◌, map}
use whimbrel.Prelude.{◌==◌, if◌then◌else◌}
use whimbrel.Prelude.{length, keep}
use whimbrel.Prelude.{Result, ok, err, ◌>>=◌, ◌>>◌, guard}
use whimbrel.Prelude.Text.{
  Text, codes, text_eq, starts_with, contains, span, is_space, lstrip, strip, splitlines,
}
use whimbrel.Prelude.Int.{ℤ, negsuc, sub_ℕ, ltb_ℤ}
use whimbrel.Prelude.Dict.{Dict, lookup, insert}
use whimbrel.Stats.Percentile.{median}
use whimbrel.Bench.Cpus.{to_int}
use whimbrel.Exhibits.Rows.{
  Row, PhaseCell, ExhibitFail, bad_append, no_token, moved_artifact, no_before, outside_window,
  mixed_canary, bad_canary, recorded, of_config,
}
use whimbrel.Exhibits.Gates.{check_canary}
use whimbrel.Exhibits.Firmware.{canary_fields, check_columns}
use whimbrel.Exhibits.Validate.{linux_artifacts, e4_median, validate_t48}

abbrev word_then : Text → Text × Text
word_then s = span (λ c. not (is_space c)) (lstrip s)

abbrev append_parts : Text → Text → Text → Option (Text × Text)
append_parts line kind value =
    if (length kind == 0) || (length value == 0) then none else some (kind, value)

-- `line.split(None, 2)` of a line that starts with a word: the other two parts, if there are three.
unfoldable pub split_append : Text → Option (Text × Text)
unfolding span is_space lstrip
split_append line =
    let (first, s) = word_then line in
    let (kind, t) = word_then s in append_parts line kind (lstrip t)

unfoldable pub appends_from : Dict Text → List Text → Result ExhibitFail (Dict Text)
unfolding starts_with strip split_append
appends_from appends [] = ok appends
appends_from appends (raw ∷ lines) =
    let line = strip raw in
    let skipped = appends_from appends lines in
    if starts_with line (codes "append ")
    then elim (split_append line) [
      | none ↦ err (bad_append line)
      | some (kind, value) ↦ appends_from (insert kind value appends) lines
    ]
    else skipped

unfoldable pub linux_appends : Text → Result ExhibitFail (Dict Text)
linux_appends text = appends_from [] (splitlines text)

abbrev or_bad_canary : Text → Option ℕ → Result ExhibitFail ℕ
or_bad_canary cell none = err (bad_canary cell)
or_bad_canary cell (some n) = ok n

-- `int` of the pair in the set, which is that of the first row.
unfoldable pub first_canary : List Row → Result ExhibitFail (ℕ × ℕ)
unfolding to_int
first_canary [] = err mixed_canary
first_canary (r ∷ rows) = do
  stvec ← or_bad_canary r.canary_stvec (to_int r.canary_stvec)
  pv ← or_bad_canary r.canary_pv (to_int r.canary_pv)
  ok (stvec, pv)

unfoldable pub campaign_canary : List Text → List Row → Result ExhibitFail (ℕ × ℕ)
campaign_canary fields runs = do
  check_columns fields canary_fields
  check_canary (recorded runs)
  first_canary (recorded runs)

abbrev pub probe_token : Text
probe_token = codes "unaligned_scalar_speed=fast"

-- `appends.get(kind, "")`
abbrev pub append_of : Text → Dict Text → Text
append_of kind appends = elim (lookup kind appends) [ none ↦ [] | some v ↦ v ]

unfoldable pub check_token : Dict Text → Text → Result ExhibitFail (Unit {0})
check_token appends kind = guard (contains probe_token (append_of kind appends)) (no_token kind)

abbrev pub same_images : List Text
same_images = codes "Image-stock" ∷ codes "Image-trimmed" ∷ codes "rootfs.cpio" ∷ codes "init" ∷ []

-- Both manifests have all four names.
abbrev pub same_digest : Option Text → Option Text → Bool
same_digest none b = false
same_digest (some a) none = false
same_digest (some a) (some b) = text_eq a b

unfoldable pub check_same : Dict Text → Dict Text → List Text → Result ExhibitFail (Unit {0})
check_same here before [] = ok tt
check_same here before (name ∷ names) = do
  guard (same_digest (lookup name here) (lookup name before)) (moved_artifact name)
  check_same here before names

-- -27 ms and -16 ms, twofold.
abbrev pub window_lo : ℤ
window_lo = negsuc 53_999_999

abbrev pub window_hi : ℤ
window_hi = negsuc 31_999_999

abbrev pub or_no_before : Text → Option ℕ → Result ExhibitFail ℕ
or_no_before cfg none = err (no_before cfg)
or_no_before cfg (some m) = ok m

unfoldable pub check_window : List Row → List Row → List Text → Result ExhibitFail (Unit {0})
check_window rec before [] = ok tt
check_window rec before (cfg ∷ cfgs) = do
  m ← e4_median cfg rec
  b ←
      or_no_before cfg
        (median (map (λ (r : Row). r.e0_to_e4_ns) (keep (of_config cfg) (recorded before))))
  guard (not (ltb_ℤ (sub_ℕ m b) window_lo || ltb_ℤ window_hi (sub_ℕ m b))) (outside_window cfg)
  check_window rec before cfgs

-- The artifacts against those of the earlier manifest, where it is given.
unfoldable pub check_earlier : Text → Option Text → Result ExhibitFail (Unit {0})
check_earlier manifest none = ok tt
check_earlier manifest (some earlier) = do
  here ← linux_artifacts manifest
  before ← linux_artifacts earlier
  check_same here before same_images

unfoldable pub check_delta : List Row → Option (List Row) → Result ExhibitFail (Unit {0})
check_delta rec none = ok tt
check_delta rec (some before) = check_window rec before (codes "trimmed" ∷ codes "stock" ∷ [])

unfoldable pub validate_t48c :
    List Text
    → Text
    → ℕ
    → Text
    → Option (List Row)
    → Option Text
    → List Text
    → List Row
    → List PhaseCell
    → Result ExhibitFail (Unit {0})
validate_t48c batches sha_prefix n manifest before earlier fields runs phases = do
  validate_t48 batches sha_prefix n manifest fields runs phases
  canary ← campaign_canary fields runs
  appends ← linux_appends manifest
  check_token appends (codes "quiet")
  check_token appends (codes "instrumented")
  check_earlier manifest earlier
  check_delta (recorded runs) before
