-- ===== src/Bench/Hashes.antt =====
-- `linux_kernel_hash_failures` of scripts/bench.py: what the recorded Linux rows booted against the
-- MANIFEST.
use whimbrel.Prelude.{ℕ}
use whimbrel.Prelude.{◌≡◌, refl, sym, ap, ◌∙◌, ◌↔◌, ◌⊎◌, inl, inr}
use whimbrel.Prelude.{Bool, ◌&&◌, Option, none, some}
use whimbrel.Prelude.{List, [], ◌∷◌}
use whimbrel.Prelude.{◌==◌, if◌then◌else◌, Bool-cases}
use whimbrel.Prelude.{keep, All}
use whimbrel.Prelude.{Result, ok, ◌>>=◌, ok-injective, bind-ok}
use whimbrel.Prelude.Text.{Text, codes, text_eq, text_eq_iff}
use whimbrel.Prelude.Dict.{lookup}
use whimbrel.Bench.Failure.{BenchFail}
use whimbrel.Bench.Manifest.{Manifest, parse_linux_manifest}

-- The columns that the function reads.
pub record KernelRow : Type 0 where
  pub warmup : ℕ
  pub system : Text
  pub config : Text
  pub trial : ℕ
  pub kernel_sha256 : Text

pub data HashFailure : Type 0 where
  no_manifest : HashFailure
  no_image : Text → Text → HashFailure
  other_hash : (got want image config : Text) (trial : ℕ) → HashFailure

unfoldable pub is_linux_row : KernelRow → Bool
is_linux_row r = (r.warmup == 0) && text_eq r.system (codes "linux")

unfoldable pub image_of : Text → Text
image_of config =
    if text_eq config (codes "stock") then codes "Image-stock" else codes "Image-trimmed"

-- What the loop adds for a row, with what the MANIFEST has for its image.
unfoldable pub row_failures : KernelRow → Option Text → List HashFailure → List HashFailure
row_failures r none failed = no_image (image_of r.config) r.config ∷ failed
row_failures r (some want) failed =
    if text_eq r.kernel_sha256 want
    then failed
    else (other_hash r.kernel_sha256 want (image_of r.config) r.config r.trial ∷ failed)

unfoldable pub hash_failures : Manifest → List KernelRow → List HashFailure
hash_failures m [] = []
hash_failures m (r ∷ rows) =
    row_failures r (lookup (image_of r.config) m.artifacts) (hash_failures m rows)

-- The rows, and the text of the MANIFEST if there is such a file.
unfoldable pub failures_of : Option Text → List KernelRow → Result BenchFail (List HashFailure)
failures_of manifest [] = ok []
failures_of none (r ∷ rows) = ok (no_manifest ∷ [])
failures_of (some text) (r ∷ rows) = do
  parsed ← parse_linux_manifest text
  ok (hash_failures parsed (r ∷ rows))

unfoldable pub linux_kernel_hash_failures :
    Option Text → List KernelRow → Result BenchFail (List HashFailure)
linux_kernel_hash_failures manifest runs = failures_of manifest (keep is_linux_row runs)

-- The rows booted the images that the MANIFEST names.
abbrev pub BootsNamed : Manifest → List KernelRow → Type 0
BootsNamed m rows =
    All (λ (r : KernelRow). lookup (image_of r.config) m.artifacts ≡ some r.kernel_sha256) rows

row_failures-nil :
    (r : KernelRow) (want : Option Text) (failed : List HashFailure)
    → row_failures r want failed ≡ []
    → (want ≡ some r.kernel_sha256) × (failed ≡ [])
unfolding row_failures
row_failures-nil r none failed h = absurd cc
row_failures-nil r (some want) failed h = elim (Bool-cases (text_eq r.kernel_sha256 want)) [
  | inl e ↦ (ap some (sym ((text_eq_iff r.kernel_sha256 want).0 e)), rw e at h)
  | inr e ↦
      let bad : other_hash r.kernel_sha256 want (image_of r.config) r.config r.trial ∷ failed ≡ [] =
        rw e at h in
      absurd cc
]

row_failures-none :
    (r : KernelRow) (failed : List HashFailure)
    → row_failures r (some r.kernel_sha256) failed ≡ failed
unfolding row_failures
row_failures-none r failed = rw ((text_eq_iff r.kernel_sha256 r.kernel_sha256).1 refl) refl

hash_failures-nil_iff :
    (m : Manifest) (rows : List KernelRow) → (hash_failures m rows ≡ []) ↔ BootsNamed m rows
unfolding hash_failures
hash_failures-nil_iff m [] = (λ h. tt, λ h. refl)
hash_failures-nil_iff m (r ∷ rows) =
    let found = lookup (image_of r.config) m.artifacts in
    (
      λ h.
          let (named, rest) = row_failures-nil r found (hash_failures m rows) h in
          (named, (hash_failures-nil_iff m rows).0 rest),
      λ (named, boots).
          rw named
            (row_failures-none r (hash_failures m rows) ∙ (hash_failures-nil_iff m rows).1 boots),
    )

failures_of-nil_iff :
    (text : Text) (m : Manifest) (rows : List KernelRow)
    → parse_linux_manifest text ≡ ok m
    → (failures_of (some text) rows ≡ ok []) ↔ BootsNamed m rows
unfolding failures_of
failures_of-nil_iff text m [] h = (λ e. tt, λ e. refl)
failures_of-nil_iff text m (r ∷ rows) h = (
  λ e.
      let none_failed : ok (hash_failures m (r ∷ rows)) ≡ ok [] = rw h at e in
      (hash_failures-nil_iff m (r ∷ rows)).0
        (ok-injective (hash_failures m (r ∷ rows)) [] none_failed),
  λ boots. rw (h, (hash_failures-nil_iff m (r ∷ rows)).1 boots),
)

failures_of-named :
    (manifest : Option Text) (rows : List KernelRow)
    → failures_of manifest rows ≡ ok []
    → (rows ≡ [])
      ⊎ ((text : Text) × (m : Manifest) × (manifest ≡ some text)
          × (parse_linux_manifest text ≡ ok m)
          × BootsNamed m rows)
unfolding failures_of
failures_of-named manifest [] h = inl refl
failures_of-named none (r ∷ rows) h =
    absurd (let bad : no_manifest ∷ [] ≡ [] = ok-injective (no_manifest ∷ []) [] h in cc)
failures_of-named (some text) (r ∷ rows) h =
    let (m, parsed, none_failed) =
      bind-ok (parse_linux_manifest text) (λ m. ok (hash_failures m (r ∷ rows))) h in
    inr (
      text,
      m,
      refl,
      parsed,
      (hash_failures-nil_iff m (r ∷ rows)).0
          (ok-injective (hash_failures m (r ∷ rows)) [] none_failed),
    )

-- The recorded rows of Linux, and the image of an arm.
abbrev pub linux_rows : List KernelRow → List KernelRow
linux_rows runs = keep (λ (r : KernelRow). (r.warmup == 0) && text_eq r.system (codes "linux")) runs

abbrev pub booted : Text → Text
booted config =
    if text_eq config (codes "stock") then codes "Image-stock" else codes "Image-trimmed"

abbrev pub HasImages : Manifest → List KernelRow → Type 0
HasImages m rows =
    All (λ (r : KernelRow). lookup (booted r.config) m.artifacts ≡ some r.kernel_sha256) rows

-- A check that reports nothing has no recorded Linux rows, or a MANIFEST that is accepted and names the
-- images that they booted.
pub linux_kernel_hash_failures-named :
    (manifest : Option Text) (runs : List KernelRow)
    → linux_kernel_hash_failures manifest runs ≡ ok []
    → (linux_rows runs ≡ [])
      ⊎ ((text : Text) × (m : Manifest) × (manifest ≡ some text)
          × (parse_linux_manifest text ≡ ok m)
          × HasImages m (linux_rows runs))
unfolding linux_kernel_hash_failures is_linux_row image_of
linux_kernel_hash_failures-named manifest runs h =
    failures_of-named manifest (keep is_linux_row runs) h

-- With a MANIFEST that is accepted, the check reports nothing exactly if each recorded Linux row
-- booted the image that the MANIFEST gives for its arm.
pub linux_kernel_hash_failures-none_iff :
    (text : Text) (m : Manifest) (runs : List KernelRow)
    → parse_linux_manifest text ≡ ok m
    → (linux_kernel_hash_failures (some text) runs ≡ ok []) ↔ BootsNamed m (keep is_linux_row runs)
unfolding linux_kernel_hash_failures
linux_kernel_hash_failures-none_iff text m runs =
    failures_of-nil_iff text m (keep is_linux_row runs)
