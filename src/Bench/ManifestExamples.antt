-- ===== src/Bench/ManifestExamples.antt =====
-- A manifest that is accepted and one that is not.
use whimbrel.Prelude.{ℕ, zero, suc, String}
use whimbrel.Prelude.{◌≡◌, refl}
use whimbrel.Prelude.{List, [], ◌∷◌, ◌++◌}
use whimbrel.Prelude.{none, some}
use whimbrel.Prelude.{ok, err}
use whimbrel.Prelude.Text.{
  Text, codes, text_eq, strip_prefix, starts_with, run, strip, lstrip, splitlines, is_space,
  is_digit,
}
use whimbrel.Prelude.Dict.{lookup, has_key}
use whimbrel.Bench.Failure.{bad_manifest_line}
use whimbrel.Bench.Arms.{linux_append_quiet, linux_append_instrumented}
use whimbrel.Bench.ManifestLine.{is_hex_digit, artifact_match, append_match}
use whimbrel.Bench.Manifest.{
  Manifest, add_line, add_lines, check_manifest, parse_linux_manifest, IsManifest,
  parse_linux_manifest-IsManifest,
}
use whimbrel.Bench.Hashes.{
  KernelRow, other_hash, no_manifest, is_linux_row, image_of, row_failures, hash_failures,
  failures_of, linux_kernel_hash_failures,
}
use whimbrel.Prelude.{Option, if◌then◌else◌}
use whimbrel.Bench.Failure.{artifact_missing, artifact_mismatch}
use whimbrel.Bench.Artifacts.{
  keys, names_to_check, check_artifact, check_artifacts, verify_linux_artifacts,
}

program : Unit {0}
unfolding text_eq strip_prefix starts_with run strip lstrip splitlines is_space is_digit lookup
    has_key is_hex_digit artifact_match append_match add_line add_lines check_manifest
    parse_linux_manifest is_linux_row image_of row_failures hash_failures failures_of
    linux_kernel_hash_failures keys names_to_check check_artifact check_artifacts
    verify_linux_artifacts
program = tt

abbrev repeated : ℕ → Text → Text
repeated zero s = []
repeated (suc n) s = s ++ repeated n s

abbrev pub digest : Text
digest = repeated 8 (codes "09afbe31")

abbrev artifact : String → Text
artifact name = codes "artifact " ++ codes name ++ codes " " ++ digest ++ 10 ∷ []

abbrev pub text : Text
text =
    codes "# kernel images"
    ++ 10 ∷ artifact "Image-stock"
    ++ artifact "Image-trimmed"
    ++ artifact "rootfs.cpio"
    ++ artifact "init"
    ++ codes "append quiet "
    ++ linux_append_quiet
    ++ 10 ∷ codes "append instrumented "
    ++ linux_append_instrumented
    ++ 10 ∷ []

abbrev read : Manifest
read = record {
  artifacts =
      (codes "init", digest)
      ∷ (codes "rootfs.cpio", digest)
      ∷ (codes "Image-trimmed", digest)
      ∷ (codes "Image-stock", digest)
      ∷ [];
  appends =
      (codes "instrumented", linux_append_instrumented) ∷ (codes "quiet", linux_append_quiet) ∷ [];
}

parsed : parse_linux_manifest text ≡ ok read
unfolding program
parsed = refl

short :
    parse_linux_manifest (codes "artifact init 09af")
    ≡ err (bad_manifest_line (codes "artifact init 09af"))
unfolding program
short = refl

parse_linux_manifest-IsManifest_example : IsManifest read
parse_linux_manifest-IsManifest_example = parse_linux_manifest-IsManifest text read parsed

abbrev booted_row : String → String → Text → KernelRow
booted_row system config hash = record {
  warmup = 0;
  system = codes system;
  config = codes config;
  trial = 4;
  kernel_sha256 = hash;
}

abbrev booted : List KernelRow
booted =
    booted_row "whimbrel" "fast" []
    ∷ booted_row "linux" "stock" digest
    ∷ booted_row "linux" "trimmed" digest
    ∷ []

as_named : linux_kernel_hash_failures (some text) booted ≡ ok []
unfolding program
as_named = refl

not_named :
    linux_kernel_hash_failures (some text) (booted_row "linux" "quiet" (codes "0") ∷ booted)
    ≡ ok (other_hash (codes "0") digest (codes "Image-trimmed") (codes "quiet") 4 ∷ [])
unfolding program
not_named = refl

absent : linux_kernel_hash_failures none booted ≡ ok (no_manifest ∷ [])
unfolding program
absent = refl

-- A directory in which the init was built again.
abbrev rebuilt : Text → Option Text
rebuilt name = if text_eq name (codes "init") then some (codes "0") else some digest

abbrev images : List Text
images = codes "Image-stock" ∷ codes "Image-trimmed" ∷ codes "rootfs.cpio" ∷ []

in_order : names_to_check [] read ≡ images ++ codes "init" ∷ []
unfolding program
in_order = refl

other_init :
    verify_linux_artifacts rebuilt (some text) []
    ≡ err (artifact_mismatch (codes "init") (codes "0") digest)
unfolding program
other_init = refl

no_text : verify_linux_artifacts rebuilt none [] ≡ err (artifact_missing (codes "MANIFEST"))
unfolding program
no_text = refl
