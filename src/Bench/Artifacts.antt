-- ===== src/Bench/Artifacts.antt =====
-- `verify_linux_artifacts` of scripts/bench.py: the files that the Linux arms boot against the MANIFEST.
use whimbrel.Prelude.{◌≡◌, refl, ap, ◌↔◌}
use whimbrel.Prelude.{Option, none, some}
use whimbrel.Prelude.{List, [], ◌∷◌, ◌++◌}
use whimbrel.Prelude.{if◌then◌else◌}
use whimbrel.Prelude.{All, arith}
use whimbrel.Prelude.{Result, ok, err, ◌>>=◌, ◌>>◌, guard}
use whimbrel.Prelude.Text.{Text, codes, text_eq, text_eq_iff}
use whimbrel.Prelude.Dict.{Dict, lookup, has_key}
use whimbrel.Bench.Failure.{BenchFail, not_in_manifest, artifact_missing, artifact_mismatch}
use whimbrel.Bench.Manifest.{Manifest, parse_linux_manifest}

-- `list(d)`: the keys in the order in which they came; one that is bound again keeps its place.
unfoldable pub keys : Dict Text → List Text
keys [] = []
keys ((k, v) ∷ d) = if has_key k d then keys d else keys d ++ (k ∷ [])

-- `names or list(parsed["artifacts"])`
unfoldable pub names_to_check : List Text → Manifest → List Text
names_to_check [] m = keys m.artifacts
names_to_check (n ∷ names) m = n ∷ names

-- What the MANIFEST has for a name, and the digest of the file if it is there and not empty.
unfoldable pub check_artifact : Text → Option Text → Option Text → Result BenchFail (Unit {0})
check_artifact name none file = err (not_in_manifest name)
check_artifact name (some want) none = err (artifact_missing name)
check_artifact name (some want) (some got) =
    guard (text_eq got want) (artifact_mismatch name got want)

-- `sha256_file` of an artifact, where there is a file that is not empty.
module _ (sha256_file : Text → Option Text) where
  unfoldable pub check_artifacts : Manifest → List Text → Result BenchFail (Unit {0})
  check_artifacts m [] = ok tt
  check_artifacts m (name ∷ names) = do
    check_artifact name (lookup name m.artifacts) (sha256_file name)
    check_artifacts m names

  -- The text of the MANIFEST, if it is there and not empty.
  unfoldable pub verify_linux_artifacts : Option Text → List Text → Result BenchFail Manifest
  verify_linux_artifacts none names = err (artifact_missing (codes "MANIFEST"))
  verify_linux_artifacts (some text) names = do
    parsed ← parse_linux_manifest text
    check_artifacts parsed (names_to_check names parsed)
    ok parsed

  -- The file has the digest of the MANIFEST.
  abbrev pub IsIntact : Manifest → Text → Type 0
  IsIntact m name =
      (digest : Text) × (lookup name m.artifacts ≡ some digest) × (sha256_file name ≡ some digest)

  check_artifact-IsIntact :
      (name : Text) (want file : Option Text)
      → check_artifact name want file ≡ ok tt
      → (digest : Text) × (want ≡ some digest) × (file ≡ some digest)
  unfolding check_artifact
  check_artifact-IsIntact name none file h = absurd cc
  check_artifact-IsIntact name (some want) none h = absurd cc
  check_artifact-IsIntact name (some want) (some got) h =
      (want, refl, ap some ((text_eq_iff got want).0 (ground arith)))

  check_artifact-passes :
      (name digest : Text) → check_artifact name (some digest) (some digest) ≡ ok tt
  unfolding check_artifact
  check_artifact-passes name digest = rw ((text_eq_iff digest digest).1 refl) refl

  check_artifacts-IsIntact :
      (m : Manifest) (names : List Text) → check_artifacts m names ≡ ok tt → All (IsIntact m) names
  unfolding check_artifacts
  check_artifacts-IsIntact m [] h = tt
  check_artifacts-IsIntact m (name ∷ names) h = (
    check_artifact-IsIntact name (lookup name m.artifacts) (sha256_file name) (ground arith),
    check_artifacts-IsIntact m names (ground arith),
  )

  check_artifacts-passes :
      (m : Manifest) (names : List Text) → All (IsIntact m) names → check_artifacts m names ≡ ok tt
  unfolding check_artifacts
  check_artifacts-passes m [] h = refl
  check_artifacts-passes m (name ∷ names) ((digest, named, file), h) =
      rw (named, file, check_artifact-passes name digest, check_artifacts-passes m names h)

  -- With a MANIFEST that is accepted, the artifacts are verified exactly if the file of each name
  -- that is asked for has the digest of the MANIFEST; if none is asked for, each that it names.
  pub verify_linux_artifacts_iff :
      (text : Text) (m : Manifest) (names : List Text)
      → parse_linux_manifest text ≡ ok m
      → (verify_linux_artifacts (some text) names ≡ ok m)
        ↔ All (IsIntact m) (names_to_check names m)
  unfolding verify_linux_artifacts
  verify_linux_artifacts_iff text m names h = (
    λ e. check_artifacts-IsIntact m (names_to_check names m) (ground arith),
    λ intact. rw (h, check_artifacts-passes m (names_to_check names m) intact),
  )
