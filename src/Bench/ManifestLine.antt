-- ===== src/Bench/ManifestLine.antt =====
-- The line formats of bench/linux/MANIFEST, which `parse_linux_manifest` of scripts/bench.py reads.
use whimbrel.Prelude.{ℕ}
use whimbrel.Prelude.{◌≡◌}
use whimbrel.Prelude.{Bool, true, ◌&&◌, ◌||◌, not, Option, none, some, arith}
use whimbrel.Prelude.{◌++◌}
use whimbrel.Prelude.{ltb, leb, ◌==◌}
use whimbrel.Prelude.{length, all}
use whimbrel.Prelude.Text.{Text, codes, strip_prefix, run, strip, is_space, is_digit}
use whimbrel.Prelude.Options.{◌>>=◌, ◌>>◌, guard}

-- `[0-9a-f]`
unfoldable pub is_hex_digit : ℕ → Bool
unfolding is_digit
is_hex_digit c = is_digit c || (leb 97 c && leb c 102)

abbrev not_space : ℕ → Bool
not_space c = not (is_space c)

-- `[0-9a-f]{64}`
abbrev pub is_digest : Text → Bool
is_digest s = (length s == 64) && all is_hex_digit s

-- `ARTIFACT_RE`
unfoldable pub artifact_match : Text → Option (Text × Text)
unfolding strip_prefix run is_space
artifact_match line = do
  a ← strip_prefix (codes "artifact ") line
  (name, b) ← run not_space a
  digest ← strip_prefix (codes " ") b
  guard (is_digest digest)
  some (name, digest)

abbrev after_kind : Text → Text → Option (Text × Text)
after_kind kind s = do
  a ← strip_prefix (kind ++ codes " ") s
  guard (ltb 0 (length a))
  some (kind, strip a)

abbrev or_else : Option (Text × Text) → Option (Text × Text) → Option (Text × Text)
or_else none later = later
or_else (some m) later = some m

-- `APPEND_RE`, with the value stripped.
unfoldable pub append_match : Text → Option (Text × Text)
unfolding strip_prefix strip
append_match line = do
  a ← strip_prefix (codes "append ") line
  or_else (after_kind (codes "quiet") a) (after_kind (codes "instrumented") a)

-- What is stored of an artifact is a digest.
pub artifact_match-digest :
    (line name digest : Text) → artifact_match line ≡ some (name, digest) → is_digest digest ≡ true
unfolding artifact_match
artifact_match-digest line name digest h = ground arith
