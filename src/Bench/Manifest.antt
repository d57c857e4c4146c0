-- ===== src/Bench/Manifest.antt =====
-- `parse_linux_manifest` of scripts/bench.py: the artifacts of the Linux arms and their command lines.
use whimbrel.Prelude.{◌≡◌, refl, sym, ap, ◌∙◌, subst, inl, inr}
use whimbrel.Prelude.{Bool, true, false, ◌||◌, not, Option, none, some, arith}
use whimbrel.Prelude.{List, [], ◌∷◌}
use whimbrel.Prelude.{◌==◌, if◌then◌else◌, Bool-cases, Option-cases}
use whimbrel.Prelude.{length, all, keep, All}
use whimbrel.Prelude.{Result, ok, err, ◌>>=◌, ◌>>◌, guard, ok-injective, bind-ok}
use whimbrel.Prelude.Text.{Text, codes, text_eq, text_eq_iff, strip, splitlines, starts_with}
use whimbrel.Prelude.Dict.{Dict, lookup, insert, has_key}
use whimbrel.Bench.Failure.{BenchFail, bad_manifest_line, no_artifacts, bad_append}
use whimbrel.Bench.Arms.{linux_append_quiet, linux_append_instrumented}
use whimbrel.Bench.ManifestLine.{is_digest, artifact_match, append_match, artifact_match-digest}

pub record Manifest : Type 0 where
  pub artifacts : Dict Text
  pub appends : Dict Text

-- What a line that is not skipped adds.
unfoldable pub add_line :
    Text → Manifest → Option (Text × Text) → Option (Text × Text) → Result BenchFail Manifest
add_line line m (some (name, digest)) appended =
    ok (record m { artifacts = insert name digest m.artifacts })
add_line line m none (some (kind, value)) = ok (record m { appends = insert kind value m.appends })
add_line line m none none = err (bad_manifest_line line)

-- The loop over the lines.
unfoldable pub add_lines : Manifest → List Text → Result BenchFail Manifest
add_lines m [] = ok m
add_lines m (raw ∷ lines) =
    let line = strip raw in
    let skipped = add_lines m lines in
    if (length line == 0) || starts_with line (codes "#")
    then skipped
    else (do n ← add_line line m (artifact_match line) (append_match line); add_lines n lines)

abbrev pub want_art : List Text
want_art = codes "Image-stock" ∷ codes "Image-trimmed" ∷ codes "rootfs.cpio" ∷ codes "init" ∷ []

-- `appends.get(kind) != want`
abbrev is_append : Text → Text → Manifest → Bool
is_append kind want m = elim (lookup kind m.appends) [ none ↦ false | some got ↦ text_eq got want ]

unfoldable pub check_manifest : Manifest → Result BenchFail Manifest
check_manifest m = do
  guard (all (λ n. has_key n m.artifacts) want_art)
      (no_artifacts (keep (λ n. not (has_key n m.artifacts)) want_art))
  guard (is_append (codes "quiet") linux_append_quiet m) (bad_append (codes "quiet"))
  guard (is_append (codes "instrumented") linux_append_instrumented m)
      (bad_append (codes "instrumented"))
  ok m

unfoldable pub parse_linux_manifest : Text → Result BenchFail Manifest
parse_linux_manifest text = do
  m ← add_lines (record { artifacts = []; appends = [] }) (splitlines text)
  check_manifest m

-- A manifest that names what the Linux arms boot, with digests and the registered command lines.
pub record IsManifest (m : Manifest) : Type 0 where
  pub digests : All (λ (name, digest). is_digest digest ≡ true) m.artifacts
  pub wanted : all (λ n. has_key n m.artifacts) want_art ≡ true
  pub quiet : lookup (codes "quiet") m.appends ≡ some linux_append_quiet
  pub instrumented : lookup (codes "instrumented") m.appends ≡ some linux_append_instrumented

abbrev HasDigests : Manifest → Type 0
HasDigests m = All (λ (name, digest). is_digest digest ≡ true) m.artifacts

add_line-HasDigests :
    (line : Text) (m n : Manifest) (a b : Option (Text × Text))
    → artifact_match line ≡ a
    → add_line line m a b ≡ ok n
    → HasDigests m
    → HasDigests n
unfolding add_line
add_line-HasDigests line m n (some (name, digest)) b e h p =
    let next : Manifest = record m { artifacts = insert name digest m.artifacts } in
    subst HasDigests (ok-injective next n h) (artifact_match-digest line name digest e, p)
add_line-HasDigests line m n none (some (kind, value)) e h p =
    let next : Manifest = record m { appends = insert kind value m.appends } in
    subst HasDigests (ok-injective next n h) p
add_line-HasDigests line m n none none e h p = cc

add_lines-HasDigests :
    (m n : Manifest) (lines : List Text) → add_lines m lines ≡ ok n → HasDigests m → HasDigests n
unfolding add_lines
add_lines-HasDigests m n [] h p = subst HasDigests (ok-injective m n h) p
add_lines-HasDigests m n (raw ∷ lines) h p =
    let line = strip raw in
    elim (Bool-cases ((length line == 0) || starts_with line (codes "#"))) [
      | inl e ↦ add_lines-HasDigests m n lines (rw e at h) p
      | inr e ↦
          let (next, added, more) =
            bind-ok (add_line line m (artifact_match line) (append_match line))
              (λ next. add_lines next lines) (rw e at h) in
          add_lines-HasDigests next n lines more
            (add_line-HasDigests line m next (artifact_match line) (append_match line) refl added p)
    ]

is_append-lookup :
    (kind want : Text) (m : Manifest)
    → is_append kind want m ≡ true
    → lookup kind m.appends ≡ some want
is_append-lookup kind want m h = elim (Option-cases (lookup kind m.appends)) [
  | inl e ↦ absurd (ground arith)
  | inr (got, e) ↦
      let same : text_eq got want ≡ true = ground arith in
      e ∙ ap some ((text_eq_iff got want).0 same)
]

-- A manifest that is accepted has all four artifacts, a digest for each of its artifacts, and the
-- two command lines that the harness itself uses.
pub parse_linux_manifest-IsManifest :
    (text : Text) (m : Manifest) → parse_linux_manifest text ≡ ok m → IsManifest m
unfolding parse_linux_manifest check_manifest
parse_linux_manifest-IsManifest text m h =
    let start : Manifest = record { artifacts = []; appends = [] } in
    let (read, added, checked) = bind-ok (add_lines start (splitlines text)) check_manifest h in
    let same : read ≡ m = ground arith in
    let quiet : is_append (codes "quiet") linux_append_quiet m ≡ true =
      rw (sym same) (ground arith) in
    let instrumented : is_append (codes "instrumented") linux_append_instrumented m ≡ true =
      rw (sym same) (ground arith) in
    record {
      digests = subst HasDigests same (add_lines-HasDigests start read (splitlines text) added tt);
      wanted = rw (sym same) (ground arith);
      quiet = is_append-lookup (codes "quiet") linux_append_quiet m quiet;
      instrumented =
          is_append-lookup (codes "instrumented") linux_append_instrumented m instrumented;
    }
