-- ===== src/Bench/Arms.antt =====
-- The arms of a campaign in scripts/bench.py, and what QEMU is given for each.
use whimbrel.Prelude.{ℕ, ◌+◌, max}
use whimbrel.Prelude.{Bool, ◌&&◌, ◌||◌, not, Option, none, some}
use whimbrel.Prelude.{List, [], ◌∷◌, ◌++◌}
use whimbrel.Prelude.{◌==◌, if◌then◌else◌}
use whimbrel.Prelude.{Result, ok, err, ◌>>=◌}
use whimbrel.Prelude.Text.{Text, codes, text_eq}
use whimbrel.Bench.Failure.{
  BenchFail, unknown_kind, unknown_system, no_append_kind, linux_argv, unregistered_counts,
}

pub record Arm : Type 0 where
  pub config : Text
  pub system : Text
  pub features : List Text
  pub env_extra : List (Text × Text)
  pub cargo_extra : List Text
  pub linux_image : Option Text
  pub linux_append : Option Text
  pub qemu_bios : Option Text

-- An `Arm` with the defaults of the class.
abbrev pub plain_arm : Text → Text → Arm
plain_arm config system = record {
  config = config;
  system = system;
  features = [];
  env_extra = [];
  cargo_extra = [];
  linux_image = none;
  linux_append = none;
  qemu_bios = none;
}

abbrev pub linux_arm : Text → Text → Text → Arm
linux_arm config image append = record (plain_arm config (codes "linux")) {
  linux_image = some image;
  linux_append = some append;
}

abbrev pub linux_append_quiet : Text
linux_append_quiet = codes "console=ttyS0 quiet loglevel=0 rdinit=/init unaligned_scalar_speed=fast"

abbrev pub linux_append_instrumented : Text
linux_append_instrumented =
    codes "console=ttyS0 loglevel=7 printk.time=1 initcall_debug rdinit=/init "
    ++ codes "unaligned_scalar_speed=fast"

unfoldable pub linux_append_for : Arm → Result BenchFail (Option Text)
linux_append_for arm =
    if not (text_eq arm.system (codes "linux")) then ok none else elim arm.linux_append [
      | none ↦ err (no_append_kind arm.config)
      | some kind ↦
          if text_eq kind (codes "quiet")
          then ok (some linux_append_quiet)
          else if text_eq kind (codes "instrumented")
          then ok (some linux_append_instrumented)
          else err (no_append_kind arm.config)
    ]

abbrev linux_extra : Text → Option Text → Option Text → Result BenchFail (List Text)
linux_extra kernel (some cpio) (some append) =
    ok (codes "-kernel" ∷ kernel ∷ codes "-initrd" ∷ cpio ∷ codes "-append" ∷ append ∷ [])
linux_extra kernel (some cpio) none = err linux_argv
linux_extra kernel none append = err linux_argv

unfoldable pub guest_qemu_extra :
    Arm → Text → Option Text → Option Text → Result BenchFail (List Text)
guest_qemu_extra arm kernel cpio append =
    if text_eq arm.system (codes "whimbrel")
    then ok (codes "-kernel" ∷ kernel ∷ [])
    else if text_eq arm.system (codes "linux")
    then linux_extra kernel cpio append
    else err (unknown_system arm.system)

abbrev pub safe_config : Text
safe_config = codes "release-default"

abbrev pub fast_config : Text
fast_config = codes "release-fast-boot"

abbrev whimbrel_ : Text
whimbrel_ = codes "whimbrel"

abbrev whimbrel_safe : Arm
whimbrel_safe = plain_arm safe_config whimbrel_

abbrev whimbrel_fast : Arm
whimbrel_fast = record (plain_arm fast_config whimbrel_) { features = codes "fast-boot" ∷ [] }

abbrev fp_yes : List Text
fp_yes =
    codes "--config"
    ∷ codes "target.riscv64gc-unknown-none-elf.rustflags=[\"-C\",\"force-frame-pointers=yes\"]"
    ∷ []

-- The arms of each kind; `root` is the repository's path.
abbrev pub whimbrel_arms : List Arm
whimbrel_arms = whimbrel_safe ∷ whimbrel_fast ∷ []

abbrev pub fp_ab_arms : Text → List Arm
fp_ab_arms root =
    record (plain_arm (codes "release-fast-boot-fp") whimbrel_) {
      features = codes "fast-boot" ∷ [];
      env_extra = (codes "CARGO_TARGET_DIR", root ++ codes "/target-fp") ∷ [];
      cargo_extra = fp_yes;
    }
    ∷ whimbrel_fast
    ∷ []

abbrev pub t47_arms : List Arm
t47_arms =
    whimbrel_fast
    ∷ whimbrel_safe
    ∷ record (plain_arm (codes "m-release-fast-boot") whimbrel_) {
      features = codes "bios-none" ∷ codes "fast-boot" ∷ [];
      qemu_bios = some (codes "mshim");
    }
    ∷ record (plain_arm (codes "m-release-default") whimbrel_) {
      features = codes "bios-none" ∷ [];
      qemu_bios = some (codes "mshim");
    }
    ∷ []

abbrev pub t48_arms : List Arm
t48_arms =
    whimbrel_fast
    ∷ whimbrel_safe
    ∷ linux_arm (codes "trimmed") (codes "Image-trimmed") (codes "quiet")
    ∷ linux_arm (codes "stock") (codes "Image-stock") (codes "quiet")
    ∷ linux_arm (codes "trimmed-instrumented") (codes "Image-trimmed") (codes "instrumented")
    ∷ []

-- `configs_for`
unfoldable pub configs_for : Text → Text → Result BenchFail (List Arm)
configs_for root kind =
    if text_eq kind (codes "whimbrel")
    then ok whimbrel_arms
    else if text_eq kind (codes "fp-ab")
    then ok (fp_ab_arms root)
    else if text_eq kind (codes "t47")
    then ok t47_arms
    else if text_eq kind (codes "t48")
    then ok t48_arms
    else err (unknown_kind kind)

-- `qemu_timeout_s`, in milliseconds.
unfoldable pub qemu_timeout_ms : Text → ℕ → ℕ
qemu_timeout_ms system client_timeout_ms =
    let floor : ℕ = if text_eq system (codes "linux") then 60_000 else 12_000 in
    max client_timeout_ms floor + 2_000

-- What `one_trial` does with an arm before it boots it: the append, the archive and the arguments.
unfoldable pub trial_args : Arm → Text → Text → Result BenchFail (List Text)
trial_args arm kernel rootfs = do
  append ← linux_append_for arm
  let cpio : Option Text = if text_eq arm.system (codes "linux") then some rootfs else none
  guest_qemu_extra arm kernel cpio append

abbrev pub registered_n : ℕ
registered_n = 30

abbrev pub registered_warmup : ℕ
registered_warmup = 3

abbrev pub registered_batches : ℕ
registered_batches = 2

-- `CAMPAIGN_KINDS`
unfoldable pub is_campaign : Text → Bool
is_campaign kind =
    text_eq kind (codes "whimbrel") || text_eq kind (codes "t48") || text_eq kind (codes "t47")

unfoldable pub require_registered_counts : Text → ℕ → ℕ → ℕ → Result BenchFail (Unit {0})
require_registered_counts kind n warmup batches =
    if is_campaign kind
      && not
          ((n == registered_n) && (warmup == registered_warmup) && (batches == registered_batches))
    then err (unregistered_counts n warmup batches)
    else ok tt
