-- ===== src/Bench/Launch.antt =====
-- Every arm that `configs_for` names can be launched, under a name of its own.
use whimbrel.Prelude.{ℕ}
use whimbrel.Prelude.{◌≡◌, subst, ◌↔◌, inl, inr}
use whimbrel.Prelude.{Bool, true, ◌&&◌, not, arith}
use whimbrel.Prelude.{List, [], ◌∷◌, map}
use whimbrel.Prelude.{Bool-cases, is_some}
use whimbrel.Prelude.{any, All}
use whimbrel.Prelude.{Result, ok, is_ok, ok-injective}
use whimbrel.Prelude.Text.{Text, codes, text_eq}
use whimbrel.Bench.Failure.{BenchFail}
use whimbrel.Bench.Arms.{
  Arm, whimbrel_arms, fp_ab_arms, t47_arms, t48_arms, linux_append_for, guest_qemu_extra,
  configs_for, trial_args, is_campaign, require_registered_counts,
}
use whimbrel.Bench.Arms.{registered_n, registered_warmup, registered_batches}

-- No name stands twice.
pub distinct : List Text → Bool
unfolding text_eq
distinct [] = true
distinct (c ∷ names) = not (any (text_eq c) names) && distinct names

-- What the launch of one arm needs: its arguments can be built, a Linux arm names its image, and
-- only a Whimbrel arm replaces the firmware.
pub record IsLaunchable (kernel rootfs : Text) (a : Arm) : Type 0 where
  pub args : is_ok (trial_args a kernel rootfs) ≡ true
  pub image : text_eq a.system (codes "linux") ≡ true → is_some a.linux_image ≡ true
  pub firmware : is_some a.qemu_bios ≡ true → text_eq a.system (codes "whimbrel") ≡ true

abbrev pub AreLaunchable : Text → Text → List Arm → Type 0
AreLaunchable kernel rootfs arms =
    All (IsLaunchable kernel rootfs) arms × (distinct (map (λ (a : Arm). a.config) arms) ≡ true)

launchable :
    (root kernel rootfs : Text)
    → AreLaunchable kernel rootfs whimbrel_arms
      × AreLaunchable kernel rootfs (fp_ab_arms root)
      × AreLaunchable kernel rootfs t47_arms
      × AreLaunchable kernel rootfs t48_arms
unfolding text_eq distinct trial_args linux_append_for guest_qemu_extra
launchable root kernel rootfs = ground arith

of_ok :
    {arms : List Arm} (P : List Arm → Type 0) (known : List Arm)
    → P known
    → ◌≡◌ {A = Result BenchFail (List Arm)} (ok known) (ok arms)
    → P arms
of_ok {arms} P known p h = subst P (ok-injective known arms h) p

-- Every arm of every kind that `configs_for` knows can be launched, and no two arms of a kind share
-- a configuration name, by which kernels and rows are kept.
pub configs_for-AreLaunchable :
    (root kind kernel rootfs : Text) (arms : List Arm)
    → configs_for root kind ≡ ok arms
    → AreLaunchable kernel rootfs arms
unfolding configs_for
configs_for-AreLaunchable root kind kernel rootfs arms h =
    let P = AreLaunchable kernel rootfs in
    let (w, f, s, l) = launchable root kernel rootfs in
    elim (Bool-cases (text_eq kind (codes "whimbrel"))) [
      | inl e ↦ of_ok P whimbrel_arms w (rw e at h)
      | inr a ↦ elim (Bool-cases (text_eq kind (codes "fp-ab"))) [
        | inl e ↦ of_ok P (fp_ab_arms root) f (rw (a, e) at h)
        | inr b ↦ elim (Bool-cases (text_eq kind (codes "t47"))) [
          | inl e ↦ of_ok P t47_arms s (rw (a, b, e) at h)
          | inr c ↦ elim (Bool-cases (text_eq kind (codes "t48"))) [
            | inl e ↦ of_ok P t48_arms l (rw (a, b, c, e) at h)
            | inr d ↦ absurd (ground arith)
          ]
        ]
      ]
    ]

-- A campaign kind is launched with the registered counts or not at all; other kinds are free.
pub require_registered_counts_iff :
    (kind : Text) (n warmup batches : ℕ)
    → (require_registered_counts kind n warmup batches ≡ ok tt) ↔ (
        is_campaign kind ≡ true
        → (n ≡ registered_n) × (warmup ≡ registered_warmup) × (batches ≡ registered_batches))
unfolding require_registered_counts
require_registered_counts_iff kind n warmup batches = (
  λ h c. ground arith,
  λ h. elim (Bool-cases (is_campaign kind)) [
    | inl e ↦ let (a, b, c) = h e in rw (a, b, c, e)
    | inr e ↦ rw e
  ],
)
