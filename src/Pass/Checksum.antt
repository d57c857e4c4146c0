-- ===== src/Pass/Checksum.antt =====
-- The checksums of the self-test's headers verify.
use whimbrel.Prelude.{ℕ, zero, suc, ◌+◌, ◌*◌, ◌/◌, ◌%◌, ◌<◌}
use whimbrel.Prelude.{◌≡◌, refl, sym, inl, inr}
use whimbrel.Prelude.{some, arith}
use whimbrel.Prelude.{◌++◌}
use whimbrel.Prelude.{◌==◌, Bool-cases}
use whimbrel.Prelude.{length}
use whimbrel.Pass.Frames.{
  Bytes, word_sum, fold, complement, inet_checksum, Ip, ipv4_with, ipv4_hdr, Segment, tcp_with,
  pseudo, tcp_hdr,
}

-- A round takes the carry away and keeps the rest by 65535.
fold-total : (fuel s : ℕ) → s < fuel → (f : ℕ) × (fold fuel s ≡ some f)
unfolding fold
fold-total zero s h = absurd (omega arith)
fold-total (suc fuel) s h = elim (Bool-cases (s / 65536 == 0)) [
  | inl e ↦ (s, ground arith)
  | inr e ↦
      let carried : ¬ (s / 65536 ≡ 0) = λ z. ground arith in
      let (f, again) = fold-total fuel (s % 65536 + s / 65536) (omega (arith, carried, h)) in
      (f, ground arith)
]

fold-folds :
    (fuel s f : ℕ)
    → fold fuel s ≡ some f
    → (f < 65536) × ((k : ℕ) × (s ≡ f + 65535 * k)) × (0 < s → 0 < f)
unfolding fold
fold-folds zero s f h = cc
fold-folds (suc fuel) s f h = elim (Bool-cases (s / 65536 == 0)) [
  | inl e ↦
      let same : s ≡ f = ground arith in
      (ground arith, (0, omega (arith, same)), λ p. omega (arith, same, p))
  | inr e ↦
      let (small, (k, congruent), positive) =
        fold-folds fuel (s % 65536 + s / 65536) f (ground arith) in
      (small, (k + s / 65536, omega (arith, congruent)), λ p. positive (omega (arith, p)))
]

-- The loop of `inet_checksum` ends.
pub inet_checksum-total : (bytes : Bytes) → (c : ℕ) × (inet_checksum bytes ≡ some c) × (c < 65536)
unfolding inet_checksum
inet_checksum-total bytes =
    let (f, folded) = fold-total (suc (word_sum bytes)) (word_sum bytes) (omega arith) in
    (complement f, rw folded refl, omega arith)

-- If a checksum is added to the words that it is of, the sum has the checksum zero.
pub inet_checksum-verifies :
    (bytes signed : Bytes) (c : ℕ)
    → inet_checksum bytes ≡ some c
    → word_sum signed ≡ word_sum bytes + c
    → 0 < word_sum bytes
    → inet_checksum signed ≡ some 0
unfolding inet_checksum
inet_checksum-verifies bytes signed c h added full =
    let s = word_sum bytes in
    let (f, folded) = fold-total (suc s) s (omega arith) in
    let (small, (k, congruent), positive) = fold-folds (suc s) s f folded in
    let is_c : complement f ≡ c = ground arith in
    let (g, refolded) = fold-total (suc (word_sum signed)) (word_sum signed) (omega arith) in
    let (small', (j, congruent'), positive') =
      fold-folds (suc (word_sum signed)) (word_sum signed) g refolded in
    let whole : g ≡ 65535 = omega (
      arith,
      small,
      congruent,
      is_c,
      small',
      congruent',
      positive' (omega (arith, added, full)),
      added,
    ) in
    rw (refolded, whole) refl

ipv4_with-sum :
    (c total proto : ℕ) (src dst : Ip)
    → c < 65536
    → word_sum (ipv4_with c total proto src dst) ≡ word_sum (ipv4_with 0 total proto src dst) + c
unfolding word_sum ipv4_with
ipv4_with-sum c total proto src dst h = omega arith

ipv4_with-full : (total proto : ℕ) (src dst : Ip) → 0 < word_sum (ipv4_with 0 total proto src dst)
unfolding word_sum ipv4_with
ipv4_with-full total proto src dst = omega arith

-- The header that `ipv4_hdr` builds verifies: the checksum of all of it is zero.
pub ipv4_hdr-verifies :
    (total proto : ℕ) (src dst : Ip) (h : Bytes)
    → ipv4_hdr total proto src dst ≡ some h
    → inet_checksum h ≡ some 0
unfolding ipv4_hdr
ipv4_hdr-verifies total proto src dst h built =
    let bytes = ipv4_with 0 total proto src dst in
    let (c, summed, small) = inet_checksum-total bytes in
    let same : ipv4_with c total proto src dst ≡ h = ground arith in
    rw (sym same) (
      inet_checksum-verifies bytes (ipv4_with c total proto src dst) c summed
        (ipv4_with-sum c total proto src dst small) (ipv4_with-full total proto src dst))

tcp_with-sum :
    (c tot : ℕ) (s : Segment) (src dst : Ip) (payload : Bytes)
    → c < 65536
    → word_sum (pseudo tot src dst ++ tcp_with c s payload)
      ≡ word_sum (pseudo tot src dst ++ tcp_with 0 s payload) + c
unfolding word_sum pseudo tcp_with
tcp_with-sum c tot s src dst payload h = omega arith

tcp_with-full :
    (tot : ℕ) (s : Segment) (src dst : Ip) (payload : Bytes)
    → 0 < word_sum (pseudo tot src dst ++ tcp_with 0 s payload)
unfolding word_sum pseudo tcp_with
tcp_with-full tot s src dst payload = omega arith

-- The segment that `tcp_hdr` builds verifies: with the pseudo header before it, its checksum is zero.
pub tcp_hdr-verifies :
    (s : Segment) (src dst : Ip) (payload segment : Bytes)
    → tcp_hdr s src dst payload ≡ some segment
    → inet_checksum (pseudo (20 + length payload) src dst ++ segment) ≡ some 0
unfolding tcp_hdr
tcp_hdr-verifies s src dst payload segment built =
    let front = pseudo (20 + length payload) src dst in
    let (c, summed, small) = inet_checksum-total (front ++ tcp_with 0 s payload) in
    let same : tcp_with c s payload ≡ segment = ground arith in
    rw (sym same) (
      inet_checksum-verifies (front ++ tcp_with 0 s payload) (front ++ tcp_with c s payload) c
        summed (tcp_with-sum c (20 + length payload) s src dst payload small)
        (tcp_with-full (20 + length payload) s src dst payload))
