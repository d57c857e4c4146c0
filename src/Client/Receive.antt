-- ===== src/Client/Receive.antt =====
-- `recv_response` of scripts/bench-client.py.
use whimbrel.Prelude.{ℕ, zero, suc, ◌≤◌, ◌<◌}
use whimbrel.Prelude.{◌≡◌, refl, ap, inl, inr}
use whimbrel.Prelude.{Option, none, some, arith}
use whimbrel.Prelude.{[], ◌∷◌, ◌++◌}
use whimbrel.Prelude.{if◌then◌else◌, Bool-cases}
use whimbrel.Prelude.{length}
use whimbrel.Prelude.{length-append}
use whimbrel.Prelude.Text.{codes, contains}
use whimbrel.Client.Net.{Bytes, Net, Moves}

-- The response of the guest, of 92 bytes.
abbrev pub resp : Bytes
resp =
    codes "HTTP/1.0 200 OK\r\n"
    ++ codes "Content-Type: text/plain\r\n"
    ++ codes "Connection: close\r\n"
    ++ codes "Content-Length: 9\r\n"
    ++ codes "\r\n"
    ++ codes "whimbrel\n"

-- The first byte has its time exactly if something has been received.
abbrev pub IsStamped : ℕ → Option ℕ → Bytes → Type 0
IsStamped from none buf = buf ≡ []
IsStamped from (some t) buf = (from ≤ t) × (0 < length buf)

pub IsStamped-earlier :
    (to from : ℕ) (first : Option ℕ) (buf : Bytes)
    → to ≤ from
    → IsStamped from first buf
    → IsStamped to first buf
IsStamped-earlier to from none buf h s = s
IsStamped-earlier to from (some t) buf h (s, full) = (omega arith, full)

module _ {W : Type 0} (net : Net W) where
  pub record Received : Type 0 where
    pub first_byte : Option ℕ
    pub buf : Bytes
    pub after : W

  -- `if first_byte is None: first_byte = time.monotonic_ns()`
  unfoldable pub stamp : Option ℕ → W → Option ℕ × W
  stamp none w = (some (net.now (net.clock w)), net.clock w)
  stamp (some t) w = (some t, w)

  -- A round of the loop, and what comes after it.
  unfoldable pub received :
      (Option ℕ → Bytes → W → Option Received)
      → Option ℕ
      → Bytes
      → Option Bytes × W
      → Option Received
  received next first buf (none, w) = some (record { first_byte = first; buf = buf; after = w })
  received next first buf (some [], w) = some (record { first_byte = first; buf = buf; after = w })
  received next first buf (some (b ∷ bytes), w) =
      let (first', v) = stamp first w in
      let buf' = buf ++ (b ∷ bytes) in
      if contains resp buf'
      then some (record { first_byte = first'; buf = buf'; after = v })
      else next first' buf' v

  unfoldable pub recv_loop : ℕ → Option ℕ → Bytes → W → Option Received
  recv_loop zero first buf w = none
  recv_loop (suc fuel) first buf w = received (recv_loop fuel) first buf (net.recv w)

  -- A round for each segment that is still to come, and one for the end, is enough.
  unfoldable pub recv_response : W → Option Received
  recv_response w = recv_loop (suc (net.to_come w)) none [] w

  module _ (moves : Moves net) where
    stamp-keeps : (first : Option ℕ) (w : W) → net.to_come (stamp first w).1 ≤ net.to_come w
    unfolding stamp
    stamp-keeps none w = moves.clock_keeps w
    stamp-keeps (some t) w = omega arith

    stamp-IsStamped :
        (from : ℕ) (first : Option ℕ) (buf more : Bytes) (b : ℕ) (w : W)
        → from ≤ net.now w
        → IsStamped from first buf
        → IsStamped from (stamp first w).0 (buf ++ (b ∷ more)) × (from ≤ net.now (stamp first w).1)
    unfolding stamp
    stamp-IsStamped from none buf more b w h s =
        let read = moves.clock_moves w in
        (
          (omega (arith, read, h), omega (arith, length-append buf (b ∷ more))),
          omega (arith, read, h),
        )
    stamp-IsStamped from (some t) buf more b w h (s, full) =
        ((s, omega (arith, length-append buf (b ∷ more))), h)

    -- What the reception has at its end.
    abbrev pub IsReceived : ℕ → Option Received → Type 0
    IsReceived from r = (got : Received) × (r ≡ some got) × IsStamped from got.first_byte got.buf

    received-ends :
        (fuel from : ℕ) (next : Option ℕ → Bytes → W → Option Received)
        → ((first : Option ℕ) (buf : Bytes) (w : W)
            → net.to_come w < fuel
            → from ≤ net.now w
            → IsStamped from first buf
            → IsReceived from (next first buf w))
        → (first : Option ℕ) (buf : Bytes) (w : W) (r : Option Bytes × W) → net.recv w ≡ r
        → net.to_come w < suc fuel
        → from ≤ net.now w
        → IsStamped from first buf
        → IsReceived from (received next first buf r)
    unfolding received
    received-ends fuel from next ends first buf w (none, v) e enough h s =
        (record { first_byte = first; buf = buf; after = v }, refl, s)
    received-ends fuel from next ends first buf w (some [], v) e enough h s =
        (record { first_byte = first; buf = buf; after = v }, refl, s)
    received-ends fuel from next ends first buf w (some (b ∷ bytes), v) e enough h s =
        let moved : net.now w ≤ net.now v = rw e at (moves.recv_moves w) in
        let drained : net.to_come v < net.to_come w =
          rw e at (moves.recv_drains w b bytes (ap (λ (r : Option Bytes × W). r.0) e)) in
        let (s', h') = stamp-IsStamped from first buf bytes b v (omega (arith, moved, h)) s in
        let kept = stamp-keeps first v in
        elim (Bool-cases (contains resp (buf ++ (b ∷ bytes)))) [
          | inl c ↦ rw c (
            record {
              first_byte = (stamp first v).0;
              buf = buf ++ (b ∷ bytes);
              after = (stamp first v).1;
            },
            refl,
            s',
          )
          | inr c ↦ rw c (
              ends (stamp first v).0 (buf ++ (b ∷ bytes)) (stamp first v).1
                (omega (arith, kept, drained, enough)) h' s')
        ]

    recv_loop-ends :
        (fuel from : ℕ) (first : Option ℕ) (buf : Bytes) (w : W)
        → net.to_come w < fuel
        → from ≤ net.now w
        → IsStamped from first buf
        → IsReceived from (recv_loop fuel first buf w)
    unfolding recv_loop
    recv_loop-ends zero from first buf w enough h s = absurd (omega arith)
    recv_loop-ends (suc fuel) from first buf w enough h s =
        received-ends fuel from (recv_loop fuel) (recv_loop-ends fuel from) first buf w (net.recv w)
          refl enough h s

    -- The reception ends, since the peer sends finitely many segments.
    pub recv_response-ends : (w : W) → IsReceived (net.now w) (recv_response w)
    unfolding recv_response
    recv_response-ends w =
        recv_loop-ends (suc (net.to_come w)) (net.now w) none [] w (omega arith) (omega arith) refl
