-- ===== src/Client/Net.antt =====
-- What the client calls of the system: the clock, the sleep and one socket at a time.
use whimbrel.Prelude.{ℕ, ◌≤◌, ◌<◌}
use whimbrel.Prelude.{◌≡◌, ◌⊎◌}
use whimbrel.Prelude.{Bool, Option, some}
use whimbrel.Prelude.{◌∷◌}
use whimbrel.Prelude.Text.{Text}

abbrev pub Bytes : Type 0
Bytes = Text

-- What `connect_ex` does: it returns 0, one of the three errors that mean to wait, another error, or it
-- raises.
pub data Rc : Type 0 where
  connected : Rc
  in_progress : Rc
  refused : Rc
  raised : Rc

-- The calls, on the state `W` of the machine. `now` is what the clock shows, `stalls`
-- how often it may be read before it shows another time, which is never more than `most_stalls`, and
-- `to_come` bounds the segments that the peer still sends.
pub record Net (W : Type 0) : Type 0 where
  pub now : W → ℕ
  pub stalls : W → ℕ
  pub most_stalls : ℕ
  pub to_come : W → ℕ
  pub clock : W → W
  pub sleep : ℕ → W → W
  pub ready : W → W
  pub connect_ex : W → Rc × W
  pub select : ℕ → W → Option Bool × W
  pub so_error : W → Option ℕ × W
  pub close : W → W
  pub sendall : W → Bool × W
  pub recv : W → Option Bytes × W

-- The clock is monotonic: no call goes back in time, and successive readings may be equal. It does not
-- stand still for ever: a reading shows a later time or is one of the few that do not, and a sleep adds
-- none of these at one time. The peer sends finitely many segments.
pub record Moves {W : Type 0} (net : Net W) : Type 0 where
  pub clock_moves : (w : W) → net.now w ≤ net.now (net.clock w)
  pub clock_turns :
      (w : W) → (net.now w < net.now (net.clock w)) ⊎ (net.stalls (net.clock w) < net.stalls w)
  pub stalls_few : (w : W) → net.stalls w ≤ net.most_stalls
  pub sleep_moves : (n : ℕ) (w : W) → net.now w ≤ net.now (net.sleep n w)
  pub sleep_keeps :
      (n : ℕ) (w : W)
      → (net.now w < net.now (net.sleep n w)) ⊎ (net.stalls (net.sleep n w) ≤ net.stalls w)
  pub ready_moves : (w : W) → net.now w ≤ net.now (net.ready w)
  pub connect_moves : (w : W) → net.now w ≤ net.now (net.connect_ex w).1
  pub select_moves : (n : ℕ) (w : W) → net.now w ≤ net.now (net.select n w).1
  pub so_error_moves : (w : W) → net.now w ≤ net.now (net.so_error w).1
  pub close_moves : (w : W) → net.now w ≤ net.now (net.close w)
  pub send_moves : (w : W) → net.now w ≤ net.now (net.sendall w).1
  pub recv_moves : (w : W) → net.now w ≤ net.now (net.recv w).1
  pub clock_keeps : (w : W) → net.to_come (net.clock w) ≤ net.to_come w
  pub recv_drains :
      (w : W) (b : ℕ) (bytes : Bytes)
      → (net.recv w).0 ≡ some (b ∷ bytes)
      → net.to_come (net.recv w).1 < net.to_come w
