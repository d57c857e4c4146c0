-- ===== src/Client/Attempt.antt =====
-- `attempt_connect` of scripts/bench-client.py.
use whimbrel.Prelude.{ℕ, zero, suc, ◌+◌, ◌-◌, ◌≤◌}
use whimbrel.Prelude.{inl, inr}
use whimbrel.Prelude.{Bool, true, false, Option, none, some, arith}
use whimbrel.Prelude.{leb, if◌then◌else◌, Bool-cases}
use whimbrel.Client.Net.{Net, Rc, connected, in_progress, refused, raised, Moves}

abbrev pub connect_wait_ns : ℕ
connect_wait_ns = 800_000

module _ {W : Type 0} (net : Net W) where
  -- Whether the socket is connected; if not, it is closed.
  abbrev checked : Option ℕ × W → Bool × W
  checked (some zero, w) = (true, w)
  checked (some (suc e), w) = (false, net.close w)
  checked (none, w) = (false, net.close w)

  abbrev selected : Option Bool × W → Bool × W
  selected (some true, w) = checked (net.so_error w)
  selected (some false, w) = (false, net.close w)
  selected (none, w) = (false, net.close w)

  -- The wait for a pending connection; each way through the loop's body returns.
  unfoldable pub await : W → Bool × W
  await w =
      let deadline = net.now w + connect_wait_ns in
      let v = net.clock w in
      if leb deadline (net.now v)
      then (false, net.close v)
      else selected (net.select (deadline - net.now v) v)

  abbrev connecting : Rc × W → Bool × W
  connecting (connected, w) = (true, w)
  connecting (in_progress, w) = await (net.clock w)
  connecting (refused, w) = (false, net.close w)
  connecting (raised, w) = (false, net.close w)

  unfoldable pub attempt_connect : W → Bool × W
  attempt_connect w = connecting (net.connect_ex w)

  module _ (moves : Moves net) where
    checked-moves : (r : Option ℕ × W) → net.now r.1 ≤ net.now (checked r).1
    checked-moves (some zero, w) = omega arith
    checked-moves (some (suc e), w) = moves.close_moves w
    checked-moves (none, w) = moves.close_moves w

    selected-moves : (r : Option Bool × W) → net.now r.1 ≤ net.now (selected r).1
    selected-moves (some true, w) =
        omega (arith, moves.so_error_moves w, checked-moves (net.so_error w))
    selected-moves (some false, w) = moves.close_moves w
    selected-moves (none, w) = moves.close_moves w

    await-moves : (w : W) → net.now w ≤ net.now (await w).1
    unfolding await
    await-moves w =
        let v = net.clock w in
        let remain = net.now w + connect_wait_ns - net.now v in
        let read = moves.clock_moves w in
        elim (Bool-cases (leb (net.now w + connect_wait_ns) (net.now v))) [
          | inl e ↦ rw e (omega (arith, read, moves.close_moves v))
          | inr e ↦ rw e (
              omega
                (arith, read, moves.select_moves remain v, selected-moves (net.select remain v)))
        ]

    connecting-moves : (r : Rc × W) → net.now r.1 ≤ net.now (connecting r).1
    connecting-moves (connected, w) = omega arith
    connecting-moves (in_progress, w) =
        omega (arith, moves.clock_moves w, await-moves (net.clock w))
    connecting-moves (refused, w) = moves.close_moves w
    connecting-moves (raised, w) = moves.close_moves w

    -- An attempt does not go back in time.
    pub attempt_connect-moves : (w : W) → net.now w ≤ net.now (attempt_connect w).1
    unfolding attempt_connect
    attempt_connect-moves w =
        omega (arith, moves.connect_moves w, connecting-moves (net.connect_ex w))
