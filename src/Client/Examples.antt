-- ===== src/Client/Examples.antt =====
-- A machine whose guest answers at the third attempt, and what the client makes of it.
use whimbrel.Prelude.{ℕ, zero, suc, ◌+◌, ◌-◌, ◌*◌, ◌/◌, ◌%◌, ◌≤◌, ◌<◌}
use whimbrel.Prelude.{ltb, Bool-cases, inl, inr}
use whimbrel.Prelude.{◌≡◌, refl, ◌⊎◌}
use whimbrel.Prelude.{true, false, Option, some, arith}
use whimbrel.Prelude.{List, [], ◌∷◌}
use whimbrel.Prelude.{length, take, drop}
use whimbrel.Prelude.{ok, err}
use whimbrel.Prelude.Text.{strip_prefix, contains}
use whimbrel.Prelude.Sort.{insert, sort}
use whimbrel.Client.Net.{Bytes, Net, Rc, in_progress, refused, Moves}
use whimbrel.Client.Wait.{pause, wait_loop, wait_until}
use whimbrel.Client.Attempt.{await, attempt_connect}
use whimbrel.Client.Receive.{resp, stamp, received, recv_loop, recv_response}
use whimbrel.Client.Loop.{
  send_failed, no_deltas, Report, report, exchange, attempt, round, loop, run_loop,
}
use whimbrel.Client.Report.{IsReport, run_loop-ends}
use whimbrel.Client.Calibrate.{
  Calibration, attempt_times, calibration, summary, calibrate, IsCalibrated, calibrate-IsCalibrated,
}

-- The time, of which the clock shows full hundreds, the attempts until the guest listens, and the segments it sends.
abbrev Machine : Type 0
Machine = ℕ × ℕ × List Bytes

abbrev later : ℕ → Machine → Machine
later n (t, left, segments) = (t + n, left, segments)

abbrev connect : Machine → Rc × Machine
connect (t, zero, segments) = (in_progress, (t + 20_000, zero, segments))
connect (t, suc left, segments) = (refused, (t + 5_000, left, segments))

abbrev receive : Machine → Option Bytes × Machine
receive (t, left, []) = (some [], (t, left, []))
receive (t, left, bytes ∷ segments) = (some bytes, (t + 300_000, left, segments))

abbrev net : Net Machine
net = record {
  now = λ (t, left, segments). t / 100 * 100;
  stalls = λ (t, left, segments). 1 - t % 100 / 50;
  most_stalls = 1;
  to_come = λ (t, left, segments). length segments;
  clock = later 50;
  sleep = λ n. later (n + 60_000);
  ready = later 700;
  connect_ex = connect;
  select = λ n m. (some true, later 30_000 m);
  so_error = λ m. (some 0, m);
  close = λ m. m;
  sendall = λ m. (true, later 900 m);
  recv = receive;
}

connect-moves : (m : Machine) → net.now m ≤ net.now (connect m).1
connect-moves (t, zero, segments) = omega arith
connect-moves (t, suc left, segments) = omega arith

receive-moves : (m : Machine) → net.now m ≤ net.now (receive m).1
receive-moves (t, left, []) = omega arith
receive-moves (t, left, bytes ∷ segments) = omega arith

receive-drains :
    (m : Machine) (b : ℕ) (bytes : Bytes)
    → (receive m).0 ≡ some (b ∷ bytes)
    → net.to_come (receive m).1 < net.to_come m
receive-drains (t, left, []) b bytes e = cc
receive-drains (t, left, segment ∷ segments) b bytes e = omega arith

clock-turns :
    (m : Machine) → (net.now m < net.now (net.clock m)) ⊎ (net.stalls (net.clock m) < net.stalls m)
clock-turns (t, left, segments) = elim (Bool-cases (ltb (t % 100) 50)) [
  | inl e ↦ inr (let low : t % 100 < 50 = ground arith in omega (arith, low))
  | inr e ↦ inl (let high : 50 ≤ t % 100 = ground arith in omega (arith, high))
]

net-Moves : Moves net
net-Moves = record {
  clock_moves = λ m. omega arith;
  clock_turns = clock-turns;
  stalls_few = λ m. omega arith;
  sleep_moves = λ n m. omega arith;
  sleep_keeps = λ n m. inl (omega arith);
  ready_moves = λ m. omega arith;
  connect_moves = connect-moves;
  select_moves = λ n m. omega arith;
  so_error_moves = λ m. omega arith;
  close_moves = λ m. omega arith;
  send_moves = λ m. omega arith;
  recv_moves = receive-moves;
  clock_keeps = λ m. omega arith;
  recv_drains = receive-drains;
}

program : Unit {0}
unfolding strip_prefix contains insert sort pause wait_loop wait_until await attempt_connect stamp
    received recv_loop recv_response report exchange attempt round loop run_loop attempt_times
    calibration summary calibrate
program = tt

abbrev machine : Machine
machine = (0, 2, take 30 resp ∷ drop 30 resp ∷ [])

-- The response comes in two segments, after two refusals; the clock shows full hundreds.
answer :
    run_loop net 12_000_000_000 machine
    ≡ ok (record {
      attempts = 3;
      first_connect_mono_ns = some 2_051_100;
      first_byte_mono_ns = some 2_352_000;
      body_ok = true;
      attempt_period_median_ns = some 1_000_000;
      timeout = false;
    })
unfolding program
answer = refl

-- A single attempt has no differences.
one_attempt : calibrate net 1 machine ≡ err no_deltas
unfolding program
one_attempt = refl

run_loop-ends_example :
    ((r : Report) × (run_loop net 12_000_000_000 machine ≡ ok r) × IsReport 12_000_000_000 r)
    ⊎ (run_loop net 12_000_000_000 machine ≡ err send_failed)
run_loop-ends_example = run_loop-ends net net-Moves 12_000_000_000 machine

calibrate-IsCalibrated_example :
    (c : Calibration) × (calibrate net 5 machine ≡ ok c) × IsCalibrated 5 c
calibrate-IsCalibrated_example = calibrate-IsCalibrated net net-Moves 5 machine (omega arith)
