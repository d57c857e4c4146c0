-- ===== src/Client/Loop.antt =====
-- `run_loop` of scripts/bench-client.py.
use whimbrel.Prelude.{ℕ, zero, suc, ◌+◌, ◌-◌, ◌/◌}
use whimbrel.Prelude.{Bool, true, false, not, Option, none, some}
use whimbrel.Prelude.{List, [], ◌∷◌}
use whimbrel.Prelude.{leb, if◌then◌else◌, is_some}
use whimbrel.Prelude.{length, get_elem?}
use whimbrel.Prelude.{Result, ok, err, ◌>>=◌}
use whimbrel.Prelude.Text.{contains}
use whimbrel.Prelude.Sort.{sort}
use whimbrel.Client.Net.{Bytes, Net}
use whimbrel.Client.Wait.{wait_until}
use whimbrel.Client.Attempt.{attempt_connect}
use whimbrel.Client.Receive.{resp, Received, recv_response}

abbrev pub cadence_ns : ℕ
cadence_ns = 1_000_000

-- How the client can end without a result: a loop that never ends, an exception of `sendall`, and an
-- index out of range.
pub data Stop : Type 0 where
  hung : Stop
  send_failed : Stop
  no_deltas : Stop

-- What the loop has gathered.
pub record Log : Type 0 where
  pub attempts : ℕ
  pub attempt_ns : List ℕ
  pub first_connect : Option ℕ
  pub first_byte : Option ℕ
  pub buf : Bytes

abbrev pub no_attempt : Log
no_attempt = record {
  attempts = 0;
  attempt_ns = [];
  first_connect = none;
  first_byte = none;
  buf = [];
}

abbrev pub add_attempt : ℕ → Log → Log
add_attempt t log = record log { attempts = suc log.attempts; attempt_ns = t ∷ log.attempt_ns }

abbrev pub answered : ℕ → Option ℕ → Bytes → Log
answered connect first buf = record {
  attempts = 0;
  attempt_ns = [];
  first_connect = some connect;
  first_byte = first;
  buf = buf;
}

-- The differences of times that follow each other; the clock is monotonic.
abbrev pub deltas : List ℕ → List ℕ
deltas [] = []
deltas (t ∷ []) = []
deltas (t ∷ u ∷ ts) = (u - t) ∷ deltas (u ∷ ts)

pub record Report : Type 0 where
  pub attempts : ℕ
  pub first_connect_mono_ns : Option ℕ
  pub first_byte_mono_ns : Option ℕ
  pub body_ok : Bool
  pub attempt_period_median_ns : Option ℕ
  pub timeout : Bool

unfoldable pub report : Log → Report
report log =
    let periods = sort leb (deltas log.attempt_ns) in
    record {
      attempts = log.attempts;
      first_connect_mono_ns = log.first_connect;
      first_byte_mono_ns = log.first_byte;
      body_ok = contains resp log.buf;
      attempt_period_median_ns = get_elem? periods (length periods / 2);
      timeout = not (is_some log.first_byte);
    }

abbrev pub or_hung {ℓ} : {A : Type ℓ} → Option A → Result Stop A
or_hung none = err hung
or_hung (some a) = ok a

module _ {W : Type 0} (net : Net W) where
  -- What follows a connection: the request is sent, the response received, the socket closed.
  abbrev pub sent : ℕ → Bool × W → Result Stop Log
  sent connect (false, w) = err send_failed
  sent connect (true, w) = do
    got ← or_hung (recv_response net w)
    ok (answered connect (Received.first_byte got) (Received.buf got))

  unfoldable pub exchange : W → Result Stop Log
  exchange w = let v = net.clock w in sent (net.now v) (net.sendall v)

  -- The end of a round that has attempted at `t`.
  abbrev pub attempted : (ℕ → W → Result Stop Log) → ℕ → Bool × W → Result Stop Log
  attempted next t (true, w) = exchange w
  attempted next t (false, w) = next (t + cadence_ns) w

  -- The part of a round after its wait.
  unfoldable pub attempt : (ℕ → W → Result Stop Log) → ℕ → W → Result Stop Log
  attempt next deadline u =
      let v = net.clock u in
      let t = net.now v in
      if leb deadline t
      then ok no_attempt
      else (do log ← attempted next t (attempt_connect net v); ok (add_attempt t log))

  unfoldable pub round : (ℕ → W → Result Stop Log) → ℕ → ℕ → W → Result Stop Log
  round next deadline next_t w =
      let v = net.clock w in
      if leb deadline (net.now v)
      then ok no_attempt
      else (do u ← or_hung (wait_until net next_t v); attempt next deadline u)

  -- The loop, from its time of the next attempt, for at most `fuel` rounds.
  unfoldable pub loop : ℕ → ℕ → ℕ → W → Result Stop Log
  loop zero deadline next_t w = err hung
  loop (suc fuel) deadline next_t w = round (loop fuel deadline) deadline next_t w

  -- The attempts are a millisecond apart, so that a round for each nanosecond is more than enough.
  unfoldable pub run_loop : ℕ → W → Result Stop Report
  run_loop timeout_ns w = do
    let v = net.clock w
    let deadline = net.now v + timeout_ns
    let u = net.clock (net.ready v)
    log ← loop (suc (deadline - net.now u)) deadline (net.now u) u
    ok (report log)
