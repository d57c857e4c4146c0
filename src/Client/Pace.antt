-- ===== src/Client/Pace.antt =====
-- The attempts of `run_loop` come a millisecond apart and before the deadline, and the loop ends.
use whimbrel.Prelude.{ℕ, zero, suc, ◌+◌, ◌≤◌, ◌<◌}
use whimbrel.Prelude.{◌≡◌, refl, ap, ◌⊎◌, inl, inr}
use whimbrel.Prelude.{Bool, true, false, Option, none, some, arith}
use whimbrel.Prelude.{List, [], ◌∷◌}
use whimbrel.Prelude.{leb, Bool-cases}
use whimbrel.Prelude.{length, All}
use whimbrel.Prelude.{Result, ok, err, ◌>>=◌}
use whimbrel.Client.Net.{Bytes, Net, Moves}
use whimbrel.Client.Wait.{wait_until-waits}
use whimbrel.Client.Attempt.{attempt_connect, attempt_connect-moves}
use whimbrel.Client.Receive.{Received, recv_response-ends, IsStamped, IsStamped-earlier}
use whimbrel.Client.Loop.{
  cadence_ns, Stop, send_failed, Log, no_attempt, add_attempt, answered, sent, exchange, attempted,
  attempt, round, loop,
}

-- Times from `from` on and before the deadline, each at least a millisecond after the last.
abbrev pub IsPaced : ℕ → ℕ → List ℕ → Type 0
IsPaced from deadline [] = Unit
IsPaced from deadline (t ∷ ts) = (from ≤ t) × (t < deadline) × IsPaced (t + cadence_ns) deadline ts

-- Without a connection nothing is received; with one, what is received does not come before it.
abbrev pub IsAnswer : Option ℕ → Option ℕ → Bytes → Type 0
IsAnswer none first buf = (first ≡ none) × (buf ≡ [])
IsAnswer (some connect) first buf = IsStamped connect first buf

-- A connection, if there is one, does not come before this time.
abbrev pub After : ℕ → Option ℕ → Type 0
After low none = Unit
After low (some connect) = low ≤ connect

After-earlier : (low t : ℕ) (connect : Option ℕ) → low ≤ t → After t connect → After low connect
After-earlier low t none h a = tt
After-earlier low t (some connect) h a = omega (arith, h, a)

pub record IsLog (low from deadline : ℕ) (log : Log) : Type 0 where
  pub counted : log.attempts ≡ length log.attempt_ns
  pub paced : IsPaced from deadline log.attempt_ns
  pub answer : IsAnswer log.first_connect log.first_byte log.buf
  pub after : After low log.first_connect
  pub all_after : All (λ t. After t log.first_connect) log.attempt_ns

-- The loop gives such a log, or the request could not be sent.
abbrev pub Ends : ℕ → ℕ → ℕ → Result Stop Log → Type 0
Ends low from deadline r =
    ((log : Log) × (r ≡ ok log) × IsLog low from deadline log) ⊎ (r ≡ err send_failed)

no_attempt-Ends : (low from deadline : ℕ) → Ends low from deadline (ok no_attempt)
no_attempt-Ends low from deadline = inl (
  no_attempt,
  refl,
  record { counted = refl; paced = tt; answer = (refl, refl); after = tt; all_after = tt },
)

add_attempt-Ends :
    (low from deadline t : ℕ) (r : Result Stop Log)
    → low ≤ t
    → from ≤ t
    → t < deadline
    → Ends t (t + cadence_ns) deadline r
    → Ends low from deadline (r >>= λ log. ok (add_attempt t log))
add_attempt-Ends low from deadline t r l h b (inl (log, e, is_log)) = rw e (
    inl (
      add_attempt t log,
      refl,
      record {
        counted = ap suc is_log.counted;
        paced = (h, b, is_log.paced);
        answer = is_log.answer;
        after = After-earlier low t log.first_connect l is_log.after;
        all_after = (is_log.after, is_log.all_after);
      },
    ))
add_attempt-Ends low from deadline t r l h b (inr e) = rw e (inr refl)

module _ {W : Type 0} (net : Net W) (moves : Moves net) where
  sent-Ends :
      (low from deadline connect : ℕ) (r : Bool × W)
      → low ≤ connect
      → connect ≤ net.now r.1
      → Ends low from deadline (sent net connect r)
  sent-Ends low from deadline connect (false, w) l h = inr refl
  sent-Ends low from deadline connect (true, w) l h =
      let (got, e, stamped) = recv_response-ends net moves w in
      rw e (
        inl (
          answered connect (Received.first_byte got) (Received.buf got),
          refl,
          record {
            counted = refl;
            paced = tt;
            answer =
                IsStamped-earlier connect (net.now w) (Received.first_byte got) (Received.buf got) h
                  stamped;
            after = l;
            all_after = tt;
          },
        ))

  exchange-Ends :
      (low from deadline : ℕ) (w : W) → low ≤ net.now w → Ends low from deadline (exchange net w)
  unfolding exchange
  exchange-Ends low from deadline w l =
      sent-Ends low from deadline (net.now (net.clock w)) (net.sendall (net.clock w))
        (omega (arith, l, moves.clock_moves w)) (moves.send_moves (net.clock w))

  -- What a round relies on in the rounds after it.
  abbrev Continues : ℕ → ℕ → (ℕ → W → Result Stop Log) → Type 0
  Continues from deadline next =
      (t : ℕ) (w : W)
      → from ≤ t
      → t < deadline
      → t ≤ net.now w
      → Ends t (t + cadence_ns) deadline (next (t + cadence_ns) w)

  attempted-Ends :
      (next : ℕ → W → Result Stop Log) (from deadline t : ℕ) (r : Bool × W)
      → from ≤ t
      → t < deadline
      → t ≤ net.now r.1
      → Continues from deadline next
      → Ends t (t + cadence_ns) deadline (attempted net next t r)
  attempted-Ends next from deadline t (true, w) h b l go =
      exchange-Ends t (t + cadence_ns) deadline w l
  attempted-Ends next from deadline t (false, w) h b l go = go t w h b l

  attempt-Ends :
      (next : ℕ → W → Result Stop Log) (low from deadline : ℕ) (u : W)
      → low ≤ net.now u
      → from ≤ net.now u
      → Continues from deadline next
      → Ends low from deadline (attempt net next deadline u)
  unfolding attempt
  attempt-Ends next low from deadline u l h go =
      let v = net.clock u in
      let t = net.now v in
      elim (Bool-cases (leb deadline t)) [
        | inl e ↦ rw e (no_attempt-Ends low from deadline)
        | inr e ↦
            let later : from ≤ t = omega (arith, moves.clock_moves u, h) in
            let early : t < deadline = ground arith in
            rw e (
              add_attempt-Ends low from deadline t (attempted net next t (attempt_connect net v))
                (omega (arith, moves.clock_moves u, l)) later early
                (attempted-Ends next from deadline t (attempt_connect net v) later early
                  (attempt_connect-moves net moves v) go))
      ]

  round-Ends :
      (next : ℕ → W → Result Stop Log) (low from deadline : ℕ) (w : W)
      → low ≤ net.now w
      → Continues from deadline next
      → Ends low from deadline (round net next deadline from w)
  unfolding round
  round-Ends next low from deadline w l go =
      let v = net.clock w in
      elim (Bool-cases (leb deadline (net.now v))) [
        | inl e ↦ rw e (no_attempt-Ends low from deadline)
        | inr e ↦
            let (u, waited, reached, later) = wait_until-waits net moves from v in
            rw (e, waited)
              (attempt-Ends next low from deadline u (omega (arith, l, moves.clock_moves w, later))
                reached go)
      ]

  -- The loop ends, and its attempts are a millisecond apart and before the deadline.
  pub loop-Ends :
      (fuel low from deadline : ℕ) (w : W)
      → low ≤ net.now w
      → deadline ≤ from + fuel
      → Ends low from deadline (loop net (suc fuel) deadline from w)
  unfolding loop
  loop-Ends zero low from deadline w l enough =
      round-Ends (loop net zero deadline) low from deadline w l
        (λ t u h b k. absurd (omega (arith, enough, h, b)))
  loop-Ends (suc fuel) low from deadline w l enough =
      round-Ends (loop net (suc fuel) deadline) low from deadline w l
        (λ t u h b k. loop-Ends fuel t (t + cadence_ns) deadline u k (omega (arith, enough, h, b)))
