-- ===== src/Client/Report.antt =====
-- What `run_loop` of scripts/bench-client.py reports.
use whimbrel.Prelude.{ℕ, zero, suc, ◌+◌, ◌-◌, ◌*◌, ◌/◌, ◌≤◌, ◌<◌}
use whimbrel.Prelude.{◌≡◌, refl, subst, ◌↔◌, ◌⊎◌, inl, inr}
use whimbrel.Prelude.{true, false, not, Option, none, some, arith}
use whimbrel.Prelude.{List, [], ◌∷◌}
use whimbrel.Prelude.{leb, is_some}
use whimbrel.Prelude.{length, get_elem?, All}
use whimbrel.Prelude.{ok, err}
use whimbrel.Prelude.Text.{strip_prefix, contains}
use whimbrel.Prelude.Sort.{sort, sort-All}
use whimbrel.Client.Net.{Bytes, Net, Moves}
use whimbrel.Client.Receive.{resp}
use whimbrel.Client.Loop.{cadence_ns, send_failed, Log, deltas, Report, report, run_loop}
use whimbrel.Client.Pace.{IsPaced, IsAnswer, IsLog, loop-Ends}

-- Times that are a millisecond apart are few.
length-IsPaced :
    (from deadline : ℕ) (ts : List ℕ)
    → IsPaced from deadline ts
    → length ts * cadence_ns < (deadline - from) + cadence_ns
length-IsPaced from deadline [] p = omega arith
length-IsPaced from deadline (t ∷ ts) (h, b, p) =
    omega (arith, h, b, length-IsPaced (t + cadence_ns) deadline ts p)

pub deltas-IsPaced :
    (from deadline : ℕ) (ts : List ℕ)
    → IsPaced from deadline ts
    → All (λ d. cadence_ns ≤ d) (deltas ts)
deltas-IsPaced from deadline [] p = tt
deltas-IsPaced from deadline (t ∷ []) p = tt
deltas-IsPaced from deadline (t ∷ u ∷ ts) (h, b, p) =
    (omega (arith, p.0), deltas-IsPaced (t + cadence_ns) deadline (u ∷ ts) p)

pub All-get_elem? :
    (P : ℕ → Type 0) (xs : List ℕ) (i x : ℕ) → All P xs → get_elem? xs i ≡ some x → P x
All-get_elem? P [] i x h e = cc
All-get_elem? P (y ∷ ys) zero x (p, h) e = subst P (cc) p
All-get_elem? P (y ∷ ys) (suc i) x (p, h) e = All-get_elem? P ys i x h e

-- At most an attempt a millisecond; a connection, before which no byte comes; a time out if
-- there was no byte; and the response only if there was one.
pub record IsReport (timeout_ns : ℕ) (r : Report) : Type 0 where
  pub rate : r.attempts * cadence_ns < timeout_ns + cadence_ns
  pub period : (p : ℕ) → r.attempt_period_median_ns ≡ some p → cadence_ns ≤ p
  pub silent : r.first_connect_mono_ns ≡ none → r.first_byte_mono_ns ≡ none
  pub ordered : (c f : ℕ) → r.first_connect_mono_ns ≡ some c → r.first_byte_mono_ns ≡ some f → c ≤ f
  pub timed_out : (r.timeout ≡ true) ↔ (r.first_byte_mono_ns ≡ none)
  pub answered : r.body_ok ≡ true → r.timeout ≡ false

answer-silent :
    (connect first : Option ℕ) (buf : Bytes)
    → IsAnswer connect first buf
    → connect ≡ none
    → first ≡ none
answer-silent none first buf (e, empty) h = e
answer-silent (some c) first buf a h = cc

answer-ordered :
    (connect first : Option ℕ) (buf : Bytes) (c f : ℕ)
    → IsAnswer connect first buf
    → connect ≡ some c
    → first ≡ some f
    → c ≤ f
answer-ordered none first buf c f a e g = cc
answer-ordered (some d) none buf c f a e g = cc
answer-ordered (some d) (some g') buf c f (a, full) e g =
    let same : d ≡ c = cc in let same' : g' ≡ f = cc in omega (arith, a, same, same')

contains-nil : contains resp [] ≡ false
unfolding contains strip_prefix
contains-nil = refl

answer-body :
    (connect first : Option ℕ) (buf : Bytes)
    → IsAnswer connect first buf
    → contains resp buf ≡ true
    → is_some first ≡ true
answer-body none first buf (e, empty) h = absurd (ground (arith, contains-nil))
answer-body (some c) none buf empty h = absurd (ground (arith, contains-nil))
answer-body (some c) (some f) buf a h = refl

timeout_iff : (first : Option ℕ) → (not (is_some first) ≡ true) ↔ (first ≡ none)
timeout_iff none = (λ h. refl, λ h. refl)
timeout_iff (some f) = (λ h. cc, λ h. cc)

report-IsReport :
    (low from deadline timeout_ns : ℕ) (log : Log)
    → deadline - from ≤ timeout_ns
    → IsLog low from deadline log
    → IsReport timeout_ns (report log)
unfolding report
report-IsReport low from deadline timeout_ns log h is_log =
    let periods = sort leb (deltas log.attempt_ns) in
    let body = answer-body log.first_connect log.first_byte log.buf is_log.answer in
    record {
      rate =
          omega
            (arith, h, is_log.counted, length-IsPaced from deadline log.attempt_ns is_log.paced);
      period = λ p e.
          All-get_elem? (λ d. cadence_ns ≤ d) periods (length periods / 2) p
            (sort-All leb (λ d. cadence_ns ≤ d) (deltas log.attempt_ns)
              (deltas-IsPaced from deadline log.attempt_ns is_log.paced))
            e;
      silent = answer-silent log.first_connect log.first_byte log.buf is_log.answer;
      ordered = λ c f. answer-ordered log.first_connect log.first_byte log.buf c f is_log.answer;
      timed_out = timeout_iff log.first_byte;
      answered = λ ok_body. rw (body ok_body) refl;
    }

-- If the clock does not go back, shows one time at no more than a fixed number of readings in a row,
-- and the peer sends finitely many segments, `run_loop` ends: with such a report, or because `sendall`
-- raised.
pub run_loop-ends :
    {W : Type 0} (net : Net W) (moves : Moves net) (timeout_ns : ℕ) (w : W)
    → ((r : Report) × (run_loop net timeout_ns w ≡ ok r) × IsReport timeout_ns r)
      ⊎ (run_loop net timeout_ns w ≡ err send_failed)
unfolding run_loop
run_loop-ends net moves timeout_ns w =
    let v = net.clock w in
    let deadline = net.now v + timeout_ns in
    let u = net.clock (net.ready v) in
    elim (loop-Ends net moves (deadline - net.now u) (net.now u) (net.now u) deadline u
      (omega arith) (omega arith)) [
        | inl (log, e, is_log) ↦ inl (
          report log,
          rw e refl,
          report-IsReport (net.now u) (net.now u) deadline timeout_ns log
              (omega (arith, moves.ready_moves v, moves.clock_moves (net.ready v))) is_log,
        )
        | inr e ↦ inr (rw e refl)
      ]
