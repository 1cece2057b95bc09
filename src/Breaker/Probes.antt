-- ===== src/Breaker/Probes.antt =====
-- What a tripped breaker lets through: nothing before `open_until`, then a bounded number of
-- probes, until enough of them succeed.
use loki_vl_proxy.Prelude.{ℕ, ◌+◌, ◌*◌, ◌≤◌, ◌≡◌, ◌≢◌, refl, ◌∙◌, List, [], ◌∷◌, arith, max}
use loki_vl_proxy.Breaker.{
  CircuitBreaker, CbState, closed, open_, half_open, allow, allow_locked, record_success,
  record_success_locked, record_failure,
}
use loki_vl_proxy.Breaker.Runs.{
  Call, allows, succeeds, fails, step, admitted, run, run_admitted, SawTrip, StaysTripped,
}
use loki_vl_proxy.Breaker.Invariant.{IsValid, step-IsValid}

-- Every `Allow` of the history is made at `t` or earlier, on a reading from after the trip.
abbrev pub Within : ℕ → List Call → Type 0
Within t [] = Unit
Within t (allows seen now ∷ cs) = (seen ≢ closed) × (now ≤ t) × Within t cs
Within t (succeeds seen now ∷ cs) = Within t cs
Within t (fails now ∷ cs) = Within t cs

-- A call on an open breaker that changes nothing and admits nobody.
abbrev Idle : Call → CircuitBreaker → Type 0
Idle c cb = (step c cb ≡ cb) × (admitted c cb ≡ 0)

allows-Idle :
    (seen : CbState) (now : ℕ) (cb : CircuitBreaker)
    → cb.state ≡ open_
    → seen ≢ closed
    → now ≤ cb.open_until
    → Idle (allows seen now) cb
unfolding step admitted allow allow_locked
allows-Idle seen now cb h s l = ground arith

succeeds-Idle :
    (seen : CbState) (now : ℕ) (cb : CircuitBreaker)
    → cb.state ≡ open_
    → Idle (succeeds seen now) cb
unfolding step admitted record_success record_success_locked
succeeds-Idle seen now cb h = ground arith

fails-Idle : (now : ℕ) (cb : CircuitBreaker) → cb.state ≡ open_ → Idle (fails now) cb
unfolding step admitted record_failure
fails-Idle now cb h = ground arith

Idle-run :
    (c : Call) (cs : List Call) (cb : CircuitBreaker)
    → Idle c cb
    → (run cs cb ≡ cb) × (run_admitted cs cb ≡ 0)
    → (run (c ∷ cs) cb ≡ cb) × (run_admitted (c ∷ cs) cb ≡ 0)
unfolding run run_admitted
Idle-run c cs cb i r = rw (i.0, i.1) (r.0, omega (arith, r.1))

-- An open breaker is left as it is, and lets no request through, by every history of calls of
-- which each `Allow` comes at `open_until` or earlier, on a reading from after the trip; successes
-- may be reported on any reading.
pub run-cooldown :
    (cs : List Call) (cb : CircuitBreaker)
    → cb.state ≡ open_
    → Within cb.open_until cs
    → (run cs cb ≡ cb) × (run_admitted cs cb ≡ 0)
unfolding run run_admitted
run-cooldown [] cb h w = (refl, refl)
run-cooldown (allows seen now ∷ cs) cb h w =
    Idle-run (allows seen now) cs cb (allows-Idle seen now cb h w.0 w.1) (run-cooldown cs cb h w.2)
run-cooldown (succeeds seen now ∷ cs) cb h w =
    Idle-run (succeeds seen now) cs cb (succeeds-Idle seen now cb h) (run-cooldown cs cb h w)
run-cooldown (fails now ∷ cs) cb h w =
    Idle-run (fails now) cs cb (fails-Idle now cb h) (run-cooldown cs cb h w)

-- What the breaker has been paid for: a full round of probes for each trip, and the probes of the
-- round that is on.
spent : CircuitBreaker → ℕ
spent cb = elim cb.state [ closed ↦ 0 | open_ ↦ 0 | half_open ↦ cb.half_open_probes ]

credit : CircuitBreaker → ℕ
unfolding spent
credit cb = cb.trips_total * max 1 cb.success_threshold + spent cb

one_more : (t m : ℕ) → (t + 1) * m ≡ t * m + m
one_more t m = omega arith

step-credit :
    (c : Call) (cb : CircuitBreaker)
    → IsValid cb
    → cb.state ≢ closed
    → (step c cb).state ≢ closed
    → SawTrip c
    → (admitted c cb + credit cb ≤ credit (step c cb))
      × ((step c cb).success_threshold ≡ cb.success_threshold)
unfolding credit step admitted allow allow_locked record_success record_success_locked
    record_failure
step-credit (allows seen now) cb v h h' s = ground arith
step-credit (succeeds seen now) cb v h h' s = ground arith
step-credit (fails now) cb v h h' s =
    ground (arith, one_more cb.trips_total (max 1 cb.success_threshold))

StaysTripped-head : (cs : List Call) (cb : CircuitBreaker) → StaysTripped cs cb → cb.state ≢ closed
StaysTripped-head [] cb s = s
StaysTripped-head (c ∷ cs) cb s = s.0

run-credit :
    (cs : List Call) (cb : CircuitBreaker)
    → IsValid cb
    → StaysTripped cs cb
    → (run_admitted cs cb + credit cb ≤ credit (run cs cb))
      × IsValid (run cs cb)
      × ((run cs cb).state ≢ closed)
      × ((run cs cb).success_threshold ≡ cb.success_threshold)
unfolding run run_admitted
run-credit [] cb v s = (omega arith, v, s, refl)
run-credit (c ∷ cs) cb v s =
    let first = step-credit c cb v s.0 (StaysTripped-head cs (step c cb) s.2) s.1 in
    let rest = run-credit cs (step c cb) (step-IsValid c cb v) s.2 in
    (omega arith, rest.1, rest.2, rest.3 ∙ first.1)

credit-le :
    (cb : CircuitBreaker)
    → IsValid cb
    → cb.state ≢ closed
    → credit cb ≤ (cb.trips_total + 1) * max 1 cb.success_threshold
unfolding credit spent
credit-le cb v h = ground (arith, one_more cb.trips_total (max 1 cb.success_threshold))

credit-open :
    (cb : CircuitBreaker)
    → cb.state ≡ open_
    → credit cb ≡ cb.trips_total * max 1 cb.success_threshold
unfolding credit spent
credit-open cb h = ground arith

-- From a valid open breaker, through a history in which it is never found closed and no call acts
-- on a reading from before the trip, the requests let through number at most
-- `max 1 success_threshold` for each trip of the history, and as many again for the trip before.
pub run_admitted-le :
    (cs : List Call) (cb : CircuitBreaker)
    → IsValid cb
    → cb.state ≡ open_
    → StaysTripped cs cb
    → run_admitted cs cb + cb.trips_total * max 1 cb.success_threshold
      ≤ ((run cs cb).trips_total + 1) * max 1 cb.success_threshold
unfolding run run_admitted
run_admitted-le cs cb v h s =
    let r = run-credit cs cb v s in
    let top = credit-le (run cs cb) r.1 r.2 in omega (arith, credit-open cb h, rw r.3 at top)
