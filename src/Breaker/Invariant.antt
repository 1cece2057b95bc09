-- ===== src/Breaker/Invariant.antt =====
-- What holds of the breaker after any history of calls, whatever the lock-free loads returned.
use loki_vl_proxy.Prelude.{ℕ, ◌≤◌, ◌<◌, ◌≡◌, List, [], ◌∷◌, arith, max, length}
use loki_vl_proxy.Breaker.{
  CircuitBreaker, CbState, closed, allow_locked, record_success_locked, half_open,
  new_circuit_breaker, allow, record_success, record_failure,
}
use loki_vl_proxy.Breaker.Runs.{Call, allows, succeeds, fails, step, run}

-- The published state is the state; a closed breaker holds fewer failures than the threshold; a
-- half-open one has let through at most `success_threshold` probes (at least one), and has not
-- yet had as many successes.
pub record IsValid (cb : CircuitBreaker) : Type 0 where
  pub published : cb.atomic_state ≡ cb.state
  pub calm : cb.state ≡ closed → length cb.failure_times < max 1 cb.failure_threshold
  pub probing : cb.state ≡ half_open → cb.half_open_probes ≤ max 1 cb.success_threshold
  pub pending : cb.state ≡ half_open → cb.successes < max 1 cb.success_threshold

new_circuit_breaker-IsValid :
    (failures successes open_for window : ℕ)
    → IsValid (new_circuit_breaker failures successes open_for window)
unfolding new_circuit_breaker
new_circuit_breaker-IsValid f s o w = ground arith

allow_locked-IsValid :
    (now : ℕ) (cb : CircuitBreaker) → IsValid cb → IsValid (allow_locked now cb).0
unfolding allow_locked
allow_locked-IsValid now cb v = ground arith

record_success_locked-IsValid :
    (cb : CircuitBreaker) → IsValid cb → IsValid (record_success_locked cb)
unfolding record_success_locked
record_success_locked-IsValid cb v = ground arith

allow-IsValid :
    (seen : CbState) (now : ℕ) (cb : CircuitBreaker) → IsValid cb → IsValid (allow seen now cb).0
unfolding allow
allow-IsValid closed now cb v = v
allow-IsValid _ now cb v = allow_locked-IsValid now cb v

record_success-IsValid :
    (seen : CbState) (cb : CircuitBreaker) → IsValid cb → IsValid (record_success seen cb)
unfolding record_success
record_success-IsValid closed cb v = v
record_success-IsValid _ cb v = record_success_locked-IsValid cb v

record_failure-IsValid :
    (now : ℕ) (cb : CircuitBreaker) → IsValid cb → IsValid (record_failure now cb)
unfolding record_failure
record_failure-IsValid now cb v = ground arith

pub step-IsValid : (c : Call) (cb : CircuitBreaker) → IsValid cb → IsValid (step c cb)
unfolding step
step-IsValid (allows seen now) cb v = allow-IsValid seen now cb v
step-IsValid (succeeds seen now) cb v = record_success-IsValid seen cb v
step-IsValid (fails now) cb v = record_failure-IsValid now cb v

pub run-IsValid : (cs : List Call) (cb : CircuitBreaker) → IsValid cb → IsValid (run cs cb)
unfolding run
run-IsValid [] cb v = v
run-IsValid (c ∷ cs) cb v = run-IsValid cs (step c cb) (step-IsValid c cb v)

-- A new breaker satisfies `IsValid` after every history of calls, in which each call may act on
-- any reading of the published state, also a stale one.
pub run-new-IsValid :
    (failures successes open_for window : ℕ) (cs : List Call)
    → IsValid (run cs (new_circuit_breaker failures successes open_for window))
run-new-IsValid f s o w cs =
    run-IsValid cs (new_circuit_breaker f s o w) (new_circuit_breaker-IsValid f s o w)
