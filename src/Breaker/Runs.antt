-- ===== src/Breaker/Runs.antt =====
-- Histories of the circuit breaker: the calls of all goroutines in the order in which they take
-- the lock. Each call carries the clock reading and the state that its lock-free load returned.
use loki_vl_proxy.Prelude.{ℕ, ◌+◌, ◌≢◌, List, [], ◌∷◌, if◌then◌else◌}
use loki_vl_proxy.Breaker.{CircuitBreaker, CbState, closed, allow, record_success, record_failure}

pub data Call : Type 0 where
  allows : CbState → ℕ → Call
  succeeds : CbState → ℕ → Call
  fails : ℕ → Call

unfoldable pub step : Call → CircuitBreaker → CircuitBreaker
step (allows seen now) cb = (allow seen now cb).0
step (succeeds seen now) cb = record_success seen cb
step (fails now) cb = record_failure now cb

-- 1 if the call is a request that is let through.
unfoldable pub admitted : Call → CircuitBreaker → ℕ
admitted (allows seen now) cb = if (allow seen now cb).1 then 1 else 0
admitted (succeeds seen now) cb = 0
admitted (fails now) cb = 0

unfoldable pub run : List Call → CircuitBreaker → CircuitBreaker
run [] cb = cb
run (c ∷ cs) cb = run cs (step c cb)

unfoldable pub run_admitted : List Call → CircuitBreaker → ℕ
run_admitted [] cb = 0
run_admitted (c ∷ cs) cb = admitted c cb + run_admitted cs (step c cb)

-- The load saw a state other than closed.
abbrev pub SawTrip : Call → Type 0
SawTrip (allows seen now) = seen ≢ closed
SawTrip (succeeds seen now) = seen ≢ closed
SawTrip (fails now) = Unit

-- No call acts on a reading from before the trip, and the breaker is never found closed.
abbrev pub StaysTripped : List Call → CircuitBreaker → Type 0
StaysTripped [] cb = cb.state ≢ closed
StaysTripped (c ∷ cs) cb = (cb.state ≢ closed) × SawTrip c × StaysTripped cs (step c cb)
