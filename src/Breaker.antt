-- ===== src/Breaker.antt =====
-- internal/middleware/circuitbreaker.go: the circuit breaker in front of the backend.
-- Times and durations are nanoseconds from a fixed origin. A method takes the clock reading
-- that it makes; each stretch of code under `mu` is one function. `atomicState` is a field of
-- its own, so a caller of the lock-free path may act on a stale reading of it. The readings that
-- `RecordFailure` and its helpers make under one lock are taken to be the same.
pub mod Runs
pub mod Window
pub mod Invariant
pub mod Probes
pub mod Recovery
mod Tests
use loki_vl_proxy.Prelude.{
  ℕ, ◌+◌, ◌*◌, Bool, true, false, List, [], ◌∷◌, ◌++◌, if◌then◌else◌, ltb, leb, ◌==◌, length,
}

pub data CbState : Type 0 where
  closed open_ half_open : CbState

-- One field for each of the struct; `trips_total` is the counter `TripsTotal`.
pub record CircuitBreaker : Type 0 where
  pub atomic_state : CbState
  pub state : CbState
  pub failure_times : List ℕ
  pub successes : ℕ
  pub half_open_probes : ℕ
  pub open_until : ℕ
  pub failure_threshold : ℕ
  pub window_duration : ℕ
  pub success_threshold : ℕ
  pub open_duration : ℕ
  pub trips_total : ℕ

unfoldable pub new_circuit_breaker : ℕ → ℕ → ℕ → ℕ → CircuitBreaker
new_circuit_breaker failure_threshold success_threshold open_duration window_duration = record {
  atomic_state = closed;
  state = closed;
  failure_times = [];
  successes = 0;
  half_open_probes = 0;
  open_until = 0;
  failure_threshold = failure_threshold;
  window_duration = if window_duration == 0 then 30 * 1_000_000_000 else window_duration;
  success_threshold = success_threshold;
  open_duration = open_duration;
  trips_total = 0;
}

-- A publication of a transition: `cb.state = s` and `cb.atomicState.Store(s)`.
set_state : CbState → CircuitBreaker → CircuitBreaker
set_state s cb = record cb { atomic_state = s; state = s }

-- The loop of `pruneWindow`: it stops at the first failure that is not before the cutoff.
unfoldable pub prune_window : ℕ → ℕ → List ℕ → List ℕ
prune_window window now [] = []
prune_window window now (t ∷ ts) =
    let rest = prune_window window now ts in if ltb (t + window) now then rest else t ∷ ts

-- `Allow` under the lock.
unfoldable pub allow_locked : ℕ → CircuitBreaker → CircuitBreaker × Bool
unfolding set_state
allow_locked now cb = elim cb.state [
  | closed ↦ (cb, true)
  | open_ ↦
      if ltb cb.open_until now
      then (set_state half_open (record cb { successes = 0; half_open_probes = 1 }), true)
      else (cb, false)
  | half_open ↦
      if ltb cb.half_open_probes cb.success_threshold
      then (record cb { half_open_probes = cb.half_open_probes + 1 }, true)
      else (cb, false)
]

-- `Allow`, where `seen` is what the load of `atomicState` returned.
unfoldable pub allow : CbState → ℕ → CircuitBreaker → CircuitBreaker × Bool
allow closed now cb = (cb, true)
allow open_ now cb = allow_locked now cb
allow half_open now cb = allow_locked now cb

-- `RecordSuccess` under the lock.
unfoldable pub record_success_locked : CircuitBreaker → CircuitBreaker
unfolding set_state
record_success_locked cb = elim cb.state [
  | closed ↦ cb
  | open_ ↦ cb
  | half_open ↦
      let cb' = record cb { successes = cb.successes + 1 } in
      if leb cb.success_threshold (cb.successes + 1)
      then set_state closed (record cb' { failure_times = [] })
      else cb'
]

unfoldable pub record_success : CbState → CircuitBreaker → CircuitBreaker
record_success closed cb = cb
record_success open_ cb = record_success_locked cb
record_success half_open cb = record_success_locked cb

-- The statements that open the circuit.
trip : ℕ → CircuitBreaker → CircuitBreaker
unfolding set_state
trip now cb =
    set_state open_
      (record cb { open_until = now + cb.open_duration; trips_total = cb.trips_total + 1 })

unfoldable pub record_failure : ℕ → CircuitBreaker → CircuitBreaker
unfolding trip
record_failure now cb = elim cb.state [
  | closed ↦
      let times = prune_window cb.window_duration now cb.failure_times ++ now ∷ [] in
      let cb' = record cb { failure_times = times } in
      if leb cb.failure_threshold (length times) then trip now cb' else cb'
  | open_ ↦ cb
  | half_open ↦ trip now cb
]
