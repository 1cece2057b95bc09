-- ===== src/Breaker/Tests.antt =====
-- Runs of the breaker, and the theorems at concrete inputs.
use loki_vl_proxy.Prelude.{◌≡◌, refl, ◌+◌, ◌*◌, ◌≤◌, max, List, [], ◌∷◌, true, arith}
use loki_vl_proxy.Breaker.{
  CircuitBreaker, closed, open_, half_open, new_circuit_breaker, allow, allow_locked, prune_window,
  record_failure,
}
use loki_vl_proxy.Breaker.Runs.{Call, allows, succeeds, fails, step, admitted, run, run_admitted}
use loki_vl_proxy.Breaker.Window.{Outcome, record_failures, bursts, record_failures-bursts}
use loki_vl_proxy.Breaker.Invariant.{IsValid, run-new-IsValid}
use loki_vl_proxy.Breaker.Probes.{run-cooldown, run_admitted-le}
use loki_vl_proxy.Breaker.Recovery.{Recovered, record_successes, record_successes-closed}

abbrev fresh : CircuitBreaker
fresh = record {
  atomic_state = closed;
  state = closed;
  failure_times = [];
  successes = 0;
  half_open_probes = 0;
  open_until = 0;
  failure_threshold = 3;
  window_duration = 10;
  success_threshold = 2;
  open_duration = 100;
  trips_total = 0;
}

abbrev tripped : CircuitBreaker
tripped = record fresh {
  atomic_state = open_;
  state = open_;
  failure_times = 4 ∷ 8 ∷ 12 ∷ [];
  open_until = 112;
  trips_total = 1;
}

new_circuit_breaker_test : new_circuit_breaker 3 2 100 10 ≡ fresh
unfolding new_circuit_breaker
new_circuit_breaker_test = refl

trip_test : record_failures (4 ∷ 8 ∷ 12 ∷ []) fresh ≡ tripped
unfolding record_failures record_failure prune_window
trip_test = refl

sporadic_test : (record_failures (4 ∷ 8 ∷ 30 ∷ 60 ∷ []) fresh).failure_times ≡ 60 ∷ []
unfolding record_failures record_failure prune_window
sporadic_test = refl

record_failures-bursts_example : Outcome fresh true (record_failures (4 ∷ 8 ∷ 12 ∷ []) fresh)
unfolding bursts
record_failures-bursts_example =
    record_failures-bursts (4 ∷ 8 ∷ 12 ∷ []) fresh refl refl (omega arith)

abbrev history : List Call
history = fails 4 ∷ fails 8 ∷ fails 12 ∷ allows open_ 120 ∷ succeeds closed 121 ∷ []

run-new-IsValid_example : IsValid (run history (new_circuit_breaker 3 2 100 10))
run-new-IsValid_example = run-new-IsValid 3 2 100 10 history

run-cooldown_example :
    (run (allows open_ 50 ∷ fails 60 ∷ allows open_ 112 ∷ []) tripped ≡ tripped)
    × (run_admitted (allows open_ 50 ∷ fails 60 ∷ allows open_ 112 ∷ []) tripped ≡ 0)
run-cooldown_example =
    run-cooldown (allows open_ 50 ∷ fails 60 ∷ allows open_ 112 ∷ []) tripped refl
      ((λ e. cc), omega arith, ((λ e. cc), omega arith, tt))

tripped-IsValid : IsValid tripped
tripped-IsValid = ground arith

abbrev probing : List Call
probing = allows open_ 113 ∷ allows open_ 114 ∷ allows half_open 115 ∷ fails 116 ∷ []

run_admitted-le_example :
    run_admitted probing tripped + 1 * max 1 2 ≤ ((run probing tripped).trips_total + 1) * max 1 2
unfolding step admitted allow allow_locked record_failure
run_admitted-le_example = run_admitted-le probing tripped tripped-IsValid refl (
  (λ e. cc),
  (λ e. cc),
  ((λ e. cc), (λ e. cc), ((λ e. cc), (λ e. cc), ((λ e. cc), tt, (λ e. cc)))),
)

record_successes-closed_example : Recovered tripped (record_successes 2 (allow open_ 113 tripped).0)
record_successes-closed_example =
    record_successes-closed 2 113 open_ tripped refl (λ e. cc) (omega arith) (omega arith)
