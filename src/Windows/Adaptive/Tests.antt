-- ===== src/Windows/Adaptive/Tests.antt =====
-- Runs of the adaptive parallelism.
use loki_vl_proxy.Prelude.{
  ℕ, suc, ◌+◌, ◌*◌, ◌≤◌, ◌≡◌, refl, true, false, some, List, [], ◌∷◌, if◌then◌else◌, leb, ◌==◌,
  arith,
}
use loki_vl_proxy.Windows.Adaptive.{
  AdaptiveSettings, AdaptiveState, AdaptiveEvent, observe, force, ask, run,
  query_range_window_parallel_limit,
}
use loki_vl_proxy.Windows.Adaptive.Growth.{InOrder, last_time, parallel_limit-run, run-growth}

-- The latency is the last one, and the errors are counted since the last success.
abbrev settings : AdaptiveSettings ℕ
settings = record {
  adaptive = true;
  max_parallel = 4;
  parallel_min = 2;
  parallel_max = 8;
  latency_target = 50;
  latency_backoff = 900;
  cooldown = 10;
  smooth_latency = λ a b. b;
  smooth_errors = λ n failed. if failed then suc n else 0;
  errors_high = λ n. leb 3 n;
  errors_low = λ n. n == 0;
}

abbrev four_windows : AdaptiveState ℕ
four_windows = record { current = 4; latency = 0; errors = 0; last_adjust = some 10 }

abbrev history : List AdaptiveEvent
history =
    observe 5 false 20
    ∷ observe 5 false 25
    ∷ observe 5 false 31
    ∷ force 32
    ∷ ask 33
    ∷ observe 990 true 40
    ∷ []

history-InOrder : InOrder 10 history
unfolding InOrder
history-InOrder =
    (omega arith, (omega arith, (omega arith, (omega arith, (omega arith, (omega arith, tt))))))

run_history :
    (run settings
      (observe 5 false 20 ∷ observe 5 false 25 ∷ observe 5 false 31 ∷ [])
      four_windows).current
    ≡ 6
unfolding run
run_history = refl

parallel_limit-run_example :
    (2 ≤ (query_range_window_parallel_limit settings (run settings history four_windows)).0)
    × ((query_range_window_parallel_limit settings (run settings history four_windows)).0 ≤ 8)
    × ((query_range_window_parallel_limit settings (run settings history four_windows)).0
        ≡ (run settings history four_windows).current)
    × ((query_range_window_parallel_limit settings (run settings history four_windows)).1
        ≡ run settings history four_windows)
parallel_limit-run_example =
    parallel_limit-run settings history four_windows refl (omega arith) (omega arith) (omega arith)

run-growth_example :
    (run settings history four_windows).current * 10 + 10 ≤ 4 * 10 + last_time 10 history
run-growth_example =
    run-growth settings history four_windows 10 10 (omega arith) (omega arith) (omega arith) refl
      (omega arith) history-InOrder
