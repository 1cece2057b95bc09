-- ===== src/Windows/Bounds.antt =====
-- internal/proxy/query_range_windowing.go: how many windows there are, and how long.
use loki_vl_proxy.Prelude.{ℕ, suc, ◌+◌, ◌≤◌, List}
use loki_vl_proxy.Windows.Split.{Window}
use loki_vl_proxy.Windows.Tiling.{Chain}

-- A window that lies in the range and spans at most one nanosecond more than the step.
pub record IsWithin (start end step : ℕ) (w : Window) : Type 0 where
  pub from_start : start ≤ w.start_ns
  pub ordered : w.start_ns ≤ w.end_ns
  pub to_end : w.end_ns ≤ end
  pub short : w.end_ns ≤ w.start_ns + step

Reaches : ℕ → ℕ → ℕ → List Window → Type 0
Reaches start end step ws = (next : ℕ) × (next ≤ suc end) × Chain step start ws next
