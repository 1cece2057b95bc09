-- ===== src/Windows/Tests.antt =====
-- internal/proxy/query_range_windowing.go: splits of ranges.
use loki_vl_proxy.Prelude.{
  List, none, some, ◌≡◌, refl, true, false, [], ◌∷◌, if◌then◌else◌, leb, ◌&&◌, arith,
}
use loki_vl_proxy.Windows.Split.{
  max_int64, Window, window, has_capacity, split_limited, split_query_range_windows_with_options,
}
use loki_vl_proxy.Windows.Coverage.{
  windows_at, windows_at-split_query_range_windows_with_options,
  windows_at-split_query_range_windows_with_options_cut,
}

aligned_backward : split_limited 8 2 12 5 false true ≡ window 10 12 ∷ window 5 9 ∷ window 2 4 ∷ []
unfolding split_limited window
aligned_backward = refl

exact_multiple : split_limited 8 0 10 5 true false ≡ window 0 4 ∷ window 5 10 ∷ []
unfolding split_limited window
exact_multiple = refl

-- The whole of int64 in steps of a nanosecond.
too_many : split_query_range_windows_with_options 0 max_int64 1 true true ≡ none
unfolding split_query_range_windows_with_options has_capacity
too_many = refl

windows_at-split_query_range_windows_with_options_example :
    (ws : List Window) × (split_query_range_windows_with_options 2 12 5 false true ≡ some ws)
    × (windows_at 11 ws ≡ (if leb 2 11 && leb 11 12 then 1 else 0))
windows_at-split_query_range_windows_with_options_example =
    windows_at-split_query_range_windows_with_options 2 12 5 false true 11 (omega arith)
      (omega arith) (omega arith) (omega arith)

windows_at-split_query_range_windows_with_options_cut_example :
    (ws : List Window) × (split_query_range_windows_with_options 2 20490 5 false true ≡ some ws)
    × (windows_at 20482 ws ≡ 0)
windows_at-split_query_range_windows_with_options_cut_example =
    windows_at-split_query_range_windows_with_options_cut 2 20490 5 false true 20482 (omega arith)
      (omega arith) (omega arith) (omega arith) (omega arith)
