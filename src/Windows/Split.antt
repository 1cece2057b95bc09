-- ===== src/Windows/Split.antt =====
-- internal/proxy/query_range_windowing.go, `splitQueryRangeWindowsWithOptions`. Times are
-- nanoseconds since 1970, none before; an int64 that would pass its bound wraps to a negative
-- number, which the code meets by its tests `windowEnd < cursor` and `firstEnd >= cursor`.
use loki_vl_proxy.Prelude.{
  ℕ, zero, suc, ◌+◌, ◌-◌, ◌%◌, ◌/◌, Bool, true, false, ◌&&◌, ◌||◌, not, Option, none, some, List,
  [], ◌∷◌, if◌then◌else◌, ltb, ◌==◌,
}

pub record Window : Type 0 where
  pub start_ns : ℕ
  pub end_ns : ℕ

abbrev pub max_query_range_windows : ℕ
max_query_range_windows = 4096

abbrev pub max_int64 : ℕ
max_int64 = 9223372036854775807

unfoldable pub window : ℕ → ℕ → Window
window a b = record { start_ns = a; end_ns = b }

unfoldable pub no_windows : List Window → Bool
no_windows [] = true
no_windows (w ∷ ws) = false

-- `windows[len(windows)-1].endNs = endNs`, the last window standing first.
unfoldable pub extend_last : ℕ → List Window → List Window
unfolding window
extend_last end [] = []
extend_last end (w ∷ ws) = window w.start_ns end ∷ ws

unfoldable pub window_end : ℕ → ℕ → ℕ → ℕ
window_end step end cursor =
    let e = cursor + step - 1 in if ltb max_int64 e || ltb end e then end else e

-- The loop, the windows so far with the last first; `room` more of them are allowed.
unfoldable pub split_from : ℕ → ℕ → ℕ → ℕ → List Window → List Window
unfolding window no_windows extend_last window_end
split_from zero step end cursor windows = windows
split_from (suc room) step end cursor windows =
    let e = window_end step end cursor in
    let more = split_from room step end (suc e) (window cursor e ∷ windows) in
    if ltb end cursor
    then windows
    else if (cursor == end) && not (no_windows windows)
    then extend_last end windows
    else if e == max_int64
    then window cursor e ∷ windows
    else more

-- The window up to the first multiple of the step, when the start is none.
unfoldable pub first_window : ℕ → ℕ → ℕ → Option Window
unfolding window
first_window step start end =
    let rem = start % step in
    let first_end = start + (step - rem) - 1 in
    if rem == 0
    then none
    else if ltb max_int64 first_end
    then none
    else some (window start (if ltb end first_end then end else first_end))

unfoldable pub split_after : ℕ → ℕ → ℕ → ℕ → Option Window → List Window
unfolding split_from
split_after limit step start end none = split_from limit step end start []
split_after limit step start end (some w) =
    let more = split_from (limit - 1) step end (suc w.end_ns) (w ∷ []) in
    if w.end_ns == end then w ∷ [] else more

unfoldable pub reverse_onto : List Window → List Window → List Window
reverse_onto [] out = out
reverse_onto (w ∷ ws) out = reverse_onto ws (w ∷ out)

unfoldable pub directed : Bool → List Window → List Window
unfolding reverse_onto
directed forward windows = if forward then reverse_onto windows [] else windows

-- At most `limit` windows, one at least.
unfoldable pub split_limited : ℕ → ℕ → ℕ → ℕ → Bool → Bool → List Window
unfolding directed split_after first_window
split_limited limit start end step forward align =
    let first : Option Window = if align then first_window step start end else none in
    if (step == 0) || ltb end start
    then []
    else directed forward (split_after limit step start end first)

-- Whether the `int((endNs-startNs)/step)+1` that `make` is given stays in an int64; past it, the sum
-- is negative, and `make` panics.
unfoldable pub has_capacity : ℕ → ℕ → ℕ → Bool
has_capacity start end step = ltb ((end - start) / step) max_int64

-- `none` is the panic.
unfoldable pub split_query_range_windows_with_options :
    ℕ → ℕ → ℕ → Bool → Bool → Option (List Window)
unfolding split_limited has_capacity
split_query_range_windows_with_options start end step forward align =
    if ((step == 0) || ltb end start) || has_capacity start end step
    then some (split_limited max_query_range_windows start end step forward align)
    else none
