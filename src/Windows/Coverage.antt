-- ===== src/Windows/Coverage.antt =====
-- internal/proxy/query_range_windowing.go: which times the windows hold.
use native.Mathlib.Nat.{div-lt_iff_lt-mul}
use loki_vl_proxy.Prelude.{
  some, sym, ◌-◌, ◌/◌, ◌||◌, inl, inr, Bool-cases, lt→ltb, ℕ, suc, ◌+◌, ◌*◌, ◌≤◌, ◌<◌, ◌≡◌, refl,
  ◌∙◌, Bool, true, false, ◌&&◌, Option, none, List, [], ◌∷◌, sum_by, if◌then◌else◌, ltb, leb, ◌==◌,
  arith, le→ltb,
}
use loki_vl_proxy.Windows.Split.{
  Window, max_int64, reverse_onto, directed, first_window, split_after, split_limited, has_capacity,
  split_query_range_windows_with_options,
}
use loki_vl_proxy.Windows.Tiling.{
  Chain, Strict, Strict-Chain, IsFirst, suc_mul, reach, split_from-Chain, choose-IsFirst,
  split_after-Chain,
}

-- In how many of the windows a time lies.
unfoldable pub holds : ℕ → Window → ℕ
holds t w = if leb w.start_ns t && leb t w.end_ns then 1 else 0

unfoldable pub windows_at : ℕ → List Window → ℕ
unfolding holds
windows_at t ws = sum_by (holds t) ws

pub Chain-le :
    (step start : ℕ) (ws : List Window) (next : ℕ) → Chain step start ws next → start ≤ next
unfolding Chain
Chain-le step start [] next e = omega arith
Chain-le step start (w ∷ ws) next (e, l, b, c) =
    let ih = Chain-le step start ws w.start_ns c in omega arith

windows_at-Chain :
    (step start : ℕ) (ws : List Window) (next t : ℕ)
    → Chain step start ws next
    → windows_at t ws ≡ (if leb start t && ltb t next then 1 else 0)
unfolding Chain windows_at holds
windows_at-Chain step start [] next t e = ground arith
windows_at-Chain step start (w ∷ ws) next t (e, l, b, c) =
    let ih = windows_at-Chain step start ws w.start_ns t c in
    let le = Chain-le step start ws w.start_ns c in ground arith

windows_at-reverse_onto :
    (t : ℕ) (ws out : List Window)
    → windows_at t (reverse_onto ws out) ≡ windows_at t ws + windows_at t out
unfolding windows_at reverse_onto
windows_at-reverse_onto t [] out = omega arith
windows_at-reverse_onto t (w ∷ ws) out =
    let ih = windows_at-reverse_onto t ws (w ∷ out) in omega arith

windows_at-directed :
    (t : ℕ) (forward : Bool) (ws : List Window)
    → windows_at t (directed forward ws) ≡ windows_at t ws
unfolding directed windows_at
windows_at-directed t true ws = let e = windows_at-reverse_onto t ws [] in omega arith
windows_at-directed t false ws = refl

nonzero : (n : ℕ) → 0 < n → (n == 0) ≡ false
nonzero n h = ground arith

reach-le : (room step end cursor : ℕ) → reach room step end cursor ≤ cursor + room * step
unfolding reach
reach-le room step end cursor = ground arith

windows_at-split_limited :
    (room start end step : ℕ) (forward align : Bool) (t : ℕ)
    → 0 < step
    → start ≤ end
    → end ≤ max_int64
    → end < start + room * step
    → windows_at t (split_limited (suc room) start end step forward align)
      ≡ (if leb start t && leb t end then 1 else 0)
unfolding split_limited
windows_at-split_limited room start end step forward align t p le m few =
    let first : Option Window = if align then first_window step start end else none in
    let ws = split_after (suc room) step start end first in
    let chain =
      split_after-Chain room step start end first p le m (choose-IsFirst step start end align p le)
        few in
    let here : (if leb start t && ltb t (suc end) then 1 else 0)
        ≡ (if leb start t && leb t end then 1 else 0) =
      ground arith in
    simp (nonzero step p, le→ltb end start le)
      (windows_at-directed t forward ws ∙ (windows_at-Chain step start ws (suc end) t chain ∙ here))

-- Where the windows stop, with a first one or without.
split_after-stops :
    (room step start end : ℕ) (first : Option Window)
    → 0 < step
    → start ≤ end
    → end ≤ max_int64
    → IsFirst step start end first
    → (next : ℕ) × (next ≤ start + suc room * step)
      × Chain step start (split_after (suc room) step start end first) next
unfolding split_after reach IsFirst Strict
split_after-stops room step start end none p le m f = (
  reach (suc room) step end start,
  reach-le (suc room) step end start,
  split_from-Chain (suc room) step start end start [] p m refl (omega arith),
)
split_after-stops room step start end (some w) p le m (from, low, high, short) =
    let s : Strict step start (w ∷ []) (suc w.end_ns) =
      (refl, omega arith, omega arith, sym from) in
    let less : suc room - 1 ≡ room = omega arith in
    let grow = suc_mul room step in
    let top = reach-le room step end (suc w.end_ns) in
    elim (Bool-cases (w.end_ns == end)) [
      | inl e ↦
          simp e (suc w.end_ns, omega arith, Strict-Chain step start (w ∷ []) (suc w.end_ns) s)
      | inr e ↦
          simp (e, less)
            (
              reach room step end (suc w.end_ns),
              omega arith,
              split_from-Chain room step start end (suc w.end_ns) (w ∷ []) p m s (omega arith),
            )
    ]

windows_at-split_limited_cut :
    (room start end step : ℕ) (forward align : Bool) (t : ℕ)
    → 0 < step
    → end ≤ max_int64
    → start + suc room * step ≤ t
    → t ≤ end
    → windows_at t (split_limited (suc room) start end step forward align) ≡ 0
unfolding split_limited
windows_at-split_limited_cut room start end step forward align t p m late le =
    let first : Option Window = if align then first_window step start end else none in
    let from : start ≤ end = omega arith in
    let ws = split_after (suc room) step start end first in
    let (next, stops, chain) =
      split_after-stops room step start end first p from m
        (choose-IsFirst step start end align p from) in
    let outside : (if leb start t && ltb t next then 1 else 0) ≡ 0 = ground arith in
    simp (nonzero step p, le→ltb end start from)
      (windows_at-directed t forward ws ∙ (windows_at-Chain step start ws next t chain ∙ outside))

short-has_capacity :
    (start end step : ℕ) → 0 < step → end < start + 4095 * step → has_capacity start end step ≡ true
unfolding has_capacity
short-has_capacity start end step p few =
    let small = (div-lt_iff_lt-mul {k = step} {x = end - start} {y = 4095} p).1 (omega arith) in
    lt→ltb ((end - start) / step) max_int64 (omega arith)

or_true : (a b : Bool) → b ≡ true → (a || b) ≡ true
or_true a b h = ground arith

pub some-split :
    (start end step : ℕ) (forward align : Bool)
    → has_capacity start end step ≡ true
    → split_query_range_windows_with_options start end step forward align
      ≡ some (split_limited 4096 start end step forward align)
unfolding split_query_range_windows_with_options
some-split start end step forward align h =
    simp (or_true ((step == 0) || ltb end start) (has_capacity start end step) h) refl

-- The split of a range shorter than 4095 steps is not refused, and every nanosecond of the range
-- lies in exactly one of its windows, and no time outside lies in any, in both directions and with
-- or without alignment.
pub windows_at-split_query_range_windows_with_options :
    (start end step : ℕ) (forward align : Bool) (t : ℕ)
    → 0 < step
    → start ≤ end
    → end ≤ max_int64
    → end < start + 4095 * step
    → (ws : List Window) × (split_query_range_windows_with_options start end step forward align
        ≡ some ws)
      × (windows_at t ws ≡ (if leb start t && leb t end then 1 else 0))
windows_at-split_query_range_windows_with_options start end step forward align t p le m few = (
  split_limited 4096 start end step forward align,
  some-split start end step forward align (short-has_capacity start end step p few),
  windows_at-split_limited 4095 start end step forward align t p le m few,
)

-- A range of 4096 steps or more whose number of steps is below the largest int64 is cut off: the
-- windows hold no time from `start + 4096 * step` on, which is the newest part of the range, with or
-- without alignment, and also when the newest are asked for first.
pub windows_at-split_query_range_windows_with_options_cut :
    (start end step : ℕ) (forward align : Bool) (t : ℕ)
    → 0 < step
    → end ≤ max_int64
    → (end - start) / step < max_int64
    → start + 4096 * step ≤ t
    → t ≤ end
    → (ws : List Window) × (split_query_range_windows_with_options start end step forward align
        ≡ some ws)
      × (windows_at t ws ≡ 0)
unfolding has_capacity
windows_at-split_query_range_windows_with_options_cut start end step forward align t p m room late
      le =
    (
      split_limited 4096 start end step forward align,
      some-split start end step forward align (lt→ltb ((end - start) / step) max_int64 room),
      windows_at-split_limited_cut 4095 start end step forward align t p m late le,
    )
