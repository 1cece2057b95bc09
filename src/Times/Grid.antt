-- ===== src/Times/Grid.antt =====
-- internal/proxy/step_grid.go and metric_eval_limits.go: evaluation times on a grid of steps.
use native.Mathlib.Nat.{mod-lt, div-add-mod', le-div_iff_mul-le}
use loki_vl_proxy.Prelude.{
  ℕ, ◌+◌, ◌-◌, ◌*◌, ◌/◌, ◌%◌, ◌≤◌, ◌<◌, ◌≡◌, refl, inl, inr, true, false, ◌||◌, Option, none, some,
  if◌then◌else◌, ltb, ltb→le, ltb→lt, ◌⊎◌, ◌==◌, ==_iff, arith, Bool-cases,
}

abbrev pub loki_max_points_per_series : ℕ
loki_max_points_per_series = 11000

-- The bound moved down onto the grid; `none` when it stands there already. A time from 1970 on.
unfoldable pub aligned : ℕ → ℕ → Option ℕ
aligned step_ns ns = let rem = ns % step_ns in if rem == 0 then none else some (ns - rem)

-- What `alignRangeRequestToStepGrid` leaves in the form.
unfoldable pub keep_or : ℕ → Option ℕ → ℕ
keep_or ns none = ns
keep_or ns (some v) = v

pub data EvalError : Type 0 where
  invalid_bounds : EvalError
  eval_budget : EvalError

pub data Points : Type 0 where
  points : ℕ → Points
  refused : EvalError → Points

-- `metricEvalPointCount`. A difference of times beyond the int64 is `math.MaxInt64`.
unfoldable pub metric_eval_point_count : ℕ → ℕ → ℕ → Points
metric_eval_point_count start end step =
    let distance =
      if ltb 9223372036854775807 (end - start) then 9223372036854775807 else end - start in
    if (step == 0) || ltb end start
    then refused invalid_bounds
    else if (distance == 9223372036854775807) || ltb loki_max_points_per_series (distance / step)
    then refused eval_budget
    else points (distance / step + 1)

-- An aligned bound is a multiple of the step, not after the requested one and less than a step
-- before it; aligned bounds keep their order.
pub keep_or-aligned :
    (step_ns ns : ℕ)
    → 0 < step_ns
    → (keep_or ns (aligned step_ns ns) ≡ ns / step_ns * step_ns)
      × (keep_or ns (aligned step_ns ns) ≤ ns)
      × (ns < keep_or ns (aligned step_ns ns) + step_ns)
unfolding keep_or aligned
keep_or-aligned step_ns ns p =
    let small = mod-lt ns p in
    let parts = div-add-mod' ns step_ns in
    elim (Bool-cases (ns % step_ns == 0)) [
      | inl on ↦
          let e = (==_iff (ns % step_ns) 0).0 on in simp on (omega arith, omega arith, omega arith)
      | inr off ↦ simp off (omega arith, omega arith, omega arith)
    ]

-- The points fit the bounds: `n` of them reach from the start to the end, and one more would not.
pub IsCounted : ℕ → ℕ → ℕ → Points → Type 0
IsCounted start end step (points n) =
    (0 < n) × (n ≤ 11001) × (start + n * step ≤ end + step) × (end < start + n * step)
IsCounted start end step (refused e) =
    (step ≡ 0)
    ⊎ ((end < start) ⊎ ((start + 9223372036854775807 ≤ end) ⊎ (start + 11000 * step < end)))

mul_suc : (q step : ℕ) → (q + 1) * step ≡ q * step + step
mul_suc q step = grind arith

counted :
    (start end step distance : ℕ)
    → 0 < step
    → start ≤ end
    → distance ≡ end - start
    → IsCounted start end step (
        if ltb loki_max_points_per_series (distance / step)
        then refused eval_budget
        else points (distance / step + 1))
unfolding IsCounted
counted start end step distance p le d =
    let q = distance / step in
    let small = mod-lt distance p in
    let parts = div-add-mod' distance step in
    let grow = mul_suc q step in
    elim (Bool-cases (ltb loki_max_points_per_series q)) [
      | inl many ↦
          let many' = ltb→lt loki_max_points_per_series q many in
          let over = (le-div_iff_mul-le p).0 many' in simp many (inr (inr (inr (omega arith))))
      | inr few ↦
          let few' = ltb→le loki_max_points_per_series q few in
          simp few (omega arith, omega arith, omega arith, omega arith)
    ]

-- `metricEvalPointCount` counts the points of the grid exactly: `n` points, at least one and at
-- most 11001, of which the last is not after the end and would be with one point more. It
-- refuses only a step of 0, an end before the start, a range of 2^63 - 1 nanoseconds or more, and
-- a range that spans more than 11000 steps.
pub metric_eval_point_count-IsCounted :
    (start end step : ℕ) → IsCounted start end step (metric_eval_point_count start end step)
unfolding metric_eval_point_count IsCounted
metric_eval_point_count-IsCounted start end step =
    by_bounds (Bool-cases ((step == 0) || ltb end start))
  where
    proper : (a s b : ℕ) → ((a == 0) || ltb b s) ≡ false → (0 < a) × (s ≤ b)
    proper a s b h = ground arith

    improper : (a s b : ℕ) → ((a == 0) || ltb b s) ≡ true → (a ≡ 0) ⊎ (b < s)
    improper a s b h = ground arith

    refuse : (step ≡ 0) ⊎ (end < start) → IsCounted start end step (refused invalid_bounds)
    refuse (inl z) = inl z
    refuse (inr l) = inr (inl l)

    by_bounds :
        (((step == 0) || ltb end start) ≡ true) ⊎ (((step == 0) || ltb end start) ≡ false)
        → IsCounted start end step (metric_eval_point_count start end step)
    by_bounds (inl off) = simp off (refuse (improper step start end off))
    by_bounds (inr on) =
        let (p, le) = proper step start end on in
        elim (Bool-cases (ltb 9223372036854775807 (end - start))) [
          | inl long ↦
              let l = ltb→lt 9223372036854775807 (end - start) long in
              simp (on, long) (inr (inr (inl (omega arith))))
          | inr short ↦ elim (Bool-cases (end - start == 9223372036854775807)) [
            | inl most ↦
                let e = (==_iff (end - start) 9223372036854775807).0 most in
                simp (on, short, most) (inr (inr (inl (omega arith))))
            | inr less ↦ simp (on, short, less) (counted start end step (end - start) p le refl)
          ]
        ]
