-- ===== src/Windows/Adaptive.antt =====
-- internal/proxy/query_range_windowing.go: how many windows are fetched at once, and how that adapts
-- to the latency and the errors of the backend. The settings are natural numbers; `F` is float64.
pub mod Growth
pub mod Tests
use loki_vl_proxy.Prelude.{
  ℕ, zero, suc, ◌+◌, ◌-◌, ◌/◌, max, Bool, true, false, ◌&&◌, ◌||◌, not, Option, none, some, List,
  [], ◌∷◌, if◌then◌else◌, ltb, leb, ◌==◌,
}

-- The settings of the proxy, and what it computes in float64 from the smoothed share of errors.
pub record AdaptiveSettings (F : Type 0) : Type 0 where
  pub adaptive : Bool
  pub max_parallel : ℕ
  pub parallel_min : ℕ
  pub parallel_max : ℕ
  pub latency_target : ℕ
  pub latency_backoff : ℕ
  pub cooldown : ℕ
  -- `(1-alpha)*old + alpha*new`
  pub smooth_latency : ℕ → ℕ → ℕ
  pub smooth_errors : F → Bool → F
  -- Whether the share reaches the threshold, and whether it is at most half of it.
  pub errors_high : F → Bool
  pub errors_low : F → Bool

-- What `queryRangeAdaptiveMu` guards. Times are nanoseconds; `none` is the zero time.
pub record AdaptiveState (F : Type 0) : Type 0 where
  pub current : ℕ
  pub latency : ℕ
  pub errors : F
  pub last_adjust : Option ℕ

unfoldable pub at_least_one : ℕ → ℕ
at_least_one n = if n == 0 then 1 else n

module _ {F : Type 0} (cfg : AdaptiveSettings F) where
  unfoldable pub within_settings : ℕ → ℕ
  within_settings n =
      if ltb n cfg.parallel_min || ltb cfg.parallel_max n then cfg.parallel_min else n

  -- The limit, and the state after the call.
  unfoldable pub query_range_window_parallel_limit : AdaptiveState F → ℕ × AdaptiveState F
  unfolding at_least_one within_settings
  query_range_window_parallel_limit s =
      let n = at_least_one (within_settings s.current) in
      if not cfg.adaptive then (at_least_one cfg.max_parallel, s) else (n, record s { current = n })

  unfoldable pub smoothed : ℕ → Bool → AdaptiveState F → AdaptiveState F
  smoothed latency failed s = record s {
    latency = if s.latency == 0 then latency else cfg.smooth_latency s.latency latency;
    errors = cfg.smooth_errors s.errors failed;
  }

  unfoldable pub cooling : ℕ → Option ℕ → Bool
  cooling now none = false
  cooling now (some t) = ltb (now - t) cfg.cooldown

  unfoldable pub should_backoff : AdaptiveState F → Bool
  should_backoff s =
      cfg.errors_high s.errors || (ltb 0 s.latency && leb cfg.latency_backoff s.latency)

  unfoldable pub should_increase : AdaptiveState F → Bool
  should_increase s =
      cfg.errors_low s.errors && (ltb 0 s.latency && leb s.latency cfg.latency_target)

  unfoldable pub halved : ℕ → ℕ
  halved n = max cfg.parallel_min (n / 2)

  unfoldable pub next_current : AdaptiveState F → ℕ
  unfolding should_backoff should_increase halved
  next_current s =
      if should_backoff s && ltb cfg.parallel_min s.current
      then halved s.current
      else if should_increase s && ltb s.current cfg.parallel_max
      then suc s.current
      else s.current

  -- A new value of `queryRangeParallelCurrent`, with its time if it is another one.
  unfoldable pub adjusted : ℕ → ℕ → AdaptiveState F → AdaptiveState F
  adjusted now n s = if n == s.current then s else record s { current = n; last_adjust = some now }

  unfoldable pub observe_query_range_window_fetch : ℕ → Bool → ℕ → AdaptiveState F → AdaptiveState F
  unfolding smoothed cooling adjusted next_current
  observe_query_range_window_fetch latency failed now s =
      let s1 = smoothed latency failed s in
      if not cfg.adaptive
      then s
      else if cooling now s.last_adjust
      then s1
      else adjusted now (next_current s1) s1

  unfoldable pub force_query_range_parallel_backoff : ℕ → AdaptiveState F → AdaptiveState F
  unfolding halved
  force_query_range_parallel_backoff now s =
      if not cfg.adaptive || leb s.current cfg.parallel_min
      then s
      else record s { current = halved s.current; last_adjust = some now }

  unfoldable pub downstream_connection_pressure : AdaptiveState F → (F → Bool) → Bool
  downstream_connection_pressure s positive =
      cfg.adaptive
      && ((positive s.errors && cfg.errors_high s.errors)
          || ((ltb 0 s.latency && leb cfg.latency_backoff s.latency)
              || (leb s.current cfg.parallel_min
                  && (ltb 0 s.latency && leb cfg.latency_target s.latency))))

  -- The cap for a window that the estimate calls expensive; `estimate` is `none` without one.
  unfoldable pub batch_limit : ℕ → ℕ → Option ℕ → ℕ → ℕ
  unfolding at_least_one
  batch_limit threshold cap none parallel = parallel
  batch_limit threshold cap (some hits) parallel =
      if threshold == 0 || ltb hits threshold
      then parallel
      else if ltb (at_least_one cap) parallel
      then at_least_one cap
      else parallel

  unfoldable pub query_range_window_batch_parallel_limit :
      Bool → ℕ → ℕ → Option ℕ → AdaptiveState F → ℕ × AdaptiveState F
  unfolding query_range_window_parallel_limit batch_limit
  query_range_window_batch_parallel_limit stream_aware threshold cap estimate s =
      let (parallel, s1) = query_range_window_parallel_limit s in
      (
        if not stream_aware || leb parallel 1
            then parallel
            else batch_limit threshold cap estimate parallel,
        s1,
      )

-- What happens to the state, with the time of the clock.
pub data AdaptiveEvent : Type 0 where
  observe : ℕ → Bool → ℕ → AdaptiveEvent
  force : ℕ → AdaptiveEvent
  ask : ℕ → AdaptiveEvent

unfoldable pub event_time : AdaptiveEvent → ℕ
event_time (observe latency failed now) = now
event_time (force now) = now
event_time (ask now) = now

module _ {F : Type 0} (cfg : AdaptiveSettings F) where
  unfoldable pub happen : AdaptiveEvent → AdaptiveState F → AdaptiveState F
  unfolding observe_query_range_window_fetch force_query_range_parallel_backoff
      query_range_window_parallel_limit
  happen (observe latency failed now) s = observe_query_range_window_fetch cfg latency failed now s
  happen (force now) s = force_query_range_parallel_backoff cfg now s
  happen (ask now) s = (query_range_window_parallel_limit cfg s).1

  unfoldable pub run : List AdaptiveEvent → AdaptiveState F → AdaptiveState F
  unfolding happen
  run [] s = s
  run (e ∷ es) s = run es (happen e s)
