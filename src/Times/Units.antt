-- ===== src/Times/Units.antt =====
-- internal/proxy: a moment is read the same in every unit.
use loki_vl_proxy.Prelude.{ℕ, ◌*◌, ◌%◌, ◌≤◌, ◌<◌, ◌≡◌, arith}
use loki_vl_proxy.Times.Normalize.{
  times_int64, normalize_unix_seconds, normalize_unix_nanos, normalize_loki_int_time_to_unix_nano,
  nanos_to_vl_timestamp,
}

-- Between March 1973 and the year 2262, a moment of whole seconds is read as the same nanoseconds
-- whether a request gives it in seconds, milliseconds, microseconds or nanoseconds, and the
-- seconds come back when it is sent on to VictoriaLogs.
pub normalize_loki_int_time_to_unix_nano-units :
    (s : ℕ)
    → 100_000_000 ≤ s
    → s ≤ 9_223_372_036
    → (normalize_loki_int_time_to_unix_nano s ≡ s * 1_000_000_000)
      × (normalize_loki_int_time_to_unix_nano (s * 1_000) ≡ s * 1_000_000_000)
      × (normalize_loki_int_time_to_unix_nano (s * 1_000_000) ≡ s * 1_000_000_000)
      × (normalize_loki_int_time_to_unix_nano (s * 1_000_000_000) ≡ s * 1_000_000_000)
      × (nanos_to_vl_timestamp (normalize_loki_int_time_to_unix_nano s) ≡ s)
unfolding normalize_loki_int_time_to_unix_nano times_int64 nanos_to_vl_timestamp
normalize_loki_int_time_to_unix_nano-units s low high = ground arith

-- The two readings of whole numbers, by normalizeUnixNanos and by normalizeLokiIntTimeToUnixNano,
-- agree on a moment from September 2001 to the year 2262 in each of the four units, and so does
-- normalizeUnixSeconds, which keeps the seconds.
pub normalize_unix_nanos-units :
    (s : ℕ)
    → 1_000_000_000 ≤ s
    → s ≤ 9_223_372_036
    → (normalize_unix_nanos s ≡ normalize_loki_int_time_to_unix_nano s)
      × (normalize_unix_nanos (s * 1_000) ≡ normalize_loki_int_time_to_unix_nano (s * 1_000))
      × (normalize_unix_nanos (s * 1_000_000)
          ≡ normalize_loki_int_time_to_unix_nano (s * 1_000_000))
      × (normalize_unix_nanos (s * 1_000_000_000)
          ≡ normalize_loki_int_time_to_unix_nano (s * 1_000_000_000))
      × (normalize_unix_seconds s ≡ s)
      × (normalize_unix_seconds (s * 1_000) ≡ s)
      × (normalize_unix_seconds (s * 1_000_000) ≡ s)
      × (normalize_unix_seconds (s * 1_000_000_000) ≡ s)
unfolding normalize_loki_int_time_to_unix_nano normalize_unix_nanos normalize_unix_seconds
    times_int64
normalize_unix_nanos-units s low high = ground arith

-- They part below: a number of milliseconds from March 1973 on and before September 2001 is taken
-- for seconds by normalizeUnixNanos, and the product no longer fits into an int64.
pub normalize_unix_nanos-overflow :
    (s : ℕ)
    → 100_000_000 ≤ s
    → s < 1_000_000_000
    → (normalize_unix_nanos (s * 1_000) ≡ (s * 1_000_000_000_000) % 18446744073709551616)
      × (normalize_loki_int_time_to_unix_nano (s * 1_000) ≡ s * 1_000_000_000)
unfolding normalize_loki_int_time_to_unix_nano normalize_unix_nanos times_int64
normalize_unix_nanos-overflow s low high = ground arith
