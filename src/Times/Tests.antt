-- ===== src/Times/Tests.antt =====
-- internal/proxy: times at work.
use loki_vl_proxy.Prelude.{ℕ, ◌+◌, ◌*◌, ◌≤◌, ◌<◌, ◌≡◌, refl, some, arith}
use loki_vl_proxy.Times.Normalize.{
  normalize_unix_seconds, normalize_unix_nanos, normalize_loki_int_time_to_unix_nano,
  nanos_to_vl_timestamp,
}
use loki_vl_proxy.Times.Units.{
  normalize_loki_int_time_to_unix_nano-units, normalize_unix_nanos-units,
}
use loki_vl_proxy.Times.Grid.{metric_eval_point_count, IsCounted, metric_eval_point_count-IsCounted}
use loki_vl_proxy.Times.Buckets.{
  RequestedBucketRange, parse_requested_bucket_range, bucket_for, bucket, max_zero_fill_buckets,
  bucket_for-parse_requested_bucket_range,
}

normalize_loki_int_time_to_unix_nano-units_example :
    (normalize_loki_int_time_to_unix_nano 1_700_000_000 ≡ 1_700_000_000 * 1_000_000_000)
    × (normalize_loki_int_time_to_unix_nano (1_700_000_000 * 1_000) ≡ 1_700_000_000 * 1_000_000_000)
    × (normalize_loki_int_time_to_unix_nano (1_700_000_000 * 1_000_000)
        ≡ 1_700_000_000 * 1_000_000_000)
    × (normalize_loki_int_time_to_unix_nano (1_700_000_000 * 1_000_000_000)
        ≡ 1_700_000_000 * 1_000_000_000)
    × (nanos_to_vl_timestamp (normalize_loki_int_time_to_unix_nano 1_700_000_000) ≡ 1_700_000_000)
normalize_loki_int_time_to_unix_nano-units_example =
    normalize_loki_int_time_to_unix_nano-units 1_700_000_000 (omega arith) (omega arith)

normalize_unix_nanos-units_example :
    (normalize_unix_nanos 1_700_000_000 ≡ normalize_loki_int_time_to_unix_nano 1_700_000_000)
    × (normalize_unix_nanos (1_700_000_000 * 1_000)
        ≡ normalize_loki_int_time_to_unix_nano (1_700_000_000 * 1_000))
    × (normalize_unix_nanos (1_700_000_000 * 1_000_000)
        ≡ normalize_loki_int_time_to_unix_nano (1_700_000_000 * 1_000_000))
    × (normalize_unix_nanos (1_700_000_000 * 1_000_000_000)
        ≡ normalize_loki_int_time_to_unix_nano (1_700_000_000 * 1_000_000_000))
    × (normalize_unix_seconds 1_700_000_000 ≡ 1_700_000_000)
    × (normalize_unix_seconds (1_700_000_000 * 1_000) ≡ 1_700_000_000)
    × (normalize_unix_seconds (1_700_000_000 * 1_000_000) ≡ 1_700_000_000)
    × (normalize_unix_seconds (1_700_000_000 * 1_000_000_000) ≡ 1_700_000_000)
normalize_unix_nanos-units_example =
    normalize_unix_nanos-units 1_700_000_000 (omega arith) (omega arith)

metric_eval_point_count-IsCounted_example : IsCounted 0 100 7 (metric_eval_point_count 0 100 7)
metric_eval_point_count-IsCounted_example = metric_eval_point_count-IsCounted 0 100 7

abbrev minutes : RequestedBucketRange
minutes = record { start = 30; end = 300; step = 60; count = 5 }

bucket_for-parse_requested_bucket_range_example :
    (i : ℕ) × (i < minutes.count)
    × (minutes.count ≤ max_zero_fill_buckets)
    × (bucket_for minutes 100 ≡ some (bucket minutes i))
    × (bucket minutes i ≤ 100)
    × (100 < bucket minutes i + minutes.step)
unfolding parse_requested_bucket_range
bucket_for-parse_requested_bucket_range_example =
    bucket_for-parse_requested_bucket_range 30 300 60 100 minutes refl (omega arith) (omega arith)
