-- ===== src/Times/Normalize.antt =====
-- internal/proxy/time_utils.go and query_range_windowing.go: whole numbers are taken for seconds,
-- milliseconds, microseconds or nanoseconds by their size. Times are from 1970 on, where the
-- absolute value is the number itself; a product is an int64, here its 64 bits.
use loki_vl_proxy.Prelude.{ℕ, ◌*◌, ◌/◌, ◌%◌, if◌then◌else◌, leb, ltb}

-- An int64 product.
unfoldable pub times_int64 : ℕ → ℕ → ℕ
times_int64 v k = (v * k) % 18446744073709551616

unfoldable pub normalize_unix_seconds : ℕ → ℕ
normalize_unix_seconds v =
    if leb 1_000_000_000_000_000_000 v
    then v / 1_000_000_000
    else if leb 1_000_000_000_000_000 v
    then v / 1_000_000
    else if leb 1_000_000_000_000 v
    then v / 1_000
    else v

unfoldable pub normalize_unix_nanos : ℕ → ℕ
unfolding times_int64
normalize_unix_nanos v =
    if leb 1_000_000_000_000_000_000 v
    then v
    else if leb 1_000_000_000_000_000 v
    then times_int64 v 1_000
    else if leb 1_000_000_000_000 v
    then times_int64 v 1_000_000
    else times_int64 v 1_000_000_000

unfoldable pub normalize_loki_int_time_to_unix_nano : ℕ → ℕ
unfolding times_int64
normalize_loki_int_time_to_unix_nano v =
    if ltb v 100_000_000_000
    then times_int64 v 1_000_000_000
    else if ltb v 100_000_000_000_000
    then times_int64 v 1_000_000
    else if ltb v 100_000_000_000_000_000
    then times_int64 v 1_000
    else v

-- The number of seconds of `nanosToVLTimestamp`, before it is printed.
unfoldable pub nanos_to_vl_timestamp : ℕ → ℕ
nanos_to_vl_timestamp nanos = nanos / 1_000_000_000
