-- ===== src/Limiter/Runs.antt =====
-- internal/middleware/ratelimiter.go: histories of the rate limiter, and what one bucket lets in.
use loki_vl_proxy.Prelude.{
  ℕ, suc, ◌+◌, ◌*◌, ◌≤◌, ◌≡◌, Bool, false, ◌&&◌, List, [], ◌∷◌, if◌then◌else◌, ◌==◌, arith,
}
use loki_vl_proxy.Cache.State.{Key}
use loki_vl_proxy.Limiter.Bucket.{
  RateLimiter, one_token, bucket_at, find_bucket, take_bucket, delete_client,
}
use loki_vl_proxy.Limiter.Burst.{price, price-mul, mul_add}
use loki_vl_proxy.Limiter.Worth.{Pays}

-- After some nanoseconds: a request of a client looks for its bucket, or a request that holds the
-- bucket at a place takes its lock, or the cleanup deletes a client, whatever has happened since it was found stale.
pub data Event : Type 0 where
  finds : ℕ → Key → Event
  takes : ℕ → ℕ → Event
  deletes : ℕ → Key → Event

unfoldable pub gap : Event → ℕ
gap (finds g k) = g
gap (takes g i) = g
gap (deletes g k) = g

unfoldable pub step : ℕ → Event → RateLimiter → RateLimiter
unfolding find_bucket take_bucket delete_client
step now (finds g k) rl = (find_bucket now k rl).1
step now (takes g i) rl = (take_bucket now i rl (bucket_at i rl.buckets)).1
step now (deletes g k) rl = delete_client k rl

-- Whether a request is let in through the bucket at `i`.
unfoldable pub lets_in : ℕ → ℕ → Event → RateLimiter → Bool
unfolding take_bucket
lets_in i now (finds g k) rl = false
lets_in i now (takes g j) rl = (i == j) && (take_bucket now j rl (bucket_at j rl.buckets)).0
lets_in i now (deletes g k) rl = false

-- How many are, from `now` on.
unfoldable pub admitted : ℕ → ℕ → List Event → RateLimiter → ℕ
unfolding gap step lets_in
admitted i now [] rl = 0
admitted i now (e ∷ es) rl =
    let n = admitted i (now + gap e) es (step (now + gap e) e rl) in
    if lets_in i (now + gap e) e rl then suc n else n

unfoldable pub duration : List Event → ℕ
unfolding gap
duration [] = 0
duration (e ∷ es) = gap e + duration es

-- The rates stay, and the bucket pays for what it lets in.
record Stepped (i now : ℕ) (ok : Bool) (rl rl' : RateLimiter) : Type 0 where
  same_rate : rl'.rate_per_second ≡ rl.rate_per_second
  same_burst : rl'.burst_size ≡ rl.burst_size
  pays :
      Pays rl.rate_per_second rl.burst_size now ok
        (bucket_at i rl.buckets)
        (bucket_at i rl'.buckets)

spent :
    (x : Bool) (n w0 w1 w2 g rest rate : ℕ)
    → w1 ≤ w0 + g * rate
    → price x + w2 ≤ w1
    → n * one_token ≤ w2 + rest * rate
    → (if x then suc n else n) * one_token ≤ w0 + (g + rest) * rate
spent x n w0 w1 w2 g rest rate grown cost ih =
    let e = price-mul x n in let e' = mul_add g rest rate in omega arith
