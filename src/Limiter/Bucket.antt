-- ===== src/Limiter/Bucket.antt =====
-- internal/middleware/ratelimiter.go, `AllowClient`. Time is in nanoseconds and never runs
-- backwards; tokens are counted in billionths, so that a rate of whole tokens per second makes
-- whole billionths in each nanosecond: the arithmetic of the code less the rounding of float64.
use loki_vl_proxy.Prelude.{
  zero, suc, length, ◌++◌, ℕ, ◌+◌, ◌-◌, ◌*◌, Bool, true, false, Option, none, some, List, [], ◌∷◌,
  if◌then◌else◌, ltb, ◌==◌,
}
use loki_vl_proxy.Cache.State.{Key, key_dec}
use loki_vl_proxy.Cache.Assoc.{lookup, put, remove}

abbrev pub one_token : ℕ
one_token = 1000000000

pub record TokenBucket : Type 0 where
  pub tokens : ℕ
  pub last_time : ℕ

-- The buckets stand in the order in which they were made, and a pointer to one is its place. The map
-- of the clients holds pointers; a request may still hold one that the map has lost.
pub record RateLimiter : Type 0 where
  pub clients : List (Key × ℕ)
  pub buckets : List TokenBucket
  pub rate_per_second : ℕ
  pub burst_size : ℕ
  pub stale_after : ℕ
  pub rejected_total : ℕ

unfoldable pub bucket_at : ℕ → List TokenBucket → Option TokenBucket
bucket_at n [] = none
bucket_at zero (b ∷ bs) = some b
bucket_at (suc n) (b ∷ bs) = bucket_at n bs

unfoldable pub set_bucket : ℕ → TokenBucket → List TokenBucket → List TokenBucket
set_bucket n b' [] = []
set_bucket zero b' (b ∷ bs) = b' ∷ bs
set_bucket (suc n) b' (b ∷ bs) = b ∷ set_bucket n b' bs

-- The tokens of a bucket at `now`.
unfoldable pub refill : ℕ → ℕ → ℕ → TokenBucket → ℕ
refill rate burst now b =
    let t = b.tokens + (now - b.last_time) * rate in
    if ltb (burst * one_token) t then burst * one_token else t

unfoldable pub take_from : ℕ → ℕ → Bool × TokenBucket
take_from t now =
    if ltb t one_token
    then (false, record { tokens = t; last_time = now })
    else (true, record { tokens = t - one_token; last_time = now })

unfoldable pub take_token : ℕ → ℕ → ℕ → TokenBucket → Bool × TokenBucket
unfolding take_from refill
take_token rate burst now b = take_from (refill rate burst now b) now

unfoldable pub full_bucket : ℕ → ℕ → TokenBucket
full_bucket burst now = record { tokens = burst * one_token; last_time = now }

-- `LoadOrStore`, one step: the client's bucket, or a new and full one.
unfoldable pub load_or_store : ℕ → Key → RateLimiter → Option ℕ → ℕ × RateLimiter
unfolding full_bucket
load_or_store now client rl (some i) = (i, rl)
load_or_store now client rl none = (
  length rl.buckets,
  record rl {
    clients = put key_dec client (length rl.buckets) rl.clients;
    buckets = rl.buckets ++ full_bucket rl.burst_size now ∷ [];
  },
)

-- The start of `AllowClient`: without a rate the request is let in, otherwise it gets a bucket.
unfoldable pub find_bucket : ℕ → Key → RateLimiter → Option ℕ × RateLimiter
unfolding load_or_store
find_bucket now client rl =
    let (i, rl') = load_or_store now client rl (lookup key_dec client rl.clients) in
    if rl.rate_per_second == 0 then (none, rl) else (some i, rl')

-- The rest of `AllowClient`, under the lock of the bucket; other steps may come before it.
unfoldable pub take_bucket : ℕ → ℕ → RateLimiter → Option TokenBucket → Bool × RateLimiter
unfolding take_token set_bucket
take_bucket now i rl none = (false, rl)
take_bucket now i rl (some b) =
    let (ok, b') = take_token rl.rate_per_second rl.burst_size now b in
    (
      ok,
      record rl {
        buckets = set_bucket i b' rl.buckets;
        rejected_total = rl.rejected_total + (if ok then 0 else 1);
      },
    )

-- A tick of `cleanupStaleClients` tests each bucket under its lock, without a change, and deletes
-- those found stale in a later step each.
unfoldable pub is_stale : ℕ → ℕ → TokenBucket → Bool
is_stale now stale_after b = ltb b.last_time (now - stale_after)

unfoldable pub delete_client : Key → RateLimiter → RateLimiter
delete_client k rl = record rl { clients = remove key_dec k rl.clients }

unfoldable pub new_rate_limiter : ℕ → ℕ → ℕ → RateLimiter
new_rate_limiter rate burst stale_after = record {
  clients = [];
  buckets = [];
  rate_per_second = rate;
  burst_size = burst;
  stale_after = stale_after;
  rejected_total = 0;
}
