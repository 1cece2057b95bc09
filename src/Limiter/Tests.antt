-- ===== src/Limiter/Tests.antt =====
-- internal/middleware/ratelimiter.go: runs.
use loki_vl_proxy.Prelude.{refl, ◌≡◌, List, [], ◌∷◌}
use loki_vl_proxy.Limiter.Bucket.{bucket_at, new_rate_limiter}
use loki_vl_proxy.Limiter.Runs
use loki_vl_proxy.Limiter.Runs.{admitted}
use loki_vl_proxy.Cache.State.{Key, key_dec}
use loki_vl_proxy.Cache.Assoc.{lookup, remove, put}
use loki_vl_proxy.Limiter.Slots.{Event, arrive, compare_at, finish}

abbrev alice : Key
alice = 97 ∷ []

-- The client's bucket is found stale and deleted, though a request still holds it.
abbrev crowd : List Runs.Event
crowd =
    Runs.Event.finds 0 alice
    ∷ Runs.Event.takes 5 0
    ∷ Runs.Event.takes 0 0
    ∷ Runs.Event.deletes 2_000_000_000 alice
    ∷ Runs.Event.takes 0 0
    ∷ Runs.Event.finds 0 alice
    ∷ Runs.Event.takes 0 1
    ∷ []

-- A second full burst, through the client's second bucket.
second_burst :
    (admitted 0 7 crowd (new_rate_limiter 2 2 1_000_000_000) ≡ 3)
    × (admitted 1 7 crowd (new_rate_limiter 2 2 1_000_000_000) ≡ 1)
unfolding admitted new_rate_limiter bucket_at lookup remove put key_dec
second_burst = (refl, refl)

abbrev rush : List Event
rush = arrive ∷ arrive ∷ compare_at 1 ∷ arrive ∷ compare_at 0 ∷ finish ∷ compare_at 0 ∷ []
