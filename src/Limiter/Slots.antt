-- ===== src/Limiter/Slots.antt =====
-- internal/middleware/ratelimiter.go, `AcquireConcurrent` and `ReleaseConcurrent`. A limit of 0
-- stands for any that is not positive, and means none. A request adds itself to the counter in one
-- atomic step and compares what it read in a later one; other requests may run in between. The
-- counter stays far from the bounds of int32.
use loki_vl_proxy.Prelude.{
  ℕ, zero, suc, ◌-◌, Bool, true, false, Option, none, some, List, [], ◌∷◌, if◌then◌else◌, ◌==◌,
}
use loki_vl_proxy.Prelude.Int.{ℤ, pos, ◌+ℤ◌, ◌-ℤ◌, ltb_ℤ}

-- `pending` holds what the requests read that did not compare yet, `running` counts those let in.
pub record Slots : Type 0 where
  pub max_concurrent : ℕ
  pub active : ℤ
  pub throttled_total : ℕ
  pub pending : List ℤ
  pub running : ℕ

unfoldable pub no_requests : ℕ → Slots
no_requests n = record {
  max_concurrent = n;
  active = pos 0;
  throttled_total = 0;
  pending = [];
  running = 0;
}

-- `current := rl.active.Add(1)`
unfoldable pub acquire_add : Slots → Slots
acquire_add s =
    let current = s.active +ℤ pos 1 in record s { active = current; pending = current ∷ s.pending }

-- Without a limit the counter is left alone.
unfoldable pub acquire_concurrent : Slots → Slots
unfolding acquire_add
acquire_concurrent s =
    if s.max_concurrent == 0 then record s { running = suc s.running } else acquire_add s

-- Comparing and, over the limit, undoing; whether the request is let in.
unfoldable pub acquire_check : ℤ → Slots → Bool × Slots
acquire_check current s =
    if ltb_ℤ (pos s.max_concurrent) current
    then (false, record s { active = s.active -ℤ pos 1; throttled_total = suc s.throttled_total })
    else (true, record s { running = suc s.running })

-- With a limit or without.
unfoldable pub release_concurrent : Slots → Slots
release_concurrent s = record s { active = s.active -ℤ pos 1; running = s.running - 1 }

pub data Event : Type 0 where
  arrive : Event
  compare_at : ℕ → Event
  finish : Event

-- What the request at a place read, and the others.
unfoldable pub pick : ℕ → List ℤ → Option (ℤ × List ℤ)
pick n [] = none
pick zero (c ∷ cs) = some (c, cs)
pick (suc n) (c ∷ cs) = elim (pick n cs) [ none ↦ none | some (d, ds) ↦ some (d, c ∷ ds) ]

unfoldable pub compared : Slots → Option (ℤ × List ℤ) → Slots
unfolding acquire_check
compared s none = s
compared s (some (current, others)) = (acquire_check current (record s { pending = others })).1

-- Only a request that was let in releases its slot.
unfoldable pub step : Event → Slots → Slots
unfolding acquire_concurrent compared pick release_concurrent
step arrive s = acquire_concurrent s
step (compare_at i) s = compared s (pick i s.pending)
step finish s = if s.running == 0 then s else release_concurrent s

unfoldable pub run : List Event → Slots → Slots
unfolding step
run [] s = s
run (e ∷ es) s = run es (step e s)
