-- ===== src/Coalescer.antt =====
-- internal/middleware/coalescer.go: the requests in flight under each key, and the guard that a
-- request without company must pass. What runs between entering and leaving (the single flight
-- and the call of the backend) is left to the caller: each goroutine enters, and leaves some time
-- after it was let in.
pub mod Runs
mod Tests
use loki_vl_proxy.Prelude.{
  ℕ, zero, suc, ◌+◌, ◌-◌, Bool, true, false, ◌&&◌, not, Option, none, some, List, [], ◌∷◌,
  if◌then◌else◌, ◌==◌, length,
}
use loki_vl_proxy.Cache.State.{Key, key_dec}
use loki_vl_proxy.Cache.Assoc.{lookup, put, remove, has, erase}

-- `inside` lists the keys of the goroutines that are between entering and leaving.
pub record Coalescer (G : Type 0) : Type 0 where
  pub inflight : List (Key × ℕ)
  pub disabled : Bool
  pub guard_state : G
  pub inside : List Key

-- `c.inflight[key]`, 0 when missing
unfoldable pub count_or_zero : Option ℕ → ℕ
count_or_zero none = 0
count_or_zero (some n) = n

-- After `c.inflight[key]--`: a count of 0 is deleted.
unfoldable pub store_count : Key → ℕ → List (Key × ℕ) → List (Key × ℕ)
store_count k n inflight = if n == 0 then remove key_dec k inflight else put key_dec k n inflight

module _ {G : Type 0} (guard : G → Bool × G) where
  unfoldable pub new_coalescer : G → Coalescer G
  new_coalescer g = record { inflight = []; disabled = false; guard_state = g; inside = [] }

  unfoldable pub new_coalescer_disabled : G → Coalescer G
  new_coalescer_disabled g = record { inflight = []; disabled = true; guard_state = g; inside = [] }

  -- Past the guard.
  unfoldable pub let_in : Key → ℕ → G → Coalescer G → Coalescer G
  let_in k count g c = record {
    inflight = put key_dec k (suc count) c.inflight;
    disabled = c.disabled;
    guard_state = g;
    inside = k ∷ c.inside;
  }

  unfoldable pub ask_guard : Key → ℕ → Bool × G → Coalescer G → Bool × Coalescer G
  unfolding let_in
  ask_guard k count (true, g) c = (true, let_in k count g c)
  ask_guard k count (false, g) c = (
    false,
    record { inflight = c.inflight; disabled = c.disabled; guard_state = g; inside = c.inside },
  )

  -- The first critical section of `DoWithGuard`.
  unfoldable pub enter_shared : Key → Coalescer G → Bool × Coalescer G
  unfolding count_or_zero ask_guard
  enter_shared k c =
      let count = count_or_zero (lookup key_dec k c.inflight) in
      if count == 0
      then ask_guard k count (guard c.guard_state) c
      else (true, let_in k count c.guard_state c)

  unfoldable pub direct : Bool × G → Coalescer G → Bool × Coalescer G
  direct (ok, g) c = (
    ok,
    record { inflight = c.inflight; disabled = c.disabled; guard_state = g; inside = c.inside },
  )

  -- Whether the request may go on; `false` is `ErrGuardRejected`.
  unfoldable pub enter : Key → Coalescer G → Bool × Coalescer G
  unfolding enter_shared direct
  enter k c = if c.disabled then direct (guard c.guard_state) c else enter_shared k c

  -- The second critical section.
  unfoldable pub leave_shared : Key → Coalescer G → Coalescer G
  unfolding store_count count_or_zero
  leave_shared k c = record {
    inflight = store_count k (count_or_zero (lookup key_dec k c.inflight) - 1) c.inflight;
    disabled = c.disabled;
    guard_state = c.guard_state;
    inside = erase key_dec k c.inside;
  }

  pub data Event : Type 0 where
    entering : Key → Event
    leaving : Key → Event

  -- Only a goroutine that is inside leaves.
  unfoldable pub step : Event → Coalescer G → Coalescer G
  unfolding enter leave_shared
  step (entering k) c = (enter k c).1
  step (leaving k) c = if has key_dec k c.inside then leave_shared k c else c

  unfoldable pub run : List Event → Coalescer G → Coalescer G
  unfolding step
  run [] c = c
  run (e ∷ es) c = run es (step e c)
