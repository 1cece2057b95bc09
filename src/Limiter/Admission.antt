-- ===== src/Limiter/Admission.antt =====
-- internal/middleware/ratelimiter.go: never more queries at once than the limit.
use loki_vl_proxy.Prelude.{
  ◌<◌, ℕ, suc, ◌+◌, ◌≤◌, ◌≡◌, Option, none, some, List, [], if◌then◌else◌, length, sum_by,
}
use loki_vl_proxy.Prelude.Int.{ℤ, pos, ltb_ℤ}
use loki_vl_proxy.Limiter.Slots.{Slots}

-- A reading that will be let in.
due : ℕ → ℤ → ℕ
due most c = if ltb_ℤ (pos most) c then 0 else 1

record IsBounded (most : ℕ) (s : Slots) : Type 0 where
  limited : 0 < most
  limit : s.max_concurrent ≡ most
  counted : s.active ≡ pos (s.running + length s.pending)
  bounded : s.running + sum_by (due most) s.pending ≤ most

IsPicked : ℕ → List ℤ → Option (ℤ × List ℤ) → Type 0
IsPicked most cs none = ℕ
IsPicked most cs (some (c, others)) =
    (length cs ≡ suc (length others))
    × (sum_by (due most) cs ≡ due most c + sum_by (due most) others)

-- Without a limit nobody waits and nobody is refused.
record IsUnlimited (s : Slots) : Type 0 where
  no_limit : s.max_concurrent ≡ 0
  none_refused : s.throttled_total ≡ 0
  none_waits : s.pending ≡ []
