-- ===== src/Breaker/Recovery.antt =====
-- The way back from open to closed.
use loki_vl_proxy.Prelude.{
  ℕ, zero, suc, ◌+◌, ◌≤◌, ◌<◌, ◌≡◌, ◌≢◌, [], ◌⊎◌, inl, inr, arith, max, leb, Bool-cases,
}
use loki_vl_proxy.Breaker.{
  CircuitBreaker, CbState, closed, open_, half_open, allow, allow_locked, record_success,
  record_success_locked,
}

-- `n` successes of requests that found the breaker tripped.
unfoldable pub record_successes : ℕ → CircuitBreaker → CircuitBreaker
record_successes zero cb = cb
record_successes (suc n) cb = record_successes n (record_success half_open cb)

-- Closed, published as closed, with no failure on record and as many trips as before.
pub record Recovered (before after : CircuitBreaker) : Type 0 where
  pub is_closed : after.state ≡ closed
  pub is_published : after.atomic_state ≡ closed
  pub forgiven : after.failure_times ≡ []
  pub no_trip : after.trips_total ≡ before.trips_total

closed-record_successes :
    (n : ℕ) (b cb : CircuitBreaker) → Recovered b cb → Recovered b (record_successes n cb)
unfolding record_successes record_success record_success_locked
closed-record_successes zero b cb r = r
closed-record_successes (suc n) b cb r =
    closed-record_successes n b (record_success half_open cb) (ground arith)

record_success-half_open :
    (b cb : CircuitBreaker)
    → cb.state ≡ half_open
    → cb.trips_total ≡ b.trips_total
    → let after = record_success half_open cb in
      Recovered b after
      ⊎ ((after.state ≡ half_open)
          × (after.trips_total ≡ b.trips_total)
          × (after.success_threshold ≡ cb.success_threshold)
          × (after.successes ≡ cb.successes + 1)
          × (cb.successes + 1 < cb.success_threshold))
unfolding record_success record_success_locked
record_success-half_open b cb h t =
    elim (Bool-cases (leb cb.success_threshold (cb.successes + 1))) [
      | inl done ↦ inl (ground arith)
      | inr more ↦ inr (ground arith)
    ]

half_open-record_successes :
    (n : ℕ) (b cb : CircuitBreaker)
    → cb.state ≡ half_open
    → cb.trips_total ≡ b.trips_total
    → cb.success_threshold ≤ n + cb.successes
    → 0 < n
    → Recovered b (record_successes n cb)
unfolding record_successes
half_open-record_successes zero b cb h t e p = absurd (omega arith)
half_open-record_successes (suc n) b cb h t e p = elim (record_success-half_open b cb h t) [
  | inl r ↦ closed-record_successes n b (record_success half_open cb) r
  | inr (h', t', k, s, less) ↦
      half_open-record_successes n b (record_success half_open cb) h' t' (omega arith) (omega arith)
]

-- After `open_until`, one admitted request and then `success_threshold` successes (at least one)
-- close an open breaker: the state and the published state are closed, the recorded failures are
-- gone, and no trip is counted.
pub record_successes-closed :
    (n now : ℕ) (seen : CbState) (cb : CircuitBreaker)
    → cb.state ≡ open_
    → seen ≢ closed
    → cb.open_until < now
    → max 1 cb.success_threshold ≤ n
    → Recovered cb (record_successes n (allow seen now cb).0)
record_successes-closed n now seen cb h s l m =
    let p = probe in
    half_open-record_successes n cb (allow seen now cb).0 p.0 p.1 (omega arith) (omega arith)
  where
    probe :
        ((allow seen now cb).0.state ≡ half_open)
        × ((allow seen now cb).0.trips_total ≡ cb.trips_total)
        × ((allow seen now cb).0.success_threshold ≡ cb.success_threshold)
    probe = unfold allow allow_locked in ground arith
