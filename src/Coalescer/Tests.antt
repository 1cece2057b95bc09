-- ===== src/Coalescer/Tests.antt =====
-- internal/middleware/coalescer.go: a run behind a guard that lets one request pass.
use loki_vl_proxy.Prelude.{ℕ, ◌≡◌, ◌-◌, ◌==◌, Bool, true, List, [], ◌∷◌, if◌then◌else◌, ltb}
use loki_vl_proxy.Cache.State.{Key, key_dec}
use loki_vl_proxy.Cache.Assoc.{lookup}
use loki_vl_proxy.Coalescer.{
  Event, entering, leaving, run, new_coalescer, enter_shared, count_or_zero,
}
use loki_vl_proxy.Coalescer.Runs.{occupancy, enter-run}

abbrev one_probe : ℕ → Bool × ℕ
one_probe n = (ltb 0 n, n - 1)

abbrev probe_key : Key
probe_key = 1 ∷ []

abbrev joined : List (Event one_probe)
joined = entering probe_key ∷ entering probe_key ∷ leaving probe_key ∷ []

enter-run_example :
    let c = run one_probe joined (new_coalescer one_probe 1) in
    (count_or_zero (lookup key_dec probe_key c.inflight) ≡ occupancy probe_key c.inside)
    × ((enter_shared one_probe probe_key c).0
        ≡ (if occupancy probe_key c.inside == 0 then (one_probe c.guard_state).0 else true))
    × ((enter_shared one_probe probe_key c).1.guard_state ≡ (
        if occupancy probe_key c.inside == 0 then (one_probe c.guard_state).1 else c.guard_state))
enter-run_example = enter-run one_probe joined 1 probe_key
