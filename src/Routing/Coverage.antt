-- ===== src/Routing/Coverage.antt =====
-- internal/proxy/cold_routing.go: every moment of a query's range is asked of a backend that has it.
use loki_vl_proxy.Prelude.{
  ℕ, ◌≤◌, ◌<◌, ◌≡◌, refl, ◌⊎◌, inl, inr, Bool, true, false, some, arith, Bool-cases,
}
use loki_vl_proxy.Routing.{
  RouteDecision, route_hot_only, route_cold_only, route_both, ColdRouter, hot_boundary, cold_end,
  route_by_time, nothing_cold, route,
}

unfoldable pub asks_hot : RouteDecision → Bool
asks_hot route_hot_only = true
asks_hot route_cold_only = false
asks_hot route_both = true

unfoldable pub asks_cold : RouteDecision → Bool
asks_cold route_hot_only = false
asks_cold route_cold_only = true
asks_cold route_both = true

by_time-covers :
    (now : ℕ) (cr : ColdRouter) (start end t : ℕ)
    → start ≤ t
    → t ≤ end
    → ((t < hot_boundary now cr) × (asks_cold (route_by_time now cr start end) ≡ true))
      ⊎ ((hot_boundary now cr ≤ t)
          × ((asks_hot (route_by_time now cr start end) ≡ true)
              ⊎ ((asks_cold (route_by_time now cr start end) ≡ true) × (t < cold_end now cr))))
unfolding route_by_time asks_hot asks_cold
by_time-covers now cr start end t low high = ground arith

by_time-hot :
    (now : ℕ) (cr : ColdRouter) (start end : ℕ)
    → (start < hot_boundary now cr) ⊎ (route_by_time now cr start end ≡ route_hot_only)
unfolding route_by_time
by_time-hot now cr start end = ground arith

-- A moment of a query's range is asked of a backend that holds it: one from the boundary on, which
-- the hot backend holds, is asked of that, or of the cold one if it is within the overlap; one
-- before the boundary is asked of the cold backend, unless the manifest shows that it holds
-- nothing from the start of the range on. A range from the boundary on is asked of the hot backend
-- alone, also within the overlap.
pub route-covers :
    (now : ℕ) (cr : ColdRouter) (start end t : ℕ)
    → start ≤ t
    → t ≤ end
    → let d = route now (some cr) start end in
      (((t < hot_boundary now cr)
          × ((asks_cold d ≡ true) ⊎ (nothing_cold cr.manifest start ≡ true)))
        ⊎ ((hot_boundary now cr ≤ t)
            × ((asks_hot d ≡ true) ⊎ ((asks_cold d ≡ true) × (t < cold_end now cr)))))
      × ((start < hot_boundary now cr) ⊎ (d ≡ route_hot_only))
unfolding route route_by_time asks_hot asks_cold
route-covers now cr start end t low high = elim (Bool-cases (nothing_cold cr.manifest start)) [
  | inl none_cold ↦ simp none_cold (ground arith, inr refl)
  | inr some_cold ↦
      simp some_cold
        (widen (by_time-covers now cr start end t low high), by_time-hot now cr start end)
]
  where
    d : RouteDecision
    d = route_by_time now cr start end

    widen :
        ((t < hot_boundary now cr) × (asks_cold d ≡ true))
          ⊎ ((hot_boundary now cr ≤ t)
              × ((asks_hot d ≡ true) ⊎ ((asks_cold d ≡ true) × (t < cold_end now cr))))
        → ((t < hot_boundary now cr) × ((asks_cold d ≡ true) ⊎ (false ≡ true)))
          ⊎ ((hot_boundary now cr ≤ t)
              × ((asks_hot d ≡ true) ⊎ ((asks_cold d ≡ true) × (t < cold_end now cr))))
    widen (inl (l, c)) = inl (l, inl c)
    widen (inr h) = inr h
