-- ===== src/Routing/Tests.antt =====
-- internal/proxy/cold_routing.go: a query around the boundary.
use loki_vl_proxy.Prelude.{◌≤◌, ◌<◌, ◌≡◌, ◌⊎◌, true, some, arith}
use loki_vl_proxy.Routing.{route_hot_only, ColdRouter, hot_boundary, cold_end, nothing_cold, route}
use loki_vl_proxy.Routing.Coverage.{asks_hot, asks_cold, route-covers}

abbrev week : ColdRouter
week = record {
  boundary = 700;
  overlap = 100;
  manifest = some (record { max_time = 390; total_files = 3 });
}

route-covers_example :
    let d = route 1000 (some week) 250 350 in
    (((320 < hot_boundary 1000 week)
        × ((asks_cold d ≡ true) ⊎ (nothing_cold week.manifest 250 ≡ true)))
      ⊎ ((hot_boundary 1000 week ≤ 320)
          × ((asks_hot d ≡ true) ⊎ ((asks_cold d ≡ true) × (320 < cold_end 1000 week)))))
    × ((250 < hot_boundary 1000 week) ⊎ (d ≡ route_hot_only))
route-covers_example = route-covers 1000 week 250 350 320 (omega arith) (omega arith)
