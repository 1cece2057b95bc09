-- ===== src/Routing.antt =====
-- internal/proxy/cold_routing.go: which of the hot and the cold backend a query of a time range is
-- sent to. Times are nanoseconds from 1970 on, and the boundary is not longer than that.
pub mod Coverage
mod Tests
use loki_vl_proxy.Prelude.{
  ℕ, ◌+◌, ◌-◌, Bool, true, false, ◌&&◌, ◌||◌, not, Option, none, some, List, if◌then◌else◌, ltb,
  ◌==◌,
}
use loki_vl_proxy.Logql.Text.{codes}

pub data RouteDecision : Type 0 where
  route_hot_only : RouteDecision
  route_cold_only : RouteDecision
  route_both : RouteDecision

unfoldable pub decision_string : RouteDecision → List ℕ
decision_string route_hot_only = codes "hot"
decision_string route_cold_only = codes "cold"
decision_string route_both = codes "both"

pub record ManifestRange : Type 0 where
  pub max_time : ℕ
  pub total_files : ℕ

pub record ColdRouter : Type 0 where
  pub boundary : ℕ
  pub overlap : ℕ
  pub manifest : Option ManifestRange

unfoldable pub hot_boundary : ℕ → ColdRouter → ℕ
hot_boundary now cr = now - cr.boundary

unfoldable pub cold_end : ℕ → ColdRouter → ℕ
unfolding hot_boundary
cold_end now cr = hot_boundary now cr + cr.overlap

-- By the bounds alone.
unfoldable pub route_by_time : ℕ → ColdRouter → ℕ → ℕ → RouteDecision
unfolding hot_boundary cold_end
route_by_time now cr start end =
    if ltb end (cold_end now cr) && ltb start (hot_boundary now cr)
    then route_cold_only
    else if ltb (hot_boundary now cr) start || start == hot_boundary now cr
    then route_hot_only
    else route_both

-- A manifest that has nothing from the start on.
unfoldable pub nothing_cold : Option ManifestRange → ℕ → Bool
nothing_cold none start = false
nothing_cold (some m) start = m.total_files == 0 || ltb m.max_time start

unfoldable pub route : ℕ → Option ColdRouter → ℕ → ℕ → RouteDecision
unfolding nothing_cold route_by_time
route now none start end = route_hot_only
route now (some cr) start end =
    if nothing_cold cr.manifest start then route_hot_only else route_by_time now cr start end
