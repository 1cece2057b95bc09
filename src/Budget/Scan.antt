-- ===== src/Budget/Scan.antt =====
-- internal/proxy/manual_scan_budget.go: the pool of sample slots that the manual scans draw from,
-- and the scans themselves, run in any interleaving.
use loki_vl_proxy.Prelude.{
  ℕ, zero, suc, ◌+◌, ◌-◌, Bool, true, false, Option, none, some, List, [], ◌∷◌, if◌then◌else◌, ltb,
  leb, ◌==◌,
}

abbrev pub default_manual_scan_sample_budget : ℕ
default_manual_scan_sample_budget = 2000000

abbrev pub manual_scan_reservation_chunk : ℕ
manual_scan_reservation_chunk = 4096

-- The slots that remain.
unfoldable pub new_manual_scan_budget : ℕ → ℕ
new_manual_scan_budget total = if total == 0 then default_manual_scan_sample_budget else total

-- One round of the loop: `left` is what its load read, which other scans may have made stale.
-- `none` when the compare-and-swap fails, and the loop goes round again.
unfoldable pub reserve : ℕ → ℕ → ℕ → Option (Bool × ℕ)
reserve left n remaining =
    if ltb left n
    then some (false, remaining)
    else if remaining == left
    then some (true, left - n)
    else none

unfoldable pub release : ℕ → ℕ → ℕ
release n remaining = if ltb 0 n then remaining + n else remaining

-- One scan's draw on the pool.
pub record Reservation : Type 0 where
  pub held : ℕ
  pub used : ℕ

unfoldable pub new_manual_scan_reservation : Reservation
new_manual_scan_reservation = record { held = 0; used = 0 }

-- After the round of `reserve`.
unfoldable pub accounted : Reservation → ℕ → Option (Bool × ℕ) → Option (Bool × (Reservation × ℕ))
accounted r remaining none = none
accounted r remaining (some (false, now)) = some (false, (r, now))
accounted r remaining (some (true, now)) =
    some (true, (record { held = r.held + manual_scan_reservation_chunk; used = suc r.used }, now))

-- Whether one more sample is retained, the draw and the pool after it; `none` as in `reserve`,
-- and the call goes on from where it was.
unfoldable pub account : ℕ → Reservation → ℕ → Option (Bool × (Reservation × ℕ))
unfolding accounted reserve
account left r remaining =
    if leb (suc r.used) r.held
    then some (true, (record { held = r.held; used = suc r.used }, remaining))
    else accounted r remaining (reserve left manual_scan_reservation_chunk remaining)

unfoldable pub release_reservation : Reservation → ℕ → Reservation × ℕ
unfolding release
release_reservation r remaining = (record { held = 0; used = 0 }, release r.held remaining)

-- The pool with the draws of all scans.
pub record Scans : Type 0 where
  pub remaining : ℕ
  pub draws : List Reservation

pub data Event : Type 0 where
  start : Event
  retain : ℕ → ℕ → Event
  finish : ℕ → Event

unfoldable pub nth : ℕ → List Reservation → Option Reservation
nth n [] = none
nth zero (r ∷ rs) = some r
nth (suc n) (r ∷ rs) = nth n rs

unfoldable pub replace : ℕ → Reservation → List Reservation → List Reservation
replace n r' [] = []
replace zero r' (r ∷ rs) = r' ∷ rs
replace (suc n) r' (r ∷ rs) = r ∷ replace n r' rs

unfoldable pub retained : ℕ → Scans → Option (Bool × (Reservation × ℕ)) → Scans
unfolding replace
retained i s none = s
retained i s (some (ok, (r, now))) = record { remaining = now; draws = replace i r s.draws }

unfoldable pub retain_at : ℕ → ℕ → Scans → Option Reservation → Scans
unfolding retained account
retain_at i left s none = s
retain_at i left s (some r) = retained i s (account left r s.remaining)

unfoldable pub finish_at : ℕ → Scans → Option Reservation → Scans
unfolding release_reservation replace
finish_at i s none = s
finish_at i s (some r) =
    let (r', now) = release_reservation r s.remaining in
    record { remaining = now; draws = replace i r' s.draws }

-- A scan starts, retains a sample (with the value that its load reads) or is over.
unfoldable pub step : Event → Scans → Scans
unfolding new_manual_scan_reservation retain_at finish_at nth
step start s = record { remaining = s.remaining; draws = new_manual_scan_reservation ∷ s.draws }
step (retain i left) s = retain_at i left s (nth i s.draws)
step (finish i) s = finish_at i s (nth i s.draws)

unfoldable pub run : List Event → Scans → Scans
unfolding step
run [] s = s
run (e ∷ es) s = run es (step e s)

unfoldable pub idle : ℕ → Scans
unfolding new_manual_scan_budget
idle total = record { remaining = new_manual_scan_budget total; draws = [] }
