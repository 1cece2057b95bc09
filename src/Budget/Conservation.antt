-- ===== src/Budget/Conservation.antt =====
-- internal/proxy/manual_scan_budget.go: what all scans hold together with what remains is the
-- budget, and no scan retains more samples than it holds slots.
use loki_vl_proxy.Prelude.{
  ℕ, zero, suc, ◌+◌, ◌≤◌, ◌≡◌, refl, inl, inr, Option, none, some, List, [], ◌∷◌, sum_by, All, ltb,
  leb, ◌==◌, ==_iff, leb→le, ltb→le, arith, Bool-cases,
}
use loki_vl_proxy.Budget.Scan.{
  Reservation, reserve, release, accounted, account, release_reservation, new_manual_scan_budget,
  Scans, Event, start, retain, finish, nth, replace, retained, retain_at, finish_at, step, run,
  idle, new_manual_scan_reservation,
}

unfoldable pub held_slots : Scans → ℕ
held_slots s = sum_by (λ r. r.held) s.draws

unfoldable pub retained_samples : Scans → ℕ
retained_samples s = sum_by (λ r. r.used) s.draws

IsCovered : Reservation → Type 0
IsCovered r = r.used ≤ r.held

record IsBalanced (total : ℕ) (s : Scans) : Type 0 where
  balance : s.remaining + sum_by (λ r. r.held) s.draws ≡ total
  covered : All IsCovered s.draws

-- The draw at a place, what the others hold, and what the place can be replaced by.
IsDraw : List Reservation → ℕ → Option Reservation → Type 0
IsDraw rs i none = ℕ
IsDraw rs i (some r) =
    IsCovered r
    × ((others : ℕ) × (sum_by (λ x. x.held) rs ≡ r.held + others)
        × ((r' : Reservation) → sum_by (λ x. x.held) (replace i r' rs) ≡ r'.held + others))
    × ((r' : Reservation) → IsCovered r' → All IsCovered (replace i r' rs))

nth-IsDraw : (i : ℕ) (rs : List Reservation) → All IsCovered rs → IsDraw rs i (nth i rs)
unfolding nth IsDraw replace
nth-IsDraw i [] a = 0
nth-IsDraw zero (r ∷ rs) (c, a) =
    (c, (sum_by (λ x. x.held) rs, refl, (λ r'. refl)), (λ r' c'. (c', a)))
nth-IsDraw (suc i) (r ∷ rs) (c, a) = under (nth i rs) (nth-IsDraw i rs a)
  where
    under : (o : Option Reservation) → IsDraw rs i o → IsDraw (r ∷ rs) (suc i) o
    under none d = 0
    under (some x) (cx, (others, before, after), rest) = (
      cx,
      (r.held + others, omega arith, (λ r'. let e = after r' in omega arith)),
      (λ r' c'. (c, rest r' c')),
    )

retain_at-IsBalanced :
    (total i left : ℕ) (s : Scans) (o : Option Reservation)
    → IsBalanced total s
    → IsDraw s.draws i o
    → IsBalanced total (retain_at i left s o)
unfolding retain_at retained account accounted reserve IsDraw IsCovered
retain_at-IsBalanced total i left s none b d = b
retain_at-IsBalanced total i left s (some r) b (c, (others, before, after), rest) =
    let bal = b.balance in
    elim (Bool-cases (leb (suc r.used) r.held)) [
      | inl fits ↦
          let r' : Reservation = record { held = r.held; used = suc r.used } in
          let e = after r' in
          simp fits
            (record { balance = omega arith; covered = rest r' (leb→le (suc r.used) r.held fits) })
      | inr full ↦ elim (Bool-cases (ltb left 4096)) [
        | inl short ↦
            let e = after r in
            simp (full, short) (record { balance = omega arith; covered = rest r c })
        | inr enough ↦ elim (Bool-cases (s.remaining == left)) [
          | inl swap ↦
              let r' : Reservation = record { held = r.held + 4096; used = suc r.used } in
              let e = after r' in
              let same = (==_iff s.remaining left).0 swap in
              let le = ltb→le left 4096 enough in
              simp (full, enough, swap)
                (record { balance = omega arith; covered = rest r' (omega arith) })
          | inr stale ↦ simp (full, enough, stale) b
        ]
      ]
    ]

finish_at-IsBalanced :
    (total i : ℕ) (s : Scans) (o : Option Reservation)
    → IsBalanced total s
    → IsDraw s.draws i o
    → IsBalanced total (finish_at i s o)
unfolding finish_at release_reservation release IsDraw IsCovered
finish_at-IsBalanced total i s none b d = b
finish_at-IsBalanced total i s (some r) b (c, (others, before, after), rest) =
    let bal = b.balance in
    let e = after (record { held = 0; used = 0 }) in
    record { balance = ground arith; covered = rest (record { held = 0; used = 0 }) (omega arith) }

step-IsBalanced :
    (total : ℕ) (e : Event) (s : Scans) → IsBalanced total s → IsBalanced total (step e s)
unfolding step new_manual_scan_reservation IsCovered
step-IsBalanced total start s b =
    let bal = b.balance in record { balance = omega arith; covered = (omega arith, b.covered) }
step-IsBalanced total (retain i left) s b =
    retain_at-IsBalanced total i left s (nth i s.draws) b (nth-IsDraw i s.draws b.covered)
step-IsBalanced total (finish i) s b =
    finish_at-IsBalanced total i s (nth i s.draws) b (nth-IsDraw i s.draws b.covered)

run-IsBalanced :
    (total : ℕ) (es : List Event) (s : Scans) → IsBalanced total s → IsBalanced total (run es s)
unfolding run
run-IsBalanced total [] s b = b
run-IsBalanced total (e ∷ es) s b = run-IsBalanced total es (step e s) (step-IsBalanced total e s b)

used-le :
    (rs : List Reservation) → All IsCovered rs → sum_by (λ r. r.used) rs ≤ sum_by (λ r. r.held) rs
unfolding IsCovered
used-le [] a = omega arith
used-le (r ∷ rs) (c, a) = let ih = used-le rs a in omega arith

-- However the scans interleave, what they hold and what remains of the pool add up to the budget
-- at every moment, and together they never retain more samples than the budget: whatever the
-- loads of the compare-and-swap loops read, and also when a reservation is released twice.
pub run-idle-le :
    (total : ℕ) (es : List Event)
    → ((run es (idle total)).remaining + held_slots (run es (idle total))
        ≡ new_manual_scan_budget total)
      × (retained_samples (run es (idle total)) ≤ new_manual_scan_budget total)
unfolding idle held_slots retained_samples
run-idle-le total es =
    let b =
      run-IsBalanced (new_manual_scan_budget total) es (idle total)
        (record { balance = omega arith; covered = tt }) in
    let bal = b.balance in
    let le = used-le (run es (idle total)).draws b.covered in (bal, omega arith)
