-- ===== src/Breaker/Window.antt =====
-- The sliding window of `RecordFailure`, against a count over the whole history of failures.
use loki_vl_proxy.Prelude.{
  ℕ, ◌+◌, ◌≤◌, ◌≡◌, refl, sym, subst, ap, Bool, true, false, not, ◌||◌, List, [], ◌∷◌, ◌++◌, arith,
  if◌then◌else◌, ltb, leb, length, keep,
}
use loki_vl_proxy.Breaker.{CircuitBreaker, closed, open_, prune_window, record_failure}

-- A failure at `t` still counts at `now`.
abbrev pub in_window : ℕ → ℕ → ℕ → Bool
in_window window now t = not (ltb (t + window) now)

abbrev pub Ascending : ℕ → List ℕ → Type 0
Ascending lo [] = Unit
Ascending lo (t ∷ ts) = (lo ≤ t) × Ascending t ts

abbrev pub last_or : ℕ → List ℕ → ℕ
last_or lo [] = lo
last_or lo (t ∷ ts) = last_or t ts

unfoldable pub record_failures : List ℕ → CircuitBreaker → CircuitBreaker
record_failures [] cb = cb
record_failures (t ∷ ts) cb = record_failures ts (record_failure t cb)

-- Some failure of `ts` is the last of `threshold` or more within one window. `seen` is what went
-- before.
unfoldable pub bursts : ℕ → ℕ → List ℕ → List ℕ → Bool
bursts threshold window seen [] = false
bursts threshold window seen (t ∷ ts) =
    leb threshold (length (keep (in_window window t) (seen ++ t ∷ [])))
    || bursts threshold window (seen ++ t ∷ []) ts

keep_all :
    (w now lo : ℕ) (ts : List ℕ) → now ≤ lo + w → Ascending lo ts → keep (in_window w now) ts ≡ ts
keep_all w now lo [] h a = refl
keep_all w now lo (t ∷ ts) h a = ground (arith, keep_all w now t ts)

-- On ascending times the loop that stops at the first recent failure keeps all recent ones.
pub prune_window-keep :
    (w now lo : ℕ) (ts : List ℕ)
    → Ascending lo ts
    → prune_window w now ts ≡ keep (in_window w now) ts
unfolding prune_window
prune_window-keep w now lo [] a = refl
prune_window-keep w now lo (t ∷ ts) a =
    ground (arith, prune_window-keep w now t ts, keep_all w now t ts)

keep-keep :
    (w now later : ℕ) (ts : List ℕ)
    → now ≤ later
    → keep (in_window w later) (keep (in_window w now) ts) ≡ keep (in_window w later) ts
keep-keep w now later [] h = refl
keep-keep w now later (t ∷ ts) h = ground (arith, keep-keep w now later ts)

keep-append {ℓ} :
    {A : Type ℓ} (p : A → Bool) (xs ys : List A) → keep p (xs ++ ys) ≡ keep p xs ++ keep p ys
keep-append p [] ys = refl
keep-append p (x ∷ xs) ys = ground (arith, keep-append p xs ys)

keep-Ascending : (p : ℕ → Bool) (lo : ℕ) (ts : List ℕ) → Ascending lo ts → Ascending lo (keep p ts)
keep-Ascending p lo [] a = tt
keep-Ascending p lo (t ∷ ts) a =
    ground (arith, keep-Ascending p t ts, Ascending-mono lo t (keep p ts))
  where
    Ascending-mono : (lo hi : ℕ) (ts : List ℕ) → lo ≤ hi → Ascending hi ts → Ascending lo ts
    Ascending-mono lo hi [] h a = tt
    Ascending-mono lo hi (t ∷ ts) h a = (omega arith, a.1)

Ascending-snoc :
    (lo t : ℕ) (ts : List ℕ) → Ascending lo ts → last_or lo ts ≤ t → Ascending lo (ts ++ t ∷ [])
Ascending-snoc lo t [] a h = (h, tt)
Ascending-snoc lo t (x ∷ ts) a h = (a.0, Ascending-snoc x t ts a.1 h)

last_or-snoc : (lo t : ℕ) (ts : List ℕ) → last_or lo (ts ++ t ∷ []) ≡ t
last_or-snoc lo t [] = refl
last_or-snoc lo t (x ∷ ts) = last_or-snoc x t ts

-- The breaker is closed and its list holds the failures of `seen` that still count.
record Tracks (seen : List ℕ) (cb : CircuitBreaker) : Type 0 where
  is_closed : cb.state ≡ closed
  ascends : Ascending 0 seen
  recent : cb.failure_times ≡ keep (in_window cb.window_duration (last_or 0 seen)) seen

new_times :
    (t : ℕ) (seen : List ℕ) (cb : CircuitBreaker)
    → Tracks seen cb
    → last_or 0 seen ≤ t
    → prune_window cb.window_duration t cb.failure_times ++ t ∷ []
      ≡ keep (in_window cb.window_duration t) (seen ++ t ∷ [])
new_times t seen cb k h =
    rw
      (
        prune_window-keep w t 0 cb.failure_times (rw k.recent (keep-Ascending _ 0 seen k.ascends)),
        k.recent,
        keep-keep w (last_or 0 seen) t seen h,
        keep-append (in_window w t) seen (t ∷ []),
      )
      (ap (◌++◌ (keep (in_window w t) seen)) own)
  where
    open cb use {window_duration as w}

    own : t ∷ [] ≡ keep (in_window w t) (t ∷ [])
    own = ground arith

-- The breaker after one more failure, when `full` says whether the threshold is reached.
after_failure : Bool → List ℕ → ℕ → CircuitBreaker → CircuitBreaker
after_failure true times t cb = record cb {
  atomic_state = open_;
  state = open_;
  failure_times = times;
  open_until = t + cb.open_duration;
  trips_total = cb.trips_total + 1;
}
after_failure false times t cb = record cb { failure_times = times }

failure-step :
    (t : ℕ) (seen : List ℕ) (cb : CircuitBreaker)
    → Tracks seen cb
    → last_or 0 seen ≤ t
    → let times = keep (in_window cb.window_duration t) (seen ++ t ∷ []) in
      record_failure t cb ≡ after_failure (leb cb.failure_threshold (length times)) times t cb
unfolding record_failure after_failure
failure-step t seen cb k h = ground (arith, new_times t seen cb k h, k.is_closed)

open-record_failures :
    (ts : List ℕ) (cb : CircuitBreaker) → cb.state ≡ open_ → record_failures ts cb ≡ cb
unfolding record_failures record_failure
open-record_failures [] cb h = refl
open-record_failures (t ∷ ts) cb h = rw (stays t cb h) (open-record_failures ts cb h)
  where
    stays : (t : ℕ) (cb : CircuitBreaker) → cb.state ≡ open_ → record_failure t cb ≡ cb
    stays t cb h = ground arith

Tracks-snoc :
    (t : ℕ) (seen : List ℕ) (cb : CircuitBreaker)
    → Tracks seen cb
    → last_or 0 seen ≤ t
    → Tracks
        (seen ++ t ∷ [])
        (record cb { failure_times = keep (in_window cb.window_duration t) (seen ++ t ∷ []) })
Tracks-snoc t seen cb k h = record {
  is_closed = k.is_closed;
  ascends = Ascending-snoc 0 t seen k.ascends h;
  recent = rw (last_or-snoc 0 t seen);
}

-- What the breaker is expected to be after its failures.
abbrev pub Outcome : CircuitBreaker → Bool → CircuitBreaker → Type 0
Outcome before tripped after =
    (after.state ≡ (if tripped then open_ else closed))
    × (after.trips_total ≡ (if tripped then before.trips_total + 1 else before.trips_total))

record_failures-Tracks :
    (ts seen : List ℕ) (cb : CircuitBreaker)
    → Tracks seen cb
    → Ascending (last_or 0 seen) ts
    → Outcome cb (bursts cb.failure_threshold cb.window_duration seen ts) (record_failures ts cb)
unfolding record_failures bursts after_failure
record_failures-Tracks [] seen cb k a = (k.is_closed, refl)
record_failures-Tracks (t ∷ ts) seen cb k a =
    subst (λ c. Outcome cb (full || later) (record_failures ts c))
      (sym (failure-step t seen cb k a.0))
      (either
        (record_failures-Tracks ts (seen ++ t ∷ []) (after_failure false times t cb)
          (Tracks-snoc t seen cb k a.0) (rw (last_or-snoc 0 t seen) a.1))
        full)
  where
    times : List ℕ
    times = keep (in_window cb.window_duration t) (seen ++ t ∷ [])

    full : Bool
    full = leb cb.failure_threshold (length times)

    later : Bool
    later = bursts cb.failure_threshold cb.window_duration (seen ++ t ∷ []) ts

    either :
        Outcome cb later (record_failures ts (after_failure false times t cb))
        → (b : Bool) → Outcome cb (b || later) (record_failures ts (after_failure b times t cb))
    either rest true =
        subst (Outcome cb true) (sym (open-record_failures ts (after_failure true times t cb) refl))
          (refl, refl)
    either rest false = rest

-- A closed breaker with no recorded failure that sees the failures `ts`, in the order of their
-- times, is open afterwards if some `failure_threshold` of them or more lie in one window that
-- ends at a failure, and is closed otherwise; it has tripped once in the first case, and never in
-- the second.
pub record_failures-bursts :
    (ts : List ℕ) (cb : CircuitBreaker)
    → cb.state ≡ closed
    → cb.failure_times ≡ []
    → Ascending 0 ts
    → Outcome cb (bursts cb.failure_threshold cb.window_duration [] ts) (record_failures ts cb)
record_failures-bursts ts cb h e a =
    record_failures-Tracks ts [] cb (record { is_closed = h; ascends = tt; recent = e }) a
