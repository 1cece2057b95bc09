-- ===== src/Windows/Adaptive/Growth.antt =====
-- internal/proxy/query_range_windowing.go: the number of windows that are fetched at once stays
-- between its bounds, and rises slowly.
use loki_vl_proxy.Prelude.{
  ℕ, suc, ◌+◌, ◌-◌, ◌*◌, ◌/◌, ◌≤◌, ◌<◌, ◌≡◌, ◌⊎◌, refl, ap, ◌∙◌, inl, inr, Bool, true, false, ◌&&◌,
  ◌||◌, not, Option, none, some, List, [], ◌∷◌, if◌then◌else◌, ltb, leb, ◌==◌, arith,
}
use loki_vl_proxy.Windows.Adaptive.{
  AdaptiveSettings, AdaptiveState, at_least_one, within_settings, query_range_window_parallel_limit,
  smoothed, cooling, should_backoff, should_increase, halved, next_current, adjusted,
  observe_query_range_window_fetch, force_query_range_parallel_backoff, AdaptiveEvent, observe,
  force, ask, event_time, happen, run,
}

half-le : (n : ℕ) → n / 2 ≤ n
half-le n = omega arith

mul-suc : (n c : ℕ) → suc n * c ≡ n * c + c
mul-suc n c = grind arith

mul_mono : (n m c : ℕ) → n ≤ m → n * c ≤ m * c
mul_mono n m c le = grind arith

chosen :
    (b i : Bool) (h n lo hi : ℕ)
    → lo ≤ h
    → h ≤ n
    → lo ≤ n
    → n ≤ hi
    → (i ≡ true → n < hi)
    → (lo ≤ (if b then h else if i then suc n else n))
      × ((if b then h else if i then suc n else n) ≤ hi)
      × ((if b then h else if i then suc n else n) ≤ suc n)
chosen true i h n lo hi above below low high room = (omega arith, omega arith, omega arith)
chosen false true h n lo hi above below low high room =
    let r = room refl in (omega arith, omega arith, omega arith)
chosen false false h n lo hi above below low high room = (omega arith, omega arith, omega arith)

both_hold : (b : Bool) (n m : ℕ) → (b && ltb n m) ≡ true → n < m
both_hold true n m e = ground arith
both_hold false n m e = cc

either {ℓ} :
    {A : Type ℓ} (P : A → Type 0) (b : Bool) (x y : A)
    → (b ≡ true → P x)
    → (b ≡ false → P y)
    → P (if b then x else y)
either P true x y t f = t refl
either P false x y t f = f refl

module _ {F : Type 0} (cfg : AdaptiveSettings F) where
  -- The number of windows is within the settings.
  unfoldable pub IsWithin : AdaptiveState F → Type 0
  IsWithin s = (cfg.parallel_min ≤ s.current) × (s.current ≤ cfg.parallel_max)

  halved-le :
      (n : ℕ) → cfg.parallel_min ≤ n → (cfg.parallel_min ≤ halved cfg n) × (halved cfg n ≤ n)
  unfolding halved
  halved-le n le = let h = half-le n in (omega arith, omega arith)

  next_current-IsWithin :
      (s : AdaptiveState F)
      → IsWithin s
      → (cfg.parallel_min ≤ next_current cfg s)
        × (next_current cfg s ≤ cfg.parallel_max)
        × (next_current cfg s ≤ suc s.current)
  unfolding next_current IsWithin
  next_current-IsWithin s (low, high) =
      let (above, below) = halved-le s.current low in
      chosen (should_backoff cfg s && ltb cfg.parallel_min s.current)
        (should_increase cfg s && ltb s.current cfg.parallel_max) (halved cfg s.current) s.current
        cfg.parallel_min cfg.parallel_max above below low high
        (both_hold (should_increase cfg s) s.current cfg.parallel_max)

  limit-IsWithin :
      (n : ℕ)
      → 1 ≤ cfg.parallel_min
      → cfg.parallel_min ≤ n
      → n ≤ cfg.parallel_max
      → at_least_one (within_settings cfg n) ≡ n
  unfolding at_least_one within_settings
  limit-IsWithin n pos low high = ground arith

  -- A change of the state at a time: the number of windows stays and so does the time of its last
  -- change, or the time is noted, and the number stays within its bounds and rises by at most one,
  -- where the cooldown is over.
  abbrev Moved : ℕ → AdaptiveState F → AdaptiveState F → Type 0
  Moved now s s' =
      ((s'.current ≡ s.current) × (s'.last_adjust ≡ s.last_adjust))
      ⊎ ((s'.last_adjust ≡ some now)
          × IsWithin s'
          × ((s'.current ≤ s.current)
              ⊎ ((s'.current ≤ suc s.current) × (cooling cfg now s.last_adjust ≡ false))))

  happen-Moved :
      (e : AdaptiveEvent) (s : AdaptiveState F)
      → 1 ≤ cfg.parallel_min
      → IsWithin s
      → Moved (event_time e) s (happen cfg e s)
  unfolding happen IsWithin observe_query_range_window_fetch force_query_range_parallel_backoff
      query_range_window_parallel_limit adjusted smoothed at_least_one within_settings event_time
  happen-Moved (observe latency failed now) s pos (low, high) =
      let s1 = smoothed cfg latency failed s in
      let (a, b, c) = next_current-IsWithin s1 (low, high) in
      either (Moved now s) (not cfg.adaptive) s _ (λ z. inl (refl, refl))
        λ z.
          either (Moved now s) (cooling cfg now s.last_adjust) s1 _ (λ z. inl (refl, refl))
            λ over.
              either (Moved now s) (next_current cfg s1 == s.current) s1 _ (λ z. inl (refl, refl))
                λ z. inr (refl, (a, b), inr (c, over))
  happen-Moved (force now) s pos (low, high) =
      let (above, below) = halved-le s.current low in
      either (Moved now s) (not cfg.adaptive || leb s.current cfg.parallel_min) s _
        (λ z. inl (refl, refl)) λ z. inr (refl, (above, omega arith), inl below)
  happen-Moved (ask now) s pos (low, high) =
      either {A = ℕ × AdaptiveState F} (λ r. Moved now s r.1) (not cfg.adaptive)
        (at_least_one cfg.max_parallel, s) _ (λ z. inl (refl, refl))
        λ z. inl (limit-IsWithin s.current pos low high, refl)

  Moved-IsWithin : (now : ℕ) (s s' : AdaptiveState F) → IsWithin s → Moved now s s' → IsWithin s'
  unfolding IsWithin
  Moved-IsWithin now s s' (low, high) (inl (same, t)) = (omega arith, omega arith)
  Moved-IsWithin now s s' w (inr (t, w', c)) = w'

  run-IsWithin :
      (es : List AdaptiveEvent) (s : AdaptiveState F)
      → 1 ≤ cfg.parallel_min
      → IsWithin s
      → IsWithin (run cfg es s)
  unfolding run
  run-IsWithin [] s pos w = w
  run-IsWithin (e ∷ es) s pos w =
      run-IsWithin es (happen cfg e s) pos
        (Moved-IsWithin (event_time e) s (happen cfg e s) w (happen-Moved e s pos w))

  -- Once the number of windows is within the settings, it stays there through every history of
  -- fetches, forced back-offs and questions, and a question is answered by that number and changes
  -- nothing.
  pub parallel_limit-run :
      (es : List AdaptiveEvent) (s : AdaptiveState F)
      → cfg.adaptive ≡ true
      → 1 ≤ cfg.parallel_min
      → cfg.parallel_min ≤ s.current
      → s.current ≤ cfg.parallel_max
      → (cfg.parallel_min ≤ (query_range_window_parallel_limit cfg (run cfg es s)).0)
        × ((query_range_window_parallel_limit cfg (run cfg es s)).0 ≤ cfg.parallel_max)
        × ((query_range_window_parallel_limit cfg (run cfg es s)).0 ≡ (run cfg es s).current)
        × ((query_range_window_parallel_limit cfg (run cfg es s)).1 ≡ run cfg es s)
  unfolding IsWithin query_range_window_parallel_limit
  parallel_limit-run es s on pos low high =
      let (l, h) = run-IsWithin es s pos (low, high) in
      let same = limit-IsWithin (run cfg es s).current pos l h in
      (simp (on, same) l, simp (on, same) h, simp (on, same), simp (on, same))

-- The times of a history from `t` on do not go back, and the last of them.
unfoldable pub InOrder : ℕ → List AdaptiveEvent → Type 0
unfolding event_time
InOrder t [] = Unit
InOrder t (e ∷ es) = (t ≤ event_time e) × InOrder (event_time e) es

unfoldable pub last_time : ℕ → List AdaptiveEvent → ℕ
unfolding event_time
last_time t [] = t
last_time t (e ∷ es) = last_time (event_time e) es

module _ {F : Type 0} (cfg : AdaptiveSettings F) where
  cooled :
      (now t : ℕ) (o : Option ℕ) → o ≡ some t → cooling cfg now o ≡ false → cfg.cooldown ≤ now - t
  unfolding cooling
  cooled now t none e over = cc
  cooled now t (some u) e over = let same : u ≡ t = cc in ground arith

  -- From the last change on, every further window that is fetched at once takes a cooldown: over
  -- any history whose times do not go back, the number of windows rises by at most the time that has
  -- passed, counted in cooldowns.
  pub run-growth :
      (es : List AdaptiveEvent) (s : AdaptiveState F) (t now : ℕ)
      → 1 ≤ cfg.parallel_min
      → cfg.parallel_min ≤ s.current
      → s.current ≤ cfg.parallel_max
      → s.last_adjust ≡ some t
      → t ≤ now
      → InOrder now es
      → (run cfg es s).current * cfg.cooldown + t ≤ s.current * cfg.cooldown + last_time now es
  unfolding run InOrder last_time IsWithin
  run-growth [] s t now pos low high last le o = omega arith
  run-growth (e ∷ es) s t now pos low high last le (o, os) =
      go (happen-Moved cfg e s pos (low, high)) (λ s' t' low' high' last' le'.
        run-growth es s' t' (event_time e) pos low' high' last' le' os)
    where
      go :
          Moved cfg (event_time e) s (happen cfg e s)
          → ((s' : AdaptiveState F) (t' : ℕ)
              → cfg.parallel_min ≤ s'.current
              → s'.current ≤ cfg.parallel_max
              → s'.last_adjust ≡ some t'
              → t' ≤ event_time e
              → (run cfg es s').current * cfg.cooldown + t'
                ≤ s'.current * cfg.cooldown + last_time (event_time e) es)
          → (run cfg es (happen cfg e s)).current * cfg.cooldown + t
            ≤ s.current * cfg.cooldown + last_time (event_time e) es
      go (inl (same, stays)) ih =
          let rest =
            ih (happen cfg e s) t (omega arith) (omega arith) (stays ∙ last) (omega arith) in
          let eq = ap (λ n. n * cfg.cooldown) same in omega arith
      go (inr (noted, (low', high'), inl less)) ih =
          let rest = ih (happen cfg e s) (event_time e) low' high' noted (omega arith) in
          let product = mul_mono (happen cfg e s).current s.current cfg.cooldown less in omega arith
      go (inr (noted, (low', high'), inr (less, over))) ih =
          let rest = ih (happen cfg e s) (event_time e) low' high' noted (omega arith) in
          let product = mul_mono (happen cfg e s).current (suc s.current) cfg.cooldown less in
          let more = mul-suc s.current cfg.cooldown in
          let wait = cooled (event_time e) t s.last_adjust last over in omega arith
