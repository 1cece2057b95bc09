-- ===== src/Coalescer/Runs.antt =====
-- internal/middleware/coalescer.go: the counts agree with the goroutines that are inside.
use loki_vl_proxy.Prelude.{
  ℕ, suc, ◌-◌, ◌≡◌, refl, sym, ap, subst, ◌∙◌, inl, inr, Bool, true, false, some, List, [], ◌∷◌,
  if◌then◌else◌, ◌==◌, ltb, ite, arith, Bool-cases,
}
use loki_vl_proxy.Cache.State.{Key, key_dec}
use loki_vl_proxy.Cache.Assoc.{
  lookup, has, erase, Distinct, lookup-put, lookup-remove, put-Distinct, remove-Distinct,
}
use loki_vl_proxy.Coalescer.{
  Coalescer, count_or_zero, store_count, new_coalescer, let_in, ask_guard, enter_shared, enter,
  leave_shared, Event, entering, leaving, step, run, direct,
}

-- How many goroutines are inside for a key.
unfoldable pub occupancy : Key → List Key → ℕ
occupancy k [] = 0
occupancy k (j ∷ js) = ite (key_dec j k) (suc (occupancy k js)) (occupancy k js)

has-occupancy : (k : Key) (ks : List Key) → has key_dec k ks ≡ ltb 0 (occupancy k ks)
unfolding occupancy has
has-occupancy k [] = refl
has-occupancy k (i ∷ ks) = ground (arith, has-occupancy k ks)

occupancy-erase :
    (j k : Key) (ks : List Key)
    → has key_dec k ks ≡ true
    → occupancy j (erase key_dec k ks) ≡ ite (key_dec k j) (occupancy j ks - 1) (occupancy j ks)
unfolding occupancy erase has
occupancy-erase j k [] h = ground arith
occupancy-erase j k (i ∷ ks) h = grind (arith, occupancy-erase j k ks, has-occupancy k ks)

store_count-Distinct :
    (k : Key) (n : ℕ) (m : List (Key × ℕ))
    → Distinct key_dec m
    → Distinct key_dec (store_count k n m)
unfolding store_count
store_count-Distinct k n m d =
    ground (arith, put-Distinct key_dec k n m d, remove-Distinct key_dec k m d)

lookup-store_count :
    (j k : Key) (n : ℕ) (m : List (Key × ℕ))
    → Distinct key_dec m
    → count_or_zero (lookup key_dec j (store_count k n m))
      ≡ ite (key_dec k j) n (count_or_zero (lookup key_dec j m))
unfolding store_count count_or_zero
lookup-store_count j k n m d =
    ground (arith, lookup-put key_dec j k n m, lookup-remove key_dec j k m d)

module _ {G : Type 0} (guard : G → Bool × G) where
  record IsCounted (c : Coalescer G) : Type 0 where
    distinct : Distinct key_dec c.inflight
    counted : (k : Key) → count_or_zero (lookup key_dec k c.inflight) ≡ occupancy k c.inside

  let_in-IsCounted :
      (k : Key) (g : G) (c : Coalescer G)
      → IsCounted c
      → IsCounted (let_in guard k (count_or_zero (lookup key_dec k c.inflight)) g c)
  unfolding let_in count_or_zero occupancy
  let_in-IsCounted k g c i =
      let n = count_or_zero (lookup key_dec k c.inflight) in
      record {
        distinct = put-Distinct key_dec k (suc n) c.inflight i.distinct;
        counted = λ j. simp (lookup-put key_dec j k (suc n) c.inflight) (both j (key_dec k j));
      }
    where
      both :
          (j : Key) (d : Dec (k ≡ j))
          → count_or_zero (
              ite d
                (some (suc (count_or_zero (lookup key_dec k c.inflight))))
                (lookup key_dec j c.inflight))
            ≡ ite d (suc (occupancy j c.inside)) (occupancy j c.inside)
      both j (yes e) = ap suc (
          subst (λ x. count_or_zero (lookup key_dec k c.inflight) ≡ occupancy x c.inside) e
            (i.counted k))
      both j (no n) = i.counted j

  leave_shared-IsCounted :
      (k : Key) (c : Coalescer G)
      → IsCounted c
      → has key_dec k c.inside ≡ true
      → IsCounted (leave_shared guard k c)
  unfolding leave_shared store_count count_or_zero
  leave_shared-IsCounted k c i h =
      let n = count_or_zero (lookup key_dec k c.inflight) - 1 in
      record {
        distinct = store_count-Distinct k n c.inflight i.distinct;
        counted = λ j.
            lookup-store_count j k n c.inflight i.distinct
            ∙ (both j (key_dec k j) ∙ sym (occupancy-erase j k c.inside h));
      }
    where
      both :
          (j : Key) (d : Dec (k ≡ j))
          → ite d
              (count_or_zero (lookup key_dec k c.inflight) - 1)
              (count_or_zero (lookup key_dec j c.inflight))
            ≡ ite d (occupancy j c.inside - 1) (occupancy j c.inside)
      both j (yes e) =
          ap (λ n. n - 1)
            (subst (λ x. count_or_zero (lookup key_dec k c.inflight) ≡ occupancy x c.inside) e
              (i.counted k))
      both j (no n) = i.counted j

  ask_guard-IsCounted :
      (k : Key) (a : Bool × G) (c : Coalescer G)
      → IsCounted c
      → IsCounted (ask_guard guard k (count_or_zero (lookup key_dec k c.inflight)) a c).1
  unfolding ask_guard
  ask_guard-IsCounted k (true, g) c i = let_in-IsCounted k g c i
  ask_guard-IsCounted k (false, g) c i = record { distinct = i.distinct; counted = i.counted }

  enter_shared-IsCounted :
      (k : Key) (c : Coalescer G) → IsCounted c → IsCounted (enter_shared guard k c).1
  unfolding enter_shared
  enter_shared-IsCounted k c i = both (count_or_zero (lookup key_dec k c.inflight) == 0)
    where
      both :
          (b : Bool)
          → IsCounted
              (if b
                then ask_guard guard k
                    (count_or_zero (lookup key_dec k c.inflight))
                    (guard c.guard_state)
                    c
                else (
                  true,
                  let_in guard k (count_or_zero (lookup key_dec k c.inflight)) c.guard_state c,
                )).1
      both true = ask_guard-IsCounted k (guard c.guard_state) c i
      both false = let_in-IsCounted k c.guard_state c i

  enter-IsCounted : (k : Key) (c : Coalescer G) → IsCounted c → IsCounted (enter guard k c).1
  unfolding enter direct
  enter-IsCounted k c i = both c.disabled
    where
      both :
          (b : Bool)
          → IsCounted (if b then direct guard (guard c.guard_state) c else enter_shared guard k c).1
      both true = record { distinct = i.distinct; counted = i.counted }
      both false = enter_shared-IsCounted k c i

  step-IsCounted : (e : Event guard) (c : Coalescer G) → IsCounted c → IsCounted (step guard e c)
  unfolding step
  step-IsCounted (entering k) c i = enter-IsCounted k c i
  step-IsCounted (leaving k) c i = elim (Bool-cases (has key_dec k c.inside)) [
    | inl h ↦ simp h (leave_shared-IsCounted k c i h)
    | inr h ↦ simp h i
  ]

  run-IsCounted :
      (es : List (Event guard)) (c : Coalescer G) → IsCounted c → IsCounted (run guard es c)
  unfolding run
  run-IsCounted [] c i = i
  run-IsCounted (e ∷ es) c i = run-IsCounted es (step guard e c) (step-IsCounted e c i)

  new-IsCounted : (g : G) → IsCounted (new_coalescer guard g)
  unfolding new_coalescer count_or_zero occupancy lookup
  new-IsCounted g = record { distinct = tt; counted = λ k. refl }

  asked-parts :
      (k : Key) (n : ℕ) (a : Bool × G) (c : Coalescer G)
      → ((ask_guard guard k n a c).0 ≡ a.0) × ((ask_guard guard k n a c).1.guard_state ≡ a.1)
  unfolding ask_guard let_in
  asked-parts k n (true, g) c = (refl, refl)
  asked-parts k n (false, g) c = (refl, refl)

  entered-parts :
      (k : Key) (n : ℕ) (c : Coalescer G)
      → let r =
          if n == 0
          then ask_guard guard k n (guard c.guard_state) c
          else (true, let_in guard k n c.guard_state c) in
        (r.0 ≡ (if n == 0 then (guard c.guard_state).0 else true))
        × (r.1.guard_state ≡ (if n == 0 then (guard c.guard_state).1 else c.guard_state))
  unfolding let_in
  entered-parts k n c = elim (Bool-cases (n == 0)) [
    | inl alone ↦ simp alone (asked-parts k n (guard c.guard_state) c)
    | inr joined ↦ simp joined (refl, refl)
  ]

-- With coalescing on, after any sequence of requests that enter and leave: a request for a key
-- that someone is inside for is let in without asking the guard, whose state stays as it was, and
-- any other request gets the guard's answer. So does the count of each key agree with the
-- goroutines inside for it.
pub enter-run :
    {G : Type 0} (guard : G → Bool × G) (es : List (Event guard)) (g : G) (k : Key)
    → let c = run guard es (new_coalescer guard g) in
      (count_or_zero (lookup key_dec k c.inflight) ≡ occupancy k c.inside)
      × ((enter_shared guard k c).0
          ≡ (if occupancy k c.inside == 0 then (guard c.guard_state).0 else true))
      × ((enter_shared guard k c).1.guard_state
          ≡ (if occupancy k c.inside == 0 then (guard c.guard_state).1 else c.guard_state))
unfolding enter_shared
enter-run guard es g k =
    let c = run guard es (new_coalescer guard g) in
    let count =
      (run-IsCounted guard es (new_coalescer guard g) (new-IsCounted guard g)).counted k in
    let (answer, state) = entered-parts guard k (count_or_zero (lookup key_dec k c.inflight)) c in
    (
      count,
      answer ∙ ap (λ n. if n == 0 then (guard c.guard_state).0 else true) count,
      state ∙ ap (λ n. if n == 0 then (guard c.guard_state).1 else c.guard_state) count,
    )
