-- ===== src/Cache/Tests.antt =====
-- Runs of the cache, and the theorems at concrete inputs.
use loki_vl_proxy.Prelude.{
  ℕ, ◌+◌, ◌-◌, ◌≤◌, ◌≡◌, refl, ◌⊎◌, true, false, none, some, [], ◌∷◌, arith, length, All,
}
use loki_vl_proxy.Prelude.Int.{pos, ◌+ℤ◌, ◌-ℤ◌}
use loki_vl_proxy.Cache.Assoc.{Distinct, lookup, put, remove, has, erase}
use loki_vl_proxy.Cache.State.{Key, key_dec, Cache, new_with_max_bytes}
use loki_vl_proxy.Cache.Store.{
  drop_entry, sweep, needs_room, evict_back, evict_lru, evict_expired, evict_if_needed, uncount_old,
  insert_entry, store_local_locked,
}
use loki_vl_proxy.Cache.Hot.{codes, tenant_from_cache_key, record_hot}
use loki_vl_proxy.Cache.Tiers.{
  Disk, Peers, Lower, get_with_ttl, get_shared_with_ttl, set_with_ttl, clamp_ttl,
}
use loki_vl_proxy.Cache.Sync.{InSync, new_with_max_bytes-InSync, store_local_locked-InSync}
use loki_vl_proxy.Cache.Account.{Drift, size_at}
use loki_vl_proxy.Cache.Sound.{Sound}
use loki_vl_proxy.Cache.Runs.{sets, reads, invalidates, cleans, promotes, run, run-new-Sound}
use loki_vl_proxy.Cache.Overwrite.{
  made_room, store_local_locked-Drift, store_local_locked-new_key, store_local_locked-expired,
}
use loki_vl_proxy.Cache.LruOrder.{Evicted, evict_lru-Evicted}
use loki_vl_proxy.Cache.Stats.{Balanced, get_shared_with_ttl-Balanced}
use loki_vl_proxy.Cache.HotBound.{record_hot-bound}
use loki_vl_proxy.Cache.Reads.{Answered, get_shared_with_ttl-Answered, get_with_ttl-set_with_ttl}
use loki_vl_proxy.Cache.Writes.{IsBrief, set_with_ttl-IsBrief}

program : Unit {0}
unfolding new_with_max_bytes lookup put remove has erase key_dec ◌+ℤ◌ ◌-ℤ◌ drop_entry sweep
    needs_room evict_back evict_lru evict_expired evict_if_needed uncount_old insert_entry
    store_local_locked
program = tt

abbrev a : Key
a = codes "a"

abbrev b : Key
b = codes "b"

abbrev empty : Cache
empty = new_with_max_bytes 60 2 100

-- `a` is stored at time 0 for 10, `b` at time 1 for 100.
abbrev one : Cache
one = store_local_locked 0 a (1 ∷ 2 ∷ 3 ∷ []) 10 empty

abbrev two : Cache
two = store_local_locked 1 b (4 ∷ 5 ∷ []) 100 one

two_test : (two.cur_bytes ≡ pos 5) × (two.lru ≡ a ∷ b ∷ [])
unfolding program
two_test = (refl, refl)

evicts_test : (store_local_locked 2 (codes "c") (6 ∷ []) 100 two).lru ≡ b ∷ codes "c" ∷ []
unfolding program
evicts_test = refl

-- At time 20 `a` has expired; storing it again takes its 3 bytes off twice.
twice_test : (store_local_locked 20 a (7 ∷ []) 100 two).cur_bytes ≡ pos 0
unfolding program
twice_test = refl

tenant_test : tenant_from_cache_key (codes "query_range:acme:x") ≡ codes "acme"
unfolding tenant_from_cache_key
tenant_test = refl

empty-InSync : InSync empty
empty-InSync = new_with_max_bytes-InSync 60 2 100

one-InSync : InSync one
one-InSync = store_local_locked-InSync 0 a (1 ∷ 2 ∷ 3 ∷ []) 10 empty empty-InSync

two-InSync : InSync two
two-InSync = store_local_locked-InSync 1 b (4 ∷ 5 ∷ []) 100 one one-InSync

empty-Drift : Drift 0 empty
unfolding program
empty-Drift = record { counted = omega arith }

one-Drift : Drift 0 one
unfolding program
one-Drift = record { counted = omega arith }

two-Drift : Drift 0 two
unfolding program
two-Drift = record { counted = omega arith }

abbrev disk : Disk
disk = record { get_with_ttl = λ k. some (9 ∷ [], 50); get_stale = λ k. none }

abbrev peers : Peers
peers = record { fetch = λ k. none; is_owner = λ k. false; write_through = true }

abbrev lower : Lower
lower = record { l2 = some disk; l3 = some peers }

run-new-Sound_example : Sound 2 100 (
    run
      (sets true 0 a (1 ∷ []) 10 lower
        ∷ reads 1 b lower
        ∷ promotes 2
        ∷ cleans 30
        ∷ invalidates a
        ∷ [])
      (new_with_max_bytes 60 2 100))
run-new-Sound_example =
    run-new-Sound 60 2 100
      (sets true 0 a (1 ∷ []) 10 lower
        ∷ reads 1 b lower
        ∷ promotes 2
        ∷ cleans 30
        ∷ invalidates a
        ∷ [])
      (omega arith)

store_local_locked-Drift_example :
    Drift 0 (store_local_locked 20 a (7 ∷ []) 100 two)
    ⊎ ((lookup key_dec a (made_room 20 a (7 ∷ []) two).entries ≡ none)
        × Drift (0 + size_at a two) (store_local_locked 20 a (7 ∷ []) 100 two))
store_local_locked-Drift_example =
    store_local_locked-Drift 0 20 a (7 ∷ []) 100 two two-InSync two-Drift

store_local_locked-new_key_example : Drift 0 two
store_local_locked-new_key_example =
    store_local_locked-new_key 1 b (4 ∷ 5 ∷ []) 100 one one-InSync one-Drift
      (unfold program in refl)

store_local_locked-expired_example : Drift (0 + 3) (store_local_locked 20 a (7 ∷ []) 100 two)
store_local_locked-expired_example =
    store_local_locked-expired 0 20 a (7 ∷ []) 100
      (record { value = 1 ∷ 2 ∷ 3 ∷ []; expires_at = 10; size_bytes = 3 }) two two-InSync two-Drift
      (unfold program in refl) refl (unfold program in refl)

evict_lru-Evicted_example :
    (n : ℕ) × (n ≤ length two.lru) × Evicted 1 two.lru n two (evict_lru 1 two.lru two)
evict_lru-Evicted_example = evict_lru-Evicted 1 two two-InSync

get_shared_with_ttl-Balanced_example : Balanced (get_shared_with_ttl 5 a lower empty).0
unfolding new_with_max_bytes
get_shared_with_ttl-Balanced_example =
    get_shared_with_ttl-Balanced 5 a lower empty empty-InSync
      (record { l1_adds = refl; l2_adds = refl; l3_adds = refl; answered = refl })

record_hot-bound_example :
    Distinct key_dec (record_hot 5 a empty).hot × (length (record_hot 5 a empty).hot ≤ 50000)
unfolding new_with_max_bytes
record_hot-bound_example = record_hot-bound 5 a empty tt

get_shared_with_ttl-Answered_example : Answered 10 5 a (get_shared_with_ttl 5 a lower empty)
unfolding new_with_max_bytes
get_shared_with_ttl-Answered_example = get_shared_with_ttl-Answered 5 a lower empty refl

get_with_ttl-set_with_ttl_example :
    (get_with_ttl 8 a (set_with_ttl true 5 a (7 ∷ []) 40 lower empty).0).1
    ≡ some (7 ∷ [], 5 + clamp_ttl (some peers) a 40 - 8)
unfolding new_with_max_bytes
get_with_ttl-set_with_ttl_example =
    get_with_ttl-set_with_ttl true 5 8 a (7 ∷ []) 40 lower empty refl (omega arith) empty-InSync
      (unfold clamp_ttl in omega arith)

set_with_ttl-IsBrief_example : All IsBrief (set_with_ttl true 5 a (7 ∷ []) 40 lower empty).1
set_with_ttl-IsBrief_example =
    set_with_ttl-IsBrief true 5 a (7 ∷ []) 40 lower peers empty refl refl refl
