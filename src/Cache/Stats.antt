-- ===== src/Cache/Stats.antt =====
-- The counters of the lookup chain.
use loki_vl_proxy.Prelude.{
  ℕ, ◌+◌, ◌*◌, ◌/◌, ◌≡◌, Bool, true, false, Option, none, some, arith, if◌then◌else◌, ltb, ◌==◌,
  length,
}
use loki_vl_proxy.Cache.Assoc.{lookup}
use loki_vl_proxy.Cache.State.{Key, Value, key_dec, TierStats, Cache, second}
use loki_vl_proxy.Cache.Store.{set_local_only_with_ttl, store_local_locked}
use loki_vl_proxy.Cache.Sync.{InSync, store_local_locked-InSync}
use loki_vl_proxy.Cache.Evict.{Frame, Frame-refl, store_local_locked-Frame}
use loki_vl_proxy.Cache.Tiers.{
  Lower, Peers, Disk, fresh_value, push_promotion, tier_miss, shared_l3_asked, get_shared_l3,
  shared_l2_asked, get_shared_l2, shared_l1_asked, get_shared_with_ttl,
}

abbrev pub Adds : TierStats → Type 0
Adds s = s.requests ≡ s.hits + s.misses

-- In each tier of the chain a request is a hit or a miss, and what L1 misses is answered by L2, by
-- L3 or by the backend, once.
pub record Balanced (c : Cache) : Type 0 where
  pub l1_adds : Adds c.l1_stats
  pub l2_adds : Adds c.l2_stats
  pub l3_adds : Adds c.l3_stats
  pub answered : c.l1_stats.misses ≡ c.l2_stats.hits + c.l3_stats.hits + c.backend_fallthrough

-- The state between the tiers: one more miss in L1 is yet to be answered.
record Asking (c : Cache) : Type 0 where
  l1_adds : Adds c.l1_stats
  l2_adds : Adds c.l2_stats
  l3_adds : Adds c.l3_stats
  unanswered : c.l1_stats.misses ≡ c.l2_stats.hits + c.l3_stats.hits + c.backend_fallthrough + 1

pub set_local_only_with_ttl-Frame :
    (now : ℕ) (k : Key) (v : Value) (ttl : ℕ) (c : Cache)
    → InSync c
    → Frame c (set_local_only_with_ttl now k v ttl c)
unfolding set_local_only_with_ttl
set_local_only_with_ttl-Frame now k v ttl c s = both c.disabled (ltb (c.max_bytes / 10) (length v))
  where
    both :
        (b d : Bool) → Frame c (if b then c else if d then c else store_local_locked now k v ttl c)
    both true d = Frame-refl c
    both false true = Frame-refl c
    both false false = store_local_locked-Frame now k v ttl c s

pub set_local_only_with_ttl-InSync :
    (now : ℕ) (k : Key) (v : Value) (ttl : ℕ) (c : Cache)
    → InSync c
    → InSync (set_local_only_with_ttl now k v ttl c)
unfolding set_local_only_with_ttl
set_local_only_with_ttl-InSync now k v ttl c s = both c.disabled (ltb (c.max_bytes / 10) (length v))
  where
    both :
        (b d : Bool) → InSync (if b then c else if d then c else store_local_locked now k v ttl c)
    both true d = s
    both false true = s
    both false false = store_local_locked-InSync now k v ttl c s

get_shared_l3-Balanced :
    (now : ℕ) (k : Key) (l3 : Option Peers) (c : Cache)
    → InSync c
    → Asking c
    → Balanced (get_shared_l3 now k l3 c).0
unfolding get_shared_l3
get_shared_l3-Balanced now k none c s a = ground arith
get_shared_l3-Balanced now k (some peers) c s a = asked (peers.fetch k)
  where
    asked : (r : Option (Value × ℕ)) → Balanced (shared_l3_asked now k r c).0
    asked none = unfold shared_l3_asked in ground arith
    asked (some (v, remaining)) =
        let t =
          set_local_only_with_ttl-Frame now k v (if remaining == 0 then 30 * second else remaining)
            c s in
        unfold shared_l3_asked in ground arith

get_shared_l2-Balanced :
    (now : ℕ) (k : Key) (l2 : Option Disk) (l3 : Option Peers) (c : Cache)
    → InSync c
    → Asking c
    → Balanced (get_shared_l2 now k l2 l3 c).0
unfolding get_shared_l2
get_shared_l2-Balanced now k none l3 c s a = get_shared_l3-Balanced now k l3 c s a
get_shared_l2-Balanced now k (some disk) l3 c s a = asked (disk.get_with_ttl k)
  where
    asked : (r : Option (Value × ℕ)) → Balanced (shared_l2_asked now k l3 r c).0
    asked none =
        unfold shared_l2_asked in
        get_shared_l3-Balanced now k l3 (record c { l2_stats = tier_miss c.l2_stats })
          (record { distinct = s.distinct; once = s.once; in_sync = s.in_sync }) (ground arith)
    asked (some (v, ttl)) =
        let t = set_local_only_with_ttl-Frame now k v ttl c s in
        unfold shared_l2_asked in ground arith

-- A shared read keeps the counters balanced: in every tier the requests are the hits and the
-- misses, and the misses of L1 are the hits of L2, the hits of L3 and the reads left to the
-- backend.
pub get_shared_with_ttl-Balanced :
    (now : ℕ) (k : Key) (lower : Lower) (c : Cache)
    → InSync c
    → Balanced c
    → Balanced (get_shared_with_ttl now k lower c).0
unfolding get_shared_with_ttl
get_shared_with_ttl-Balanced now k lower c s b =
    both c.disabled (fresh_value now (lookup key_dec k c.entries))
  where
    asked : (r : Option (Value × ℕ)) → Balanced (shared_l1_asked now k lower r c).0
    asked none =
        unfold shared_l1_asked in
        get_shared_l2-Balanced now k lower.l2 lower.l3
          (record c { l1_stats = tier_miss c.l1_stats })
          (record { distinct = s.distinct; once = s.once; in_sync = s.in_sync }) (ground arith)
    asked (some (v, ttl)) = unfold shared_l1_asked push_promotion in ground arith

    both :
        (d : Bool) (r : Option (Value × ℕ))
        → Balanced (if d then (c, none) else shared_l1_asked now k lower r c).0
    both true r = b
    both false r = asked r
