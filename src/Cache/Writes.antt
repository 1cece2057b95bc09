-- ===== src/Cache/Writes.antt =====
-- Which writes a store passes on, and what an invalidation removes.
use loki_vl_proxy.Prelude.{
  ℕ, ◌*◌, ◌/◌, ◌≤◌, ◌≡◌, refl, ◌∙◌, Bool, true, false, Option, none, some, List, [], ◌∷◌, ◌++◌,
  arith, All, if◌then◌else◌, ltb, length,
}
use loki_vl_proxy.Cache.Assoc.{lookup}
use loki_vl_proxy.Cache.State.{Key, Value, key_dec, Entry, Cache, second}
use loki_vl_proxy.Cache.Store.{
  is_expired, has_prefix, invalidate_prefix, cleanup_tick, store_local_locked,
}
use loki_vl_proxy.Cache.Sweep.{survivor, lookup-sweep}
use loki_vl_proxy.Cache.Sync.{InSync}
use loki_vl_proxy.Cache.Tiers.{
  Lower, Peers, Write, disk_set, peer_set, clamp_ttl, disk_writes, peer_writes, set_with_ttl,
}

-- A write that goes to the peers, for at most half a minute.
abbrev pub IsBrief : Write → Type 0
IsBrief (disk_set k v ttl) = ⊥
IsBrief (peer_set k v ttl) = ttl ≤ 30 * second

clamp_ttl-le :
    (p : Peers) (k : Key) (ttl : ℕ)
    → p.write_through ≡ true
    → p.is_owner k ≡ false
    → clamp_ttl (some p) k ttl ≤ 30 * second
unfolding clamp_ttl
clamp_ttl-le p k ttl w o = ground arith

-- With owners written through, a replica that does not own the key writes nothing to its disk, and
-- hands the peers a time to live of at most 30 seconds.
pub set_with_ttl-IsBrief :
    (propagate : Bool) (now : ℕ) (k : Key) (v : Value) (ttl : ℕ) (lower : Lower) (p : Peers)
    (c : Cache)
    → lower.l3 ≡ some p
    → p.write_through ≡ true
    → p.is_owner k ≡ false
    → All IsBrief (set_with_ttl propagate now k v ttl lower c).1
unfolding set_with_ttl
set_with_ttl-IsBrief propagate now k v ttl lower p c a w o =
    both c.disabled (ltb (c.max_bytes / 10) (length v))
  where
    ttl' : ℕ
    ttl' = clamp_ttl lower.l3 k ttl

    brief : ttl' ≤ 30 * second
    brief = rw a (clamp_ttl-le p k ttl w o)

    no_disk : disk_writes lower k v ttl' ≡ []
    no_disk = unfold disk_writes in ground (arith, a, w, o)

    to_peers : All IsBrief (peer_writes propagate lower k v ttl')
    to_peers = unfold peer_writes in rw (a, peer_writes) (told propagate)
      where
        told : (b : Bool) → All IsBrief (if b then peer_set k v ttl' ∷ [] else [])
        told true = (brief, tt)
        told false = tt

    result : Bool → Bool → Cache × List Write
    result b d = if b then (c, []) else if d then (c, []) else (
      store_local_locked now k v ttl' c,
      disk_writes lower k v ttl' ++ peer_writes propagate lower k v ttl',
    )

    both : (b d : Bool) → All IsBrief (result b d).1
    both true d = tt
    both false true = tt
    both false false = rw no_disk to_peers

-- `InvalidatePrefix` removes exactly the keys that start with the prefix.
pub lookup-invalidate_prefix :
    (prefix : List ℕ) (j : Key) (c : Cache)
    → InSync c
    → lookup key_dec j (invalidate_prefix prefix c).entries
      ≡ (if has_prefix prefix j then none else lookup key_dec j c.entries)
unfolding invalidate_prefix
lookup-invalidate_prefix prefix j c s =
    lookup-sweep (λ k _. has_prefix prefix k) 0 j c s.distinct ∙ cases (lookup key_dec j c.entries)
  where
    cases :
        (o : Option Entry)
        → survivor (λ k _. has_prefix prefix k) j o ≡ (if has_prefix prefix j then none else o)
    cases none = ground arith
    cases (some e) = refl

-- A tick of the cleanup removes exactly the entries that have expired.
pub lookup-cleanup_tick :
    (now : ℕ) (j : Key) (c : Cache)
    → InSync c
    → lookup key_dec j (cleanup_tick now c).entries
      ≡ survivor (λ _ e. is_expired now e) j (lookup key_dec j c.entries)
unfolding cleanup_tick
lookup-cleanup_tick now j c s = lookup-sweep (λ _ e. is_expired now e) 0 j c s.distinct
