-- ===== src/Cache/Tiers.antt =====
-- internal/cache/cache.go: reads, the lookup chain L1 - L2 - L3, and writes that go on to the lower
-- tiers. The disk cache and the peer cache stand behind records of the answers that they give
-- during one call; a write to them is a command in the result.
use loki_vl_proxy.Prelude.{
  ℕ, ◌+◌, ◌-◌, ◌*◌, ◌/◌, Bool, false, ◌&&◌, not, Option, none, some, List, [], ◌∷◌, ◌++◌,
  if◌then◌else◌, ltb, ◌==◌, length,
}
use loki_vl_proxy.Prelude.Int.{ℤ, sub_ℕ}
use loki_vl_proxy.Cache.Assoc.{lookup, has, erase}
use loki_vl_proxy.Cache.State.{
  Key, Value, key_dec, Entry, TierStats, Cache, second, promote_capacity,
}
use loki_vl_proxy.Cache.Store.{has_prefix, set_local_only_with_ttl, store_local_locked}
use loki_vl_proxy.Cache.Hot.{codes, record_hot}

-- What `DiskCache` answers.
pub record Disk : Type 0 where
  pub get_with_ttl : Key → Option (Value × ℕ)
  pub get_stale : Key → Option (Value × ℤ)

-- What `PeerCache` answers. A remaining time of 0 means that the owner did not say.
pub record Peers : Type 0 where
  pub fetch : Key → Option (Value × ℕ)
  pub is_owner : Key → Bool
  pub write_through : Bool

pub record Lower : Type 0 where
  pub l2 : Option Disk
  pub l3 : Option Peers

pub data Write : Type 0 where
  disk_set peer_set : Key → Value → ℕ → Write

-- The non-blocking send on `promoteBuf`.
unfoldable pub push_promotion : Key → Cache → Cache
push_promotion key c =
    if ltb (length c.promote_buf) promote_capacity
    then record c { promote_buf = c.promote_buf ++ key ∷ [] }
    else c

-- The test of `getL1WithTTL` and `GetWithTTL`: the value and the time it has left.
unfoldable pub fresh_value : ℕ → Option Entry → Option (Value × ℕ)
fresh_value now none = none
fresh_value now (some e) = if ltb now e.expires_at then some (e.value, e.expires_at - now) else none

unfoldable pub get_l1_with_ttl : ℕ → Key → Cache → Cache × Option (Value × ℕ)
unfolding fresh_value
get_l1_with_ttl now key c = elim (fresh_value now (lookup key_dec key c.entries)) [
  | none ↦ (c, none)
  | some r ↦ (push_promotion key c, some r)
]

unfoldable pub get_with_ttl : ℕ → Key → Cache → Cache × Option (Value × ℕ)
unfolding get_l1_with_ttl
get_with_ttl now key c = if c.disabled then (c, none) else (elim (get_l1_with_ttl now key c).1 [
  | none ↦ (c, none)
  | some r ↦ let c' = (get_l1_with_ttl now key c).0 in (record c' { hits = c.hits + 1 }, some r)
])

unfoldable pub get_stale_with_ttl : ℕ → Key → Cache → Option (Value × ℤ)
get_stale_with_ttl now key c = if c.disabled then none else (elim (lookup key_dec key c.entries) [
  | none ↦ none
  | some e ↦ some (e.value, sub_ℕ e.expires_at now)
])

pub data Tier : Type 0 where
  l1_memory l2_disk l3_peer : Tier

abbrev pub tier_hit : TierStats → TierStats
tier_hit s = record s { requests = s.requests + 1; hits = s.hits + 1 }

abbrev pub tier_miss : TierStats → TierStats
tier_miss s = record s { requests = s.requests + 1; misses = s.misses + 1 }

abbrev pub Answer : Type 0
Answer = Cache × Option (Value × ℕ × Tier)

-- `GetSharedWithTTL` with the answer of the peers.
unfoldable pub shared_l3_asked : ℕ → Key → Option (Value × ℕ) → Cache → Answer
shared_l3_asked now key none c = (
  record c {
    l3_stats = tier_miss c.l3_stats;
    backend_fallthrough = c.backend_fallthrough + 1;
    misses = c.misses + 1;
  },
  none,
)
shared_l3_asked now key (some (v, remaining)) c =
    let shadow = if remaining == 0 then 30 * second else remaining in
    let c' = set_local_only_with_ttl now key v shadow c in
    (record c' { l3_stats = tier_hit c.l3_stats; hits = c.hits + 1 }, some (v, shadow, l3_peer))

-- It once L1 and L2 have missed.
unfoldable pub get_shared_l3 : ℕ → Key → Option Peers → Cache → Answer
unfolding shared_l3_asked
get_shared_l3 now key none c =
    (record c { backend_fallthrough = c.backend_fallthrough + 1; misses = c.misses + 1 }, none)
get_shared_l3 now key (some peers) c = shared_l3_asked now key (peers.fetch key) c

-- It with the answer of the disk.
unfoldable pub shared_l2_asked : ℕ → Key → Option Peers → Option (Value × ℕ) → Cache → Answer
unfolding get_shared_l3
shared_l2_asked now key l3 none c =
    get_shared_l3 now key l3 (record c { l2_stats = tier_miss c.l2_stats })
shared_l2_asked now key l3 (some (v, ttl)) c =
    let c' = set_local_only_with_ttl now key v ttl c in
    (record c' { l2_stats = tier_hit c.l2_stats; hits = c.hits + 1 }, some (v, ttl, l2_disk))

-- It once L1 has missed.
unfoldable pub get_shared_l2 : ℕ → Key → Option Disk → Option Peers → Cache → Answer
unfolding shared_l2_asked
get_shared_l2 now key none l3 c = get_shared_l3 now key l3 c
get_shared_l2 now key (some disk) l3 c = shared_l2_asked now key l3 (disk.get_with_ttl key) c

-- It with the answer of L1.
unfoldable pub shared_l1_asked : ℕ → Key → Lower → Option (Value × ℕ) → Cache → Answer
unfolding get_shared_l2 push_promotion
shared_l1_asked now key lower none c =
    get_shared_l2 now key lower.l2 lower.l3 (record c { l1_stats = tier_miss c.l1_stats })
shared_l1_asked now key lower (some (v, ttl)) c =
    let c' = push_promotion key c in
    (record c' { l1_stats = tier_hit c.l1_stats; hits = c.hits + 1 }, some (v, ttl, l1_memory))

-- `GetSharedWithTTL`
unfoldable pub get_shared_with_ttl : ℕ → Key → Lower → Cache → Answer
unfolding fresh_value shared_l1_asked
get_shared_with_ttl now key lower c =
    if c.disabled
    then (c, none)
    else shared_l1_asked now key lower (fresh_value now (lookup key_dec key c.entries)) c

unfoldable pub skip_l2_write_for_key : Key → Bool
skip_l2_write_for_key key = has_prefix (codes "patterns:") key

-- The time to live of a store: a replica that is not the owner keeps a short-lived copy if
-- owners are written through.
unfoldable pub clamp_ttl : Option Peers → Key → ℕ → ℕ
clamp_ttl none key ttl = ttl
clamp_ttl (some p) key ttl =
    if p.write_through && not (p.is_owner key) && ltb (30 * second) ttl then 30 * second else ttl

abbrev pub skips_disk : Option Peers → Key → Bool
skips_disk none key = false
skips_disk (some p) key = p.write_through && not (p.is_owner key)

unfoldable pub disk_writes : Lower → Key → Value → ℕ → List Write
disk_writes lower key value ttl = elim lower.l2 [
  | none ↦ []
  | some _ ↦
      if skip_l2_write_for_key key
      then []
      else if skips_disk lower.l3 key
      then []
      else disk_set key value ttl ∷ []
]

unfoldable pub peer_writes : Bool → Lower → Key → Value → ℕ → List Write
peer_writes propagate lower key value ttl = elim lower.l3 [
  | none ↦ []
  | some _ ↦ if propagate then peer_set key value ttl ∷ [] else []
]

-- `setWithTTL`; with `propagate` it is `SetWithTTL`, and without it `SetShadowWithTTL`.
unfoldable pub set_with_ttl : Bool → ℕ → Key → Value → ℕ → Lower → Cache → Cache × List Write
set_with_ttl propagate now key value ttl lower c =
    if c.disabled
    then (c, [])
    else if ltb (c.max_bytes / 10) (length value)
    then (c, [])
    else (let ttl' = clamp_ttl lower.l3 key ttl in
        (
          store_local_locked now key value ttl' c,
          disk_writes lower key value ttl' ++ peer_writes propagate lower key value ttl',
        ))

-- `SetLocalAndDiskWithTTL`
unfoldable pub set_local_and_disk_with_ttl :
    ℕ → Key → Value → ℕ → Lower → Cache → Cache × List Write
set_local_and_disk_with_ttl now key value ttl lower c =
    if c.disabled then (c, []) else if ltb (c.max_bytes / 10) (length value) then (c, []) else (
      store_local_locked now key value ttl c,
      elim lower.l2 [
        | none ↦ []
        | some _ ↦ if skip_l2_write_for_key key then [] else disk_set key value ttl ∷ []
      ],
    )

-- One key taken from `promoteBuf` by the promoter goroutine.
unfoldable pub apply_promotion : ℕ → Key → Cache → Cache
apply_promotion now key c =
    let lru = if has key_dec key c.lru then erase key_dec key c.lru ++ key ∷ [] else c.lru in
    let c' = record c { lru = lru } in if c.hot_on then record_hot now key c' else c'

unfoldable pub promote_next : ℕ → List Key → Cache → Cache
promote_next now [] c = c
promote_next now (key ∷ keys) c = apply_promotion now key (record c { promote_buf = keys })
