-- ===== src/Cache/Get.antt =====
-- internal/cache/cache.go: `Get`, and the reads of values that may have expired.
use loki_vl_proxy.Prelude.{
  ℕ, ◌+◌, ◌*◌, Bool, true, Option, none, some, List, [], if◌then◌else◌, leb, ◌==◌,
}
use loki_vl_proxy.Prelude.Int.{ℤ}
use loki_vl_proxy.Cache.Assoc.{lookup}
use loki_vl_proxy.Cache.State.{Key, Value, key_dec, Entry, TierStats, Cache, second}
use loki_vl_proxy.Cache.Tiers.{
  Disk, Peers, Lower, Write, Tier, l1_memory, l2_disk, push_promotion, get_stale_with_ttl,
  set_with_ttl,
}

abbrev pub Reply : Type 0
Reply = Cache × List Write × Option Value

-- `Get` with the answer of the peers.
unfoldable pub get_l3_asked : ℕ → Key → Lower → Option (Value × ℕ) → Cache → Reply
get_l3_asked now key lower none c = (record c { misses = c.misses + 1 }, [], none)
get_l3_asked now key lower (some (v, remaining)) c =
    let shadow = if remaining == 0 then 30 * second else remaining in
    let (c', writes) = set_with_ttl true now key v shadow lower c in
    (record c' { hits = c.hits + 1 }, writes, some v)

unfoldable pub get_l3 : ℕ → Key → Lower → Option Peers → Cache → Reply
unfolding get_l3_asked
get_l3 now key lower none c = (record c { misses = c.misses + 1 }, [], none)
get_l3 now key lower (some peers) c = get_l3_asked now key lower (peers.fetch key) c

-- `Get` with the answer of the disk. `DiskCache.Get` is `GetWithTTL` without the time.
unfoldable pub get_l2_asked : ℕ → Key → Lower → Option (Value × ℕ) → Cache → Reply
unfolding get_l3
get_l2_asked now key lower none c = get_l3 now key lower lower.l3 c
get_l2_asked now key lower (some (v, _)) c =
    let (c', writes) = set_with_ttl true now key v c.default_ttl lower c in
    (record c' { hits = c.hits + 1 }, writes, some v)

unfoldable pub get_l2 : ℕ → Key → Lower → Option Disk → Cache → Reply
unfolding get_l2_asked
get_l2 now key lower none c = get_l3 now key lower lower.l3 c
get_l2 now key lower (some disk) c = get_l2_asked now key lower (disk.get_with_ttl key) c

-- The test of `Get`. At the instant at which an entry expires it still passes; that of
-- `GetWithTTL` does not.
unfoldable pub unexpired : ℕ → Option Entry → Option Value
unexpired now none = none
unexpired now (some e) = if leb now e.expires_at then some e.value else none

unfoldable pub get_l1_asked : ℕ → Key → Lower → Option Value → Cache → Reply
unfolding get_l2 push_promotion
get_l1_asked now key lower none c = get_l2 now key lower lower.l2 c
get_l1_asked now key lower (some v) c =
    let c' = push_promotion key c in (record c' { hits = c.hits + 1 }, [], some v)

-- `Get`
unfoldable pub get : ℕ → Key → Lower → Cache → Reply
unfolding unexpired get_l1_asked
get now key lower c =
    if c.disabled
    then (c, [], none)
    else get_l1_asked now key lower (unexpired now (lookup key_dec key c.entries)) c

-- `GetRecoverableStaleWithTTLMatching`: only the counter of stale hits changes. A disk value is
-- read with the time it has left, which may be negative.
unfoldable pub get_recoverable_stale_with_ttl_matching :
    ℕ → Key → (Value → Bool) → Lower → Cache → Cache × Option (Value × ℤ × Tier)
unfolding get_stale_with_ttl
get_recoverable_stale_with_ttl_matching now key usable lower c =
    if c.disabled then (c, none) else (elim (accepted (get_stale_with_ttl now key c)) [
      | some (v, ttl) ↦ (record c { l1_stats = stale_hit c.l1_stats }, some (v, ttl, l1_memory))
      | none ↦ elim lower.l2 [
        | none ↦ (c, none)
        | some disk ↦ elim (accepted (disk.get_stale key)) [
          | none ↦ (c, none)
          | some (v, ttl) ↦ (record c { l2_stats = stale_hit c.l2_stats }, some (v, ttl, l2_disk))
        ]
      ]
    ])
  where
    stale_hit : TierStats → TierStats
    stale_hit s = record s { stale_hits = s.stale_hits + 1 }

    accepted : Option (Value × ℤ) → Option (Value × ℤ)
    accepted none = none
    accepted (some (v, ttl)) = if usable v then some (v, ttl) else none
