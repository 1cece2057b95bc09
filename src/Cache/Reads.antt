-- ===== src/Cache/Reads.antt =====
-- What a read returns after a store or after another read.
use loki_vl_proxy.Prelude.{
  ℕ, ◌+◌, ◌-◌, ◌*◌, ◌/◌, ◌≤◌, ◌<◌, ◌≡◌, ◌≢◌, refl, ◌∙◌, ◌⊎◌, Bool, false, Option, none, some, arith,
  if_pos, if_neg, if◌then◌else◌, ◌==◌, length, le→ltb, subst,
}
use loki_vl_proxy.Cache.Assoc.{lookup, lookup-put}
use loki_vl_proxy.Cache.State.{Key, Value, key_dec, Entry, Cache, second}
use loki_vl_proxy.Cache.Store.{
  uncount_old, insert_entry, store_local_locked, set_local_only_with_ttl,
}
use loki_vl_proxy.Cache.Sync.{InSync, uncount_old-InSync}
use loki_vl_proxy.Cache.Evict.{Kept, evict_if_needed-Kept, store_local_locked-Frame}
use loki_vl_proxy.Cache.Overwrite.{made_room, entries-uncount_old}
use loki_vl_proxy.Cache.Tiers.{
  Answer, Lower, Peers, Disk, push_promotion, fresh_value, get_l1_with_ttl, get_with_ttl, tier_miss,
  shared_l3_asked, shared_l2_asked, shared_l1_asked, get_shared_l3, get_shared_l2,
  get_shared_with_ttl, set_with_ttl, clamp_ttl,
}

-- After a store a key holds the new entry.
pub lookup-store_local_locked :
    (now : ℕ) (k : Key) (v : Value) (ttl : ℕ) (c : Cache)
    → lookup key_dec k (store_local_locked now k v ttl c).entries
      ≡ some (record { value = v; expires_at = now + ttl; size_bytes = length v })
unfolding store_local_locked insert_entry
lookup-store_local_locked now k v ttl c =
    lookup-put key_dec k k (record { value = v; expires_at = now + ttl; size_bytes = length v })
      (made_room now k v c).entries
    ∙ if_pos (key_dec k k) refl _ _

-- A store leaves every other key with what it held before, or, by eviction, with nothing.
pub lookup-store_local_locked_ne :
    (now : ℕ) (k j : Key) (v : Value) (ttl : ℕ) (c : Cache)
    → InSync c
    → k ≢ j
    → Kept j c (store_local_locked now k v ttl c)
unfolding store_local_locked insert_entry
lookup-store_local_locked_ne now k j v ttl c s h =
    rw
      (
        lookup-put key_dec j k (record { value = v; expires_at = now + ttl; size_bytes = length v })
            (made_room now k v c).entries,
        if_neg (key_dec k j) h,
      )
      kept
  where
    kept :
        (lookup key_dec j (made_room now k v c).entries ≡ none)
        ⊎ (lookup key_dec j (made_room now k v c).entries ≡ lookup key_dec j c.entries)
    kept =
        subst
          (λ es.
            (lookup key_dec j (made_room now k v c).entries ≡ none)
            ⊎ (lookup key_dec j (made_room now k v c).entries ≡ lookup key_dec j es))
          (entries-uncount_old k c)
          (evict_if_needed-Kept j now (length v) (uncount_old k c) (uncount_old-InSync k c s))

-- L1 holds a value under the key that is good until `until`.
abbrev pub Holds : Key → Value → ℕ → Cache → Type 0
Holds k v until c =
    (e : Entry) × (lookup key_dec k c.entries ≡ some e) × (e.value ≡ v) × (e.expires_at ≡ until)

fresh-Holds :
    (t until : ℕ) (k : Key) (v : Value) (c : Cache)
    → Holds k v until c
    → t < until
    → fresh_value t (lookup key_dec k c.entries) ≡ some (v, until - t)
unfolding fresh_value
fresh-Holds t until k v c (e, h, hv, hu) l = rw h (ground (arith, hv, hu))

-- A value that L1 holds and that has not expired is returned by `GetWithTTL`, with the time left.
pub get_with_ttl-Holds :
    (t until : ℕ) (k : Key) (v : Value) (c : Cache)
    → c.disabled ≡ false
    → Holds k v until c
    → t < until
    → (get_with_ttl t k c).1 ≡ some (v, until - t)
unfolding get_with_ttl get_l1_with_ttl
get_with_ttl-Holds t until k v c d h l = rw (d, fresh-Holds t until k v c h l) refl

store-Holds :
    (now : ℕ) (k : Key) (v : Value) (ttl : ℕ) (c : Cache)
    → Holds k v (now + ttl) (store_local_locked now k v ttl c)
store-Holds now k v ttl c = (_, lookup-store_local_locked now k v ttl c, refl, refl)

local-Holds :
    (now : ℕ) (k : Key) (v : Value) (ttl : ℕ) (c : Cache)
    → c.disabled ≡ false
    → length v ≤ c.max_bytes / 10
    → Holds k v (now + ttl) (set_local_only_with_ttl now k v ttl c)
unfolding set_local_only_with_ttl
local-Holds now k v ttl c d l =
    simp (d, le→ltb (c.max_bytes / 10) (length v) l) (store-Holds now k v ttl c)

-- Reads what `set_with_ttl` stored, until it expires.
pub set_with_ttl-Holds :
    (propagate : Bool) (now : ℕ) (k : Key) (v : Value) (ttl : ℕ) (lower : Lower) (c : Cache)
    → c.disabled ≡ false
    → length v ≤ c.max_bytes / 10
    → Holds k v (now + clamp_ttl lower.l3 k ttl) (set_with_ttl propagate now k v ttl lower c).0
unfolding set_with_ttl
set_with_ttl-Holds propagate now k v ttl lower c d l =
    simp (d, le→ltb (c.max_bytes / 10) (length v) l)
      (store-Holds now k v (clamp_ttl lower.l3 k ttl) c)

-- L1 holds the answer of a read at `now`, if the value is not over the limit of one entry.
abbrev pub Answered : ℕ → ℕ → Key → Answer → Type 0
Answered limit now k (c, none) = Unit
Answered limit now k (c, some (v, ttl, tier)) = length v ≤ limit → Holds k v (now + ttl) c

shared_l3-Answered :
    (now : ℕ) (k : Key) (l3 : Option Peers) (c : Cache)
    → c.disabled ≡ false
    → Answered (c.max_bytes / 10) now k (get_shared_l3 now k l3 c)
shared_l3-Answered now k none c d = unfold get_shared_l3 in tt
shared_l3-Answered now k (some peers) c d = unfold get_shared_l3 in asked (peers.fetch k)
  where
    asked : (r : Option (Value × ℕ)) → Answered (c.max_bytes / 10) now k (shared_l3_asked now k r c)
    asked none = unfold shared_l3_asked in tt
    asked (some (v, remaining)) =
        unfold shared_l3_asked in
        local-Holds now k v (if remaining == 0 then 30 * second else remaining) c d

shared_l2-Answered :
    (now : ℕ) (k : Key) (l2 : Option Disk) (l3 : Option Peers) (c : Cache)
    → c.disabled ≡ false
    → Answered (c.max_bytes / 10) now k (get_shared_l2 now k l2 l3 c)
shared_l2-Answered now k none l3 c d = unfold get_shared_l2 in shared_l3-Answered now k l3 c d
shared_l2-Answered now k (some disk) l3 c d = unfold get_shared_l2 in asked (disk.get_with_ttl k)
  where
    asked :
        (r : Option (Value × ℕ)) → Answered (c.max_bytes / 10) now k (shared_l2_asked now k l3 r c)
    asked none =
        unfold shared_l2_asked in
        shared_l3-Answered now k l3 (record c { l2_stats = tier_miss c.l2_stats }) d
    asked (some (v, ttl)) = unfold shared_l2_asked in local-Holds now k v ttl c d

entries-push_promotion : (k : Key) (c : Cache) → (push_promotion k c).entries ≡ c.entries
unfolding push_promotion
entries-push_promotion k c = ground arith

fresh_value-Holds :
    (now : ℕ) (k : Key) (c : Cache) (v : Value) (ttl : ℕ)
    → fresh_value now (lookup key_dec k c.entries) ≡ some (v, ttl)
    → Holds k v (now + ttl) c
fresh_value-Holds now k c v ttl h = found (lookup key_dec k c.entries) refl
  where
    found : (o : Option Entry) → lookup key_dec k c.entries ≡ o → Holds k v (now + ttl) c
    found none e = unfold fresh_value in ground (arith, h)
    found (some f) e =
        (f, e, unfold fresh_value in ground (arith, h), unfold fresh_value in ground (arith, h))

-- Whatever tier answers a shared read, L1 holds the answer afterwards for as long as the answer
-- says, if the value does not exceed a tenth of the byte limit.
pub get_shared_with_ttl-Answered :
    (now : ℕ) (k : Key) (lower : Lower) (c : Cache)
    → c.disabled ≡ false
    → Answered (c.max_bytes / 10) now k (get_shared_with_ttl now k lower c)
get_shared_with_ttl-Answered now k lower c d =
    unfold get_shared_with_ttl in simp d (first (fresh_value now (lookup key_dec k c.entries)) refl)
  where
    first :
        (r : Option (Value × ℕ))
        → fresh_value now (lookup key_dec k c.entries) ≡ r
        → Answered (c.max_bytes / 10) now k (shared_l1_asked now k lower r c)
    first none h =
        unfold shared_l1_asked in
        shared_l2-Answered now k lower.l2 lower.l3 (record c { l1_stats = tier_miss c.l1_stats }) d
    first (some (v, ttl)) h =
        let held = fresh_value-Holds now k c v ttl h in
        unfold shared_l1_asked in
        λ _. (held.0, rw (entries-push_promotion k c) held.1, held.2, held.3)

-- On an enabled cache, a value of at most a tenth of the byte limit that `SetWithTTL` or
-- `SetShadowWithTTL` stored is what `GetWithTTL` returns at every later time before it expires,
-- with the time that is left; the time to live is the one given, or the cap on what a replica
-- keeps of another owner's key.
pub get_with_ttl-set_with_ttl :
    (propagate : Bool) (now t : ℕ) (k : Key) (v : Value) (ttl : ℕ) (lower : Lower) (c : Cache)
    → c.disabled ≡ false
    → length v ≤ c.max_bytes / 10
    → InSync c
    → t < now + clamp_ttl lower.l3 k ttl
    → (get_with_ttl t k (set_with_ttl propagate now k v ttl lower c).0).1
      ≡ some (v, now + clamp_ttl lower.l3 k ttl - t)
get_with_ttl-set_with_ttl propagate now t k v ttl lower c d l s before =
    get_with_ttl-Holds t (now + clamp_ttl lower.l3 k ttl) k v
      (set_with_ttl propagate now k v ttl lower c).0 still
      (set_with_ttl-Holds propagate now k v ttl lower c d l) before
  where
    still : (set_with_ttl propagate now k v ttl lower c).0.disabled ≡ false
    still =
        unfold set_with_ttl in
        simp (d, le→ltb (c.max_bytes / 10) (length v) l)
          ((store_local_locked-Frame now k v (clamp_ttl lower.l3 k ttl) c s).same_disabled ∙ d)
