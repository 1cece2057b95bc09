-- ===== src/Cache/Overwrite.antt =====
-- Stores and the byte count: exact, except where a store evicts the very entry that it replaces.
use loki_vl_proxy.Prelude.{ℕ, ◌+◌, ◌≡◌, ap, ◌∙◌, ◌⊎◌, inl, inr, true, none, some, arith, length}
use loki_vl_proxy.Cache.Assoc.{lookup, count_at}
use loki_vl_proxy.Cache.State.{Key, Value, key_dec, Entry, Cache}
use loki_vl_proxy.Cache.Store.{
  is_expired, needs_room, evict_if_needed, uncount_old, store_local_locked,
}
use loki_vl_proxy.Cache.Sync.{InSync, uncount_old-InSync}
use loki_vl_proxy.Cache.Evict.{evict_if_needed-Kept, evict_if_needed-expired}
use loki_vl_proxy.Cache.Account.{
  Drift, size_at, entry_size, insert_entry-Drift, evict_if_needed-Drift, uncount_old-Drift,
}

-- The cache that a store inserts into.
abbrev pub made_room : ℕ → Key → Value → Cache → Cache
made_room now k v c = evict_if_needed now (length v) (uncount_old k c)

pub entries-uncount_old : (k : Key) (c : Cache) → (uncount_old k c).entries ≡ c.entries
unfolding uncount_old
entries-uncount_old k c = ground arith

made_room-Drift :
    (d now : ℕ) (k : Key) (v : Value) (c : Cache)
    → InSync c
    → Drift d c
    → Drift (d + size_at k c) (made_room now k v c)
made_room-Drift d now k v c s a =
    evict_if_needed-Drift (d + size_at k c) now (length v) (uncount_old k c)
      (uncount_old-InSync k c s) (uncount_old-Drift d k c a)

-- If the replaced entry is evicted while room is made, its size is subtracted twice.
pub store-Drift_evicted :
    (d now : ℕ) (k : Key) (v : Value) (ttl : ℕ) (c : Cache)
    → InSync c
    → Drift d c
    → lookup key_dec k (made_room now k v c).entries ≡ none
    → Drift (d + size_at k c) (store_local_locked now k v ttl c)
unfolding store_local_locked
store-Drift_evicted d now k v ttl c s a h =
    insert_entry-Drift (d + size_at k c) now k v ttl (made_room now k v c)
      (rw h (record { counted = omega (arith, (made_room-Drift d now k v c s a).counted) }))

store-Drift_kept :
    (d now : ℕ) (k : Key) (v : Value) (ttl : ℕ) (c : Cache)
    → InSync c
    → Drift d c
    → lookup key_dec k (made_room now k v c).entries ≡ lookup key_dec k c.entries
    → Drift d (store_local_locked now k v ttl c)
unfolding store_local_locked
store-Drift_kept d now k v ttl c s a h =
    insert_entry-Drift d now k v ttl (made_room now k v c) (rw h (made_room-Drift d now k v c s a))

-- A store changes the gap between `cur_bytes` and the bytes held in one case only: where making
-- room evicts the entry that the store replaces, the gap grows by that entry's size.
pub store_local_locked-Drift :
    (d now : ℕ) (k : Key) (v : Value) (ttl : ℕ) (c : Cache)
    → InSync c
    → Drift d c
    → Drift d (store_local_locked now k v ttl c)
      ⊎ ((lookup key_dec k (made_room now k v c).entries ≡ none)
          × Drift (d + size_at k c) (store_local_locked now k v ttl c))
store_local_locked-Drift d now k v ttl c s a =
    elim (evict_if_needed-Kept k now (length v) (uncount_old k c) (uncount_old-InSync k c s)) [
      | inl h ↦ inr (h, store-Drift_evicted d now k v ttl c s a h)
      | inr h ↦ inl (
          store-Drift_kept d now k v ttl c s a
            (h ∙ ap (lookup key_dec k) (entries-uncount_old k c)))
    ]

-- A store under a key that is not in the cache keeps the count exact if it was exact.
pub store_local_locked-new_key :
    (now : ℕ) (k : Key) (v : Value) (ttl : ℕ) (c : Cache)
    → InSync c
    → Drift 0 c
    → lookup key_dec k c.entries ≡ none
    → Drift 0 (store_local_locked now k v ttl c)
store_local_locked-new_key now k v ttl c s a h =
    elim (store_local_locked-Drift 0 now k v ttl c s a) [
      | inl exact ↦ exact
      | inr (_, off) ↦ record { counted = omega (arith, off.counted, ap (count_at entry_size) h) }
    ]

-- A store that replaces an expired entry, when room is needed, takes the old size off `cur_bytes`
-- twice: afterwards the count is lower than the bytes held by the old size, besides the gap that
-- was there before.
pub store_local_locked-expired :
    (d now : ℕ) (k : Key) (v : Value) (ttl : ℕ) (e : Entry) (c : Cache)
    → InSync c
    → Drift d c
    → lookup key_dec k c.entries ≡ some e
    → is_expired now e ≡ true
    → needs_room (length v) (uncount_old k c) ≡ true
    → Drift (d + e.size_bytes) (store_local_locked now k v ttl c)
store_local_locked-expired d now k v ttl e c s a h x n =
    let gone =
      evict_if_needed-expired k e now (length v) (uncount_old k c) (uncount_old-InSync k c s)
        (ap (lookup key_dec k) (entries-uncount_old k c) ∙ h) x n in
    let off = store-Drift_evicted d now k v ttl c s a gone in
    record { counted = omega (arith, off.counted, ap (count_at entry_size) h) }
