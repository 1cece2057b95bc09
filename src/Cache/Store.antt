-- ===== src/Cache/Store.antt =====
-- internal/cache/cache.go: eviction, stores and invalidation of the in-memory tier. Each function
-- is a stretch of code under the write lock, and takes the clock reading that it makes; the readings
-- that a store makes, for the eviction and for `expiresAt`, are taken to be the same.
use loki_vl_proxy.Prelude.{
  ℕ, ◌+◌, ◌/◌, Bool, true, false, ◌&&◌, ◌||◌, none, some, List, [], ◌∷◌, ◌++◌, if◌then◌else◌, ltb,
  leb, ◌==◌, length,
}
use loki_vl_proxy.Prelude.Int.{pos, ◌+ℤ◌, ◌-ℤ◌, ltb_ℤ}
use loki_vl_proxy.Cache.Assoc.{lookup, put, remove, has, erase}
use loki_vl_proxy.Cache.State.{Key, Value, key_dec, Entry, Cache}

-- `now.After(e.expiresAt)`
abbrev pub is_expired : ℕ → Entry → Bool
is_expired now e = ltb e.expires_at now

-- Removes a key with its hot record and its place in the LRU list: the statements that
-- `Invalidate`, `InvalidatePrefix`, `cleanup` and both eviction passes share.
unfoldable pub drop_entry : Key → Entry → Cache → Cache
drop_entry k e c = record c {
  cur_bytes = c.cur_bytes -ℤ pos e.size_bytes;
  entries = remove key_dec k c.entries;
  hot = remove key_dec k c.hot;
  lru = erase key_dec k c.lru;
}

-- A loop `for k, v := range c.entries` that removes the entries that pass the test. The list is
-- what the range starts from; `count` is what each removal adds to `Evictions`.
unfoldable pub sweep : (Key → Entry → Bool) → ℕ → List (Key × Entry) → Cache → Cache
sweep drop count [] c = c
sweep drop count ((k, e) ∷ es) c = sweep drop count es (
    if drop k e
    then (let c' = drop_entry k e c in record c' { evictions = c.evictions + count })
    else c)

unfoldable pub needs_room : ℕ → Cache → Bool
needs_room incoming c =
    leb c.max_entries (length c.entries) || ltb_ℤ (pos c.max_bytes) (c.cur_bytes +ℤ pos incoming)

-- The body of the second pass: `k` is `Back()`, and `ks` the rest of the LRU list.
unfoldable pub evict_back : Key → List Key → Cache → Cache
evict_back k ks c = elim (lookup key_dec k c.entries) [
  | none ↦ record c { lru = ks }
  | some e ↦ record c {
    cur_bytes = c.cur_bytes -ℤ pos e.size_bytes;
    entries = remove key_dec k c.entries;
    hot = remove key_dec k c.hot;
    lru = ks;
    evictions = c.evictions + 1;
  }
]

-- The second pass: each round takes the head of the LRU list, which is `c.lru`.
unfoldable pub evict_lru : ℕ → List Key → Cache → Cache
evict_lru incoming [] c = c
evict_lru incoming (k ∷ ks) c =
    let c' = evict_lru incoming ks (evict_back k ks c) in if needs_room incoming c then c' else c

unfoldable pub evict_expired : ℕ → ℕ → Cache → Cache
evict_expired now incoming c =
    if needs_room incoming c then sweep (λ _ e. is_expired now e) 1 c.entries c else c

unfoldable pub evict_if_needed : ℕ → ℕ → Cache → Cache
evict_if_needed now incoming c =
    let c' = evict_expired now incoming c in evict_lru incoming c'.lru c'

-- The start of `storeLocalLocked`: an entry that is overwritten is no longer counted, and moves
-- to the front.
unfoldable pub uncount_old : Key → Cache → Cache
uncount_old key c = elim (lookup key_dec key c.entries) [
  | none ↦ c
  | some old ↦ record c {
    cur_bytes = c.cur_bytes -ℤ pos old.size_bytes;
    lru = if has key_dec key c.lru then erase key_dec key c.lru ++ key ∷ [] else c.lru;
  }
]

-- Its end: the entry, its size, and its place in the LRU list if it has none.
unfoldable pub insert_entry : ℕ → Key → Value → ℕ → Cache → Cache
insert_entry now key value ttl c = record c {
  entries =
      put key_dec key (record { value = value; expires_at = now + ttl; size_bytes = length value })
        c.entries;
  cur_bytes = c.cur_bytes +ℤ pos (length value);
  lru = if has key_dec key c.lru then c.lru else c.lru ++ key ∷ [];
}

unfoldable pub store_local_locked : ℕ → Key → Value → ℕ → Cache → Cache
store_local_locked now key value ttl c =
    insert_entry now key value ttl (evict_if_needed now (length value) (uncount_old key c))

-- `SetLocalOnlyWithTTL`
unfoldable pub set_local_only_with_ttl : ℕ → Key → Value → ℕ → Cache → Cache
set_local_only_with_ttl now key value ttl c =
    if c.disabled
    then c
    else if ltb (c.max_bytes / 10) (length value)
    then c
    else store_local_locked now key value ttl c

-- `Invalidate`
unfoldable pub invalidate : Key → Cache → Cache
invalidate key c = elim (lookup key_dec key c.entries) [ none ↦ c | some e ↦ drop_entry key e c ]

unfoldable pub has_prefix : List ℕ → Key → Bool
has_prefix [] key = true
has_prefix (p ∷ ps) [] = false
has_prefix (p ∷ ps) (c ∷ cs) = (p == c) && has_prefix ps cs

-- `InvalidatePrefix`, and with it `PurgeAll`, which passes the empty prefix.
unfoldable pub invalidate_prefix : List ℕ → Cache → Cache
invalidate_prefix prefix c = sweep (λ k _. has_prefix prefix k) 0 c.entries c

-- One tick of `cleanup`.
unfoldable pub cleanup_tick : ℕ → Cache → Cache
cleanup_tick now c = sweep (λ _ e. is_expired now e) 0 c.entries c
