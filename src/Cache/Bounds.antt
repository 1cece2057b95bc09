-- ===== src/Cache/Bounds.antt =====
-- The limits on entries and bytes.
use loki_vl_proxy.Prelude.{
  ℕ, ◌+◌, ◌/◌, ◌≤◌, ◌<◌, ◌≡◌, refl, ap, ◌⊎◌, inl, inr, false, List, [], ◌∷◌, arith, length, sum_by,
  subst,
}
use loki_vl_proxy.Prelude.Int.{pos, ◌+ℤ◌, ◌≤ℤ◌, +ℤ_parts}
use loki_vl_proxy.Cache.Assoc.{is_some, lookup, has, length-put-le}
use loki_vl_proxy.Cache.State.{Key, Value, key_dec, Entry, Cache}
use loki_vl_proxy.Cache.Store.{
  needs_room, evict_if_needed, uncount_old, insert_entry, store_local_locked,
}
use loki_vl_proxy.Cache.Sync.{InSync, evict_if_needed-InSync, uncount_old-InSync}
use loki_vl_proxy.Cache.Evict.{Frame, Frame-refl, uncount_old-Frame, evict_if_needed-room}
use loki_vl_proxy.Cache.Account.{Drift, size_at, evict_if_needed-Drift, uncount_old-Drift}

pub record Within (n bytes : ℕ) (c : Cache) : Type 0 where
  pub few : length c.entries ≤ n
  pub counted_small : c.cur_bytes ≤ℤ pos bytes

no_entries : (c : Cache) → InSync c → c.lru ≡ [] → c.entries ≡ []
no_entries c s e =
    none_left c.entries
      (λ k. subst (λ l. has key_dec k l ≡ is_some (lookup key_dec k c.entries)) e (s.in_sync k))
  where
    none_left :
        (es : List (Key × Entry))
        → ((k : Key) → has key_dec k [] ≡ is_some (lookup key_dec k es))
        → es ≡ []
    none_left [] h = refl
    none_left ((k, v) ∷ es) h = unfold has lookup in ground (arith, h k)

-- Room in the sense of the second pass: its test fails.
room-cases :
    (incoming : ℕ) (c : Cache)
    → needs_room incoming c ≡ false
    → (length c.entries < c.max_entries) × (c.cur_bytes +ℤ pos incoming ≤ℤ pos c.max_bytes)
unfolding needs_room
room-cases incoming c h = ground arith

-- With room made, an insertion stays within the limits.
insert_entry-Within :
    (n bytes now : ℕ) (k : Key) (v : Value) (ttl : ℕ) (c : Cache)
    → length c.entries < n
    → c.cur_bytes +ℤ pos (length v) ≤ℤ pos bytes
    → Within n bytes (insert_entry now k v ttl c)
unfolding insert_entry
insert_entry-Within n bytes now k v ttl c few small = record {
  few = omega (
    arith,
    length-put-le key_dec k (record { value = v; expires_at = now + ttl; size_bytes = length v })
        c.entries,
  );
  counted_small = small;
}

-- What making room gives an insertion.
room :
    (b : Cache) (d incoming : ℕ) (c : Cache)
    → 0 < b.max_entries
    → incoming ≤ b.max_bytes
    → InSync c
    → Drift d c
    → Frame b c
    → (needs_room incoming c ≡ false) ⊎ (c.lru ≡ [])
    → (length c.entries < b.max_entries) × (c.cur_bytes +ℤ pos incoming ≤ℤ pos b.max_bytes)
room b d incoming c p i s a t (inl h) =
    let (few, small) = room-cases incoming c h in
    (omega (arith, t.entries_limit), omega (arith, t.bytes_limit))
room b d incoming c p i s a t (inr h) =
    let nothing = no_entries c s h in
    (
      omega (arith, ap (λ (es : List (Key × Entry)). length es) nothing),
      omega (
        arith,
        a.counted,
        +ℤ_parts c.cur_bytes (pos incoming),
        ap (sum_by (λ (q : Key × Entry). q.1.size_bytes)) nothing,
      ),
    )

-- A store of a value of at most a tenth of the byte limit leaves at most `max_entries` entries
-- and a count of at most `max_bytes`, if `max_entries` is not 0 and the LRU list was in step with
-- the entries, whatever the count was off by before.
pub store_local_locked-Within :
    (d now : ℕ) (k : Key) (v : Value) (ttl : ℕ) (c : Cache)
    → 0 < c.max_entries
    → length v ≤ c.max_bytes / 10
    → InSync c
    → Drift d c
    → Within c.max_entries c.max_bytes (store_local_locked now k v ttl c)
unfolding store_local_locked
store_local_locked-Within d now k v ttl c p small s a =
    let s' = uncount_old-InSync k c s in
    let a' = uncount_old-Drift d k c a in
    let made =
      evict_if_needed-room c now (length v) (uncount_old k c) s'
        (uncount_old-Frame c k c (Frame-refl c)) in
    let (few, fits) =
      room c (d + size_at k c) (length v) (evict_if_needed now (length v) (uncount_old k c)) p
        (omega arith) (evict_if_needed-InSync now (length v) (uncount_old k c) s')
        (evict_if_needed-Drift (d + size_at k c) now (length v) (uncount_old k c) s' a') made.0
        made.1 in
    insert_entry-Within c.max_entries c.max_bytes now k v ttl
      (evict_if_needed now (length v) (uncount_old k c)) few fits
