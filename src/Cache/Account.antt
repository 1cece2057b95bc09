-- ===== src/Cache/Account.antt =====
-- What `cur_bytes` counts. `Drift d c` says that it is `d` below the bytes that the entries hold.
use loki_vl_proxy.Prelude.{
  ℕ, ◌+◌, ◌≡◌, refl, ap, Bool, Option, none, some, List, [], ◌∷◌, arith, Bool-cases, inl, inr,
  sum_by, length,
}
use loki_vl_proxy.Prelude.Int.{pos, pos_part, neg_part, +ℤ_parts, -ℤ_parts}
use loki_vl_proxy.Cache.Assoc.{lookup, count_at, sum_by-remove, sum_by-put}
use loki_vl_proxy.Cache.State.{Key, Value, key_dec, Entry, Cache}
use loki_vl_proxy.Cache.Store.{
  drop_entry, sweep, needs_room, evict_back, evict_lru, evict_expired, evict_if_needed, uncount_old,
  insert_entry,
}
use loki_vl_proxy.Cache.Sweep.{sweep_all}
use loki_vl_proxy.Cache.Sync.{InSync}

abbrev pub entry_size : Entry → ℕ
entry_size e = e.size_bytes

-- The bytes of the values that the cache holds.
abbrev pub bytes_held : Cache → ℕ
bytes_held c = sum_by (λ (p : Key × Entry). p.1.size_bytes) c.entries

pub record Drift (d : ℕ) (c : Cache) : Type 0 where
  pub counted : pos_part c.cur_bytes + d ≡ neg_part c.cur_bytes + bytes_held c

-- The size of what is stored under a key.
abbrev pub size_at : Key → Cache → ℕ
size_at k c = count_at entry_size (lookup key_dec k c.entries)

pub drop_entry-Drift :
    (d : ℕ) (k : Key) (e : Entry) (c : Cache)
    → lookup key_dec k c.entries ≡ some e
    → Drift d c
    → Drift d (drop_entry k e c)
unfolding drop_entry
drop_entry-Drift d k e c h a = record {
  counted = omega (
    arith,
    a.counted,
    -ℤ_parts c.cur_bytes (pos e.size_bytes),
    sum_by-remove key_dec entry_size k c.entries,
    ap (count_at entry_size) h,
  );
}

pub sweep-Drift :
    (d : ℕ) (drop : Key → Entry → Bool) (count : ℕ) (c : Cache)
    → InSync c
    → Drift d c
    → Drift d (sweep drop count c.entries c)
sweep-Drift d drop count c s a =
    sweep_all (Drift d) drop count
      (λ k e c' h a'. record { counted = (drop_entry-Drift d k e c' h a').counted }) c s.distinct a

evict_back-Drift :
    (d : ℕ) (k : Key) (ks : List Key) (c : Cache) → Drift d c → Drift d (evict_back k ks c)
evict_back-Drift d k ks c a = there (lookup key_dec k c.entries) refl
  where
    there :
        (found : Option Entry) → lookup key_dec k c.entries ≡ found → Drift d (evict_back k ks c)
    there none h = unfold evict_back in rw (h, evict_back) (record { counted = a.counted })
    there (some e) h =
        unfold evict_back drop_entry in
        rw (h, evict_back) (record { counted = (drop_entry-Drift d k e c h a).counted })

evict_lru-Drift :
    (d incoming : ℕ) (ks : List Key) (c : Cache) → Drift d c → Drift d (evict_lru incoming ks c)
unfolding evict_lru
evict_lru-Drift d incoming [] c a = a
evict_lru-Drift d incoming (k ∷ ks) c a = elim (Bool-cases (needs_room incoming c)) [
  | inl h ↦ rw h (evict_lru-Drift d incoming ks (evict_back k ks c) (evict_back-Drift d k ks c a))
  | inr h ↦ rw h a
]

evict_expired-Drift :
    (d now incoming : ℕ) (c : Cache) → InSync c → Drift d c → Drift d (evict_expired now incoming c)
unfolding evict_expired
evict_expired-Drift d now incoming c s a = elim (Bool-cases (needs_room incoming c)) [
  | inl h ↦ rw h (sweep-Drift d _ 1 c s a)
  | inr h ↦ rw h a
]

pub evict_if_needed-Drift :
    (d now incoming : ℕ) (c : Cache)
    → InSync c
    → Drift d c
    → Drift d (evict_if_needed now incoming c)
unfolding evict_if_needed
evict_if_needed-Drift d now incoming c s a =
    evict_lru-Drift d incoming (evict_expired now incoming c).lru (evict_expired now incoming c)
      (evict_expired-Drift d now incoming c s a)

-- The old size is no longer counted, though its entry is still there.
pub uncount_old-Drift :
    (d : ℕ) (k : Key) (c : Cache) → Drift d c → Drift (d + size_at k c) (uncount_old k c)
uncount_old-Drift d k c a = there (lookup key_dec k c.entries) refl
  where
    there :
        (found : Option Entry)
        → lookup key_dec k c.entries ≡ found
        → Drift (d + size_at k c) (uncount_old k c)
    there none h =
        unfold uncount_old in
        rw (h, uncount_old)
          (record { counted = omega (arith, a.counted, ap (count_at entry_size) h) })
    there (some e) h =
        unfold uncount_old in
        rw (h, uncount_old)
          (record {
            counted = omega (
              arith,
              a.counted,
              -ℤ_parts c.cur_bytes (pos e.size_bytes),
              ap (count_at entry_size) h,
            );
          })

pub insert_entry-Drift :
    (d now : ℕ) (k : Key) (v : Value) (ttl : ℕ) (c : Cache)
    → Drift (d + size_at k c) c
    → Drift d (insert_entry now k v ttl c)
unfolding insert_entry
insert_entry-Drift d now k v ttl c a = record {
  counted = omega (
    arith,
    a.counted,
    +ℤ_parts c.cur_bytes (pos (length v)),
    sum_by-put key_dec entry_size k
        (record { value = v; expires_at = now + ttl; size_bytes = length v }) c.entries,
  );
}
