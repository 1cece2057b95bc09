-- ===== src/Cache/Sync.antt =====
-- The LRU list holds the keys of the entries, each once, through every store and removal.
use loki_vl_proxy.Prelude.{
  ℕ, ◌+◌, ◌≡◌, refl, ap, subst, Bool, true, Option, none, some, List, [], ◌∷◌, arith, Bool-cases,
  inl, inr, length,
}
use loki_vl_proxy.Cache.Assoc.{
  is_some, lookup, has, erase, Distinct, Once, lookup-put, lookup-remove, remove-Distinct,
  put-Distinct, has-erase, erase-Once, has-snoc, snoc-Once,
}
use loki_vl_proxy.Cache.State.{Key, Value, key_dec, Entry, Cache, new_with_max_bytes}
use loki_vl_proxy.Cache.Sweep.{dropped, sweep_all}
use loki_vl_proxy.Cache.Store.{
  drop_entry, sweep, needs_room, evict_back, evict_lru, evict_expired, evict_if_needed, uncount_old,
  insert_entry, store_local_locked, invalidate,
}

pub record InSync (c : Cache) : Type 0 where
  pub distinct : Distinct key_dec c.entries
  pub once : Once key_dec c.lru
  pub in_sync : (k : Key) → has key_dec k c.lru ≡ is_some (lookup key_dec k c.entries)

pub new_with_max_bytes-InSync : (ttl n bytes : ℕ) → InSync (new_with_max_bytes ttl n bytes)
unfolding new_with_max_bytes has lookup
new_with_max_bytes-InSync ttl n bytes = record { distinct = tt; once = tt; in_sync = λ k. refl }

pub drop_entry-InSync : (k : Key) (e : Entry) (c : Cache) → InSync c → InSync (drop_entry k e c)
unfolding drop_entry
drop_entry-InSync k e c s = record {
  distinct = remove-Distinct key_dec k c.entries s.distinct;
  once = erase-Once key_dec k c.lru s.once;
  in_sync = λ j. ground (
    arith,
    has-erase key_dec j k c.lru s.once,
    lookup-remove key_dec j k c.entries s.distinct,
    s.in_sync j,
  );
}

pub dropped-InSync :
    (count : ℕ) (k : Key) (e : Entry) (c : Cache) → InSync c → InSync (dropped count k e c)
dropped-InSync count k e c s =
    let s' = drop_entry-InSync k e c s in
    record { distinct = s'.distinct; once = s'.once; in_sync = s'.in_sync }

pub sweep-InSync :
    (drop : Key → Entry → Bool) (count : ℕ) (c : Cache)
    → InSync c
    → InSync (sweep drop count c.entries c)
sweep-InSync drop count c s =
    sweep_all InSync drop count (λ k e c' _ s'. dropped-InSync count k e c' s') c s.distinct s

pub evict_back-InSync :
    (k : Key) (ks : List Key) (c : Cache) → c.lru ≡ k ∷ ks → InSync c → InSync (evict_back k ks c)
evict_back-InSync k ks c l s = there (lookup key_dec k c.entries) refl
  where
    o : Once key_dec (k ∷ ks)
    o = subst (Once key_dec) l s.once

    members : (j : Key) → has key_dec j (k ∷ ks) ≡ is_some (lookup key_dec j c.entries)
    members j = subst (λ x. has key_dec j x ≡ is_some (lookup key_dec j c.entries)) l (s.in_sync j)

    there : (found : Option Entry) → lookup key_dec k c.entries ≡ found → InSync (evict_back k ks c)
    there none h = absurd (unfold has in ground (arith, members k))
    there (some e) h =
        unfold evict_back in
        rw (h, evict_back)
          (record {
            distinct = remove-Distinct key_dec k c.entries s.distinct;
            once = o.1;
            in_sync = λ j.
                unfold has in
                ground (arith, members j, lookup-remove key_dec j k c.entries s.distinct);
          })

pub lru-evict_back : (k : Key) (ks : List Key) (c : Cache) → (evict_back k ks c).lru ≡ ks
unfolding evict_back
lru-evict_back k ks c = ground arith

pub evict_lru-InSync :
    (incoming : ℕ) (ks : List Key) (c : Cache)
    → c.lru ≡ ks
    → InSync c
    → InSync (evict_lru incoming ks c)
unfolding evict_lru
evict_lru-InSync incoming [] c l s = s
evict_lru-InSync incoming (k ∷ ks) c l s = elim (Bool-cases (needs_room incoming c)) [
  | inl h ↦ rw h (
      evict_lru-InSync incoming ks (evict_back k ks c) (lru-evict_back k ks c)
        (evict_back-InSync k ks c l s))
  | inr h ↦ rw h s
]

pub evict_expired-InSync :
    (now incoming : ℕ) (c : Cache) → InSync c → InSync (evict_expired now incoming c)
unfolding evict_expired
evict_expired-InSync now incoming c s = elim (Bool-cases (needs_room incoming c)) [
  | inl h ↦ rw h (sweep-InSync _ 1 c s)
  | inr h ↦ rw h s
]

pub evict_if_needed-InSync :
    (now incoming : ℕ) (c : Cache) → InSync c → InSync (evict_if_needed now incoming c)
unfolding evict_if_needed
evict_if_needed-InSync now incoming c s =
    evict_lru-InSync incoming (evict_expired now incoming c).lru (evict_expired now incoming c) refl
      (evict_expired-InSync now incoming c s)

pub uncount_old-InSync : (k : Key) (c : Cache) → InSync c → InSync (uncount_old k c)
uncount_old-InSync k c s = there (lookup key_dec k c.entries) refl
  where
    there : (found : Option Entry) → lookup key_dec k c.entries ≡ found → InSync (uncount_old k c)
    there none h = unfold uncount_old in rw (h, uncount_old) s
    there (some e) h =
        let listed : has key_dec k c.lru ≡ true = ground (arith, s.in_sync k) in
        unfold uncount_old in
        rw (h, uncount_old)
          (rw listed (record {
            distinct = s.distinct;
            once =
                snoc-Once key_dec k (erase key_dec k c.lru)
                  (ground (arith, has-erase key_dec k k c.lru s.once))
                  (erase-Once key_dec k c.lru s.once);
            in_sync = λ j. ground (
              arith,
              has-snoc key_dec j k (erase key_dec k c.lru),
              has-erase key_dec j k c.lru s.once,
              s.in_sync j,
              listed,
              ap (λ x. has key_dec x c.lru) {x = k} {y = j},
            );
          }))

abbrev entry : ℕ → Value → ℕ → Entry
entry now value ttl = record { value = value; expires_at = now + ttl; size_bytes = length value }

pub insert_entry-InSync :
    (now : ℕ) (k : Key) (v : Value) (ttl : ℕ) (c : Cache)
    → InSync c
    → InSync (insert_entry now k v ttl c)
unfolding insert_entry
insert_entry-InSync now k v ttl c s = elim (Bool-cases (has key_dec k c.lru)) [
  | inl h ↦ rw h (record {
    distinct = put-Distinct key_dec k _ c.entries s.distinct;
    once = s.once;
    in_sync = λ j.
        rw (lookup-put key_dec j k (entry now v ttl) c.entries)
          (ground (arith, s.in_sync j, h, ap (λ x. has key_dec x c.lru) {x = k} {y = j}));
  })
  | inr h ↦ rw h (record {
    distinct = put-Distinct key_dec k _ c.entries s.distinct;
    once = snoc-Once key_dec k c.lru h s.once;
    in_sync = λ j.
        rw (lookup-put key_dec j k (entry now v ttl) c.entries)
          (ground (arith, has-snoc key_dec j k c.lru, s.in_sync j));
  })
]

pub store_local_locked-InSync :
    (now : ℕ) (k : Key) (v : Value) (ttl : ℕ) (c : Cache)
    → InSync c
    → InSync (store_local_locked now k v ttl c)
unfolding store_local_locked
store_local_locked-InSync now k v ttl c s =
    insert_entry-InSync now k v ttl (evict_if_needed now (length v) (uncount_old k c))
      (evict_if_needed-InSync now (length v) (uncount_old k c) (uncount_old-InSync k c s))

pub invalidate-InSync : (k : Key) (c : Cache) → InSync c → InSync (invalidate k c)
invalidate-InSync k c s = there (lookup key_dec k c.entries) refl
  where
    there : (found : Option Entry) → lookup key_dec k c.entries ≡ found → InSync (invalidate k c)
    there none h = unfold invalidate in rw (h, invalidate) s
    there (some e) h = unfold invalidate in rw (h, invalidate) (drop_entry-InSync k e c s)
