-- ===== src/Cache/Runs.antt =====
-- Any sequence of calls on one cache: calls of clients, ticks of the cleanup goroutine and steps of
-- the promoter, in the order in which they take the lock.
use loki_vl_proxy.Prelude.{
  ℕ, ◌<◌, ◌≡◌, refl, ap, Bool, true, false, Option, none, some, List, [], ◌∷◌, ◌++◌, arith,
  if◌then◌else◌, Bool-cases, inl, inr,
}
use loki_vl_proxy.Cache.Assoc.{lookup, has, erase, has-erase, erase-Once, has-snoc, snoc-Once}
use loki_vl_proxy.Cache.State.{Key, Value, key_dec, Entry, Cache, new_with_max_bytes}
use loki_vl_proxy.Cache.Store.{set_local_only_with_ttl, invalidate, invalidate_prefix, cleanup_tick}
use loki_vl_proxy.Cache.Hot.{record_hot}
use loki_vl_proxy.Cache.Tiers.{
  Lower, get_shared_with_ttl, set_with_ttl, apply_promotion, promote_next,
}
use loki_vl_proxy.Cache.Sound.{
  Sound, new_with_max_bytes-Sound, dropped-Sound, sweep-Sound, set_local_only_with_ttl-Sound,
  set_with_ttl-Sound, get_shared_with_ttl-Sound, recounted,
}

pub data Call : Type 0 where
  sets : Bool → ℕ → Key → Value → ℕ → Lower → Call
  sets_local : ℕ → Key → Value → ℕ → Call
  reads : ℕ → Key → Lower → Call
  invalidates : Key → Call
  invalidates_prefix : List ℕ → Call
  cleans promotes : ℕ → Call

unfoldable pub step : Call → Cache → Cache
step (sets propagate now k v ttl lower) c = (set_with_ttl propagate now k v ttl lower c).0
step (sets_local now k v ttl) c = set_local_only_with_ttl now k v ttl c
step (reads now k lower) c = (get_shared_with_ttl now k lower c).0
step (invalidates k) c = invalidate k c
step (invalidates_prefix prefix) c = invalidate_prefix prefix c
step (cleans now) c = cleanup_tick now c
step (promotes now) c = promote_next now c.promote_buf c

unfoldable pub run : List Call → Cache → Cache
run [] c = c
run (call ∷ calls) c = run calls (step call c)

invalidate-Sound :
    (n bytes : ℕ) (k : Key) (c : Cache) → Sound n bytes c → Sound n bytes (invalidate k c)
invalidate-Sound n bytes k c s = found (lookup key_dec k c.entries) refl
  where
    found : (o : Option Entry) → lookup key_dec k c.entries ≡ o → Sound n bytes (invalidate k c)
    found none h = unfold invalidate in rw (h, invalidate) s
    found (some e) h =
        let s' = dropped-Sound n bytes 0 k e c h s in
        unfold invalidate in
        rw (h, invalidate)
          (record {
            in_step = record {
              distinct = s'.in_step.distinct;
              once = s'.in_step.once;
              in_sync = s'.in_step.in_sync;
            };
            gap = s'.gap;
            drift = record { counted = s'.drift.counted };
            within = record { few = s'.within.few; counted_small = s'.within.counted_small };
            entries_limit = s'.entries_limit;
            bytes_limit = s'.bytes_limit;
          })

-- A new order of the LRU list with the same keys is as good.
reordered :
    (n bytes : ℕ) (k : Key) (c : Cache)
    → Sound n bytes c
    → Sound n bytes
        (record c { lru = if has key_dec k c.lru then erase key_dec k c.lru ++ k ∷ [] else c.lru })
reordered n bytes k c s = record {
  in_step = elim (Bool-cases (has key_dec k c.lru)) [
    | inl h ↦ rw h (record {
      distinct = s.in_step.distinct;
      once =
          snoc-Once key_dec k (erase key_dec k c.lru)
            (ground (arith, has-erase key_dec k k c.lru s.in_step.once))
            (erase-Once key_dec k c.lru s.in_step.once);
      in_sync = λ j. ground (
        arith,
        has-snoc key_dec j k (erase key_dec k c.lru),
        has-erase key_dec j k c.lru s.in_step.once,
        s.in_step.in_sync j,
        h,
        ap (λ x. has key_dec x c.lru) {x = k} {y = j},
      );
    })
    | inr h ↦ rw h (record {
      distinct = s.in_step.distinct;
      once = s.in_step.once;
      in_sync = s.in_step.in_sync;
    })
  ];
  gap = s.gap;
  drift = record { counted = s.drift.counted };
  within = record { few = s.within.few; counted_small = s.within.counted_small };
  entries_limit = s.entries_limit;
  bytes_limit = s.bytes_limit;
}

record_hot-Sound :
    (n bytes now : ℕ) (k : Key) (c : Cache) → Sound n bytes c → Sound n bytes (record_hot now k c)
unfolding record_hot
record_hot-Sound n bytes now k c s = record {
  in_step = record {
    distinct = s.in_step.distinct;
    once = s.in_step.once;
    in_sync = s.in_step.in_sync;
  };
  gap = s.gap;
  drift = record { counted = s.drift.counted };
  within = record { few = s.within.few; counted_small = s.within.counted_small };
  entries_limit = s.entries_limit;
  bytes_limit = s.bytes_limit;
}

apply_promotion-Sound :
    (n bytes now : ℕ) (k : Key) (c : Cache)
    → Sound n bytes c
    → Sound n bytes (apply_promotion now k c)
unfolding apply_promotion
apply_promotion-Sound n bytes now k c s = both c.hot_on
  where
    moved : Cache
    moved = record c {
      lru = if has key_dec k c.lru then erase key_dec k c.lru ++ k ∷ [] else c.lru;
    }

    both : (b : Bool) → Sound n bytes (if b then record_hot now k moved else moved)
    both true = record_hot-Sound n bytes now k moved (reordered n bytes k c s)
    both false = reordered n bytes k c s

promote_next-Sound :
    (n bytes now : ℕ) (buf : List Key) (c : Cache)
    → Sound n bytes c
    → Sound n bytes (promote_next now buf c)
unfolding promote_next
promote_next-Sound n bytes now [] c s = s
promote_next-Sound n bytes now (k ∷ ks) c s =
    apply_promotion-Sound n bytes now k (record c { promote_buf = ks })
      (recounted n bytes c.hits c.misses c.backend_fallthrough c.l1_stats c.l2_stats c.l3_stats ks c
        s)

step-Sound :
    (n bytes : ℕ)
    → 0 < n
    → (call : Call) (c : Cache) → Sound n bytes c
    → Sound n bytes (step call c)
unfolding step invalidate_prefix cleanup_tick
step-Sound n bytes p (sets propagate now k v ttl lower) c s =
    set_with_ttl-Sound n bytes propagate now k v ttl lower c p s
step-Sound n bytes p (sets_local now k v ttl) c s =
    set_local_only_with_ttl-Sound n bytes now k v ttl c p s
step-Sound n bytes p (reads now k lower) c s = get_shared_with_ttl-Sound n bytes p now k lower c s
step-Sound n bytes p (invalidates k) c s = invalidate-Sound n bytes k c s
step-Sound n bytes p (invalidates_prefix prefix) c s = sweep-Sound n bytes _ 0 c s
step-Sound n bytes p (cleans now) c s = sweep-Sound n bytes _ 0 c s
step-Sound n bytes p (promotes now) c s = promote_next-Sound n bytes now c.promote_buf c s

run-Sound :
    (n bytes : ℕ)
    → 0 < n
    → (calls : List Call) (c : Cache) → Sound n bytes c
    → Sound n bytes (run calls c)
unfolding run
run-Sound n bytes p [] c s = s
run-Sound n bytes p (call ∷ calls) c s =
    run-Sound n bytes p calls (step call c) (step-Sound n bytes p call c s)

-- After any sequence of stores, shared reads, invalidations, cleanups and promotions, a new cache
-- with a limit of `n` entries, not 0, and of `bytes` bytes holds each key once, lists the same
-- keys once each in its LRU list, has at most `n` entries, and counts at most `bytes` bytes.
pub run-new-Sound :
    (ttl n bytes : ℕ) (calls : List Call)
    → 0 < n
    → Sound n bytes (run calls (new_with_max_bytes ttl n bytes))
run-new-Sound ttl n bytes calls p =
    run-Sound n bytes p calls (new_with_max_bytes ttl n bytes)
      (new_with_max_bytes-Sound ttl n bytes)
