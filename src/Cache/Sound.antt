-- ===== src/Cache/Sound.antt =====
-- What every operation of the cache keeps.
use loki_vl_proxy.Prelude.{
  ℕ, ◌+◌, ◌/◌, ◌≤◌, ◌<◌, ◌≡◌, refl, ◌∙◌, ◌==◌, ◌*◌, Bool, true, false, Option, none, some, List, [],
  ◌∷◌, ◌++◌, arith, if◌then◌else◌, ltb, ltb→le, length, inl, inr,
}
use loki_vl_proxy.Prelude.Int.{pos, -ℤ_parts}
use loki_vl_proxy.Cache.Assoc.{lookup, length-remove-le}
use loki_vl_proxy.Cache.State.{
  Key, Value, key_dec, Entry, TierStats, Cache, second, promote_capacity, new_with_max_bytes,
}
use loki_vl_proxy.Cache.Store.{drop_entry, sweep, store_local_locked, set_local_only_with_ttl}
use loki_vl_proxy.Cache.Sweep.{dropped, sweep_all}
use loki_vl_proxy.Cache.Sync.{
  InSync, dropped-InSync, new_with_max_bytes-InSync, store_local_locked-InSync,
}
use loki_vl_proxy.Cache.Account.{Drift, size_at, drop_entry-Drift}
use loki_vl_proxy.Cache.Evict.{Frame, store_local_locked-Frame}
use loki_vl_proxy.Cache.Overwrite.{store_local_locked-Drift}
use loki_vl_proxy.Cache.Tiers.{
  Lower, Peers, Disk, Write, fresh_value, push_promotion, tier_hit, tier_miss, shared_l3_asked,
  get_shared_l3, shared_l2_asked, get_shared_l2, shared_l1_asked, get_shared_with_ttl, set_with_ttl,
  clamp_ttl, disk_writes, peer_writes,
}
use loki_vl_proxy.Cache.Bounds.{Within, store_local_locked-Within}

-- The invariant of a cache with the limits `n` and `bytes`: `gap` is what `cur_bytes` is below the
-- bytes held.
pub record Sound (n bytes : ℕ) (c : Cache) : Type 0 where
  pub in_step : InSync c
  pub gap : ℕ
  pub drift : Drift gap c
  pub within : Within n bytes c
  pub entries_limit : c.max_entries ≡ n
  pub bytes_limit : c.max_bytes ≡ bytes

pub new_with_max_bytes-Sound : (ttl n bytes : ℕ) → Sound n bytes (new_with_max_bytes ttl n bytes)
unfolding new_with_max_bytes
new_with_max_bytes-Sound ttl n bytes = record {
  in_step = new_with_max_bytes-InSync ttl n bytes;
  gap = 0;
  drift = record { counted = omega arith };
  within = record { few = omega arith; counted_small = omega arith };
  entries_limit = refl;
  bytes_limit = refl;
}

pub dropped-Sound :
    (n bytes count : ℕ) (k : Key) (e : Entry) (c : Cache)
    → lookup key_dec k c.entries ≡ some e
    → Sound n bytes c
    → Sound n bytes (dropped count k e c)
dropped-Sound n bytes count k e c h s = record {
  in_step = dropped-InSync count k e c s.in_step;
  gap = s.gap;
  drift = record { counted = (drop_entry-Drift s.gap k e c h s.drift).counted };
  within =
      unfold drop_entry in
      record {
        few = omega (arith, s.within.few, length-remove-le key_dec k c.entries);
        counted_small =
            omega (arith, s.within.counted_small, -ℤ_parts c.cur_bytes (pos e.size_bytes));
      };
  entries_limit = unfold drop_entry in s.entries_limit;
  bytes_limit = unfold drop_entry in s.bytes_limit;
}

pub sweep-Sound :
    (n bytes : ℕ) (drop : Key → Entry → Bool) (count : ℕ) (c : Cache)
    → Sound n bytes c
    → Sound n bytes (sweep drop count c.entries c)
sweep-Sound n bytes drop count c s =
    sweep_all (Sound n bytes) drop count (λ k e c' h s'. dropped-Sound n bytes count k e c' h s') c
      s.in_step.distinct s

store-Sound :
    (n bytes now : ℕ) (k : Key) (v : Value) (ttl : ℕ) (c : Cache)
    → 0 < n
    → length v ≤ bytes / 10
    → Sound n bytes c
    → Sound n bytes (store_local_locked now k v ttl c)
store-Sound n bytes now k v ttl c p small s =
    elim (store_local_locked-Drift s.gap now k v ttl c s.in_step s.drift) [
      | inl exact ↦ packed s.gap exact
      | inr (_, off) ↦ packed (s.gap + size_at k c) off
    ]
  where
    same : Frame c (store_local_locked now k v ttl c)
    same = store_local_locked-Frame now k v ttl c s.in_step

    limited : Within c.max_entries c.max_bytes (store_local_locked now k v ttl c)
    limited =
        store_local_locked-Within s.gap now k v ttl c (omega (arith, s.entries_limit))
          (omega (arith, s.bytes_limit)) s.in_step s.drift

    packed :
        (d : ℕ)
        → Drift d (store_local_locked now k v ttl c)
        → Sound n bytes (store_local_locked now k v ttl c)
    packed d a = record {
      in_step = store_local_locked-InSync now k v ttl c s.in_step;
      gap = d;
      drift = a;
      within = record {
        few = omega (arith, limited.few, s.entries_limit);
        counted_small = omega (arith, limited.counted_small, s.bytes_limit);
      };
      entries_limit = same.entries_limit ∙ s.entries_limit;
      bytes_limit = same.bytes_limit ∙ s.bytes_limit;
    }

pub set_local_only_with_ttl-Sound :
    (n bytes now : ℕ) (k : Key) (v : Value) (ttl : ℕ) (c : Cache)
    → 0 < n
    → Sound n bytes c
    → Sound n bytes (set_local_only_with_ttl now k v ttl c)
unfolding set_local_only_with_ttl
set_local_only_with_ttl-Sound n bytes now k v ttl c p s =
    both c.disabled (ltb (c.max_bytes / 10) (length v)) refl
  where
    both :
        (b d : Bool)
        → ltb (c.max_bytes / 10) (length v) ≡ d
        → Sound n bytes (if b then c else if d then c else store_local_locked now k v ttl c)
    both true d h = s
    both false true h = s
    both false false h =
        store-Sound n bytes now k v ttl c p
          (omega (arith, ltb→le (c.max_bytes / 10) (length v) h, s.bytes_limit)) s

pub set_with_ttl-Sound :
    (n bytes : ℕ) (propagate : Bool) (now : ℕ) (k : Key) (v : Value) (ttl : ℕ) (lower : Lower)
    (c : Cache)
    → 0 < n
    → Sound n bytes c
    → Sound n bytes (set_with_ttl propagate now k v ttl lower c).0
unfolding set_with_ttl
set_with_ttl-Sound n bytes propagate now k v ttl lower c p s =
    both c.disabled (ltb (c.max_bytes / 10) (length v)) refl
  where
    ttl' : ℕ
    ttl' = clamp_ttl lower.l3 k ttl

    result : Bool → Bool → Cache × List Write
    result b d = if b then (c, []) else if d then (c, []) else (
      store_local_locked now k v ttl' c,
      disk_writes lower k v ttl' ++ peer_writes propagate lower k v ttl',
    )

    both : (b d : Bool) → ltb (c.max_bytes / 10) (length v) ≡ d → Sound n bytes (result b d).0
    both true d h = s
    both false true h = s
    both false false h =
        store-Sound n bytes now k v ttl' c p
          (omega (arith, ltb→le (c.max_bytes / 10) (length v) h, s.bytes_limit)) s

-- Counters and the promotion buffer are no part of the invariant.
pub recounted :
    (n bytes hits misses fallthrough : ℕ) (l1 l2 l3 : TierStats) (buf : List Key) (c : Cache)
    → Sound n bytes c
    → Sound n bytes (record c {
      hits = hits;
      misses = misses;
      backend_fallthrough = fallthrough;
      l1_stats = l1;
      l2_stats = l2;
      l3_stats = l3;
      promote_buf = buf;
    })
recounted n bytes hits misses fallthrough l1 l2 l3 buf c s = record {
  in_step = record {
    distinct = s.in_step.distinct;
    once = s.in_step.once;
    in_sync = s.in_step.in_sync;
  };
  gap = s.gap;
  drift = record { counted = s.drift.counted };
  within = record { few = s.within.few; counted_small = s.within.counted_small };
  entries_limit = s.entries_limit;
  bytes_limit = s.bytes_limit;
}

push_promotion-Sound :
    (n bytes : ℕ) (k : Key) (c : Cache) → Sound n bytes c → Sound n bytes (push_promotion k c)
unfolding push_promotion
push_promotion-Sound n bytes k c s = both (ltb (length c.promote_buf) promote_capacity)
  where
    both :
        (b : Bool)
        → Sound n bytes (if b then record c { promote_buf = c.promote_buf ++ k ∷ [] } else c)
    both true =
        recounted n bytes c.hits c.misses c.backend_fallthrough c.l1_stats c.l2_stats c.l3_stats
          (c.promote_buf ++ k ∷ []) c s
    both false = s

module _ (n bytes : ℕ) (p : 0 < n) (now : ℕ) (k : Key) where
  shared_l3-Sound :
      (l3 : Option Peers) (c : Cache) → Sound n bytes c → Sound n bytes (get_shared_l3 now k l3 c).0
  unfolding get_shared_l3
  shared_l3-Sound none c s =
      recounted n bytes c.hits (c.misses + 1) (c.backend_fallthrough + 1) c.l1_stats c.l2_stats
        c.l3_stats c.promote_buf c s
  shared_l3-Sound (some peers) c s = asked (peers.fetch k)
    where
      asked : (r : Option (Value × ℕ)) → Sound n bytes (shared_l3_asked now k r c).0
      asked none =
          unfold shared_l3_asked in
          recounted n bytes c.hits (c.misses + 1) (c.backend_fallthrough + 1) c.l1_stats c.l2_stats
            (tier_miss c.l3_stats) c.promote_buf c s
      asked (some (v, remaining)) =
          let c' =
            set_local_only_with_ttl now k v (if remaining == 0 then 30 * second else remaining) c in
          unfold shared_l3_asked in
          recounted n bytes (c.hits + 1) c'.misses c'.backend_fallthrough c'.l1_stats c'.l2_stats
            (tier_hit c.l3_stats) c'.promote_buf c'
            (set_local_only_with_ttl-Sound n bytes now k v
              (if remaining == 0 then 30 * second else remaining) c p s)

  shared_l2-Sound :
      (l2 : Option Disk) (l3 : Option Peers) (c : Cache)
      → Sound n bytes c
      → Sound n bytes (get_shared_l2 now k l2 l3 c).0
  unfolding get_shared_l2
  shared_l2-Sound none l3 c s = shared_l3-Sound l3 c s
  shared_l2-Sound (some disk) l3 c s = asked (disk.get_with_ttl k)
    where
      asked : (r : Option (Value × ℕ)) → Sound n bytes (shared_l2_asked now k l3 r c).0
      asked none =
          unfold shared_l2_asked in
          shared_l3-Sound l3 (record c { l2_stats = tier_miss c.l2_stats })
            (recounted n bytes c.hits c.misses c.backend_fallthrough c.l1_stats
              (tier_miss c.l2_stats) c.l3_stats c.promote_buf c s)
      asked (some (v, ttl)) =
          let c' = set_local_only_with_ttl now k v ttl c in
          unfold shared_l2_asked in
          recounted n bytes (c.hits + 1) c'.misses c'.backend_fallthrough c'.l1_stats
            (tier_hit c.l2_stats) c'.l3_stats c'.promote_buf c'
            (set_local_only_with_ttl-Sound n bytes now k v ttl c p s)

  pub get_shared_with_ttl-Sound :
      (lower : Lower) (c : Cache)
      → Sound n bytes c
      → Sound n bytes (get_shared_with_ttl now k lower c).0
  unfolding get_shared_with_ttl
  get_shared_with_ttl-Sound lower c s =
      both c.disabled (fresh_value now (lookup key_dec k c.entries))
    where
      asked : (r : Option (Value × ℕ)) → Sound n bytes (shared_l1_asked now k lower r c).0
      asked none =
          unfold shared_l1_asked in
          shared_l2-Sound lower.l2 lower.l3 (record c { l1_stats = tier_miss c.l1_stats })
            (recounted n bytes c.hits c.misses c.backend_fallthrough (tier_miss c.l1_stats)
              c.l2_stats c.l3_stats c.promote_buf c s)
      asked (some (v, ttl)) =
          let c' = push_promotion k c in
          unfold shared_l1_asked in
          recounted n bytes (c.hits + 1) c'.misses c'.backend_fallthrough (tier_hit c.l1_stats)
            c'.l2_stats c'.l3_stats c'.promote_buf c' (push_promotion-Sound n bytes k c s)

      both :
          (d : Bool) (r : Option (Value × ℕ))
          → Sound n bytes (if d then (c, none) else shared_l1_asked now k lower r c).0
      both true r = s
      both false r = asked r
