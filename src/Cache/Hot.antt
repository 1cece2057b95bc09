-- ===== src/Cache/Hot.antt =====
-- internal/cache/cache.go: the index of hot keys that peers read ahead. `sort.Slice` and the order
-- of a map leave ties open; the stable sort below is one order that they allow.
use Prim.Native.Char.{code}
use Prim.Native.String.{String}
use loki_vl_proxy.Prelude.{
  ℕ, ◌+◌, ◌-◌, ◌%◌, ◌^◌, ◌/◌, Bool, true, false, ◌&&◌, ◌||◌, Option, none, some, List, [], ◌∷◌,
  if◌then◌else◌, ltb, leb, ◌==◌, length, take,
}
use loki_vl_proxy.Cache.Assoc.{lookup, put, remove}
use loki_vl_proxy.Cache.State.{Key, key_dec, Entry, HotStat, TierStats, Cache}
use loki_vl_proxy.Cache.Store.{has_prefix}

abbrev pub codes : String → List ℕ
codes String.[] = []
codes (String.◌∷◌ c s) = code c ∷ codes s

unfoldable pub bytes_eq : List ℕ → List ℕ → Bool
bytes_eq [] [] = true
bytes_eq [] (y ∷ ys) = false
bytes_eq (x ∷ xs) [] = false
bytes_eq (x ∷ xs) (y ∷ ys) = (x == y) && bytes_eq xs ys

unfoldable pub one_of : List ℕ → List (List ℕ) → Bool
one_of s [] = false
one_of s (t ∷ ts) = bytes_eq s t || one_of s ts

-- The text before the first colon, and the text after it if there is one.
unfoldable pub cut_colon : List ℕ → List ℕ × Option (List ℕ)
cut_colon [] = ([], none)
cut_colon (c ∷ cs) =
    let (before, after) = cut_colon cs in if c == b':' then ([], some cs) else (c ∷ before, after)

abbrev pub tenant_endpoints : List (List ℕ)
tenant_endpoints =
    codes "query_range"
    ∷ codes "query_range_window"
    ∷ codes "query_range_window_has_hits"
    ∷ codes "query"
    ∷ codes "series"
    ∷ codes "labels"
    ∷ codes "label_values"
    ∷ codes "volume"
    ∷ codes "volume_range"
    ∷ codes "detected_fields"
    ∷ codes "detected_labels"
    ∷ codes "detected_field_values"
    ∷ codes "patterns"
    ∷ codes "label_inventory"
    ∷ []

-- `tenantFromCacheKey`: `strings.SplitN(key, ":", 3)` has three parts if there are two colons.
unfoldable pub tenant_from_cache_key : Key → List ℕ
unfolding has_prefix bytes_eq one_of cut_colon
tenant_from_cache_key key = if has_prefix (codes "__") key then [] else (elim (cut_colon key).1 [
  | none ↦ []
  | some rest ↦ elim (cut_colon rest).1 [
    | none ↦ []
    | some _ ↦ if one_of (cut_colon key).0 tenant_endpoints then (cut_colon rest).0 else []
  ]
])

abbrev pub fresh_stat : HotStat
fresh_stat = record { score = 0; last_access = 0; tenant = [] }

-- Go's zero value for a key that is not in the map.
abbrev pub stat_or_zero : Option HotStat → HotStat
stat_or_zero none = fresh_stat
stat_or_zero (some s) = s

unfoldable pub is_empty : List ℕ → Bool
is_empty [] = true
is_empty (x ∷ xs) = false

-- `hs.score` is a `uint64`.
unfoldable pub touch_stat : ℕ → Key → HotStat → HotStat
unfolding is_empty
touch_stat now key hs = record {
  score = (hs.score + 1) % 2 ^ 64;
  last_access = now;
  tenant = if is_empty hs.tenant then tenant_from_cache_key key else hs.tenant;
}

-- The order of `pruneHotLocked`: the lowest score first, and of equal scores the oldest.
unfoldable pub colder : HotStat → HotStat → Bool
colder a b = if a.score == b.score then ltb a.last_access b.last_access else ltb a.score b.score

unfoldable pub insert_cold : Key × HotStat → List (Key × HotStat) → List (Key × HotStat)
unfolding colder
insert_cold p [] = p ∷ []
insert_cold p (q ∷ qs) =
    let rest = insert_cold p qs in if colder q.1 p.1 then q ∷ rest else p ∷ q ∷ qs

unfoldable pub sort_cold : List (Key × HotStat) → List (Key × HotStat)
sort_cold [] = []
sort_cold (p ∷ ps) = insert_cold p (sort_cold ps)

unfoldable pub remove_all : List (Key × HotStat) → List (Key × HotStat) → List (Key × HotStat)
remove_all [] hot = hot
remove_all (c ∷ cs) hot = remove_all cs (remove key_dec c.0 hot)

-- `pruneHotLocked`
unfoldable pub prune_hot : ℕ → List (Key × HotStat) → List (Key × HotStat)
prune_hot drop hot = remove_all (take drop (sort_cold hot)) hot

abbrev pub count_hot : Bool → TierStats → TierStats
count_hot true s = record s { requests = s.requests + 1; hits = s.hits + 1 }
count_hot false s = record s { requests = s.requests + 1; misses = s.misses + 1 }

abbrev pub is_there {ℓ} : {A : Type ℓ} → Option A → Bool
is_there none = false
is_there (some a) = true

-- `recordHotLocked`
unfoldable pub record_hot : ℕ → Key → Cache → Cache
record_hot now key c =
    let old = lookup key_dec key c.hot in
    let hot = put key_dec key (touch_stat now key (stat_or_zero old)) c.hot in
    record c {
      l0_stats = count_hot (is_there old) c.l0_stats;
      hot = if leb (length hot) c.hot_max then hot else prune_hot (length hot - c.hot_max) hot;
    }

-- A candidate of `TopHotKeys`.
pub record HotKeySnapshot : Type 0 where
  pub key : Key
  pub tenant : List ℕ
  pub score : ℕ
  pub size_bytes : ℕ
  pub remaining_ttl_ms : ℕ

-- The tests of the loop. A zero limit is no limit.
unfoldable pub is_candidate : ℕ → ℕ → ℕ → Entry → Bool
is_candidate now min_remaining max_object e =
    ltb now e.expires_at
    && (leb min_remaining (e.expires_at - now))
    && (max_object == 0 || leb e.size_bytes max_object)

unfoldable pub candidates :
    ℕ → ℕ → ℕ → List (Key × Entry) → List (Key × HotStat) → List HotKeySnapshot
candidates now min_remaining max_object entries [] = []
candidates now min_remaining max_object entries ((k, s) ∷ hot) =
    let rest = candidates now min_remaining max_object entries hot in
    elim (lookup key_dec k entries) [
      | none ↦ rest
      | some e ↦
          if is_candidate now min_remaining max_object e
          then (record {
            key = k;
            tenant = s.tenant;
            score = s.score;
            size_bytes = e.size_bytes;
            remaining_ttl_ms = (e.expires_at - now) / 1_000_000;
          }
              ∷ rest)
          else rest
    ]

unfoldable pub hotter : HotKeySnapshot → HotKeySnapshot → Bool
hotter a b =
    if a.score == b.score then ltb b.remaining_ttl_ms a.remaining_ttl_ms else ltb b.score a.score

unfoldable pub insert_hot : HotKeySnapshot → List HotKeySnapshot → List HotKeySnapshot
insert_hot p [] = p ∷ []
insert_hot p (q ∷ qs) = let rest = insert_hot p qs in if hotter q p then q ∷ rest else p ∷ q ∷ qs

unfoldable pub sort_hot : List HotKeySnapshot → List HotKeySnapshot
sort_hot [] = []
sort_hot (p ∷ ps) = insert_hot p (sort_hot ps)

abbrev pub max_hot_index_query_limit : ℕ
max_hot_index_query_limit = 2000

-- `TopHotKeys`
unfoldable pub top_hot_keys : ℕ → ℕ → ℕ → ℕ → Cache → List HotKeySnapshot
top_hot_keys now limit min_remaining max_object c =
    if c.hot_on
    then take (if ltb max_hot_index_query_limit limit then max_hot_index_query_limit else limit)
        (sort_hot (candidates now min_remaining max_object c.entries c.hot))
    else []
