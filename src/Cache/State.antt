-- ===== src/Cache/State.antt =====
-- internal/cache/cache.go: the state of a `Cache`. Keys and values are lists of bytes; times and
-- durations are nanoseconds. `cur_bytes` is an integer: the code may take it below zero.
use loki_vl_proxy.Prelude.{ℕ, ◌/◌, Bool, List, [], true, false}
use loki_vl_proxy.Prelude.Int.{ℤ, pos}
use loki_vl_proxy.Prelude.{ℕ_discrete, length, if◌then◌else◌, ◌==◌}

abbrev pub Key : Type 0
Key = List ℕ

abbrev pub Value : Type 0
Value = List ℕ

unfoldable pub key_dec : Discrete Key
unfolding ℕ_discrete
key_dec = hlevel ℕ_discrete

pub record Entry : Type 0 where
  pub value : Value
  pub expires_at : ℕ
  pub size_bytes : ℕ

pub record HotStat : Type 0 where
  pub score : ℕ
  pub last_access : ℕ
  pub tenant : List ℕ

pub record TierStats : Type 0 where
  pub requests : ℕ
  pub hits : ℕ
  pub misses : ℕ
  pub stale_hits : ℕ

-- `lru` holds the keys of `lruList`, the least recently used first, so its head is `Back()`;
-- `lruIndex` is membership in it. `promote_buf` holds the buffered keys, the oldest first.
pub record Cache : Type 0 where
  pub entries : List (Key × Entry)
  pub default_ttl : ℕ
  pub max_entries : ℕ
  pub max_bytes : ℕ
  pub cur_bytes : ℤ
  pub disabled : Bool
  pub lru : List Key
  pub hot : List (Key × HotStat)
  pub hot_max : ℕ
  pub hot_on : Bool
  pub promote_buf : List Key
  pub hits : ℕ
  pub misses : ℕ
  pub evictions : ℕ
  pub l0_stats : TierStats
  pub l1_stats : TierStats
  pub l2_stats : TierStats
  pub l3_stats : TierStats
  pub backend_fallthrough : ℕ

abbrev pub promote_capacity : ℕ
promote_capacity = 512

abbrev pub second : ℕ
second = 1_000_000_000

abbrev pub no_stats : TierStats
no_stats = record { requests = 0; hits = 0; misses = 0; stale_hits = 0 }

unfoldable pub new_with_max_bytes : ℕ → ℕ → ℕ → Cache
new_with_max_bytes ttl max_entries max_bytes = record {
  entries = [];
  default_ttl = ttl;
  max_entries = max_entries;
  max_bytes = max_bytes;
  cur_bytes = pos 0;
  disabled = false;
  lru = [];
  hot = [];
  hot_max = 50000;
  hot_on = false;
  promote_buf = [];
  hits = 0;
  misses = 0;
  evictions = 0;
  l0_stats = no_stats;
  l1_stats = no_stats;
  l2_stats = no_stats;
  l3_stats = no_stats;
  backend_fallthrough = 0;
}

-- `NewDisabled`: every call on the result returns at once, so the other fields do not matter.
unfoldable pub new_disabled : Cache
unfolding new_with_max_bytes
new_disabled = let c = new_with_max_bytes 0 0 0 in record c { disabled = true }

-- `MaxEntrySizeBytes`.
unfoldable pub max_entry_size_bytes : Cache → ℕ
max_entry_size_bytes c = if c.disabled then 0 else if c.max_bytes == 0 then 0 else c.max_bytes / 10

unfoldable pub size : Cache → ℕ × ℤ
size c = (length c.entries, c.cur_bytes)
