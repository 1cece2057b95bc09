-- ===== src/Cache.antt =====
-- internal/cache/cache.go: the in-memory tier of the response cache and its lookup chain.
pub mod Assoc
pub mod State
pub mod Store
pub mod Sweep
pub mod Sync
pub mod Evict
pub mod Hot
pub mod Tiers
pub mod Account
pub mod Overwrite
pub mod LruOrder
pub mod Stats
pub mod HotBound
pub mod Bounds
pub mod Get
pub mod Reads
pub mod Writes
mod Tests
pub mod Sound
pub mod Runs
