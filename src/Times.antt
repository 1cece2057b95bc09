-- ===== src/Times.antt =====
-- internal/proxy: timestamps of unknown unit, and the grids that times are put on.
pub mod Normalize
pub mod Units
pub mod Grid
pub mod Buckets
mod Tests
