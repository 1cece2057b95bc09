-- ===== src/Windows.antt =====
-- internal/proxy: how the proxy cuts the time range of a query.
pub mod Adaptive
pub mod Split
pub mod Tiling
pub mod Coverage
pub mod Bounds
mod Tests
