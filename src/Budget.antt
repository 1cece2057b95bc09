-- ===== src/Budget.antt =====
-- internal/proxy: the limits on work that concurrent requests share.
pub mod Scan
pub mod Conservation
pub mod Decode
pub mod Document
pub mod Json
mod Tests
