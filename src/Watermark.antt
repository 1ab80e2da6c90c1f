-- ===== src/Watermark.antt =====
-- flaredb/src/engine/watermark.rs: watermark propagation and stage eligibility.
pub mod State
pub mod HoldMap
pub mod Manager
pub mod Bundles
pub mod Refresh
pub mod Sources
pub mod History
pub mod Tests
