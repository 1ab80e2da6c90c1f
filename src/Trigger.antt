-- ===== src/Trigger.antt =====
-- flaredb/src/engine/trigger.rs: the triggers that decide when a window fires.
pub mod Syntax
pub mod Runner
pub mod Tests
