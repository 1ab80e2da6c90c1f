-- ===== src/Scheduler.antt =====
-- flaredb/src/engine/scheduler.rs with the part of flaredb/src/fusion/pipeline.rs that it reads: which
-- stage runs a bundle next.
pub mod Graph
pub mod Setup
pub mod State
pub mod Reached
pub mod Wave
pub mod Ready
pub mod Waves
pub mod Poll
pub mod Promote
pub mod Tests
