-- ===== src/Coders.antt =====
-- flaredb/src/coders/primitives.rs: bytes on the wire.
pub mod Varint
pub mod Pane
pub mod Bytes
pub mod Window
pub mod Timestamp
pub mod Windowed
pub mod Key
pub mod Canonical
pub mod Tests
