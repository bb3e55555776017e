-- ===== src/Prop.antt =====
-- Element properties: crates/kboard-core/src/prop.rs.
pub mod Key
pub mod Value
