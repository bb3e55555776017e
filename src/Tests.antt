-- ===== src/Tests.antt =====
-- Test data, and the theorems at concrete inputs: crates/kboard-core/src and
-- crates/kboard-server/src, crates/kboard-store/src and crates/kboard-ffi/src.
pub mod Data
mod Engine
mod Keys
mod Host
mod Boards
mod Service
mod Grants
mod Calls
mod Lost
