-- ===== src/Execution/Store.antt =====
-- The execution store of src/storage/sqlite-execution-store.ts.
pub mod Tables
pub mod Registering
pub mod Prepare
pub mod Transitions
pub mod Recovery
mod Effect
pub mod Lifecycle
pub mod Latch
mod Exclusion
pub mod Clearing
pub mod OneEntry
pub mod Idempotence
mod Examples
