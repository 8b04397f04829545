-- ===== src/Domain.antt =====
-- The domain types with behaviour of their own: src/domain/.
pub mod EntryReference
pub mod Transitions
