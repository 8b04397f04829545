-- ===== src/Execution.antt =====
-- Order execution: src/execution, and the execution store under src/storage.
pub mod Store
pub mod Admission
pub mod Amendment
pub mod BracketVerification
pub mod Brackets
pub mod GatewayMode
pub mod Reduction
