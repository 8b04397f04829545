-- ===== src/Risk.antt =====
-- The risk checks of src/risk.
pub mod Mll
pub mod Portfolio
pub mod Engine
