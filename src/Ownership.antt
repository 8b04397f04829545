-- ===== src/Ownership.antt =====
-- Who owns the open contracts and what protects them: src/ownership/.
pub mod ScaleIn
pub mod Protection
pub mod Tranches
