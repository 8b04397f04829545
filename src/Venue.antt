-- ===== src/Venue.antt =====
-- The calls of the venue: src/projectx/.
pub mod Circuit
pub mod HubRecovery
pub mod Retry
