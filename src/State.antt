-- ===== src/State.antt =====
-- What the gateway knows of the venue: src/state/.
pub mod Quote
pub mod DataQuality
