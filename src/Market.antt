-- ===== src/Market.antt =====
-- The market data paths of the gateway.
pub mod RateLimit
