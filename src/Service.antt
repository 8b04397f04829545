-- ===== src/Service.antt =====
-- The gateway's dispatch and lifecycle services: src/service and src/projectx/rest-concurrency.ts.
pub mod Lifecycle
pub mod Priority
pub mod RecoveryGate
pub mod RestGate
pub mod TaskScheduler
