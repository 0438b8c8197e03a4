-- ===== src/Journal.antt =====
-- recon/core/audit.py and recon/orchestrator/events.py: the log of requests and the bus of progress
-- events.
pub mod AuditLog
pub mod EventBus
mod Tests
