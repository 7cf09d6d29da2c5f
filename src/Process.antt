-- ===== src/Process.antt =====
-- Supervised processes, src/openclaw_ecc_orchestrator/process: the health monitor.
pub mod Health
pub mod Tests
