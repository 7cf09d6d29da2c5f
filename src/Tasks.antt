-- ===== src/Tasks.antt =====
-- Work units and their scopes, src/openclaw_ecc_orchestrator/tasks.
pub mod Scope
pub mod Tests
