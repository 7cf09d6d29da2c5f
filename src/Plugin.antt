-- ===== src/Plugin.antt =====
-- The exchange with the host program, src/openclaw_ecc_orchestrator/plugin: the approvals and the inbox
-- of decisions.
pub mod Approvals
pub mod Inbox
pub mod Tests
