-- ===== src/Team.antt =====
-- The team, src/openclaw_ecc_orchestrator/team: the rotation of its providers.
pub mod Rotation
