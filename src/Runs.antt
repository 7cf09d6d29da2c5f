-- ===== src/Runs.antt =====
-- The run lifecycle, src/openclaw_ecc_orchestrator/runs.
pub mod Result
pub mod Identifier
pub mod State
pub mod Dag
pub mod Document
pub mod Replay
pub mod Liveness
pub mod Manager
pub mod Tests
