-- ===== src/Runs/Manager.antt =====
-- src/openclaw_ecc_orchestrator/runs/manager.py: the operations of the run manager. The children
-- hold the operations, then what is proved of them.
pub mod Tx
pub mod Store
pub mod Leases
pub mod Resume
pub mod Assign
pub mod Progress
pub mod Commands
pub mod Creation
pub mod Inversion
pub mod Tracking
pub mod Describing
pub mod Writes
pub mod Described
pub mod Recovery
pub mod Calls
pub mod Steps
pub mod Stepping
pub mod Refinement
pub mod Commanded
pub mod Invariants
