-- ===== src/Routing.antt =====
-- Routing, src/openclaw_ecc_orchestrator/routing: the circuit breaker of a provider, the escalation
-- of a unit from tier to tier, the classification of a unit, the registry of runners and the selection
-- of a runner and of a reviewer.
pub mod Breaker
pub mod Classify
pub mod Escalation
pub mod Registry
pub mod Selection
pub mod Tests
