-- ===== src/Orchestrator.antt =====
-- apps/orchestrator/orchestrator: the parts of the DAG orchestrator.
pub mod Breaker
pub mod Sla
pub mod Dag
pub mod Triage
pub mod Backend
pub mod Idempotency
pub mod Slots
pub mod Merge
pub mod Nodes
pub mod Room
pub mod Client
pub mod Auxiliary
pub mod Brief
