-- ===== src/Persistence.antt =====
-- src/agent_runtime_lab/persistence: the event store, and the snapshots that accelerate replay.
pub mod Snapshots
pub mod EventStore
mod Tests
