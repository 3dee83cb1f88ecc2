-- ===== src/Domain.antt =====
-- src/agent_runtime_lab/domain: events, run state, the reducer, replay and tool-effect contracts.
pub mod Event
pub mod State
pub mod Reducer
pub mod Replay
mod Tests
