-- ===== src/Ownership.antt =====
-- src/agent_runtime_lab/ownership: risks of a plan step, and the ownership mode that they demand.
pub mod Risk
pub mod Policy
pub mod Authorization
pub mod Gates
mod Tests
