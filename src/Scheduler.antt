-- ===== src/Scheduler.antt =====
-- src/src/scheduler/mod.rs: the shares of the queues, the scheduler credits, the recognition of
-- correlated failures, and the claims of due nodes.
pub mod Quota
pub mod Debt
pub mod Claim
pub mod Incident
