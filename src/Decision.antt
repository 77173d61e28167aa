-- ===== src/Decision.antt =====
-- src/polder_research/decision: the rules that decide what a provider may see and what its answer may
-- do.
pub mod Privacy
pub mod Policy
mod Tests
pub mod Projection
pub mod Scheduler
