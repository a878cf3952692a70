-- ===== src/Safety.antt =====
-- src/safety: the risk policy and the execution of remediation actions.
pub mod Destructive
pub mod Policy
pub mod Runner
