-- ===== src/Workflow.antt =====
-- src/orchestration/graph.py: the workflow that investigates, remediates and verifies.
pub mod Update
pub mod Nodes
pub mod Graph
pub mod Approved
pub mod Assessed
pub mod Grounded
pub mod Termination
pub mod Livelock
pub mod Mocked
pub mod Approvals
