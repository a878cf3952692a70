-- ===== src/Tools.antt =====
-- src/tools: the tools, their registry and its access control.
pub mod Base
pub mod Registry
pub mod Remediation
