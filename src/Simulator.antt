-- ===== src/Simulator.antt =====
-- simulator/: the simulated services on which remediation actions act, and what the agents query.
pub mod Scenario
pub mod GroundTruths
pub mod Telemetry
pub mod Repository
pub mod Engine
