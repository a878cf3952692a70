-- ===== src/Tests.antt =====
-- The theorems at concrete inputs.
pub mod Fixtures
pub mod Safety
pub mod Tooling
pub mod Events
pub mod Incidents
pub mod Workflow
pub mod Router
pub mod Telemetry
pub mod Memory
pub mod Api
pub mod Mocked
pub mod Evaluation
