-- ===== src/Memory.antt =====
-- src/memory/: the episodic memory of past incidents.
pub mod Vectors
pub mod Seeds
pub mod Episodic
