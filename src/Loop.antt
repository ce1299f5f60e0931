-- ===== src/Loop.antt =====
-- vad/loop: the loop's states and the orchestrator that drives them.
pub mod State
pub mod History
pub mod Orchestrator
