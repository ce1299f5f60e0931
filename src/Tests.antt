-- ===== src/Tests.antt =====
-- Runs at concrete inputs.
pub mod Runs
mod Scores
mod Services
mod Repo
mod Plans
mod Swarm
mod Privacy
mod Feedback
mod Drift
