-- ===== src/Swarm.antt =====
-- vad/swarm: agents with roles that work off a graph of tasks and send messages.
pub mod Agents
pub mod Tasks
pub mod Coordinator
pub mod Leases
