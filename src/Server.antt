-- ===== src/Server.antt =====
-- vad/server: the tables of the control plane and the services over them.
pub mod Table
pub mod Store
pub mod Leases
pub mod WorkItems
pub mod Sequence
