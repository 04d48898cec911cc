-- ===== src/Manager/Node.antt =====
-- The node service (manager/node/service.go), which moves the checkpoint of a container between
-- nodes and tells the shims whether a restore is allowed.
pub mod Updates
pub mod Phases
pub mod Capacity
pub mod Service
pub mod Restore
pub mod Evac
pub mod Race
