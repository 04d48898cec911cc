-- ===== src/Manager.antt =====
-- The manager on a node, which follows the status events of the shims.
pub mod Scaler
pub mod Taints
pub mod Node
pub mod Trackers
pub mod Subscriber
pub mod Events
pub mod PodController
pub mod MigrationController
