-- ===== src/Tests.antt =====
-- Concrete inputs at which the theorems apply, and runs of the model on them.
mod Fixtures
mod Servers
mod Configs
mod Containers
mod Lifecycles
mod Tasks
mod Scalers
mod Nodes
mod Clusters
mod Objects
mod Migrations
mod Controllers
mod Reuses
