-- ===== src/Shim.antt =====
-- shim/container.go, checkpoint.go, restore.go and dryrun.go: the life of one container between
-- running and scaled down. `Types` has the state, `Phase` the phases and
-- their events, `Timers` the schedules, `ScaleDown`, `Restore` and `DryRun` the transitions.
pub mod Types
pub mod Phase
pub mod Timers
pub mod DryRun
pub mod ScaleDown
pub mod Restore
pub mod Check
pub mod Init
pub mod Evac
pub mod Task
pub mod Migration
pub mod Lifecycle
