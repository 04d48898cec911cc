-- ===== src/Shim/Types.antt =====
-- The state of a container in the shim (`Container` of shim/container.go) and the messages of
-- api/shim/v1/shim.proto that it sends. Times and durations are integers, in nanoseconds; the
-- counters of the metrics do not wrap. A container object of containerd is known by its pid.
use zeropod.Base.{ℕ, Bool, Option, List, Text, Result}
use zeropod.Base.Int.{ℤ}
use zeropod.Config.{Config}
use zeropod.Activator.Interface.{ActivatorError}

pub data ContainerPhase : Type 0 where
  scaled_down running stopping checkpoint_failed restore_failed : ContainerPhase

pub record ContainerStatus : Type 0 where
  pub id : Text
  pub name : Text
  pub pod_name : Text
  pub pod_namespace : Text
  pub phase : ContainerPhase
  pub event_time : ℤ
  pub event_duration : Option ℤ
  pub event_log : Text
  pub dry_run : Bool

pub record ContainerMetrics : Type 0 where
  pub last_checkpoint : Option ℤ
  pub last_restore : Option ℤ
  pub last_checkpoint_duration : Option ℤ
  pub last_restore_duration : Option ℤ
  pub running : Bool
  pub checkpoint_errors : ℕ
  pub restore_errors : ℕ
  pub checkpoint_memory_bytes : ℕ
  pub dry_run_scale_downs : ℕ
  pub dry_run_restores : ℕ

-- A *time.Timer: nil, not pending, or pending with the duration it was last set to.
pub data Timer : Type 0 where
  unset idle : Timer
  armed : ℤ → Timer

-- The state `S` of the activator is that of the implementation in use; `none` is a nil pointer.
-- `image` says whether the checkpoint image exists on disk; `exited` holds the exit code that
-- SetExited has put on the process and on the initial process.
pub record Container (S : Type 0) : Type 0 where
  pub id : Text
  pub cfg : Config
  pub activator : Option S
  pub pid : Option ℕ
  pub process_exited : Option ℕ
  pub initial_exited : Option ℕ
  pub image : Bool
  pub is_scaled_down : Bool
  pub skip_start : Bool
  pub dry_run_scaled_down : Bool
  pub dry_run_since : ℤ
  pub dry_run_poll_timer : Timer
  pub scale_down_timer : Timer
  pub init_timer : Timer
  pub init_backoff : ℤ
  pub drain_timer : Timer
  pub drain_start_time : ℤ
  pub evac_drain_started : Bool
  pub evacuated : Bool
  pub events : List ContainerStatus
  pub event_capacity : ℕ
  pub checkpointed_pids : List ℕ
  pub metrics : ContainerMetrics
  pub last_config_reload : ℤ

pub data ShimError : Type 0 where
  already_restored no_capacity restore_request_failed restore_dial invalid_checkpoint : ShimError
  map_not_found no_listening_sockets no_activity_recorded : ShimError
  -- a Go panic on a nil pointer
  nil_pointer : ShimError
  -- any other error, from outside
  failed : ShimError

-- A method's error, and the container that it leaves: what was written before a failure stays.
abbrev pub Outcome : Type 0 → Type 0 → Type 0
Outcome S A = Result ShimError A × Container S

pub activator_error : ActivatorError → ShimError
activator_error ActivatorError.map_not_found = ShimError.map_not_found
activator_error ActivatorError.no_listening_sockets = ShimError.no_listening_sockets
activator_error ActivatorError.no_activity_recorded = ShimError.no_activity_recorded
activator_error ActivatorError.broken = ShimError.failed
