-- ===== src/Shim/Lifecycle.antt =====
-- The life of a registered container: the steps that timers, connections and requests make it take
-- (scaleDownCheck, the restore hook, Exec, Delete of an exec, the dry-run poll, GetMetrics, and the
-- exits of its processes), in any order, and what holds after each.
pub mod Report
pub mod Down
pub mod Up
pub mod Checked
pub mod Registered
pub mod Exits
pub mod Always
pub mod Life
use zeropod.Base.{ℕ, Text, ◌≡◌, refl, Bool, List}
use zeropod.Base.Int.{ℤ}
use zeropod.Activator.Interface.{Activator}
use zeropod.Shim.Types.{Container}
use zeropod.Shim.Phase.{Clock, get_metrics}
use zeropod.Shim.ScaleDown.{Calls}
use zeropod.Shim.DryRun.{dry_run_restore_check}
use zeropod.Shim.Check.{Reload, scale_down_check}
use zeropod.Shim.Restore.{RestoreCalls, restore_handler}
use zeropod.Shim.Task.{ContainerProcess, exec, delete_exec, prevent_exit_of}

-- One step, whatever its surroundings answer.
pub data Step (A : Activator) : Container A.State → Container A.State → Type 0 where
  checked :
      (w : Calls) (r : Reload) (t1 t2 : ℤ) (c : Container A.State)
      → Step A c (scale_down_check A w r t1 t2 c).1
  connected : (w : RestoreCalls) (c : Container A.State) → Step A c (restore_handler A w c).1
  executed :
      (w : Clock) (calls : RestoreCalls) (c : Container A.State) → Step A c (exec A w calls c).1
  exec_deleted : (n : ℕ) (c : Container A.State) → Step A c (delete_exec n c).1
  polled : (w : Clock) (c : Container A.State) → Step A c (dry_run_restore_check A w c)
  process_exited :
      (cp : ContainerProcess) (c : Container A.State) → Step A c (prevent_exit_of cp c).1
  metrics_read : (c : Container A.State) → Step A c (get_metrics c).1

pub data Steps (A : Activator) : Container A.State → Container A.State → Type 0 where
  done : (c : Container A.State) → Steps A c c
  step : {b c d : Container A.State} → Steps A b c → Step A c d → Steps A b d
