-- ===== src/Tests/Lifecycles.antt =====
-- The theorems on a container's life, at one that serves port 80 and is registered, scaled down,
-- restored, and then hears of the exit of the process that was scaled down.
use zeropod.Base.{length, ◌≤◌, ◌*◌, ◌^◌, ◌≡◌, refl, true, ok, arith}
use zeropod.Base.Int.{ℤ, pos, clamp64, ◌-ℤ◌, wrap64}
use zeropod.Activator.Server
use zeropod.Activator.Server.{Server}
use zeropod.Shim.Types.{Container, idle}
use zeropod.Shim.Phase.{set_phase_notify, add_checkpointed_pid}
use zeropod.Shim.Timers.{last_activity}
use zeropod.Shim.ScaleDown.{scale_down, checkpoint, dump}
use zeropod.Shim.Restore.{restore, attempt_restore, restore_once, restore_handler}
use zeropod.Shim.Init.{register}
use zeropod.Shim.Check.{scale_down_check}
use zeropod.Shim.Check.Continues.{Continues, scale_down_check-Continues}
use zeropod.Shim.Task.{prevent_exit_of}
use zeropod.Shim.Lifecycle.{done, step, checked, connected, process_exited}
use zeropod.Shim.Lifecycle.Exits.{IsPrevented, late_exit-IsPrevented}
use zeropod.Shim.Lifecycle.Life.{InPhase, life-InPhase}
use zeropod.Tests.Fixtures.{
  act, running_server, running_container, fresh_container, calls, restore_calls, init_calls, reload,
  exit,
}

-- Two readings of the clock, 100 seconds after the last activity.
abbrev late : ℤ
late = pos (109 * 10 ^ 10)

abbrev registered : Container Server
registered = (register act init_calls calls 7 true fresh_container).1

abbrev checked_container : Container Server
checked_container = (scale_down_check act calls reload late late registered).1

abbrev restored_container : Container Server
restored_container = (restore_handler act restore_calls checked_container).1

life-InPhase_example :
    InPhase act (prevent_exit_of exit restored_container).1
    × (length (prevent_exit_of exit restored_container).1.events
        ≤ (prevent_exit_of exit restored_container).1.event_capacity)
life-InPhase_example =
    life-InPhase act init_calls calls 7 fresh_container (prevent_exit_of exit restored_container).1
      refl (omega arith)
      (step
        (step (step (done registered) (checked calls reload late late registered))
          (connected restore_calls checked_container))
        (process_exited exit restored_container))

late_exit-IsPrevented_example :
    IsPrevented 7 (restore act restore_calls (scale_down act calls running_container).1).1 (
      prevent_exit_of exit (restore act restore_calls (scale_down act calls running_container).1).1)
unfolding scale_down Server.reset checkpoint dump restore attempt_restore restore_once
    set_phase_notify add_checkpointed_pid Server.disable_redirects
late_exit-IsPrevented_example =
    late_exit-IsPrevented act calls restore_calls running_server exit running_container 8 refl refl
      refl refl refl refl

scale_down_check-Continues_example :
    Continues act late late running_container
      (scale_down_check act calls reload late late running_container).1
unfolding scale_down_check last_activity Server.last_activity clamp64 ◌-ℤ◌ wrap64 scale_down
    Server.reset checkpoint dump
scale_down_check-Continues_example =
    scale_down_check-Continues act calls reload late late running_server running_container refl refl

-- Activity 59 seconds ago at the first reading and 61 at the second: nothing is pending afterwards.
late_check_stops :
    scale_down_check act calls reload (pos (1049 * 10 ^ 9)) (pos (1051 * 10 ^ 9)) running_container
    ≡ (ok tt, record running_container { scale_down_timer = idle })
unfolding scale_down_check last_activity Server.last_activity clamp64 ◌-ℤ◌ wrap64
late_check_stops = refl
