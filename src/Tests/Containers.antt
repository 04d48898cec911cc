-- ===== src/Tests/Containers.antt =====
-- The theorems on a container's scale down and restore, at one that serves port 80.
use zeropod.Base.{◌*◌, ◌^◌, ◌≡◌, refl, true, false, some, [], ◌∷◌, codes, ok, err, All, ◌⊎◌}
use zeropod.Base.Int.{pos, ◌-ℤ◌, wrap64}
use zeropod.Activator.Server
use zeropod.Activator.Server.{Server, is_redirected}
use zeropod.Shim.Types.{Container, failed, nil_pointer}
use zeropod.Shim.ScaleDown.{Calls, scale_down, checkpoint, dump}
use zeropod.Shim.ScaleDown.Redirects.{IsDown, scale_down-IsDown}
use zeropod.Shim.ScaleDown.Failure.{StillUp, scale_down-StillUp, scale_down-failure_keeps_redirects}
use zeropod.Shim.ScaleDown.Undone.{Undone, checkpoint-failure_redirects}
use zeropod.Shim.Restore.{
  RestoreCalls, RestoreCapacityResponse, restore, restore_handler, attempt_restore, restore_once,
}
use zeropod.Shim.Restore.Outcomes.{IsRestored, restore-IsRestored}
use zeropod.Shim.Restore.Denied.{OnlyForwards, restore-denied}
use zeropod.Shim.Restore.Retry.{Panicked, restore-failure_disables, restore_handler-failure_panics}
use zeropod.Shim.Phase.{send_fail_event}
use zeropod.Shim.Timers.{init_retry, last_activity}
use zeropod.Shim.Timers.Activity.{Reported, Bounded, last_activity-latest}
use zeropod.Shim.Timers.Backoff.{min, after_retries, init_retry-doubles}
use zeropod.Tests.Fixtures.{
  kernel, act, running_server, running_container, down_container, calls, restore_calls, attempt,
}

abbrev reset_server : Server
reset_server = (Server.reset kernel running_server).1

scale_down-IsDown_example :
    IsDown act reset_server (some 7) false (scale_down act calls running_container).1
    × All (λ p. is_redirected reset_server p ≡ true) (80 ∷ [])
unfolding scale_down Server.reset checkpoint dump
scale_down-IsDown_example =
    scale_down-IsDown act calls running_server running_container refl refl refl refl

-- CRIU fails.
abbrev failing_calls : Calls
failing_calls = record calls { checkpoints = false }

scale_down-StillUp_example :
    StillUp running_container (scale_down act failing_calls running_container).1
unfolding scale_down Server.reset checkpoint dump
scale_down-StillUp_example = scale_down-StillUp act failing_calls running_container failed refl

checkpoint-failure_redirects_example :
    Undone act failing_calls reset_server 7 running_container
      (scale_down act failing_calls running_container)
unfolding Server.reset
checkpoint-failure_redirects_example =
    checkpoint-failure_redirects act failing_calls running_server 7 running_container refl refl refl
      refl refl refl refl refl refl

-- The snapshot directory cannot be prepared.
abbrev no_dir_calls : Calls
no_dir_calls = record calls { snapshot_dir = false }

scale_down-failure_keeps_redirects_example :
    ((scale_down act no_dir_calls running_container).0 ≡ err failed)
    × ((scale_down act no_dir_calls running_container).1.activator ≡ some reset_server)
    × All (λ p. is_redirected reset_server p ≡ true) (80 ∷ [])
unfolding scale_down Server.reset checkpoint dump
scale_down-failure_keeps_redirects_example =
    scale_down-failure_keeps_redirects act no_dir_calls running_server 7 running_container refl refl
      refl refl refl refl

abbrev down_server : Server
down_server = record running_server { disabled = [] }

restore-IsRestored_example :
    IsRestored act down_server 8 (restore act restore_calls down_container).1
    × ((restore act restore_calls down_container).1.image ≡ false)
unfolding restore Server.disable_redirects attempt_restore restore_once
restore-IsRestored_example =
    restore-IsRestored act restore_calls down_server down_container 8 refl refl

abbrev denial : RestoreCapacityResponse
denial = record { allowed = false; redirect_addr = codes "10.0.0.2" }

abbrev denied_calls : RestoreCalls
denied_calls = record restore_calls { capacity = ok denial }

abbrev asking_container : Container Server
asking_container = record down_container {
  cfg = record down_container.cfg {
    file = record down_container.cfg.file { capacity_request = true };
  };
}

restore-denied_example :
    OnlyForwards act asking_container (restore act denied_calls asking_container)
restore-denied_example = restore-denied act denied_calls denial asking_container refl refl refl refl

-- Neither attempt starts the process.
abbrev failing_restore : RestoreCalls
failing_restore = record restore_calls {
  first = record attempt { starts = false };
  second = record attempt { starts = false };
}

restore-failure_disables_example :
    (failed ≡ nil_pointer)
    ⊎ (((restore act failing_restore down_container).1.cfg.disable_checkpointing ≡ true)
        × ((restore act failing_restore down_container).1.image ≡ false))
unfolding restore attempt_restore restore_once send_fail_event
restore-failure_disables_example =
    restore-failure_disables act failing_restore down_container failed refl refl refl

restore_handler-failure_panics_example :
    Panicked act down_container (restore_handler act failing_restore down_container)
restore_handler-failure_panics_example =
    restore_handler-failure_panics act failing_restore down_container refl refl refl refl

last_activity-latest_example :
    Reported act running_server (80 ∷ []) (pos (99 * 10 ^ 10))
    × Bounded act running_server (pos (99 * 10 ^ 10)) (80 ∷ [])
unfolding last_activity Server.last_activity ◌-ℤ◌ wrap64
last_activity-latest_example =
    last_activity-latest act running_server running_container (pos (99 * 10 ^ 10)) refl refl

init_retry-doubles_example :
    (init_retry (after_retries 3 running_container)).0
    ≡ pos (min (5 * 60 * 10 ^ 9) (10 * 10 ^ 6 * 2 ^ 3))
init_retry-doubles_example = init_retry-doubles 3 running_container refl
