-- ===== src/Tests/Tasks.antt =====
-- The theorems on the task service, evacuation, drain, dry run and ports, at one container.
use zeropod.Base.{
  ◌*◌, ◌^◌, ◌≡◌, refl, subst, true, false, some, [], ◌∷◌, codes, ok, arith, ◌⊎◌, contains_num,
}
use zeropod.Base.Int.{pos, clamp64, ◌-ℤ◌, wrap64}
use zeropod.Activator.Server
use zeropod.Activator.Server.{Server}
use zeropod.Shim.Types.{Container}
use zeropod.Shim.Phase.{Clock}
use zeropod.Config.{any_migration_enabled}
use zeropod.Shim.Timers.{last_activity, cancel_scale_down}
use zeropod.Shim.Restore.{restore, attempt_restore, restore_once}
use zeropod.Shim.DryRun.{dry_run_scale_down, dry_run_restore_check}
use zeropod.Shim.DryRun.Cycle.{IsCycled, dry_run-IsCycled}
use zeropod.Activator.Interface.{unique_ports}
use zeropod.Shim.Init.Ports.{Distinct, unique_ports-Distinct}
use zeropod.Shim.Evac.{EvacCalls, evac, evac_scaled_down, handle_drain_check}
use zeropod.Shim.Evac.Drain.{Drains, handle_drain_check-Drains, evac-once}
use zeropod.Shim.Task.{delegated, exec, kill}
use zeropod.Shim.Task.Kill.{IsQuiet, kill-IsQuiet}
use zeropod.Shim.Task.Exec.{exec-Executes, IsStillDraining, kill-failed_evac_drains}
use zeropod.Shim.Lifecycle.Report.{Sound, Redirects}
use zeropod.Tests.Fixtures.{
  act, clock, running_server, running_container, down_container, restore_calls, cfg,
}

-- The server of the container that is scaled down.
abbrev down_server : Server
down_server = record running_server { disabled = [] }

-- The node cannot be reached.
abbrev evac_calls : EvacCalls
evac_calls = record { clock = clock; prepares = false; evacuates = false; events = [] }

kill-IsQuiet_example : IsQuiet (kill act evac_calls true [] running_container).1.scale_down_timer
kill-IsQuiet_example = kill-IsQuiet act evac_calls true [] running_container

down-Sound : Sound act down_container
down-Sound = record {
  phase_reported = refl;
  events_fit = omega arith;
  redirects = λ _ s e. subst (Redirects act) {x = down_server} {y = s} (cc e) (refl, tt);
  expects_exit =
      λ _ pid e. subst (λ p. contains_num (7 ∷ []) p ≡ true) {x = 7} {y = pid} (cc e) refl;
}

exec-Executes_example :
    ((exec act clock restore_calls down_container).1.is_scaled_down ≡ false)
    ⊎ ((exec act clock restore_calls down_container).1.process_exited ≡ some 1)
unfolding exec cancel_scale_down restore attempt_restore restore_once Server.disable_redirects
exec-Executes_example = exec-Executes act clock restore_calls down_container down-Sound refl

-- Scaled down, and to be migrated.
abbrev migrating_container : Container Server
migrating_container = record down_container { cfg = record cfg { migrate = codes "app" ∷ [] } }

kill-failed_evac_drains_example :
    ((kill act evac_calls true [] migrating_container).0 ≡ delegated)
    × IsStillDraining (kill act evac_calls true [] migrating_container).1
unfolding any_migration_enabled evac_scaled_down
kill-failed_evac_drains_example =
    kill-failed_evac_drains act evac_calls true migrating_container refl refl refl refl

evac-once_example :
    evac evac_calls true (evac evac_calls true migrating_container).1
    ≡ (ok tt, (evac evac_calls true migrating_container).1)
evac-once_example = evac-once evac_calls evac_calls true true migrating_container

handle_drain_check-Drains_example :
    Drains act clock running_server running_container
      (handle_drain_check act clock running_container)
handle_drain_check-Drains_example =
    handle_drain_check-Drains act clock running_server running_container refl

-- A poll at a time when port 80 was active since.
abbrev before_activity : Clock
before_activity = record clock { now = pos (98 * 10 ^ 10) }

dry_run-IsCycled_example :
    IsCycled running_container
      (dry_run_restore_check act clock (dry_run_scale_down before_activity running_container))
unfolding last_activity Server.last_activity clamp64 ◌-ℤ◌ wrap64
dry_run-IsCycled_example =
    dry_run-IsCycled act before_activity clock (pos (99 * 10 ^ 10)) running_container refl refl refl
      refl

unique_ports-Distinct_example :
    Distinct (unique_ports (80 ∷ 443 ∷ 80 ∷ []))
    × (contains_num (unique_ports (80 ∷ 443 ∷ 80 ∷ [])) 443 ≡ true)
unique_ports-Distinct_example = unique_ports-Distinct (80 ∷ 443 ∷ 80 ∷ []) 443
