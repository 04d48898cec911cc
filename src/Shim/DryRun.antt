-- ===== src/Shim/DryRun.antt =====
-- shim/dryrun.go: a simulated scale down leaves the process alone, and a poll looks for the activity
-- that would have restored it.
pub mod Cycle
use zeropod.Base.{
  ◌+◌, Bool, true, false, not, ◌||◌, ◌++◌, Text, codes, Result, ok, err, if◌then◌else◌,
}
use zeropod.Base.Int.{ℤ, pos, ltb_ℤ, ◌-ℤ◌}
use zeropod.Config.{second}
use zeropod.Activator.Interface.{Activator, ActivatorError}
use zeropod.Shim.Types.{Container, armed}
use zeropod.Shim.Phase.{Clock, send_dry_run_event}
use zeropod.Shim.Timers.{stop_timer, schedule_scale_down, last_activity}

module _ {S : Type 0} where
  unfoldable pub schedule_dry_run_restore_check : Container S → Container S
  schedule_dry_run_restore_check c = record c { dry_run_poll_timer = armed (pos second) }

  unfoldable pub cancel_dry_run_poll : Container S → Container S
  unfolding stop_timer
  cancel_dry_run_poll c = record c { dry_run_poll_timer = stop_timer c.dry_run_poll_timer }

  unfoldable pub dry_run_scale_down : Clock → Container S → Container S
  unfolding schedule_dry_run_restore_check
  dry_run_scale_down w c =
      let entered : Container S = record c {
        dry_run_scaled_down = true;
        dry_run_since = w.now;
        metrics = record c.metrics { dry_run_scale_downs = c.metrics.dry_run_scale_downs + 1 };
      } in
      let text =
        codes "would have scaled down after "
        ++ w.duration_text c.cfg.scale_down_duration
        ++ codes " of inactivity" in
      if c.dry_run_scaled_down
      then c
      else schedule_dry_run_restore_check (send_dry_run_event w text entered)

  unfoldable pub dry_run_restore : Clock → Text → Bool → Container S → Container S
  unfolding cancel_dry_run_poll
  dry_run_restore w reason reschedule c =
      let counted : Container S = record c {
        metrics = record c.metrics { dry_run_restores = c.metrics.dry_run_restores + 1 };
      } in
      let text = codes "would have restored (" ++ reason ++ codes ")" in
      let sent = send_dry_run_event w text counted in
      let left = cancel_dry_run_poll (record sent { dry_run_scaled_down = false }) in
      if reschedule then schedule_scale_down left else left

  unfoldable pub dry_run_exec : Clock → Container S → Container S
  unfolding dry_run_restore
  dry_run_exec w c =
      if not c.cfg.dry_run || not c.dry_run_scaled_down
      then c
      else dry_run_restore w (codes "got exec") false c

  -- Activity since the simulated scale down would have restored the container.
  unfoldable pub dry_run_check : Clock → Result ActivatorError ℤ → Container S → Container S
  unfolding dry_run_restore schedule_dry_run_restore_check
  dry_run_check w (err e) c = schedule_dry_run_restore_check c
  dry_run_check w (ok last) c =
      if ltb_ℤ c.dry_run_since last
      then dry_run_restore w
          (codes "last activity " ++ w.duration_text (w.now -ℤ last) ++ codes " ago") true c
      else schedule_dry_run_restore_check c

unfoldable pub dry_run_restore_check :
    (A : Activator) → Clock → Container A.State → Container A.State
unfolding dry_run_check
dry_run_restore_check A w c = dry_run_check w (last_activity A c) c
