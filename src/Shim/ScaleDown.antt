-- ===== src/Shim/ScaleDown.antt =====
-- Scaling down: scaleDown, kill and checkpoint of shim/checkpoint.go.
pub mod Redirects
pub mod Failure
pub mod Undone
use zeropod.Base.{
  ℕ, ◌-◌, ◌^◌, ◌≡◌, refl, Bool, true, false, not, ◌&&◌, ◌||◌, Option, none, some, List, [], ◌∷◌,
  Text, Result, ok, err, if◌then◌else◌,
}
use zeropod.Base.Int.{ℤ, pos, negsuc, pos_part, neg_part, eqb_ℤ, ltb_ℤ, ◌-ℤ◌, wrap64}
use zeropod.Config.{Config, ConfigError, Env, Spec, new_config}
use zeropod.Activator.Interface.{Activator, ActivatorError}
use zeropod.Shim.Types.{
  Container, Outcome, activator_error, ShimError, failed, nil_pointer, Timer, armed, scaled_down,
  checkpoint_failed,
}
use zeropod.Shim.Phase.{
  Clock, set_phase_notify, send_fail_event, add_checkpointed_pid, delete_checkpointed_pid,
}
use zeropod.Shim.Timers.{init_retry, last_activity}
use zeropod.Shim.DryRun.{dry_run_scale_down}

-- What runc, CRIU and the file system answer while a container is scaled down: whether the snapshot
-- directory can be prepared, whether the process is a runc init process, whether pre-dump,
-- checkpoint and forced delete succeed, how long the call took, and the last lines of CRIU's log.
pub record Calls : Type 0 where
  pub clock : Clock
  pub snapshot_dir : Bool
  pub is_init : Bool
  pub pre_dumps : Bool
  pub checkpoints : Bool
  pub deletes : Bool
  pub elapsed : ℤ
  pub criu_log : Text

module _ {S : Type 0} where
  -- Killing is a forced delete by runc.
  unfoldable pub kill_pid : Calls → ℕ → Container S → Outcome S (Unit {0})
  kill_pid w pid c =
      let marked = add_checkpointed_pid pid c in
      if w.is_init && w.deletes
      then (ok tt, set_phase_notify w.clock scaled_down w.elapsed marked)
      else (err failed, marked)

  unfoldable pub kill : Calls → Option ℕ → Container S → Outcome S (Unit {0})
  unfolding kill_pid
  kill w none c = (err nil_pointer, c)
  kill w (some pid) c = kill_pid w pid c

module _ (A : Activator) where
  -- A call of DisableRedirects whose error is ignored.
  unfoldable pub disable_ignoring : A.State → Container A.State → Container A.State
  disable_ignoring s c = record c { activator = some (A.disable_redirects s).1 }

  -- resetOnErr, a closure of `checkpoint`.
  unfoldable pub reset_on_err : Calls → ℕ → A.State → Container A.State → Container A.State
  unfolding disable_ignoring
  reset_on_err w pid s c =
      send_fail_event w.clock checkpoint_failed w.criu_log
        (disable_ignoring s (delete_checkpointed_pid pid c))

  -- From the first call of CRIU on: a pre-dump runs only if it is configured.
  unfoldable pub dump : Calls → ℕ → A.State → Container A.State → Outcome A.State (Unit {0})
  dump w pid s c =
      let marked = add_checkpointed_pid pid c in
      let stored : Container A.State = record marked { image = true } in
      if c.cfg.pre_dump && not w.pre_dumps
      then (err failed, reset_on_err w pid s c)
      else if w.checkpoints
      then (ok tt, set_phase_notify w.clock scaled_down w.elapsed stored)
      else (err failed, reset_on_err w pid s marked)

  unfoldable pub checkpoint : Calls → ℕ → A.State → Container A.State → Outcome A.State (Unit {0})
  checkpoint w pid s c =
      let cleared : Container A.State = record c { image = false } in
      if w.snapshot_dir && w.is_init then dump w pid s cleared else (err failed, cleared)

  -- A nil container panics where its pid is first read, at the first call of CRIU.
  unfoldable pub checkpoint_any :
      Calls → Option ℕ → A.State → Container A.State → Outcome A.State (Unit {0})
  checkpoint_any w none s c = (
    err (if w.snapshot_dir && w.is_init then nil_pointer else failed),
    record c { image = false },
  )
  checkpoint_any w (some pid) s c = checkpoint w pid s c

  -- With checkpointing disabled the process is killed.
  unfoldable pub kill_or_checkpoint :
      Calls → Bool → A.State → Container A.State → Outcome A.State (Unit {0})
  unfolding checkpoint_any kill
  kill_or_checkpoint w true s c = kill w c.pid c
  kill_or_checkpoint w false s c = checkpoint_any w c.pid s c

  unfoldable pub after_reset :
      Calls
      → Result ActivatorError (Unit {0})
      → A.State
      → Container A.State
      → Outcome A.State (Unit {0})
  unfolding kill_or_checkpoint
  after_reset w (err e) s c = (err (activator_error e), c)
  after_reset w (ok u) s c = kill_or_checkpoint w c.cfg.disable_checkpointing s c

  unfoldable pub reset_and_scale_down :
      Calls → Option A.State → Container A.State → Outcome A.State (Unit {0})
  unfolding after_reset
  reset_and_scale_down w none c = (err nil_pointer, c)
  reset_and_scale_down w (some s) c =
      let (r, s') = A.reset s in after_reset w r s' (record c { activator = some s' })

  unfoldable pub scale_down : Calls → Container A.State → Outcome A.State (Unit {0})
  unfolding reset_and_scale_down
  scale_down w c =
      if c.cfg.dry_run
      then (ok tt, dry_run_scale_down w.clock c)
      else if c.is_scaled_down
      then (ok tt, c)
      else reset_and_scale_down w c.activator c
