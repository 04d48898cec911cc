-- ===== src/Shim/Task.antt =====
-- The task service of the shim (`wrapper` of shim/task/service_zeropod.go): what it does with a
-- container of zeropod before, or in place of, calling containerd's own service. What it answers is
-- a `Reply`; `delegated` is the call of the embedded service, whose own state is not modelled.
pub mod Others
pub mod Kill
pub mod Exec
use zeropod.Base.{
  ℕ, Bool, true, false, not, ◌&&◌, ◌||◌, Option, none, some, List, [], ◌∷◌, Text, codes, is_empty,
  same, Result, ok, err, if◌then◌else◌, ◌==◌,
}
use zeropod.Config.{
  Config, ConfigError, Env, Spec, new_config, is_zeropod_container, any_migration_enabled,
}
use zeropod.Activator.Interface.{Activator}
use zeropod.Shim.Types.{
  Container, Outcome, ShimError, no_capacity, nil_pointer, failed, restore_request_failed,
  restore_dial, invalid_checkpoint,
}
use zeropod.Shim.Phase.{Clock, checkpointed_pid, delete_checkpointed_pid}
use zeropod.Shim.Timers.{cancel_scale_down, schedule_scale_down}
use zeropod.Shim.ScaleDown.{Calls}
use zeropod.Shim.DryRun.{dry_run_exec}
use zeropod.Shim.Restore.{RestoreCalls, restore, set_exited}
use zeropod.Shim.Init.{InitCalls, register, stop}
use zeropod.Shim.Evac.{EvacCalls, evac}

pub data Reply : Type 0 where
  delegated answered scaled_down_stats : Reply
  known_pid : ℕ → Reply
  refused : ShimError → Reply

-- The containers of zeropod by their id; the first entry of an id counts.
abbrev pub Table : Type 0 → Type 0
Table S = List (Text × Container S)

module _ {S : Type 0} where
  unfoldable pub get_container : Text → Table S → Option (Container S)
  get_container id [] = none
  get_container id ((i, c) ∷ t) = if same i id then some c else get_container id t

  unfoldable pub set_container : Text → Container S → Table S → Table S
  set_container id c [] = (id, c) ∷ []
  set_container id c ((i, d) ∷ t) =
      let rest = set_container id c t in if same i id then (id, c) ∷ t else (i, d) ∷ rest

  unfoldable pub delete_container : Text → Table S → Table S
  delete_container id [] = []
  delete_container id ((i, d) ∷ t) =
      let rest = delete_container id t in if same i id then rest else (i, d) ∷ rest

  -- A request for a container that is not zeropod's goes to containerd's service.
  unfoldable pub on_found :
      (Container S → Reply × Container S) → Text → Option (Container S) → Table S → Reply × Table S
  on_found f id none t = (delegated, t)
  on_found f id (some c) t = let (r, c') = f c in (r, set_container id c' t)

  unfoldable pub on_container :
      (Container S → Reply × Container S) → Text → Table S → Reply × Table S
  unfolding on_found
  on_container f id t = on_found f id (get_container id t) t

-- Create. The container that New made is in the table even if what follows fails. `restored` is the
-- result of MigrationRestore, whether the start is skipped; `creates` that of containerd's service.
unfoldable pub is_handled : Config → Bool
is_handled cfg = not (same cfg.container_type (codes "sandbox")) && is_zeropod_container cfg

-- Errors after which the container is created from scratch.
unfoldable pub is_tolerated : ShimError → Bool
is_tolerated restore_request_failed = true
is_tolerated restore_dial = true
is_tolerated invalid_checkpoint = true
is_tolerated _ = false

module _ {S : Type 0} where
  skip_if_restored : Result ShimError Bool → Container S → Outcome S (Unit {0})
  skip_if_restored (ok skip) c = (ok tt, record c { skip_start = skip })
  skip_if_restored (err e) c =
      if is_tolerated e then (ok tt, record c { skip_start = false }) else (err e, c)

  created : Bool → Outcome S (Unit {0}) → Reply × Container S
  created creates (err e, c) = (refused e, c)
  created creates (ok u, c) = if creates then (answered, c) else (refused failed, c)

  create_new : Result ShimError Bool → Bool → Container S → Reply × Container S
  unfolding skip_if_restored created
  create_new restored creates c =
      if any_migration_enabled c.cfg
      then created creates (skip_if_restored restored c)
      else created creates (ok tt, c)

  create_handled :
      Result ShimError (Container S)
      → Result ShimError Bool
      → Bool
      → Text
      → Table S
      → Reply × Table S
  unfolding create_new
  create_handled (err e) restored creates id t = (refused e, t)
  create_handled (ok c) restored creates id t =
      let (r, c') = create_new restored creates c in (r, set_container id c' t)

  create_configured :
      (Config → Result ShimError (Container S))
      → Result ConfigError Config
      → Result ShimError Bool
      → Bool
      → Text
      → Table S
      → Reply × Table S
  unfolding create_handled
  create_configured new (err e) restored creates id t = (refused failed, t)
  create_configured new (ok cfg) restored creates id t =
      if is_handled cfg then create_handled (new cfg) restored creates id t else (delegated, t)

  unfoldable pub create :
      (Config → Result ShimError (Container S))
      → Env
      → Option Spec
      → Result ShimError Bool
      → Bool
      → Text
      → Table S
      → Reply × Table S
  unfolding create_configured
  create new e none restored creates id t = (refused failed, t)
  create new e (some spec) restored creates id t =
      create_configured new (new_config e spec) restored creates id t

  -- Pids, Update and Stats answer themselves while a container is scaled down.
  unfoldable pub pids : Container S → Reply × Container S
  pids c =
      let last : Reply = elim c.pid [ none ↦ refused nil_pointer | some pid ↦ known_pid pid ] in
      (if c.is_scaled_down then last else delegated, c)

  unfoldable pub update : Container S → Reply × Container S
  update c = (if c.is_scaled_down then answered else delegated, c)

  unfoldable pub stats : Container S → Reply × Container S
  stats c = (if c.is_scaled_down then scaled_down_stats else delegated, c)

  -- Delete of an exec schedules the scale down again when it was the last.
  unfoldable pub delete_exec : ℕ → Container S → Reply × Container S
  delete_exec running_execs c = (delegated, if running_execs == 0 then schedule_scale_down c else c)

  unfoldable pub delete : Text → ℕ → Text → Table S → Reply × Table S
  unfolding delete_exec
  delete exec_id running_execs id t =
      if is_empty exec_id
      then (delegated, delete_container id t)
      else on_container (delete_exec running_execs) id t

module _ (A : Activator) where
  -- What follows the restore of Exec.
  unfoldable pub exec_restored : Clock → Outcome A.State ℕ → Reply × Container A.State
  exec_restored w (ok pid, c) = (delegated, dry_run_exec w c)
  exec_restored w (err no_capacity, c) = (refused no_capacity, c)
  exec_restored w (err nil_pointer, c) = (refused nil_pointer, c)
  exec_restored w (err e, c) = (delegated, dry_run_exec w (set_exited 1 c))

  unfoldable pub exec : Clock → RestoreCalls → Container A.State → Reply × Container A.State
  unfolding exec_restored
  exec w calls c =
      let cancelled = cancel_scale_down c in
      if cancelled.is_scaled_down
      then exec_restored w (restore A calls cancelled)
      else (delegated, dry_run_exec w cancelled)

  -- The container after it was registered, or the error of that.
  start_registered : Outcome A.State (Unit {0}) → Reply × Container A.State
  start_registered (err e, c) = (refused e, c)
  start_registered (ok u, c) = (answered, if c.skip_start then c else schedule_scale_down c)

  -- `found` is the pid of the runc container that the service holds, `starts` whether it starts.
  unfoldable pub start :
      InitCalls A.State → Calls → Option ℕ → Bool → Container A.State → Reply × Container A.State
  unfolding start_registered
  start w calls none starts c = (refused failed, c)
  start w calls (some pid) starts c =
      if c.skip_start || starts
      then start_registered (register A w calls pid true c)
      else (refused failed, c)

  -- Kill, once nothing is evacuated: a container that is scaled down has no process to kill.
  unfoldable pub kill_process : Clock → Bool → Container A.State → Reply × Container A.State
  kill_process w kills c =
      let stopped = stop A w c in
      if c.is_scaled_down
      then (delegated, stop A w (set_exited 0 c))
      else if kills
      then (delegated, record stopped { initial_exited = some 0 })
      else (refused failed, stopped)

  unfoldable pub kill_evacuated :
      Clock → Bool → Outcome A.State (Unit {0}) → Reply × Container A.State
  unfolding kill_process
  kill_evacuated w kills (err e, c) = kill_process w kills c
  kill_evacuated w kills (ok u, c) =
      if c.evac_drain_started then (answered, c) else kill_process w kills c

  unfoldable pub kill : EvacCalls → Bool → Text → Container A.State → Reply × Container A.State
  unfolding kill_evacuated
  kill w kills exec_id c =
      let cancelled = cancel_scale_down c in
      if is_empty exec_id
      then (if any_migration_enabled cancelled.cfg
          then kill_evacuated w.clock kills (evac w cancelled.is_scaled_down cancelled)
          else kill_process w.clock kills cancelled)
      else (delegated, cancelled)

-- A process of a container that exited: its pid, and whether it is the container's initial or
-- current process.
pub record ContainerProcess : Type 0 where
  pub container_id : Text
  pub pid : ℕ
  pub is_main : Bool

module _ {S : Type 0} where
  -- Whether the exit is kept from containerd's service.
  unfoldable pub prevent_exit_of : ContainerProcess → Container S → Bool × Container S
  prevent_exit_of cp c =
      let exited : Container S = record c {
        initial_exited = if cp.is_main then some 0 else c.initial_exited;
      } in
      if c.is_scaled_down
      then (true, c)
      else if checkpointed_pid cp.pid c
      then (true, delete_checkpointed_pid cp.pid c)
      else (false, exited)

  unfoldable pub prevent_exit : ContainerProcess → Table S → Bool × Table S
  unfolding prevent_exit_of
  prevent_exit cp t = elim (get_container cp.container_id t) [
    | none ↦ (false, t)
    | some c ↦ let (b, c') = prevent_exit_of cp c in (b, set_container cp.container_id c' t)
  ]

  -- The loop over the processes of the pid that exited: each is asked.
  unfoldable pub prevent_exits : List ContainerProcess → Table S → Bool × Table S
  unfolding prevent_exit
  prevent_exits [] t = (false, t)
  prevent_exits (cp ∷ cps) t =
      let (b, t') = prevent_exit cp t in
      let (others, t'') = prevent_exits cps t' in (b || others, t'')
