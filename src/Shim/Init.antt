-- ===== src/Shim/Init.antt =====
-- Starting and stopping a container's activator: Register, initActivator, getListeners,
-- startActivator, Stop, ExitOK and cleanupImage of shim/container.go.
pub mod Ports
use zeropod.Base.{
  ℕ, Bool, ◌&&◌, Option, none, some, List, [], ◌∷◌, Result, ok, err, contains_num, if◌then◌else◌,
}
use zeropod.Base.Int.{pos}
use zeropod.Config.{any_migration_enabled}
use zeropod.Activator.Interface.{
  Activator, ActivatorError, map_not_found, no_listening_sockets, unique_ports,
}
use zeropod.Shim.Types.{
  Container, Outcome, activator_error, failed, nil_pointer, scaled_down, running, stopping, unset,
}
use zeropod.Shim.Phase.{Clock, set_phase_notify, send_event, status}
use zeropod.Shim.Timers.{cancel_scale_down, cancel_init, init_retry, retry_init_in}
use zeropod.Shim.DryRun.{cancel_dry_run_poll}
use zeropod.Shim.Restore.{delete_image, set_exited}
use zeropod.Shim.ScaleDown.{Calls, scale_down}

-- What the process tree and the file system answer: the ports that the processes listen on, where
-- they can be found; the ports of the listeners stored with a checkpoint, before and after the
-- netinfo binary ran; and the state of a new legacy activator.
pub record InitCalls (S : Type 0) : Type 0 where
  pub detected : Option (List ℕ)
  pub stored : Option (List ℕ)
  pub netinfo : Bool
  pub stored_after : Option (List ℕ)
  pub new_server : S

module _ {S : Type 0} where
  -- The ports of what getListeners returns.
  unfoldable pub get_listeners : InitCalls S → List ℕ → Container S → List ℕ
  get_listeners w ports c =
      let after_netinfo : List ℕ =
        if c.skip_start && w.netinfo
        then elim w.stored_after [ none ↦ ports | some lns ↦ lns ]
        else ports in
      if c.cfg.disable_checkpointing
      then ports
      else elim w.stored [ none ↦ after_netinfo | some lns ↦ lns ]

  -- A retry of the initialisation is scheduled, which is no error.
  unfoldable pub schedule_init_retry : Container S → Outcome S (Unit {0})
  schedule_init_retry c = let (d, c') = init_retry c in (ok tt, retry_init_in d c')

  unfoldable pub cleanup_image : Container S → Container S
  unfolding delete_image
  cleanup_image c = if any_migration_enabled c.cfg then c else delete_image c

module _ (A : Activator) where
  unfoldable pub started_with :
      Result ActivatorError (Unit {0}) → Container A.State → Outcome A.State (Unit {0})
  unfolding schedule_init_retry
  started_with (ok u) c = (ok tt, c)
  started_with (err map_not_found) c = schedule_init_retry c
  started_with (err no_listening_sockets) c = schedule_init_retry c
  started_with (err e) c = (err (activator_error e), c)

  -- Start is given the pid of the container, which panics on a nil pointer.
  unfoldable pub start_attached :
      InitCalls A.State
      → Result ActivatorError (Unit {0})
      → A.State
      → Option ℕ
      → Container A.State
      → Outcome A.State (Unit {0})
  unfolding started_with
  start_attached w (err e) s pid c = started_with (err e) (record c { activator = some s })
  start_attached w (ok u) s none c = (err nil_pointer, record c { activator = some s })
  start_attached w (ok u) s (some pid) c =
      let (r, s') = A.start s (unique_ports (get_listeners w c.cfg.ports c)) c.skip_start in
      started_with r (record c { activator = some s' })

  unfoldable pub start_activator :
      InitCalls A.State → Option A.State → Container A.State → Outcome A.State (Unit {0})
  unfolding start_attached
  start_activator w none c = (err nil_pointer, c)
  start_activator w (some s) c =
      let (r, s') = A.attach_exec s in
      if A.started s then (ok tt, c) else start_attached w r s' c.pid c

  -- Without configured ports those that the processes listen on are taken.
  unfoldable pub start_detected :
      InitCalls A.State → Option (List ℕ) → Container A.State → Outcome A.State (Unit {0})
  unfolding start_activator schedule_init_retry
  start_detected w none c = schedule_init_retry c
  start_detected w (some []) c = schedule_init_retry c
  start_detected w (some (p ∷ ps)) c =
      start_activator w c.activator (record c { cfg = record c.cfg { ports = p ∷ ps } })

  unfoldable pub start_on_ports :
      InitCalls A.State → List ℕ → Container A.State → Outcome A.State (Unit {0})
  unfolding start_activator start_detected
  start_on_ports w (p ∷ ps) c = start_activator w c.activator c
  start_on_ports w [] c = start_detected w w.detected c

  unfoldable pub with_activator :
      InitCalls A.State → Option A.State → Container A.State → Container A.State
  with_activator w none c =
      if c.cfg.reuseport_activator then c else record c { activator = some w.new_server }
  with_activator w (some s) c = c

  unfoldable pub init_activator : InitCalls A.State → Container A.State → Outcome A.State (Unit {0})
  unfolding start_on_ports with_activator
  init_activator w c =
      let cancelled = cancel_init c in
      let ready = with_activator w cancelled.activator cancelled in
      start_on_ports w ready.cfg.ports ready

  -- An activator that cannot be initialised disables the scale down.
  unfoldable pub disable_on_error : Outcome A.State (Unit {0}) → Outcome A.State (Unit {0})
  disable_on_error (ok u, c) = (ok tt, c)
  disable_on_error (err nil_pointer, c) = (err nil_pointer, c)
  disable_on_error (err e, c) =
      (ok tt, record c { cfg = record c.cfg { scale_down_duration = pos 0 } })

  unfoldable pub scale_down_skipped :
      Calls → Outcome A.State (Unit {0}) → Outcome A.State (Unit {0})
  scale_down_skipped calls (err e, c) = (err e, c)
  scale_down_skipped calls (ok u, c) = if c.skip_start then scale_down A calls c else (ok tt, c)

  unfoldable pub register :
      InitCalls A.State → Calls → ℕ → Bool → Container A.State → Outcome A.State (Unit {0})
  unfolding init_activator disable_on_error scale_down_skipped
  register w calls pid has_process c =
      let held : Container A.State = record c { pid = some pid } in
      let known : Container A.State = record held {
        process_exited = none;
        initial_exited = none;
      } in
      let phased =
        set_phase_notify calls.clock (if c.skip_start then scaled_down else running) (pos 0)
          known in
      if has_process
      then scale_down_skipped calls (disable_on_error (init_activator w phased))
      else (err failed, held)

  unfoldable pub stop_activator : Option A.State → Container A.State → Container A.State
  stop_activator none c = c
  stop_activator (some s) c = record c { activator = some (A.stop s) }

  unfoldable pub stop : Clock → Container A.State → Container A.State
  unfolding stop_activator cleanup_image
  stop w c =
      let cancelled = cancel_dry_run_poll (cancel_scale_down (cancel_init c)) in
      let sent = send_event (record (status w cancelled) { phase = stopping }) cancelled in
      cleanup_image (stop_activator sent.activator sent)

  unfoldable pub exit_ok : Clock → Container A.State → Container A.State
  unfolding stop set_exited
  exit_ok w c = stop w (set_exited 0 (record c { drain_timer = unset }))
