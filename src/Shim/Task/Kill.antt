-- ===== src/Shim/Task/Kill.antt =====
-- What Kill leaves pending (Kill of shim/task/service_zeropod.go and Evac of shim/evac.go).
use zeropod.Base.{
  Bool, true, false, Option, none, some, Result, ok, err, List, [], ◌∷◌, Text, is_empty, if-cases,
}
use zeropod.Config.{any_migration_enabled, live_migration_enabled}
use zeropod.Activator.Interface.{Activator}
use zeropod.Shim.Types.{Container, Outcome, ShimError, Timer, unset, idle, armed}
use zeropod.Shim.Phase.{Clock, send_event, set_phase}
use zeropod.Shim.Timers.{stop_timer, cancel_scale_down, cancel_init}
use zeropod.Shim.DryRun.{cancel_dry_run_poll}
use zeropod.Shim.Restore.{delete_image, set_exited}
use zeropod.Shim.Init.{stop, stop_activator, cleanup_image}
use zeropod.Shim.Evac.{
  EvacCalls, EvacEvent, evac_timeout, checkpoint_error, checkpointed, lazy_started, evac, evac_once,
  evac_loop, live_evac, start_connection_drain,
}
use zeropod.Shim.Task.{Reply, kill, kill_process, kill_evacuated}

-- A timer that does not fire.
pub data IsQuiet : Timer → Type 0 where
  is_unset : IsQuiet unset
  is_idle : IsQuiet idle

stop_timer-IsQuiet : (t : Timer) → IsQuiet (stop_timer t)
unfolding stop_timer
stop_timer-IsQuiet unset = is_unset
stop_timer-IsQuiet idle = is_idle
stop_timer-IsQuiet (armed d) = is_idle

module _ {S : Type 0} where
  -- No scale down of the container is pending.
  abbrev pub Quiet : Container S → Type 0
  Quiet c = IsQuiet c.scale_down_timer

  abbrev QuietAfter : Outcome S (Unit {0}) → Type 0
  QuietAfter r = Quiet r.1

  loop-Quiet :
      (w : Clock) (es : List EvacEvent) (c : Container S) → Quiet c → QuietAfter (evac_loop w es c)
  unfolding evac_loop set_phase
  loop-Quiet w [] c h = h
  loop-Quiet w (evac_timeout ∷ es) c h = h
  loop-Quiet w (checkpoint_error ∷ es) c h = h
  loop-Quiet w (lazy_started true ∷ es) c h = loop-Quiet w es c h
  loop-Quiet w (lazy_started false ∷ es) c h = h
  loop-Quiet w (checkpointed ∷ es) c h = h

  once-Quiet : (w : EvacCalls) (b : Bool) (c : Container S) → Quiet c → QuietAfter (evac_once w b c)
  unfolding evac_once live_evac start_connection_drain
  once-Quiet w true c h = h
  once-Quiet w false c h =
      if-cases QuietAfter (live_migration_enabled c.cfg)
        (λ _. if-cases QuietAfter w.prepares (λ _. loop-Quiet w.clock w.events c h) (λ _. h))
        (λ _. h)

  evac-Quiet : (w : EvacCalls) (b : Bool) (c : Container S) → Quiet c → QuietAfter (evac w b c)
  unfolding evac
  evac-Quiet w b c h = if-cases QuietAfter c.evacuated (λ _. h) (λ _. once-Quiet w b _ h)

module _ (A : Activator) where
  cleaned-Quiet : (c : Container A.State) → Quiet c → Quiet (cleanup_image c)
  unfolding cleanup_image delete_image
  cleaned-Quiet c h = if-cases Quiet (any_migration_enabled c.cfg) (λ _. h) (λ _. h)

  activator-Quiet :
      (o : Option A.State) (c : Container A.State) → Quiet c → Quiet (stop_activator A o c)
  unfolding stop_activator
  activator-Quiet none c h = h
  activator-Quiet (some s) c h = h

  stop-Quiet : (w : Clock) (c : Container A.State) → Quiet (stop A w c)
  unfolding stop send_event cancel_dry_run_poll cancel_scale_down cancel_init
  stop-Quiet w c =
      cleaned-Quiet _ (activator-Quiet c.activator _ (stop_timer-IsQuiet c.scale_down_timer))

  abbrev QuietReply : Reply × Container A.State → Type 0
  QuietReply r = Quiet r.1

  process-Quiet :
      (w : Clock) (kills : Bool) (c : Container A.State) → QuietReply (kill_process A w kills c)
  unfolding kill_process
  process-Quiet w kills c =
      if-cases QuietReply c.is_scaled_down (λ _. stop-Quiet w (set_exited 0 c))
        (λ _. if-cases QuietReply kills (λ _. stop-Quiet w c) (λ _. stop-Quiet w c))

  evacuated-Quiet :
      (w : Clock) (kills : Bool) (r : Result ShimError (Unit {0})) (c : Container A.State)
      → Quiet c
      → QuietReply (kill_evacuated A w kills (r, c))
  unfolding kill_evacuated
  evacuated-Quiet w kills (err e) c h = process-Quiet w kills c
  evacuated-Quiet w kills (ok u) c h =
      if-cases QuietReply c.evac_drain_started (λ _. h) (λ _. process-Quiet w kills c)

  -- However a kill ends, no scale down of the container is pending afterwards.
  pub kill-IsQuiet :
      (w : EvacCalls) (kills : Bool) (exec_id : Text) (c : Container A.State)
      → IsQuiet (kill A w kills exec_id c).1.scale_down_timer
  unfolding kill cancel_scale_down
  kill-IsQuiet w kills exec_id c =
      let cancelled = cancel_scale_down c in
      let quiet = stop_timer-IsQuiet c.scale_down_timer in
      if-cases QuietReply (is_empty exec_id)
        (λ _.
          if-cases QuietReply (any_migration_enabled cancelled.cfg)
            (λ _.
              let r = evac w cancelled.is_scaled_down cancelled in
              evacuated-Quiet w.clock kills r.0 r.1
                (evac-Quiet w cancelled.is_scaled_down cancelled quiet))
            (λ _. process-Quiet w.clock kills cancelled))
        (λ _. quiet)
