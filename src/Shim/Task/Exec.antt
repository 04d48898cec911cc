-- ===== src/Shim/Task/Exec.antt =====
-- What Exec and Kill do with a container that is scaled down (shim/task/service_zeropod.go).
use zeropod.Base.{
  ℕ, Text, codes, ◌≡◌, refl, sym, ◌∙◌, ap, subst, ◌⊎◌, inl, inr, Bool, true, false, not, ◌||◌,
  Option, none, some, Result, ok, err, [], if-cases, if_false,
}
use zeropod.Base.Int.{pos}
use zeropod.Config.{second, any_migration_enabled}
use zeropod.Activator.Interface.{Activator}
use zeropod.Shim.Types.{Container, ShimError, failed, no_capacity, nil_pointer, armed}
use zeropod.Shim.Phase.{Clock, send_event, send_dry_run_event}
use zeropod.Shim.Timers.{cancel_scale_down, cancel_init}
use zeropod.Shim.DryRun.{dry_run_exec, dry_run_restore, cancel_dry_run_poll}
use zeropod.Shim.Restore.{RestoreCalls, restore, set_exited, delete_image}
use zeropod.Shim.Init.{stop, stop_activator, cleanup_image}
use zeropod.Shim.Evac.{EvacCalls, evac, evac_once, evac_scaled_down, start_connection_drain}
use zeropod.Shim.Task.{Reply, delegated, exec, exec_restored, kill, kill_process, kill_evacuated}
use zeropod.Shim.Lifecycle.Report.{Sound}
use zeropod.Shim.Lifecycle.Up.{IsSoundOutcome, restore-IsSound}

-- An exec that is passed on finds the container running, or set to exited.
abbrev pub Executes : {S : Type 0} → Reply × Container S → Type 0
Executes r = r.0 ≡ delegated → (r.1.is_scaled_down ≡ false) ⊎ (r.1.process_exited ≡ some 1)

module _ (A : Activator) (w : Clock) where
  dry_restore-Executes :
      (reason : Text) (c : Container A.State)
      → (c.is_scaled_down ≡ false) ⊎ (c.process_exited ≡ some 1)
      → Executes (delegated, dry_run_restore w reason false c)
  unfolding dry_run_restore send_dry_run_event cancel_dry_run_poll
  dry_restore-Executes reason c h _ = h

  dry_exec-Executes :
      (c : Container A.State)
      → (c.is_scaled_down ≡ false) ⊎ (c.process_exited ≡ some 1)
      → Executes (delegated, dry_run_exec w c)
  unfolding dry_run_exec
  dry_exec-Executes c h _ =
      if-cases {B = Container A.State}
        (λ d. (d.is_scaled_down ≡ false) ⊎ (d.process_exited ≡ some 1))
        (not c.cfg.dry_run || not c.dry_run_scaled_down) (λ _. h)
        (λ _. dry_restore-Executes (codes "got exec") c h refl)

  restored-Executes :
      (r : Result ShimError ℕ) (c : Container A.State)
      → IsSoundOutcome A (r, c)
      → Executes (exec_restored A w (r, c))
  unfolding exec_restored set_exited
  restored-Executes (ok pid) c h e = dry_exec-Executes c (inl (h.runs pid refl).is_up) e
  restored-Executes (err no_capacity) c h e = absurd cc
  restored-Executes (err nil_pointer) c h e = absurd cc
  restored-Executes (err x) c h e = dry_exec-Executes (set_exited 1 c) (inr refl) e

  -- An exec in a sound container that reaches containerd finds the container running, or its
  -- process set to exited with code 1.
  pub exec-Executes :
      (calls : RestoreCalls) (c : Container A.State)
      → Sound A c
      → (exec A w calls c).0 ≡ delegated
      → ((exec A w calls c).1.is_scaled_down ≡ false)
        ⊎ ((exec A w calls c).1.process_exited ≡ some 1)
  unfolding exec cancel_scale_down
  exec-Executes calls c h =
      let cancelled = cancel_scale_down c in
      if-cases Executes c.is_scaled_down
        (λ _.
          restored-Executes (restore A calls cancelled).0 (restore A calls cancelled).1
            (restore-IsSound A calls cancelled h))
        (λ d. dry_exec-Executes cancelled (inl d))

-- Exited, with the drain of its connections still to come.
pub record IsStillDraining {S : Type 0} (c : Container S) : Type 0 where
  pub exited : c.process_exited ≡ some 0
  pub initial_exited : c.initial_exited ≡ some 0
  pub drains : c.drain_timer ≡ armed (pos second)

module _ (A : Activator) where
  cleaned-IsStillDraining :
      (c : Container A.State) → IsStillDraining c → IsStillDraining (cleanup_image c)
  unfolding cleanup_image delete_image
  cleaned-IsStillDraining c h =
      if-cases {B = Container A.State} IsStillDraining (any_migration_enabled c.cfg) (λ _. h)
        (λ _. record { exited = h.exited; initial_exited = h.initial_exited; drains = h.drains })

  activator-IsStillDraining :
      (o : Option A.State) (c : Container A.State)
      → IsStillDraining c
      → IsStillDraining (stop_activator A o c)
  unfolding stop_activator
  activator-IsStillDraining none c h = h
  activator-IsStillDraining (some s) c h = record {
    exited = h.exited;
    initial_exited = h.initial_exited;
    drains = h.drains;
  }

  stopped-IsStillDraining :
      (w : Clock) (c : Container A.State) → IsStillDraining c → IsStillDraining (stop A w c)
  unfolding stop send_event cancel_dry_run_poll cancel_scale_down cancel_init
  stopped-IsStillDraining w c h = cleaned-IsStillDraining _ (
      activator-IsStillDraining c.activator _
        (record { exited = h.exited; initial_exited = h.initial_exited; drains = h.drains }))

  abbrev Drained : Reply × Container A.State → Type 0
  Drained r = (r.0 ≡ delegated) × IsStillDraining r.1

  -- What a failed evacuation of a scaled-down container leaves.
  drained : EvacCalls → Container A.State → Container A.State
  drained w c = record (start_connection_drain w.clock (record c { evacuated = true })) {
    evac_drain_started = true;
  }

  evac_fails :
      (w : EvacCalls) (c : Container A.State)
      → c.is_scaled_down ≡ true
      → c.evacuated ≡ false
      → evac_scaled_down w ≡ err failed
      → evac w c.is_scaled_down c ≡ (err failed, drained w c)
  unfolding evac evac_once drained
  evac_fails w c d n f =
      if_false _ n
      ∙ ap (λ b. evac_once w b (record c { evacuated = true })) d
      ∙ ap (λ r. (r, drained w c)) f

  process-Drained :
      (w : EvacCalls) (kills : Bool) (c : Container A.State)
      → c.is_scaled_down ≡ true
      → Drained (kill_process A w.clock kills (drained w c))
  unfolding kill_process drained set_exited start_connection_drain
  process-Drained w kills c d =
      if-cases Drained c.is_scaled_down
        (λ _. (
          refl,
          stopped-IsStillDraining w.clock (set_exited 0 (drained w c))
              (record { exited = refl; initial_exited = refl; drains = refl }),
        ))
        (λ e. absurd (cc (d, e)))

  -- A kill of a container that is scaled down and has migration enabled, whose first evacuation
  -- fails, is passed on with the processes set to exited with code 0, and leaves the timer of the
  -- connection drain pending.
  pub kill-failed_evac_drains :
      (w : EvacCalls) (kills : Bool) (c : Container A.State)
      → c.is_scaled_down ≡ true
      → any_migration_enabled c.cfg ≡ true
      → c.evacuated ≡ false
      → evac_scaled_down w ≡ err failed
      → ((kill A w kills [] c).0 ≡ delegated) × IsStillDraining (kill A w kills [] c).1
  unfolding kill cancel_scale_down kill_evacuated
  kill-failed_evac_drains w kills c d m n f =
      let cancelled = cancel_scale_down c in
      if-cases Drained (any_migration_enabled c.cfg)
        (λ _.
          subst (λ o. Drained (kill_evacuated A w.clock kills o))
            (sym (evac_fails w cancelled d n f)) (process-Drained w kills cancelled d))
        (λ e. absurd (cc (m, e)))
