-- ===== src/Shim/Lifecycle/Always.antt =====
-- Every step of a container's life leaves it sound, and so does any sequence of them.
use zeropod.Base.{
  ℕ, ◌++◌, Text, codes, ◌≡◌, ◌≤◌, length, refl, sym, subst, Bool, true, false, not, ◌||◌, none,
  some, Result, ok, err, if◌then◌else◌, if-cases, ◌==◌, arith,
}
use zeropod.Base.Int.{ℤ, ltb_ℤ, ◌-ℤ◌}
use zeropod.Activator.Interface.{Activator, ActivatorError}
use zeropod.Shim.Types.{Container, ShimError, already_restored, no_capacity, nil_pointer}
use zeropod.Shim.Phase.{Clock, get_metrics, delete_checkpointed_pid}
use zeropod.Shim.Timers.{
  last_activity, schedule_scale_down, schedule_scale_down_in, cancel_scale_down,
}
use zeropod.Shim.DryRun.{
  dry_run_restore, dry_run_check, dry_run_restore_check, dry_run_exec, cancel_dry_run_poll,
  schedule_dry_run_restore_check,
}
use zeropod.Shim.ScaleDown.{Calls}
use zeropod.Shim.Restore.{RestoreCalls, restore_handler, handle_restored, return_pid, set_exited}
use zeropod.Shim.Task.{Reply, ContainerProcess, exec, exec_restored, delete_exec, prevent_exit_of}
use zeropod.Shim.Lifecycle.{
  Step, checked, connected, executed, exec_deleted, polled, process_exited, metrics_read, Steps,
  done, step,
}
use zeropod.Shim.Lifecycle.Report.{
  report, IsSound, Sound, up-IsSound, sound-IsUp, send_dry_run_event-IsSound,
}
use zeropod.Shim.Lifecycle.Up.{IsSoundOutcome, restore-IsSound}
use zeropod.Shim.Init.{InitCalls, register}
use zeropod.Shim.Lifecycle.Registered.{register-IsUp}
use zeropod.Shim.Lifecycle.Checked.{check-IsSound}

module _ {S : Type 0} where
  report-schedule : (c : Container S) → report (schedule_scale_down c) ≡ report c
  unfolding schedule_scale_down schedule_scale_down_in cancel_scale_down
  report-schedule c = refl

  return_pid_same : (c : Container S) → (return_pid c).1 ≡ c
  unfolding return_pid
  return_pid_same c = ground arith

module _ (A : Activator) where
  scheduled-IsSound :
      (c : Container A.State) → Sound A c → Sound A (return_pid (schedule_scale_down c)).1
  scheduled-IsSound c h =
      subst (Sound A) (sym (return_pid_same (schedule_scale_down c)))
        (subst (IsSound A) (sym (report-schedule c)) h)

  handled-IsSound :
      (r : Result ShimError ℕ) (c : Container A.State)
      → IsSoundOutcome A (r, c)
      → Sound A (handle_restored r c).1
  unfolding handle_restored set_exited
  handled-IsSound (ok pid) c h =
      let u = h.runs pid refl in
      scheduled-IsSound (record c { pid = some pid })
        (up-IsSound A _ (record { is_up = u.is_up; reported = u.reported; fits = u.fits }))
  handled-IsSound (err already_restored) c h = subst (Sound A) (sym (return_pid_same c)) h.sound
  handled-IsSound (err no_capacity) c h = h.sound
  handled-IsSound (err nil_pointer) c h = h.sound
  handled-IsSound (err e) c h =
      scheduled-IsSound (record (set_exited 1 c) { pid = none })
        (record {
          phase_reported = h.sound.phase_reported;
          events_fit = h.sound.events_fit;
          redirects = h.sound.redirects;
          expects_exit = λ d pid x. absurd cc;
        })

  handler-IsSound :
      (w : RestoreCalls) (c : Container A.State) → Sound A c → Sound A (restore_handler A w c).1
  unfolding restore_handler
  handler-IsSound w c h = handled-IsSound _ _ (restore-IsSound A w c h)

  rescheduled-IsSound :
      (b : Bool) (c : Container A.State)
      → Sound A c
      → Sound A (if b then schedule_scale_down c else c)
  rescheduled-IsSound true c h = subst (IsSound A) (sym (report-schedule c)) h
  rescheduled-IsSound false c h = h

  dry_restore-IsSound :
      (w : Clock) (reason : Text) (b : Bool) (c : Container A.State)
      → Sound A c
      → Sound A (dry_run_restore w reason b c)
  unfolding dry_run_restore cancel_dry_run_poll
  dry_restore-IsSound w reason b c h =
      rescheduled-IsSound b _
        (send_dry_run_event-IsSound A w (codes "would have restored (" ++ reason ++ codes ")") _ h)

  polled-IsSound :
      (w : Clock) (l : Result ActivatorError ℤ) (c : Container A.State)
      → Sound A c
      → Sound A (dry_run_check w l c)
  unfolding dry_run_check schedule_dry_run_restore_check
  polled-IsSound w (err e) c h = h
  polled-IsSound w (ok last) c h =
      let reason = codes "last activity " ++ w.duration_text (w.now -ℤ last) ++ codes " ago" in
      if-cases (Sound A) (ltb_ℤ c.dry_run_since last) (λ _. dry_restore-IsSound w reason true c h)
        (λ _. h)

  dry_exec-IsSound : (w : Clock) (c : Container A.State) → Sound A c → Sound A (dry_run_exec w c)
  unfolding dry_run_exec
  dry_exec-IsSound w c h =
      if-cases (Sound A) (not c.cfg.dry_run || not c.dry_run_scaled_down) (λ _. h)
        (λ _. dry_restore-IsSound w (codes "got exec") false c h)

  executed-IsSound :
      (w : Clock) (r : Result ShimError ℕ) (c : Container A.State)
      → Sound A c
      → Sound A (exec_restored A w (r, c)).1
  unfolding exec_restored set_exited
  executed-IsSound w (ok pid) c h = dry_exec-IsSound w c h
  executed-IsSound w (err no_capacity) c h = h
  executed-IsSound w (err nil_pointer) c h = h
  executed-IsSound w (err e) c h = dry_exec-IsSound w (set_exited 1 c) h

  exec-IsSound :
      (w : Clock) (calls : RestoreCalls) (c : Container A.State)
      → Sound A c
      → Sound A (exec A w calls c).1
  unfolding exec cancel_scale_down
  exec-IsSound w calls c h =
      if-cases {B = Reply × Container A.State} (λ o. Sound A o.1) c.is_scaled_down
        (λ _. executed-IsSound w _ _ (restore-IsSound A calls (cancel_scale_down c) h).sound)
        (λ _. dry_exec-IsSound w (cancel_scale_down c) h)

  exit-IsSound :
      (cp : ContainerProcess) (c : Container A.State) → Sound A c → Sound A (prevent_exit_of cp c).1
  unfolding prevent_exit_of delete_checkpointed_pid
  exit-IsSound cp c h =
      if-cases Good c.is_scaled_down (λ _. h)
        (λ d.
          if-cases Good _
            (λ _.
              let u = sound-IsUp A (report c) h d in
              up-IsSound A _ (record { is_up = u.is_up; reported = u.reported; fits = u.fits }))
            (λ _. h))
    where
      Good : Bool × Container A.State → Type 0
      Good o = Sound A o.1

  Step-IsSound : {c d : Container A.State} → Step A c d → Sound A c → Sound A d
  unfolding delete_exec get_metrics dry_run_restore_check
  Step-IsSound (checked w r t1 t2 c) h = check-IsSound A w r t1 t2 c h
  Step-IsSound (connected w c) h = handler-IsSound w c h
  Step-IsSound (executed w calls c) h = exec-IsSound w calls c h
  Step-IsSound (exec_deleted n c) h = rescheduled-IsSound (n == 0) c h
  Step-IsSound (polled w c) h = polled-IsSound w (last_activity A c) c h
  Step-IsSound (process_exited cp c) h = exit-IsSound cp c h
  Step-IsSound (metrics_read c) h = h

  Steps-IsSound : (c d : Container A.State) → Sound A c → Steps A c d → Sound A d
  Steps-IsSound c d h (done _) = h
  Steps-IsSound c d h (step ss s) = Step-IsSound s (Steps-IsSound c _ h ss)

  pub life-IsSound :
      (w : InitCalls A.State) (calls : Calls) (pid : ℕ) (c d : Container A.State)
      → c.skip_start ≡ false
      → length c.events ≤ c.event_capacity
      → Steps A (register A w calls pid true c).1 d
      → Sound A d
  life-IsSound w calls pid c d k f ss =
      Steps-IsSound _ d (up-IsSound A _ (register-IsUp A w calls pid c k f)) ss
