-- ===== src/Shim/Lifecycle/Up.antt =====
-- Restoring a sound container leaves it sound, and running if it returns a pid (Restore and what it
-- calls, and the restore hook).
use zeropod.Base.{
  ℕ, Text, ◌≡◌, refl, sym, subst, true, not, Option, none, some, Result, ok, err, All, All-map, ◌∙◌,
  if-cases, is_empty,
}
use zeropod.Activator.Interface.{Activator, ActivatorError}
use zeropod.Shim.Types.{Container, Outcome, ShimError, nil_pointer, running}
use zeropod.Shim.Phase.{set_phase_notify}
use zeropod.Shim.Restore.{
  Attempt, RestoreCalls, RestoreCapacityResponse, restored, disable_after_restore, start_restored,
  restore_process, restore_once, retry_restore, attempt_restore, forwarded, forward, deny_restore,
  answer_capacity, restore, restore_capacity_request, delete_image,
}
use zeropod.Shim.Lifecycle.Report.{
  report, Redirects, Sound, IsUp, up-IsSound, notify_running-IsUp, send_fail_event-IsSound,
}

module _ (A : Activator) where
  -- The container is sound, and runs if there is no error.
  pub record IsSoundOutcome (r : Outcome A.State ℕ) : Type 0 where
    pub sound : Sound A r.1
    pub runs : (pid : ℕ) → r.0 ≡ ok pid → IsUp (report r.1)

  failing : (e : ShimError) (c : Container A.State) → Sound A c → IsSoundOutcome (err e, c)
  failing e c h = record { sound = h; runs = λ pid x. absurd cc }

  restored-IsSound :
      (pid : ℕ) (r : Result ActivatorError (Unit {0})) (c : Container A.State)
      → IsUp (report c)
      → IsSoundOutcome (restored A pid r c)
  unfolding restored
  restored-IsSound pid (ok u) c h = record { sound = up-IsSound A (report c) h; runs = λ _ _. h }
  restored-IsSound pid (err e) c h = failing _ c (up-IsSound A (report c) h)

  disabling-IsSound :
      (pid : ℕ) (o : Option A.State) (c : Container A.State)
      → IsUp (report c)
      → IsSoundOutcome (disable_after_restore A pid o c)
  unfolding disable_after_restore
  disabling-IsSound pid none c h = failing nil_pointer c (up-IsSound A (report c) h)
  disabling-IsSound pid (some s) c h =
      restored-IsSound pid (A.disable_redirects s).0
        (record c { activator = some (A.disable_redirects s).1 })
        (record { is_up = h.is_up; reported = h.reported; fits = h.fits })

  start-IsSound :
      (w : Attempt) (pid : ℕ) (c : Container A.State)
      → Sound A c
      → IsSoundOutcome (start_restored A w pid c)
  unfolding start_restored
  start-IsSound w pid c h =
      disabling-IsSound pid c.activator (set_phase_notify w.clock running w.elapsed replaced)
        (notify_running-IsUp A w.clock w.elapsed replaced h.events_fit)
    where
      replaced : Container A.State
      replaced = record c { pid = some pid; process_exited = none }

  process-IsSound :
      (w : Attempt) (o : Option ℕ) (c : Container A.State)
      → Sound A c
      → IsSoundOutcome (restore_process A w o c)
  unfolding restore_process
  process-IsSound w none c h = failing _ c h
  process-IsSound w (some pid) c h =
      if-cases IsSoundOutcome (not w.has_process) (λ _. failing _ c h)
        (λ _.
          if-cases IsSoundOutcome w.starts (λ _. start-IsSound w pid c h)
            (λ _. failing _ _ (send_fail_event-IsSound A _ _ _ c h)))

  restore_once-IsSound :
      (w : Attempt) (c : Container A.State) → Sound A c → IsSoundOutcome (restore_once A w c)
  unfolding restore_once delete_image
  restore_once-IsSound w c h =
      let p = process-IsSound w w.created c h in record { sound = p.sound; runs = p.runs }

  retry-IsSound :
      (w : Attempt) (r : Result ShimError ℕ) (c : Container A.State)
      → IsSoundOutcome (r, c)
      → IsSoundOutcome (retry_restore A w r c)
  unfolding retry_restore
  retry-IsSound w (ok p) c h = h
  retry-IsSound w (err nil_pointer) c h = h
  retry-IsSound w (err e) c h =
      if-cases IsSoundOutcome c.cfg.disable_checkpointing (λ _. failing e c h.sound)
        (λ _. restore_once-IsSound w disabled h.sound)
    where
      disabled : Container A.State
      disabled = record c { cfg = record c.cfg { disable_checkpointing = true } }

  attempt-IsSound :
      (w : RestoreCalls) (c : Container A.State)
      → Sound A c
      → IsSoundOutcome (attempt_restore A w c)
  unfolding attempt_restore
  attempt-IsSound w c h = retry-IsSound w.second _ _ (restore_once-IsSound w.first c h)

  forwarding-Redirects :
      (addr : Text) (s : A.State) → Redirects A s → Redirects A (A.forward_to_target s addr).1
  forwarding-Redirects addr s on =
      subst (All _) (sym (A.ports-forward_to_target s addr))
        (All-map (λ p h. A.forward_to_target_redirects s addr p ∙ h) (A.ports s) on)

  forwarded-IsSound :
      (r : Result ActivatorError (Unit {0})) (c : Container A.State)
      → Sound A c
      → IsSoundOutcome (forwarded A r c)
  unfolding forwarded
  forwarded-IsSound (ok u) c h = failing _ c h
  forwarded-IsSound (err e) c h = failing _ c h

  forward-IsSound :
      (addr : Text) (o : Option A.State) (c : Container A.State)
      → c.activator ≡ o
      → Sound A c
      → IsSoundOutcome (forward A addr o c)
  unfolding forward
  forward-IsSound addr none c a h = failing _ c h
  forward-IsSound addr (some s) c a h =
      forwarded-IsSound (A.forward_to_target s addr).0
        (record c { activator = some (A.forward_to_target s addr).1 })
        (record {
          phase_reported = h.phase_reported;
          events_fit = h.events_fit;
          redirects = λ d s' e.
              subst (Redirects A) (cc e) (forwarding-Redirects addr s (h.redirects d s a));
          expects_exit = h.expects_exit;
        })

  answer-IsSound :
      (w : RestoreCalls) (r : Result ShimError RestoreCapacityResponse) (c : Container A.State)
      → Sound A c
      → IsSoundOutcome (answer_capacity A w r c)
  unfolding answer_capacity deny_restore
  answer-IsSound w (err e) c h = attempt-IsSound w c h
  answer-IsSound w (ok r) c h =
      if-cases IsSoundOutcome r.allowed (λ _. attempt-IsSound w c h)
        (λ _.
          if-cases IsSoundOutcome (is_empty r.redirect_addr) (λ _. failing _ c h)
            (λ _. forward-IsSound r.redirect_addr c.activator c refl h))

  pub restore-IsSound :
      (w : RestoreCalls) (c : Container A.State) → Sound A c → IsSoundOutcome (restore A w c)
  unfolding restore
  restore-IsSound w c h =
      if-cases IsSoundOutcome c.is_scaled_down
        (λ _. answer-IsSound w (restore_capacity_request w c) c h) (λ _. failing _ c h)
