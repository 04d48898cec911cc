-- ===== src/Shim/Lifecycle/Registered.antt =====
-- A container is up once it is registered, if its start is not skipped (Register and initActivator).
use zeropod.Base.{
  ℕ, ◌≤◌, ◌≡◌, refl, sym, subst, true, false, Option, none, some, Result, ok, err, List, [], ◌∷◌,
  length, if-cases, if_false, ◌∙◌,
}
use zeropod.Base.Int.{pos}
use zeropod.Activator.Interface.{Activator, ActivatorError, map_not_found, no_listening_sockets}
use zeropod.Shim.Types.{Container, Outcome, ShimError, nil_pointer, running}
use zeropod.Shim.Phase.{Clock, set_phase_notify}
use zeropod.Shim.Timers.{cancel_init, init_retry, retry_init_in}
use zeropod.Shim.ScaleDown.{Calls}
use zeropod.Shim.Init.{
  InitCalls, register, init_activator, start_on_ports, start_detected, with_activator,
  start_activator, start_attached, started_with, schedule_init_retry, disable_on_error,
  scale_down_skipped,
}
use zeropod.Shim.Lifecycle.Report.{report, IsUp, notify_running-IsUp}

module _ (A : Activator) where
  -- The container runs, and its start was not skipped.
  record IsStarted (c : Container A.State) : Type 0 where
    up : IsUp (report c)
    not_skipped : c.skip_start ≡ false

  abbrev Starts : Outcome A.State (Unit {0}) → Type 0
  Starts r = IsStarted r.1

  moved :
      (o : Option A.State) (c : Container A.State)
      → IsStarted c
      → IsStarted (record c { activator = o })
  moved o c h = record {
    up = record { is_up = h.up.is_up; reported = h.up.reported; fits = h.up.fits };
    not_skipped = h.not_skipped;
  }

  retry-Starts : (c : Container A.State) → IsStarted c → Starts (schedule_init_retry c)
  unfolding schedule_init_retry init_retry retry_init_in
  retry-Starts c h = record { up = h.up; not_skipped = h.not_skipped }

  started-Starts :
      (r : Result ActivatorError (Unit {0})) (c : Container A.State)
      → IsStarted c
      → Starts (started_with A r c)
  unfolding started_with
  started-Starts (ok u) c h = h
  started-Starts (err map_not_found) c h = retry-Starts c h
  started-Starts (err no_listening_sockets) c h = retry-Starts c h
  started-Starts (err e) c h = h

  attached-Starts :
      (w : InitCalls A.State) (r : Result ActivatorError (Unit {0})) (s : A.State) (pid : Option ℕ)
      (c : Container A.State)
      → IsStarted c
      → Starts (start_attached A w r s pid c)
  unfolding start_attached
  attached-Starts w (err e) s pid c h = started-Starts (err e) _ (moved (some s) c h)
  attached-Starts w (ok u) s none c h = moved (some s) c h
  attached-Starts w (ok u) s (some pid) c h = started-Starts _ _ (moved _ c h)

  activator-Starts :
      (w : InitCalls A.State) (o : Option A.State) (c : Container A.State)
      → IsStarted c
      → Starts (start_activator A w o c)
  unfolding start_activator
  activator-Starts w none c h = h
  activator-Starts w (some s) c h =
      if-cases Starts (A.started s) (λ _. h) (λ _. attached-Starts w _ _ c.pid c h)

  detected-Starts :
      (w : InitCalls A.State) (o : Option (List ℕ)) (c : Container A.State)
      → IsStarted c
      → Starts (start_detected A w o c)
  unfolding start_detected
  detected-Starts w none c h = retry-Starts c h
  detected-Starts w (some []) c h = retry-Starts c h
  detected-Starts w (some (p ∷ ps)) c h =
      activator-Starts w c.activator _ (record { up = h.up; not_skipped = h.not_skipped })

  ports-Starts :
      (w : InitCalls A.State) (ps : List ℕ) (c : Container A.State)
      → IsStarted c
      → Starts (start_on_ports A w ps c)
  unfolding start_on_ports
  ports-Starts w (p ∷ ps) c h = activator-Starts w c.activator c h
  ports-Starts w [] c h = detected-Starts w w.detected c h

  with-IsStarted :
      (w : InitCalls A.State) (o : Option A.State) (c : Container A.State)
      → IsStarted c
      → IsStarted (with_activator A w o c)
  unfolding with_activator
  with-IsStarted w (some s) c h = h
  with-IsStarted w none c h =
      if-cases IsStarted c.cfg.file.reuseport_activator (λ _. h) (λ _. moved _ c h)

  init-Starts :
      (w : InitCalls A.State) (c : Container A.State) → IsStarted c → Starts (init_activator A w c)
  unfolding init_activator cancel_init
  init-Starts w c h = ports-Starts w _ _ (
      with-IsStarted w c.activator (cancel_init c)
        (record { up = h.up; not_skipped = h.not_skipped }))

  disabled-Starts :
      (r : Result ShimError (Unit {0})) (c : Container A.State)
      → IsStarted c
      → Starts (disable_on_error A (r, c))
  unfolding disable_on_error
  disabled-Starts (ok u) c h = h
  disabled-Starts (err nil_pointer) c h = h
  disabled-Starts (err e) c h = record { up = h.up; not_skipped = h.not_skipped }

  -- Without a skipped start nothing is scaled down.
  not_scaled_down :
      (calls : Calls) (r : Result ShimError (Unit {0})) (c : Container A.State)
      → IsStarted c
      → Starts (scale_down_skipped A calls (r, c))
  unfolding scale_down_skipped
  not_scaled_down calls (err e) c h = h
  not_scaled_down calls (ok u) c h =
      if-cases Starts c.skip_start (λ e. absurd (cc h.not_skipped)) (λ _. h)

  registered-Starts :
      (w : InitCalls A.State) (calls : Calls) (c : Container A.State)
      → IsStarted c
      → Starts (scale_down_skipped A calls (disable_on_error A (init_activator A w c)))
  registered-Starts w calls c h =
      not_scaled_down calls _ _ (disabled-Starts _ _ (init-Starts w c h))

  skip_kept :
      (v : Clock) (c : Container A.State)
      → (set_phase_notify v running (pos 0) c).skip_start ≡ c.skip_start
  unfolding set_phase_notify
  skip_kept v c = refl

  running-IsStarted :
      (v : Clock) (c : Container A.State)
      → c.skip_start ≡ false
      → length c.events ≤ c.event_capacity
      → IsStarted (set_phase_notify v running (pos 0) c)
  running-IsStarted v c k f = record {
    up = notify_running-IsUp A v (pos 0) c f;
    not_skipped = skip_kept v c ∙ k;
  }

  pub register-IsUp :
      (w : InitCalls A.State) (calls : Calls) (pid : ℕ) (c : Container A.State)
      → c.skip_start ≡ false
      → length c.events ≤ c.event_capacity
      → IsUp (report (register A w calls pid true c).1)
  unfolding register
  register-IsUp w calls pid c k f =
      (registered-Starts w calls _ (
        subst (λ p. IsStarted (set_phase_notify calls.clock p (pos 0) known)) (sym (if_false _ k))
          (running-IsStarted calls.clock known k f))).up
    where
      known : Container A.State
      known = record c { pid = some pid; process_exited = none; initial_exited = none }
