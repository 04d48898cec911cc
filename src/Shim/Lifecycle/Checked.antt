-- ===== src/Shim/Lifecycle/Checked.antt =====
-- The scale-down timer of a sound container leaves it sound (scaleDownCheck and reloadConfig).
use zeropod.Base.{ℕ, ◌≡◌, refl, sym, subst, Option, none, some, Result, ok, err, if-cases}
use zeropod.Base.Int.{ℤ, pos, ltb_ℤ, ◌-ℤ◌, wrap64}
use zeropod.Config.{ConfigError, Config, Spec, new_config}
use zeropod.Activator.Interface.{Activator, ActivatorError}
use zeropod.Shim.Types.{Container, Outcome, ShimError, armed, idle, nil_pointer}
use zeropod.Shim.Timers.{init_retry, last_activity}
use zeropod.Shim.ScaleDown.{Calls, scale_down}
use zeropod.Shim.Check.{
  Reload, scale_down_check, check_started, check_activity, delay_scale_down, log_reload,
  retry_scale_down, delay_until_started, reload_config, reload, read_config, use_config, since,
}
use zeropod.Shim.Lifecycle.Report.{report, IsSound, Sound}
use zeropod.Shim.Lifecycle.Down.{scale_down-IsSound}

module _ {S : Type 0} where
  -- A reload of the configuration and the timers change nothing of the report.
  report-read_config :
      (r : Reload) (n : Result ConfigError Config) (c : Container S)
      → report (read_config r n c).1 ≡ report c
  unfolding read_config use_config
  report-read_config r (err e) c = refl
  report-read_config r (ok cfg) c =
      if-cases {B = Outcome S (Unit {0})} (λ o. report o.1 ≡ report c) r.activator_reloads
        (λ _. refl) (λ _. refl)

  report-reload :
      (r : Reload) (o : Option ℕ) (spec : Option Spec) (c : Container S)
      → report (reload r o spec c).1 ≡ report c
  unfolding reload
  report-reload r none spec c = refl
  report-reload r (some pid) none c = refl
  report-reload r (some pid) (some spec) c = report-read_config r (new_config r.env spec) c

  report-reload_config : (r : Reload) (c : Container S) → report (reload_config r c).1 ≡ report c
  unfolding reload_config
  report-reload_config r c =
      if-cases {B = Outcome S (Unit {0})} (λ o. report o.1 ≡ report c) _ (λ _. refl)
        (λ _. report-reload r c.pid r.bundle_spec c)

module _ (A : Activator) where
  logged-IsSound :
      (r : Result ShimError (Unit {0})) (c : Container A.State)
      → Sound A c
      → Sound A (log_reload (r, c)).1
  unfolding log_reload
  logged-IsSound (err nil_pointer) c h = h
  logged-IsSound (err _) c h = h
  logged-IsSound (ok u) c h = h

  retry-IsSound :
      (r : Result ShimError (Unit {0})) (c : Container A.State)
      → Sound A c
      → Sound A (retry_scale_down (r, c)).1
  unfolding retry_scale_down
  retry-IsSound (ok u) c h = h
  retry-IsSound (err nil_pointer) c h = h
  retry-IsSound (err e) c h = record {
    phase_reported = h.phase_reported;
    events_fit = h.events_fit;
    redirects = h.redirects;
    expects_exit = h.expects_exit;
  }

  abbrev SoundAfter : Outcome A.State (Unit {0}) → Type 0
  SoundAfter r = Sound A r.1

  delay-IsSound :
      (r : Reload) (t last : ℤ) (c : Container A.State)
      → Sound A c
      → SoundAfter (delay_scale_down r t last c)
  unfolding delay_scale_down
  delay-IsSound r t last c h =
      let delay = wrap64 (c.cfg.scale_down_duration -ℤ since t last) in
      let again : Container A.State = record c { scale_down_timer = armed delay } in
      if-cases SoundAfter (ltb_ℤ delay (pos 0)) (λ _. h)
        (λ _.
          logged-IsSound (reload_config r again).0 (reload_config r again).1
            (subst (IsSound A) (sym (report-reload_config r again)) h))

  activity-IsSound :
      (w : Calls) (r : Reload) (t1 t2 : ℤ) (l : Result ActivatorError ℤ) (c : Container A.State)
      → Sound A c
      → SoundAfter (check_activity A w r t1 t2 l c)
  unfolding check_activity
  activity-IsSound w r t1 t2 (err x) c h =
      retry-IsSound (scale_down A w c).0 (scale_down A w c).1 (scale_down-IsSound A w c h)
  activity-IsSound w r t1 t2 (ok last) c h =
      if-cases SoundAfter (ltb_ℤ (since t1 last) c.cfg.scale_down_duration)
        (λ _. delay-IsSound r t2 last c h)
        (λ _. retry-IsSound (scale_down A w c).0 (scale_down A w c).1 (scale_down-IsSound A w c h))

  started-IsSound :
      (w : Calls) (r : Reload) (t1 t2 : ℤ) (o : Option A.State) (c : Container A.State)
      → Sound A c
      → Sound A (check_started A w r t1 t2 o c).1
  unfolding check_started delay_until_started init_retry
  started-IsSound w r t1 t2 none c h = h
  started-IsSound w r t1 t2 (some s) c h =
      if-cases SoundAfter (A.started s) (λ _. activity-IsSound w r t1 t2 (last_activity A c) c h)
        (λ _. h)

  pub check-IsSound :
      (w : Calls) (r : Reload) (t1 t2 : ℤ) (c : Container A.State)
      → Sound A c
      → Sound A (scale_down_check A w r t1 t2 c).1
  unfolding scale_down_check
  check-IsSound w r t1 t2 c h =
      started-IsSound w r t1 t2 c.activator (record c { scale_down_timer = idle }) h
