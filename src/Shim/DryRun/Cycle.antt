-- ===== src/Shim/DryRun/Cycle.antt =====
-- A simulated scale down and the simulated restore that ends it (shim/dryrun.go).
use zeropod.Base.{◌+◌, ◌≡◌, refl, sym, ◌∙◌, subst, true, false, ok, if-cases, if_false}
use zeropod.Base.Int.{ℤ, pos, ltb_ℤ, eqb_ℤ}
use zeropod.Activator.Interface.{Activator}
use zeropod.Shim.Types.{Container, armed}
use zeropod.Shim.Phase.{Clock, send_dry_run_event}
use zeropod.Shim.Timers.{
  last_activity, schedule_scale_down, schedule_scale_down_in, cancel_scale_down,
}
use zeropod.Shim.DryRun.{
  dry_run_scale_down, dry_run_restore, dry_run_check, dry_run_restore_check,
  schedule_dry_run_restore_check, cancel_dry_run_poll,
}

-- The process of `c` was left alone, and `d` counts one simulated scale down and one simulated
-- restore more; a scale down is scheduled again.
pub record IsCycled {S : Type 0} (c d : Container S) : Type 0 where
  pub same_phase : d.is_scaled_down ≡ c.is_scaled_down
  pub same_pid : d.pid ≡ c.pid
  pub same_activator : d.activator ≡ c.activator
  pub same_image : d.image ≡ c.image
  pub left : d.dry_run_scaled_down ≡ false
  pub scale_downs : d.metrics.dry_run_scale_downs ≡ c.metrics.dry_run_scale_downs + 1
  pub restores : d.metrics.dry_run_restores ≡ c.metrics.dry_run_restores + 1
  pub scheduled : d.scale_down_timer ≡ armed c.cfg.scale_down_duration

module _ (A : Activator) (w v : Clock) where
  restored-IsCycled :
      (last : ℤ) (c : Container A.State)
      → c.dry_run_scaled_down ≡ false
      → eqb_ℤ c.cfg.scale_down_duration (pos 0) ≡ false
      → ltb_ℤ w.now last ≡ true
      → IsCycled c (dry_run_check v (ok last) (dry_run_scale_down w c))
  unfolding dry_run_check dry_run_scale_down dry_run_restore schedule_dry_run_restore_check
      cancel_dry_run_poll send_dry_run_event schedule_scale_down schedule_scale_down_in
      cancel_scale_down
  restored-IsCycled last c n z l =
      if-cases (λ d. IsCycled c (dry_run_check v (ok last) d)) c.dry_run_scaled_down
        (λ e. absurd (cc (n, e)))
        (λ _.
          if-cases (IsCycled c) (ltb_ℤ w.now last)
            (λ _. record {
              same_phase = refl;
              same_pid = refl;
              same_activator = refl;
              same_image = refl;
              left = refl;
              scale_downs = refl;
              restores = refl;
              scheduled = if_false _ z;
            })
            (λ e. absurd (cc (l, e))))

  same_activity :
      (c : Container A.State) → last_activity A (dry_run_scale_down w c) ≡ last_activity A c
  unfolding dry_run_scale_down schedule_dry_run_restore_check send_dry_run_event last_activity
  same_activity c =
      if-cases {B = Container A.State} (λ d. last_activity A d ≡ last_activity A c)
        c.dry_run_scaled_down (λ _. refl) (λ _. refl)

  -- A simulated scale down of a container with a duration, and a poll that then finds activity after
  -- it, leave the process, the phase, the activator and the image alone, count one scale down and one
  -- restore, and schedule a scale down again.
  pub dry_run-IsCycled :
      (last : ℤ) (c : Container A.State)
      → c.dry_run_scaled_down ≡ false
      → eqb_ℤ c.cfg.scale_down_duration (pos 0) ≡ false
      → last_activity A c ≡ ok last
      → ltb_ℤ w.now last ≡ true
      → IsCycled c (dry_run_restore_check A v (dry_run_scale_down w c))
  unfolding dry_run_restore_check
  dry_run-IsCycled last c n z q l =
      subst (λ r. IsCycled c (dry_run_check v r (dry_run_scale_down w c)))
        (sym (same_activity c ∙ q)) (restored-IsCycled last c n z l)
