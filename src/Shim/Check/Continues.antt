-- ===== src/Shim/Check/Continues.antt =====
-- What a scale-down check leaves to happen next (scaleDownCheck of shim/container.go).
use zeropod.Base.{
  ℕ, ◌≡◌, refl, sym, subst, true, false, Option, none, some, Result, ok, err, if-cases, inl, inr,
  ◌⊎◌,
}
use zeropod.Base.Int.{ℤ, pos, ltb_ℤ, ◌-ℤ◌, wrap64}
use zeropod.Config.{Config, ConfigError, Spec, new_config}
use zeropod.Activator.Interface.{Activator, ActivatorError}
use zeropod.Shim.Types.{Container, Outcome, ShimError, nil_pointer, Timer, idle, armed}
use zeropod.Shim.Timers.{init_retry, last_activity}
use zeropod.Shim.DryRun.{dry_run_scale_down, schedule_dry_run_restore_check}
use zeropod.Shim.Phase.{Clock, send_dry_run_event}
use zeropod.Shim.ScaleDown.{Calls, scale_down}
use zeropod.Shim.ScaleDown.Redirects.{scale_down-IsDown, scale_down_running}
use zeropod.Shim.Check.{
  Reload, scale_down_check, check_started, check_activity, delay_scale_down, retry_scale_down,
  log_reload, delay_until_started, reload_config, reload, read_config, use_config, since,
}

-- The container `d` after a check of `c`: scaled down; simulated to be; waiting for the next check;
-- or neither, where the activity was recent at the first reading of the clock and at the second the
-- duration had passed since.
pub data Continues (A : Activator) (t1 t2 : ℤ) (c d : Container A.State) : Type 0 where
  went_down : d.is_scaled_down ≡ true → Continues A t1 t2 c d
  simulated : d.dry_run_scaled_down ≡ true → Continues A t1 t2 c d
  waits : (delay : ℤ) → d.scale_down_timer ≡ armed delay → Continues A t1 t2 c d
  stops :
      (last : ℤ)
      → last_activity A c ≡ ok last
      → ltb_ℤ (since t1 last) c.cfg.scale_down_duration ≡ true
      → ltb_ℤ (wrap64 (c.cfg.scale_down_duration -ℤ since t2 last)) (pos 0) ≡ true
      → Continues A t1 t2 c d

module _ {S : Type 0} (t : Timer) where
  abbrev KeepsTimer : Outcome S (Unit {0}) → Type 0
  KeepsTimer r = r.1.scale_down_timer ≡ t

  -- A reload does not touch the timer.
  read-KeepsTimer :
      (r : Reload) (n : Result ConfigError Config) (c : Container S)
      → c.scale_down_timer ≡ t
      → KeepsTimer (read_config r n c)
  unfolding read_config use_config
  read-KeepsTimer r (err e) c h = h
  read-KeepsTimer r (ok cfg) c h = if-cases KeepsTimer r.activator_reloads (λ _. h) (λ _. h)

  reload-KeepsTimer :
      (r : Reload) (o : Option ℕ) (spec : Option Spec) (c : Container S)
      → c.scale_down_timer ≡ t
      → KeepsTimer (reload r o spec c)
  unfolding reload
  reload-KeepsTimer r none spec c h = h
  reload-KeepsTimer r (some pid) none c h = h
  reload-KeepsTimer r (some pid) (some spec) c h = read-KeepsTimer r (new_config r.env spec) c h

  logged-KeepsTimer :
      (r : Result ShimError (Unit {0})) (c : Container S)
      → c.scale_down_timer ≡ t
      → KeepsTimer (log_reload (r, c))
  unfolding log_reload
  logged-KeepsTimer (ok u) c h = h
  logged-KeepsTimer (err nil_pointer) c h = h
  logged-KeepsTimer (err _) c h = h

  unlogged-KeepsTimer :
      (r : Reload) (c : Container S) → c.scale_down_timer ≡ t → KeepsTimer (reload_config r c)
  unfolding reload_config
  unlogged-KeepsTimer r c h =
      if-cases KeepsTimer _ (λ _. h) (λ _. reload-KeepsTimer r c.pid r.bundle_spec c h)

  reload_config-KeepsTimer :
      (r : Reload) (c : Container S)
      → c.scale_down_timer ≡ t
      → KeepsTimer (log_reload (reload_config r c))
  reload_config-KeepsTimer r c h =
      logged-KeepsTimer (reload_config r c).0 (reload_config r c).1 (unlogged-KeepsTimer r c h)

dry-Simulated :
    {S : Type 0} (w : Clock) (c : Container S) → (dry_run_scale_down w c).dry_run_scaled_down ≡ true
unfolding dry_run_scale_down schedule_dry_run_restore_check send_dry_run_event
dry-Simulated {S = S} w c =
    if-cases {B = Container S} (λ d. d.dry_run_scaled_down ≡ true) c.dry_run_scaled_down (λ e. e)
      (λ _. refl)

-- The container is down, or simulated to be.
abbrev IsDone : {S : Type 0} → Outcome S (Unit {0}) → Type 0
IsDone r = r.0 ≡ ok tt → (r.1.is_scaled_down ≡ true) ⊎ (r.1.dry_run_scaled_down ≡ true)

module _ (A : Activator) (w : Calls) (s : A.State) where
  run-IsDone :
      (c : Container A.State)
      → c.activator ≡ some s
      → c.cfg.dry_run ≡ false
      → c.is_scaled_down ≡ false
      → IsDone (scale_down A w c)
  run-IsDone c a d n h = let (i, _) = scale_down-IsDown A w s c a d n h in inl i.is_down

  scale_down-IsDone : (c : Container A.State) → c.activator ≡ some s → IsDone (scale_down A w c)
  unfolding scale_down
  scale_down-IsDone c a =
      if-cases IsDone c.cfg.dry_run (λ _ _. inr (dry-Simulated w.clock c))
        (λ d.
          if-cases IsDone c.is_scaled_down (λ e _. inl e)
            (λ n. subst IsDone (scale_down_running A w s c d n) (run-IsDone c a d n)))

-- The timer is no longer pending when its callback runs.
abbrev fire : {S : Type 0} → Container S → Container S
fire c = record c { scale_down_timer = idle }

module _ (A : Activator) (w : Calls) (r : Reload) (t1 t2 : ℤ) (s : A.State) where
  retry-Continues :
      (c : Container A.State) (o : Result ShimError (Unit {0})) (d : Container A.State)
      → IsDone (o, d)
      → (retry_scale_down (o, d)).0 ≡ ok tt
      → Continues A t1 t2 c (retry_scale_down (o, d)).1
  unfolding retry_scale_down
  retry-Continues c (ok u) d h e = elim (h refl) [ inl i ↦ went_down i | inr i ↦ simulated i ]
  retry-Continues c (err nil_pointer) d h e = absurd cc
  retry-Continues c (err x) d h e = waits d.cfg.scale_down_duration refl

  fired_activity : (c : Container A.State) → last_activity A c ≡ last_activity A (fire c)
  unfolding last_activity
  fired_activity c = refl

  activity-Continues :
      (l : Result ActivatorError ℤ) (c : Container A.State)
      → c.activator ≡ some s
      → last_activity A c ≡ l
      → (check_activity A w r t1 t2 l (fire c)).0 ≡ ok tt
      → Continues A t1 t2 c (check_activity A w r t1 t2 l (fire c)).1
  unfolding check_activity delay_scale_down
  activity-Continues (err x) c a q =
      retry-Continues c (scale_down A w (fire c)).0 (scale_down A w (fire c)).1
        (scale_down-IsDone A w s (fire c) a)
  activity-Continues (ok last) c a q =
      if-cases Good (ltb_ℤ (since t1 last) c.cfg.scale_down_duration)
        (λ recent.
          if-cases Good (ltb_ℤ delay (pos 0)) (λ late _. stops last q recent late)
            (λ _ _. waits delay (reload_config-KeepsTimer (armed delay) r _ refl)))
        (λ _.
          retry-Continues c (scale_down A w (fire c)).0 (scale_down A w (fire c)).1
            (scale_down-IsDone A w s (fire c) a))
    where
      delay : ℤ
      delay = wrap64 (c.cfg.scale_down_duration -ℤ since t2 last)

      Good : Outcome A.State (Unit {0}) → Type 0
      Good o = o.0 ≡ ok tt → Continues A t1 t2 c o.1

  -- A scale-down check that ends without a panic leaves the container scaled down, or simulated to
  -- be, or waiting for the next check; or else its last activity was within the duration at the
  -- first reading of the clock and before it at the second.
  pub scale_down_check-Continues :
      (c : Container A.State)
      → c.activator ≡ some s
      → (scale_down_check A w r t1 t2 c).0 ≡ ok tt
      → Continues A t1 t2 c (scale_down_check A w r t1 t2 c).1
  unfolding scale_down_check check_started delay_until_started
  scale_down_check-Continues c a =
      subst (λ o. Good (check_started A w r t1 t2 o (fire c))) (sym a)
        (if-cases Good (A.started s)
          (λ _. activity-Continues (last_activity A (fire c)) c a (fired_activity c))
          (λ _ _. waits (init_retry (fire c)).0 refl))
    where
      Good : Outcome A.State (Unit {0}) → Type 0
      Good o = o.0 ≡ ok tt → Continues A t1 t2 c o.1
