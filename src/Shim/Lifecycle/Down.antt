-- ===== src/Shim/Lifecycle/Down.antt =====
-- Scaling down a sound container, as the scale-down timer does, leaves it sound (scaleDownCheck and
-- what it calls).
use zeropod.Base.{
  ℕ, ◌+◌, ◌≡◌, refl, Bool, true, false, not, ◌&&◌, Option, none, some, Result, ok, err, All, subst,
  if-cases, sym, Bool-cases, inl, inr,
}
use zeropod.Activator.Interface.{Activator, ActivatorError}
use zeropod.Shim.Types.{Container, Outcome}
use zeropod.Shim.Phase.{Clock, add_checkpointed_pid, delete_checkpointed_pid}
use zeropod.Shim.DryRun.{dry_run_scale_down}
use zeropod.Shim.ScaleDown.{
  Calls, scale_down, checkpoint, kill, kill_pid, dump, reset_on_err, disable_ignoring, after_reset,
  kill_or_checkpoint, reset_and_scale_down, checkpoint_any,
}
use zeropod.Shim.ScaleDown.Redirects.{contains-add_pid}
use zeropod.Shim.Lifecycle.Report.{
  report, Redirects, Sound, IsUp, up-IsSound, sound-IsUp, notify_down-IsSound,
  send_fail_event-IsSound, send_dry_run_event-IsSound,
}

module _ (A : Activator) (w : Calls) (s : A.State) (on : Redirects A s) where
  dump-IsSound :
      (pid : ℕ) (c : Container A.State)
      → IsUp (report c)
      → c.activator ≡ some s
      → c.pid ≡ some pid
      → Sound A (dump A w pid s c).1
  unfolding dump reset_on_err disable_ignoring add_checkpointed_pid delete_checkpointed_pid
  dump-IsSound pid c u a q = elim (Bool-cases (c.cfg.pre_dump && not w.pre_dumps)) [
    | inl b ↦ rw b (reset c u)
    | inr b ↦ elim (Bool-cases w.checkpoints) [
      | inl d ↦
          rw (b, d)
            (notify_down-IsSound A w.clock w.elapsed s pid stored u.fits a on q
              (contains-add_pid pid c))
      | inr d ↦
          rw (b, d)
            (reset marked (record { is_up = u.is_up; reported = u.reported; fits = u.fits }))
    ]
  ]
    where
      marked : Container A.State
      marked = add_checkpointed_pid pid c

      stored : Container A.State
      stored = record marked { image = true }

      reset : (d : Container A.State) → IsUp (report d) → Sound A (reset_on_err A w pid s d)
      reset d v =
          send_fail_event-IsSound A _ _ _ (disable_ignoring A s (delete_checkpointed_pid pid d))
            (up-IsSound A _ (record { is_up = v.is_up; reported = v.reported; fits = v.fits }))

  checkpoint-IsSound :
      (pid : Option ℕ) (c : Container A.State)
      → IsUp (report c)
      → c.activator ≡ some s
      → c.pid ≡ pid
      → Sound A (checkpoint_any A w pid s c).1
  unfolding checkpoint_any checkpoint
  checkpoint-IsSound none c u a q = up-IsSound A (report c) u
  checkpoint-IsSound (some pid) c u a q = elim (Bool-cases (w.snapshot_dir && w.is_init)) [
    | inl b ↦ rw b (dump-IsSound pid (record c { image = false }) u a q)
    | inr b ↦ rw b (up-IsSound A (report c) u)
  ]

  kill-IsSound :
      (pid : Option ℕ) (c : Container A.State)
      → IsUp (report c)
      → c.activator ≡ some s
      → c.pid ≡ pid
      → Sound A (kill w pid c).1
  unfolding kill kill_pid add_checkpointed_pid
  kill-IsSound none c u a q = up-IsSound A (report c) u
  kill-IsSound (some pid) c u a q = elim (Bool-cases (w.is_init && w.deletes)) [
    | inl b ↦ rw b (
        notify_down-IsSound A w.clock w.elapsed s pid (add_checkpointed_pid pid c) u.fits a on q
          (contains-add_pid pid c))
    | inr b ↦
        rw b (up-IsSound A _ (record { is_up = u.is_up; reported = u.reported; fits = u.fits }))
  ]

  kill_or_checkpoint-IsSound :
      (disabled : Bool) (c : Container A.State)
      → IsUp (report c)
      → c.activator ≡ some s
      → Sound A (kill_or_checkpoint A w disabled s c).1
  unfolding kill_or_checkpoint
  kill_or_checkpoint-IsSound true c u a = kill-IsSound c.pid c u a refl
  kill_or_checkpoint-IsSound false c u a = checkpoint-IsSound c.pid c u a refl

module _ (A : Activator) (w : Calls) where
  after_reset-IsSound :
      (r : Result ActivatorError (Unit {0})) (s : A.State) (c : Container A.State)
      → IsUp (report c)
      → c.activator ≡ some s
      → (r ≡ ok tt → Redirects A s)
      → Sound A (after_reset A w r s c).1
  unfolding after_reset
  after_reset-IsSound (err e) s c u a on = up-IsSound A (report c) u
  after_reset-IsSound (ok x) s c u a on =
      kill_or_checkpoint-IsSound A w s (on refl) c.cfg.disable_checkpointing c u a

  reset-IsSound :
      (o : Option A.State) (c : Container A.State)
      → IsUp (report c)
      → Sound A (reset_and_scale_down A w o c).1
  unfolding reset_and_scale_down
  reset-IsSound none c u = up-IsSound A (report c) u
  reset-IsSound (some s) c u =
      after_reset-IsSound (A.reset s).0 (A.reset s).1 (record c { activator = some (A.reset s).1 })
        (record { is_up = u.is_up; reported = u.reported; fits = u.fits }) refl
        (λ e. subst (All _) (sym (A.ports-reset s)) (A.reset_redirects s e))

  dry-IsSound : (v : Clock) (c : Container A.State) → Sound A c → Sound A (dry_run_scale_down v c)
  unfolding dry_run_scale_down
  dry-IsSound v c h = elim (Bool-cases c.dry_run_scaled_down) [
    | inl b ↦ rw b h
    | inr b ↦ rw b (send_dry_run_event-IsSound A v _ (entered v c) h)
  ]
    where
      entered : Clock → Container A.State → Container A.State
      entered v c = record c {
        dry_run_scaled_down = true;
        dry_run_since = v.now;
        metrics = record c.metrics { dry_run_scale_downs = c.metrics.dry_run_scale_downs + 1 };
      }

  pub scale_down-IsSound : (c : Container A.State) → Sound A c → Sound A (scale_down A w c).1
  unfolding scale_down
  scale_down-IsSound c h =
      if-cases Good c.cfg.dry_run (λ _. dry-IsSound w.clock c h)
        (λ _.
          if-cases Good c.is_scaled_down (λ _. h)
            (λ d. reset-IsSound c.activator c (sound-IsUp A (report c) h d)))
    where
      Good : Outcome A.State (Unit {0}) → Type 0
      Good r = Sound A r.1
