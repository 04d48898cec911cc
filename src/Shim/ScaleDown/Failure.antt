-- ===== src/Shim/ScaleDown/Failure.antt =====
-- What a failed scale down leaves (scaleDown, kill and checkpoint of shim/checkpoint.go).
use zeropod.Base.{
  ℕ, ◌≡◌, refl, inl, inr, Bool, true, false, ◌&&◌, Option, none, some, Result, ok, err, All, arith,
  Bool-cases, subst, ◌∙◌, sym, ap, if◌then◌else◌,
}
use zeropod.Activator.Interface.{Activator, ActivatorError}
use zeropod.Shim.Types.{Container, Outcome, ShimError, failed}
use zeropod.Shim.Phase.{send_fail_event, add_checkpointed_pid, delete_checkpointed_pid}
use zeropod.Shim.ScaleDown.{
  Calls, scale_down, checkpoint, kill, dump, reset_on_err, disable_ignoring, after_reset,
  kill_or_checkpoint, reset_and_scale_down, checkpoint_any, kill_pid,
}
use zeropod.Shim.DryRun.{dry_run_scale_down}
use zeropod.Shim.ScaleDown.Redirects.{scale_down_running}

-- The container runs on as it was, with the same process and configuration.
pub record StillUp {S : Type 0} (c d : Container S) : Type 0 where
  pub up : d.is_scaled_down ≡ c.is_scaled_down
  pub same_pid : d.pid ≡ c.pid
  pub same_cfg : d.cfg ≡ c.cfg
  pub same_running : d.metrics.running ≡ c.metrics.running

abbrev Fails : {S : Type 0} → Container S → Outcome S (Unit {0}) → Type 0
Fails c r = (e : ShimError) → r.0 ≡ err e → StillUp c r.1

module _ (A : Activator) (w : Calls) where
  dump-Fails : (s : A.State) (pid : ℕ) (c : Container A.State) → Fails c (dump A w pid s c)
  unfolding dump reset_on_err disable_ignoring send_fail_event add_checkpointed_pid
      delete_checkpointed_pid
  dump-Fails s pid c e h = record {
    up = ground arith;
    same_pid = ground arith;
    same_cfg = ground arith;
    same_running = ground arith;
  }

  checkpoint-Fails :
      (s : A.State) (pid : Option ℕ) (c : Container A.State) → Fails c (checkpoint_any A w pid s c)
  unfolding checkpoint_any checkpoint
  checkpoint-Fails s none c e h = record {
    up = refl;
    same_pid = refl;
    same_cfg = refl;
    same_running = refl;
  }
  checkpoint-Fails s (some pid) c e h = elim (Bool-cases (w.snapshot_dir && w.is_init)) [
    | inl b ↦
        let down = dump-Fails s pid (record c { image = false }) e (rw b at h) in
        rw b (record {
          up = down.up;
          same_pid = down.same_pid;
          same_cfg = down.same_cfg;
          same_running = down.same_running;
        })
    | inr b ↦ rw b (record { up = refl; same_pid = refl; same_cfg = refl; same_running = refl })
  ]

  kill-Fails : (pid : Option ℕ) (c : Container A.State) → Fails c (kill w pid c)
  unfolding kill kill_pid add_checkpointed_pid
  kill-Fails none c e h = record {
    up = refl;
    same_pid = refl;
    same_cfg = refl;
    same_running = refl;
  }
  kill-Fails (some pid) c e h = record {
    up = ground arith;
    same_pid = ground arith;
    same_cfg = ground arith;
    same_running = ground arith;
  }

  after_reset-Fails :
      (r : Result ActivatorError (Unit {0})) (s : A.State) (c : Container A.State)
      → Fails c (after_reset A w r s c)
  unfolding after_reset kill_or_checkpoint
  after_reset-Fails (err x) s c e h = record {
    up = refl;
    same_pid = refl;
    same_cfg = refl;
    same_running = refl;
  }
  after_reset-Fails (ok u) s c e h = by_setting c.cfg.disable_checkpointing h
    where
      by_setting :
          (b : Bool)
          → (kill_or_checkpoint A w b s c).0 ≡ err e
          → StillUp c (kill_or_checkpoint A w b s c).1
      by_setting true h = kill-Fails c.pid c e h
      by_setting false h = checkpoint-Fails s c.pid c e h

  reset-Fails :
      (o : Option A.State) (c : Container A.State) → Fails c (reset_and_scale_down A w o c)
  unfolding reset_and_scale_down
  reset-Fails none c e h = record {
    up = refl;
    same_pid = refl;
    same_cfg = refl;
    same_running = refl;
  }
  reset-Fails (some s) c e h =
      let changed : Container A.State = record c { activator = some (A.reset s).1 } in
      let down = after_reset-Fails (A.reset s).0 (A.reset s).1 changed e h in
      record {
        up = down.up;
        same_pid = down.same_pid;
        same_cfg = down.same_cfg;
        same_running = down.same_running;
      }

  -- A scale down that returns an error leaves the container in the phase it was in, with the
  -- same process and configuration, and its metric of the running state unchanged.
  pub scale_down-StillUp :
      (c : Container A.State) (e : ShimError)
      → (scale_down A w c).0 ≡ err e
      → StillUp c (scale_down A w c).1
  unfolding scale_down
  scale_down-StillUp c e h = by_branch c.cfg.dry_run c.is_scaled_down h
    where
      by_branch :
          (d b : Bool)
          → (if d
              then (ok tt, dry_run_scale_down w.clock c)
              else if b
              then (ok tt, c)
              else reset_and_scale_down A w c.activator c).0
            ≡ err e
          → StillUp c
              (if d
                then (ok tt, dry_run_scale_down w.clock c)
                else if b
                then (ok tt, c)
                else reset_and_scale_down A w c.activator c).1
      by_branch true b h = absurd cc
      by_branch false true h = absurd cc
      by_branch false false h = reset-Fails c.activator c e h

  abbrev Keeps : A.State → Outcome A.State (Unit {0}) → Type 0
  Keeps s r = (r.0 ≡ err failed) × (r.1.activator ≡ some s)

  kill-Keeps :
      (s : A.State) (pid : ℕ) (c : Container A.State)
      → c.activator ≡ some s
      → w.deletes ≡ false
      → Keeps s (kill w (some pid) c)
  unfolding kill kill_pid add_checkpointed_pid
  kill-Keeps s pid c a f = (ground arith, ground arith)

  checkpoint-Keeps :
      (s : A.State) (pid : Option ℕ) (c : Container A.State)
      → c.activator ≡ some s
      → w.snapshot_dir ≡ false
      → Keeps s (checkpoint_any A w pid s c)
  unfolding checkpoint_any checkpoint
  checkpoint-Keeps s none c a f = (ground arith, a)
  checkpoint-Keeps s (some pid) c a f = (ground arith, ground arith)

  kill_or_checkpoint-Keeps :
      (s : A.State) (pid : ℕ) (b : Bool) (c : Container A.State)
      → c.activator ≡ some s
      → c.pid ≡ some pid
      → (if b then w.deletes else w.snapshot_dir) ≡ false
      → Keeps s (kill_or_checkpoint A w b s c)
  unfolding kill_or_checkpoint
  kill_or_checkpoint-Keeps s pid true c a q f =
      subst (λ o. Keeps s (kill w o c)) (sym q) (kill-Keeps s pid c a f)
  kill_or_checkpoint-Keeps s pid false c a q f = checkpoint-Keeps s c.pid c a f

  reset-Keeps :
      (s : A.State) (pid : ℕ) (c : Container A.State)
      → c.pid ≡ some pid
      → (A.reset s).0 ≡ ok tt
      → (if c.cfg.disable_checkpointing then w.deletes else w.snapshot_dir) ≡ false
      → Keeps (A.reset s).1 (reset_and_scale_down A w (some s) c)
  unfolding reset_and_scale_down after_reset
  reset-Keeps s pid c q r f =
      let changed : Container A.State = record c { activator = some (A.reset s).1 } in
      subst (λ x. Keeps (A.reset s).1 (after_reset A w x (A.reset s).1 changed)) (sym r)
        (kill_or_checkpoint-Keeps (A.reset s).1 pid c.cfg.disable_checkpointing changed refl q f)

  -- A scale down whose snapshot directory cannot be prepared, or whose forced delete fails where
  -- checkpointing is disabled, returns an error and leaves the activator as the successful reset
  -- did, so that every port is redirected to the activator.
  pub scale_down-failure_keeps_redirects :
      (s : A.State) (pid : ℕ) (c : Container A.State)
      → c.activator ≡ some s
      → c.pid ≡ some pid
      → c.cfg.dry_run ≡ false
      → c.is_scaled_down ≡ false
      → (A.reset s).0 ≡ ok tt
      → (if c.cfg.disable_checkpointing then w.deletes else w.snapshot_dir) ≡ false
      → ((scale_down A w c).0 ≡ err failed)
        × ((scale_down A w c).1.activator ≡ some (A.reset s).1)
        × All (λ p. A.is_redirected (A.reset s).1 p ≡ true) (A.ports s)
  scale_down-failure_keeps_redirects s pid c a q d n r f =
      let (is_err, same) =
        subst (Keeps (A.reset s).1)
          (sym (scale_down_running A w s c d n ∙ ap (λ o. reset_and_scale_down A w o c) a))
          (reset-Keeps s pid c q r f) in
      (is_err, same, A.reset_redirects s r)
