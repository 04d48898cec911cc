-- ===== src/Shim/ScaleDown/Redirects.antt =====
-- What scaling down does to the container and to its redirects (scaleDown, kill and checkpoint of
-- shim/checkpoint.go).
use zeropod.Base.{
  ℕ, ◌≡◌, refl, ◌⊎◌, inl, inr, Bool, true, false, ◌&&◌, Option, none, some, Result, ok, err, All,
  arith, contains_num, Bool-cases, if_false, subst, ◌∙◌, sym, ap,
}
use zeropod.Activator.Interface.{Activator, ActivatorError}
use zeropod.Shim.Types.{Container, Outcome}
use zeropod.Shim.Phase.{set_phase_notify, add_checkpointed_pid, checkpointed_pid}
use zeropod.Shim.ScaleDown.{
  Calls, scale_down, checkpoint, kill, dump, after_reset, kill_or_checkpoint, reset_and_scale_down,
  checkpoint_any,
}

-- What a finished scale down leaves, from the activator state `s` that `reset` returned: the
-- container is down, the image exists or checkpointing was disabled, and the exit of its process
-- is expected.
pub record IsDown (A : Activator) (s : A.State) (old : Option ℕ) (disabled : Bool)
    (d : Container A.State) : Type 0 where
  pub is_down : d.is_scaled_down ≡ true
  pub keeps_activator : d.activator ≡ some s
  pub has_image : (d.image ≡ true) ⊎ (disabled ≡ true)
  pub expects_exit : (pid : ℕ) × (old ≡ some pid) × (checkpointed_pid pid d ≡ true)

pub contains-add_pid :
    {S : Type 0} (pid : ℕ) (c : Container S)
    → contains_num (add_checkpointed_pid pid c).checkpointed_pids pid ≡ true
unfolding add_checkpointed_pid
contains-add_pid pid c = ground arith

module _ (A : Activator) (w : Calls) (s : A.State) where
  dump-IsDown :
      (pid : ℕ) (c : Container A.State)
      → c.activator ≡ some s
      → (dump A w pid s c).0 ≡ ok tt
      → IsDown A s (some pid) false (dump A w pid s c).1
  unfolding dump set_phase_notify add_checkpointed_pid checkpointed_pid
  dump-IsDown pid c a h = record {
    is_down = ground arith;
    keeps_activator = ground arith;
    has_image = inl (ground arith);
    expects_exit = (pid, refl, ground (arith, contains-add_pid pid c));
  }

  checkpoint-IsDown :
      (pid : Option ℕ) (c : Container A.State)
      → c.activator ≡ some s
      → (checkpoint_any A w pid s c).0 ≡ ok tt
      → IsDown A s pid false (checkpoint_any A w pid s c).1
  unfolding checkpoint_any checkpoint
  checkpoint-IsDown none c a h = absurd (ground arith)
  checkpoint-IsDown (some pid) c a h = elim (Bool-cases (w.snapshot_dir && w.is_init)) [
    | inl b ↦ rw b (dump-IsDown pid (record c { image = false }) a (rw b at h))
    | inr b ↦ absurd (ground arith)
  ]

  kill-IsDown :
      (pid : Option ℕ) (c : Container A.State)
      → c.activator ≡ some s
      → (kill w pid c).0 ≡ ok tt
      → IsDown A s pid true (kill w pid c).1
  unfolding kill set_phase_notify add_checkpointed_pid checkpointed_pid
  kill-IsDown none c a h = absurd (ground arith)
  kill-IsDown (some pid) c a h = record {
    is_down = ground arith;
    keeps_activator = ground arith;
    has_image = inr refl;
    expects_exit = (pid, refl, ground (arith, contains-add_pid pid c));
  }

  kill_or_checkpoint-IsDown :
      (disabled : Bool) (c : Container A.State)
      → c.activator ≡ some s
      → (kill_or_checkpoint A w disabled s c).0 ≡ ok tt
      → IsDown A s c.pid disabled (kill_or_checkpoint A w disabled s c).1
  unfolding kill_or_checkpoint
  kill_or_checkpoint-IsDown true c a h = kill-IsDown c.pid c a h
  kill_or_checkpoint-IsDown false c a h = checkpoint-IsDown c.pid c a h

  after_reset-IsDown :
      (r : Result ActivatorError (Unit {0})) (c : Container A.State)
      → c.activator ≡ some s
      → (after_reset A w r s c).0 ≡ ok tt
      → (r ≡ ok tt) × IsDown A s c.pid c.cfg.disable_checkpointing (after_reset A w r s c).1
  unfolding after_reset
  after_reset-IsDown (err e) c a h = absurd (ground arith)
  after_reset-IsDown (ok u) c a h =
      (refl, kill_or_checkpoint-IsDown c.cfg.disable_checkpointing c a h)

  abbrev Downs : Container A.State → Outcome A.State (Unit {0}) → Type 0
  Downs c r =
      r.0 ≡ ok tt
      → IsDown A (A.reset s).1 c.pid c.cfg.disable_checkpointing r.1
        × All (λ p. A.is_redirected (A.reset s).1 p ≡ true) (A.ports s)

module _ (A : Activator) (w : Calls) (s : A.State) where
  reset-Downs : (c : Container A.State) → Downs A w s c (reset_and_scale_down A w (some s) c)
  unfolding reset_and_scale_down
  reset-Downs c h =
      let changed : Container A.State = record c { activator = some (A.reset s).1 } in
      let (reset_ok, down) = after_reset-IsDown A w (A.reset s).1 (A.reset s).0 changed refl h in
      (down, A.reset_redirects s reset_ok)

  pub scale_down_running :
      (c : Container A.State)
      → c.cfg.dry_run ≡ false
      → c.is_scaled_down ≡ false
      → scale_down A w c ≡ reset_and_scale_down A w c.activator c
  unfolding scale_down
  scale_down_running c d n = if_false _ d ∙ if_false _ n

  -- A scale down of a running container that returns no error, with dry-run unset, leaves it scaled
  -- down with every port redirected to the activator; its image exists, unless checkpointing is
  -- disabled, and its pid is one whose exit is expected.
  pub scale_down-IsDown :
      (c : Container A.State)
      → c.activator ≡ some s
      → c.cfg.dry_run ≡ false
      → c.is_scaled_down ≡ false
      → (scale_down A w c).0 ≡ ok tt
      → IsDown A (A.reset s).1 c.pid c.cfg.disable_checkpointing (scale_down A w c).1
        × All (λ p. A.is_redirected (A.reset s).1 p ≡ true) (A.ports s)
  scale_down-IsDown c a d n =
      subst (Downs A w s c)
        (sym (scale_down_running c d n ∙ ap (λ o. reset_and_scale_down A w o c) a)) (reset-Downs c)
