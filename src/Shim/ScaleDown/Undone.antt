-- ===== src/Shim/ScaleDown/Undone.antt =====
-- A checkpoint that fails in CRIU, as scaleDown sees it (resetOnErr of shim/checkpoint.go).
use zeropod.Base.{
  ℕ, ◌+◌, ◌≡◌, refl, sym, ◌∙◌, ap, subst, Bool, true, false, not, ◌&&◌, ◌||◌, some, ok, err, All,
  arith, if-cases, if_true,
}
use zeropod.Activator.Interface.{Activator}
use zeropod.Shim.Types.{Container, Outcome, failed}
use zeropod.Shim.Phase.{
  send_fail_event, count_failure, checkpointed_pid, add_checkpointed_pid, delete_checkpointed_pid,
}
use zeropod.Shim.ScaleDown.{
  Calls, scale_down, checkpoint, dump, reset_on_err, disable_ignoring, after_reset,
  kill_or_checkpoint, reset_and_scale_down, checkpoint_any,
}
use zeropod.Shim.ScaleDown.Redirects.{scale_down_running}
use zeropod.Shim.Lifecycle.Exits.{contains-remove_pid}

module _ (A : Activator) (w : Calls) (s : A.State) (pid : ℕ) where
  -- The redirects are off if the call that turns them off succeeded. The process, whose exit is not
  -- expected, runs on, and the error is counted.
  pub record Undone (c : Container A.State) (r : Outcome A.State (Unit {0})) : Type 0 where
    pub is_failed : r.0 ≡ err failed
    pub disabled : r.1.activator ≡ some (A.disable_redirects s).1
    pub redirects_off :
        (A.disable_redirects s).0 ≡ ok tt
        → All (λ p. A.is_redirected (A.disable_redirects s).1 p ≡ false) (A.ports s)
    pub not_expected : checkpointed_pid pid r.1 ≡ false
    pub still_up : r.1.is_scaled_down ≡ c.is_scaled_down
    pub same_pid : r.1.pid ≡ c.pid
    pub counted : r.1.metrics.checkpoint_errors ≡ c.metrics.checkpoint_errors + 1

  -- A pre-dump or a dump fails.
  abbrev pub criu_fails : Container A.State → Bool
  criu_fails c = (c.cfg.pre_dump && not w.pre_dumps) || not w.checkpoints

  dump-Undone : (c : Container A.State) → criu_fails c ≡ true → Undone c (dump A w pid s c)
  unfolding dump reset_on_err disable_ignoring send_fail_event count_failure add_checkpointed_pid
      delete_checkpointed_pid checkpointed_pid
  dump-Undone c h =
      if-cases {B = Outcome A.State (Unit {0})} (Undone c) (c.cfg.pre_dump && not w.pre_dumps)
        (λ a. record {
          is_failed = refl;
          disabled = refl;
          redirects_off = A.disable_redirects_disables s;
          not_expected = contains-remove_pid pid _;
          still_up = refl;
          same_pid = refl;
          counted = refl;
        })
        (λ a.
          if-cases {B = Outcome A.State (Unit {0})} (Undone c) w.checkpoints
            (λ b. absurd (ground arith))
            (λ b. record {
              is_failed = refl;
              disabled = refl;
              redirects_off = A.disable_redirects_disables s;
              not_expected = contains-remove_pid pid _;
              still_up = refl;
              same_pid = refl;
              counted = refl;
            }))

  checkpoint-Undone :
      (c : Container A.State)
      → w.snapshot_dir ≡ true
      → w.is_init ≡ true
      → criu_fails c ≡ true
      → Undone c (checkpoint A w pid s c)
  unfolding checkpoint
  checkpoint-Undone c a b h =
      let cleared : Container A.State = record c { image = false } in
      let undone = dump-Undone cleared h in
      subst {A = Outcome A.State (Unit {0})} (Undone c)
        (sym (if_true {b = w.snapshot_dir && w.is_init} _ (ground arith)))
        (record {
          is_failed = undone.is_failed;
          disabled = undone.disabled;
          redirects_off = undone.redirects_off;
          not_expected = undone.not_expected;
          still_up = undone.still_up;
          same_pid = undone.same_pid;
          counted = undone.counted;
        })

module _ (A : Activator) (w : Calls) where
  after_reset-Undone :
      (s : A.State) (pid : ℕ) (c : Container A.State)
      → (A.reset s).0 ≡ ok tt
      → c.pid ≡ some pid
      → c.cfg.disable_checkpointing ≡ false
      → w.snapshot_dir ≡ true
      → w.is_init ≡ true
      → criu_fails A w s pid c ≡ true
      → Undone A w (A.reset s).1 pid c (reset_and_scale_down A w (some s) c)
  unfolding reset_and_scale_down after_reset kill_or_checkpoint checkpoint_any
  after_reset-Undone s pid c r q d a b h =
      let t : A.State = (A.reset s).1 in
      let changed : Container A.State = record c { activator = some t } in
      let undone = checkpoint-Undone A w t pid changed a b h in
      subst {A = Outcome A.State (Unit {0})} (Undone A w t pid c)
        (sym (
          ap (λ x. after_reset A w x t changed) r
          ∙ ap (λ x. kill_or_checkpoint A w x t changed) d
          ∙ ap (λ x. checkpoint_any A w x t changed) q))
        (record {
          is_failed = undone.is_failed;
          disabled = undone.disabled;
          redirects_off = undone.redirects_off;
          not_expected = undone.not_expected;
          still_up = undone.still_up;
          same_pid = undone.same_pid;
          counted = undone.counted;
        })

  -- A scale down of a running container whose activator was reset without an error, and whose
  -- pre-dump or dump fails in CRIU, returns an error and calls `disable_redirects`: the activator is
  -- left as that call returned it, so that no port is redirected if the call succeeded. The container
  -- keeps its phase and its pid, whose exit is not expected, and one more checkpoint error is counted.
  -- Dry-run is unset, checkpointing is enabled, the snapshot directory is prepared and the process is
  -- a runc init process.
  pub checkpoint-failure_redirects :
      (s : A.State) (pid : ℕ) (c : Container A.State)
      → c.activator ≡ some s
      → c.pid ≡ some pid
      → c.cfg.dry_run ≡ false
      → c.is_scaled_down ≡ false
      → c.cfg.disable_checkpointing ≡ false
      → (A.reset s).0 ≡ ok tt
      → w.snapshot_dir ≡ true
      → w.is_init ≡ true
      → criu_fails A w s pid c ≡ true
      → Undone A w (A.reset s).1 pid c (scale_down A w c)
  checkpoint-failure_redirects s pid c a q n u d r x y h =
      subst (Undone A w (A.reset s).1 pid c)
        (sym (scale_down_running A w s c n u ∙ ap (λ o. reset_and_scale_down A w o c) a))
        (after_reset-Undone s pid c r q d x y h)
