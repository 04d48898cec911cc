-- ===== src/Shim/Lifecycle/Exits.antt =====
-- The exit of a process that was scaled down, when it is heard of only after the restore
-- (preventExit of shim/task/service_zeropod.go with the set of checkpointed pids).
use zeropod.Base.{
  ℕ, Text, ◌≡◌, refl, ◌∙◌, ap, subst, Bool, true, false, not, Option, none, some, Result, ok, err,
  List, [], ◌∷◌, contains_num, if-cases, is_empty, arith,
}
use zeropod.Activator.Interface.{Activator, ActivatorError}
use zeropod.Shim.Types.{Container, Outcome, ShimError, nil_pointer}
use zeropod.Shim.Phase.{
  remove_pid, checkpointed_pid, delete_checkpointed_pid, send_fail_event, set_phase_notify,
}
use zeropod.Shim.ScaleDown.{Calls, scale_down}
use zeropod.Shim.ScaleDown.Redirects.{scale_down-IsDown}
use zeropod.Shim.Restore.{
  Attempt, RestoreCalls, RestoreCapacityResponse, restored, disable_after_restore, start_restored,
  restore_process, restore_once, retry_restore, attempt_restore, forwarded, forward, deny_restore,
  answer_capacity, restore, restore_capacity_request, delete_image,
}
use zeropod.Shim.Restore.Outcomes.{restore-IsRestored}
use zeropod.Shim.Task.{ContainerProcess, prevent_exit_of}

pub contains-remove_pid : (p : ℕ) (ps : List ℕ) → contains_num (remove_pid p ps) p ≡ false
unfolding remove_pid
contains-remove_pid p [] = refl
contains-remove_pid p (q ∷ ps) = ground (arith, contains-remove_pid p ps)

module _ (A : Activator) (pids : List ℕ) where
  -- A restore leaves the set of checkpointed pids alone.
  abbrev KeepsPids : Outcome A.State ℕ → Type 0
  KeepsPids r = r.1.checkpointed_pids ≡ pids

  restored-KeepsPids :
      (pid : ℕ) (r : Result ActivatorError (Unit {0})) (c : Container A.State)
      → c.checkpointed_pids ≡ pids
      → KeepsPids (restored A pid r c)
  unfolding restored
  restored-KeepsPids pid (ok u) c h = h
  restored-KeepsPids pid (err e) c h = h

  disabling-KeepsPids :
      (pid : ℕ) (o : Option A.State) (c : Container A.State)
      → c.checkpointed_pids ≡ pids
      → KeepsPids (disable_after_restore A pid o c)
  unfolding disable_after_restore
  disabling-KeepsPids pid none c h = h
  disabling-KeepsPids pid (some s) c h =
      restored-KeepsPids pid (A.disable_redirects s).0
        (record c { activator = some (A.disable_redirects s).1 }) h

  process-KeepsPids :
      (w : Attempt) (o : Option ℕ) (c : Container A.State)
      → c.checkpointed_pids ≡ pids
      → KeepsPids (restore_process A w o c)
  unfolding restore_process start_restored send_fail_event set_phase_notify
  process-KeepsPids w none c h = h
  process-KeepsPids w (some pid) c h =
      if-cases KeepsPids (not w.has_process) (λ _. h)
        (λ _. if-cases KeepsPids w.starts (λ _. disabling-KeepsPids pid c.activator _ h) (λ _. h))

  once-KeepsPids :
      (w : Attempt) (c : Container A.State)
      → c.checkpointed_pids ≡ pids
      → KeepsPids (restore_once A w c)
  unfolding restore_once delete_image
  once-KeepsPids w c h = process-KeepsPids w w.created c h

  retry-KeepsPids :
      (w : Attempt) (r : Result ShimError ℕ) (c : Container A.State)
      → c.checkpointed_pids ≡ pids
      → KeepsPids (retry_restore A w r c)
  unfolding retry_restore
  retry-KeepsPids w (ok p) c h = h
  retry-KeepsPids w (err nil_pointer) c h = h
  retry-KeepsPids w (err e) c h =
      if-cases KeepsPids c.cfg.disable_checkpointing (λ _. h) (λ _. once-KeepsPids w _ h)

  attempt-KeepsPids :
      (w : RestoreCalls) (c : Container A.State)
      → c.checkpointed_pids ≡ pids
      → KeepsPids (attempt_restore A w c)
  unfolding attempt_restore
  attempt-KeepsPids w c h =
      retry-KeepsPids w.second (restore_once A w.first c).0 (restore_once A w.first c).1
        (once-KeepsPids w.first c h)

  forward-KeepsPids :
      (addr : Text) (o : Option A.State) (c : Container A.State)
      → c.checkpointed_pids ≡ pids
      → KeepsPids (forward A addr o c)
  unfolding forward
  forward-KeepsPids addr none c h = h
  forward-KeepsPids addr (some s) c h =
      forwarded-KeepsPids (A.forward_to_target s addr).0
        (record c { activator = some (A.forward_to_target s addr).1 }) h
    where
      forwarded-KeepsPids :
          (r : Result ActivatorError (Unit {0})) (d : Container A.State)
          → d.checkpointed_pids ≡ pids
          → KeepsPids (forwarded A r d)
      forwarded-KeepsPids (ok u) d h = h
      forwarded-KeepsPids (err e) d h = h

  answer-KeepsPids :
      (w : RestoreCalls) (r : Result ShimError RestoreCapacityResponse) (c : Container A.State)
      → c.checkpointed_pids ≡ pids
      → KeepsPids (answer_capacity A w r c)
  unfolding answer_capacity deny_restore
  answer-KeepsPids w (err e) c h = attempt-KeepsPids w c h
  answer-KeepsPids w (ok r) c h =
      if-cases KeepsPids r.allowed (λ _. attempt-KeepsPids w c h)
        (λ _.
          if-cases KeepsPids (is_empty r.redirect_addr) (λ _. h)
            (λ _. forward-KeepsPids r.redirect_addr c.activator c h))

  restore-KeepsPids :
      (w : RestoreCalls) (c : Container A.State)
      → c.checkpointed_pids ≡ pids
      → KeepsPids (restore A w c)
  unfolding restore
  restore-KeepsPids w c h =
      if-cases KeepsPids c.is_scaled_down
        (λ _. answer-KeepsPids w (restore_capacity_request w c) c h) (λ _. h)

-- The exit is kept from containerd, the container is not set to exited, and the pid is forgotten.
pub record IsPrevented {S : Type 0} (pid : ℕ) (c : Container S) (r : Bool × Container S)
    : Type 0 where
  pub prevented : r.0 ≡ true
  pub not_exited : r.1.initial_exited ≡ c.initial_exited
  pub forgotten : checkpointed_pid pid r.1 ≡ false

expected_exit-IsPrevented :
    {S : Type 0} (cp : ContainerProcess) (c : Container S)
    → c.is_scaled_down ≡ false
    → checkpointed_pid cp.pid c ≡ true
    → IsPrevented cp.pid c (prevent_exit_of cp c)
unfolding prevent_exit_of delete_checkpointed_pid checkpointed_pid
expected_exit-IsPrevented {S = S} cp c u k =
    if-cases Good c.is_scaled_down (λ e. absurd (cc u))
      (λ _.
        if-cases Good (contains_num c.checkpointed_pids cp.pid)
          (λ _. record {
            prevented = refl;
            not_exited = refl;
            forgotten = contains-remove_pid cp.pid c.checkpointed_pids;
          })
          (λ e. absurd (cc k)))
  where
    Good : Bool × Container S → Type 0
    Good r = IsPrevented cp.pid c r

restored-expects :
    (A : Activator) (calls : RestoreCalls) (p : ℕ) (c : Container A.State)
    → checkpointed_pid p c ≡ true
    → checkpointed_pid p (restore A calls c).1 ≡ true
unfolding checkpointed_pid
restored-expects A calls p c k =
    ap (λ ps. contains_num ps p) (restore-KeepsPids A c.checkpointed_pids calls c refl) ∙ k

-- Of a running container with an activator, dry-run unset, that was scaled down without an error and
-- then restored to a pid: when the exit of the process that was scaled down is heard of, it is kept
-- from containerd, the container is not set to exited, and the next exit of that pid is not expected.
pub late_exit-IsPrevented :
    (A : Activator) (w : Calls) (calls : RestoreCalls) (s : A.State) (cp : ContainerProcess)
    (c : Container A.State) (pid : ℕ)
    → c.activator ≡ some s
    → c.cfg.dry_run ≡ false
    → c.is_scaled_down ≡ false
    → c.pid ≡ some cp.pid
    → (scale_down A w c).0 ≡ ok tt
    → (restore A calls (scale_down A w c).1).0 ≡ ok pid
    → IsPrevented cp.pid
        (restore A calls (scale_down A w c).1).1
        (prevent_exit_of cp (restore A calls (scale_down A w c).1).1)
late_exit-IsPrevented A w calls s cp c pid a d n q down up =
    let (i, _) = scale_down-IsDown A w s c a d n down in
    let (p, e, k) = i.expects_exit in
    let (j, _) =
      restore-IsRestored A calls (A.reset s).1 (scale_down A w c).1 pid i.keeps_activator up in
    expected_exit-IsPrevented cp (restore A calls (scale_down A w c).1).1 j.is_up (
      subst (λ n. checkpointed_pid n (restore A calls (scale_down A w c).1).1 ≡ true) (cc (e, q))
        (restored-expects A calls p (scale_down A w c).1 k))
