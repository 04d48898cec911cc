-- ===== src/Shim/Restore/Outcomes.antt =====
-- What a restore leaves behind, whether it succeeds or not (Restore and restore of shim/restore.go,
-- restoreHandler of shim/container.go).
use zeropod.Base.{
  ℕ, ◌≡◌, refl, Bool, true, false, not, Option, none, some, Result, ok, err, All, subst, ◌∙◌, sym,
  ap, if◌then◌else◌, ok-injective, is_empty, Text,
}
use zeropod.Activator.Interface.{Activator, ActivatorError}
use zeropod.Shim.Types.{
  Container, Outcome, ShimError, failed, nil_pointer, no_capacity, already_restored, running,
  restore_failed,
}
use zeropod.Shim.Phase.{set_phase_notify, send_fail_event}
use zeropod.Shim.Restore.{
  Attempt, RestoreCalls, RestoreCapacityResponse, restored, disable_after_restore, start_restored,
  restore_process, restore_once, retry_restore, attempt_restore, forwarded, forward, deny_restore,
  answer_capacity, restore, restore_capacity_request, delete_image,
}

-- The container runs in the process `pid`, no port of `s` is redirected, and no image is left.
pub record IsRestored (A : Activator) (s : A.State) (pid : ℕ) (d : Container A.State) : Type 0 where
  pub is_up : d.is_scaled_down ≡ false
  pub reports_running : d.metrics.running ≡ true
  pub has_pid : d.pid ≡ some pid
  pub not_exited : d.process_exited ≡ none
  pub no_redirects :
      (s' : A.State) × (d.activator ≡ some s') × All (λ p. A.is_redirected s' p ≡ false) (A.ports s)

-- The activator of `d` serves the ports of `s`.
abbrev Serves : (A : Activator) → A.State → Container A.State → Type 0
Serves A s d = (s' : A.State) × (d.activator ≡ some s') × (A.ports s' ≡ A.ports s)

module _ (A : Activator) (s : A.State) where
  abbrev Restores : Outcome A.State ℕ → Type 0
  Restores r = (pid : ℕ) → r.0 ≡ ok pid → IsRestored A s pid r.1

  restored-Restores :
      (pid : ℕ) (r : Result ActivatorError (Unit {0})) (s' : A.State) (c : Container A.State)
      → c.is_scaled_down ≡ false
      → c.metrics.running ≡ true
      → c.pid ≡ some pid
      → c.process_exited ≡ none
      → c.activator ≡ some s'
      → (r ≡ ok tt → All (λ p. A.is_redirected s' p ≡ false) (A.ports s))
      → Restores (restored A pid r c)
  unfolding restored
  restored-Restores pid (err e) s' c u m q x a f pid' h = absurd cc
  restored-Restores pid (ok v) s' c u m q x a f pid' h = record {
    is_up = u;
    reports_running = m;
    has_pid = q ∙ ap some (ok-injective h);
    not_exited = x;
    no_redirects = (s', a, f refl);
  }

  abbrev Serving : Outcome A.State ℕ → Type 0
  Serving r = Restores r × Serves A s r.1

  disabling-Serving :
      (pid : ℕ) (s1 : A.State) (c : Container A.State)
      → A.ports s1 ≡ A.ports s
      → c.is_scaled_down ≡ false
      → c.metrics.running ≡ true
      → c.pid ≡ some pid
      → c.process_exited ≡ none
      → Serving (disable_after_restore A pid (some s1) c)
  unfolding disable_after_restore
  disabling-Serving pid s1 c same u m q x =
      let changed : Container A.State = record c { activator = some (A.disable_redirects s1).1 } in
      let off : (A.disable_redirects s1).0 ≡ ok tt
          → All (λ p. A.is_redirected (A.disable_redirects s1).1 p ≡ false) (A.ports s) =
        λ e. subst (All _) same (A.disable_redirects_disables s1 e) in
      (
        restored-Restores pid (A.disable_redirects s1).0 (A.disable_redirects s1).1 changed u m q x
            refl off,
        (
          (A.disable_redirects s1).1,
          keeps (A.disable_redirects s1).0 changed,
          A.ports-disable_redirects s1 ∙ same,
        ),
      )
    where
      keeps :
          (r : Result ActivatorError (Unit {0})) (d : Container A.State)
          → (restored A pid r d).1.activator ≡ d.activator
      keeps (ok u) d = refl
      keeps (err e) d = refl

  start-Serving :
      (w : Attempt) (pid : ℕ) (c : Container A.State)
      → Serves A s c
      → Serving (start_restored A w pid c)
  unfolding start_restored set_phase_notify
  start-Serving w pid c (s1, a, same) =
      subst (λ o. Serving (disable_after_restore A pid o started)) (sym a)
        (disabling-Serving pid s1 started same refl refl refl refl)
    where
      started : Container A.State
      started =
          set_phase_notify w.clock running w.elapsed
            (record c { pid = some pid; process_exited = none })

  process-Serving :
      (w : Attempt) (o : Option ℕ) (c : Container A.State)
      → Serves A s c
      → Serving (restore_process A w o c)
  unfolding restore_process send_fail_event
  process-Serving w none c v = (λ pid h. absurd cc, v)
  process-Serving w (some pid) c v = by_branch w.has_process w.starts
    where
      by_branch :
          (b1 b2 : Bool)
          → Serving (
              if not b1
              then (err failed, c)
              else if b2
              then start_restored A w pid c
              else (err failed, send_fail_event w.clock restore_failed w.criu_log c))
      by_branch false b2 = (λ pid h. absurd cc, v)
      by_branch true true = start-Serving w pid c v
      by_branch true false = (λ pid h. absurd cc, v)

  restore_once-Serving :
      (w : Attempt) (c : Container A.State)
      → Serves A s c
      → Serving (restore_once A w c) × ((restore_once A w c).1.image ≡ false)
  unfolding restore_once delete_image
  restore_once-Serving w c v =
      let (up, serves) = process-Serving w w.created c v in
      (
        (
          λ pid h.
              let i = up pid h in
              record {
                is_up = i.is_up;
                reports_running = i.reports_running;
                has_pid = i.has_pid;
                not_exited = i.not_exited;
                no_redirects = i.no_redirects;
              },
          serves,
        ),
        refl,
      )

  -- What a restore that was let through gives.
  abbrev Restored : Outcome A.State ℕ → Type 0
  Restored r = (pid : ℕ) → r.0 ≡ ok pid → IsRestored A s pid r.1 × (r.1.image ≡ false)

  retry-Restored :
      (w : Attempt) (r : Result ShimError ℕ) (c : Container A.State)
      → Serving (r, c)
      → c.image ≡ false
      → Restored (retry_restore A w r c)
  unfolding retry_restore
  retry-Restored w (ok p) c (up, v) i pid h = (up pid h, i)
  retry-Restored w (err nil_pointer) c (up, v) i pid h = absurd cc
  retry-Restored w (err e) c (up, v) i pid h = by_setting c.cfg.disable_checkpointing h
    where
      disabled : Container A.State
      disabled = record c { cfg = record c.cfg { disable_checkpointing = true } }

      by_setting :
          (b : Bool)
          → (if b then (err e, c) else restore_once A w disabled).0 ≡ ok pid
          → IsRestored A s pid (if b then (err e, c) else restore_once A w disabled).1
            × ((if b then (err e, c) else restore_once A w disabled).1.image ≡ false)
      by_setting true h = absurd cc
      by_setting false h =
          let ((up, _), gone) = restore_once-Serving w disabled v in (up pid h, gone)

  attempt-Restored :
      (w : RestoreCalls) (c : Container A.State) → Serves A s c → Restored (attempt_restore A w c)
  unfolding attempt_restore
  attempt-Restored w c v =
      let (first, gone) = restore_once-Serving w.first c v in
      retry-Restored w.second (restore_once A w.first c).0 (restore_once A w.first c).1 first gone

  deny-Restored : (addr : Text) (c : Container A.State) → Restored (deny_restore A addr c)
  unfolding deny_restore forward forwarded
  deny-Restored addr c pid h = absurd (never (is_empty addr) c.activator h)
    where
      never :
          (b : Bool) (o : Option A.State)
          → (if b then (err no_capacity, c) else forward A addr o c).0 ≡ ok pid
          → ⊥
      never true o h = cc
      never false none h = cc
      never false (some s0) h =
          refused (A.forward_to_target s0 addr).0
            (record c { activator = some (A.forward_to_target s0 addr).1 }) h
        where
          refused :
              (r : Result ActivatorError (Unit {0})) (d : Container A.State)
              → (forwarded A r d).0 ≡ ok pid
              → ⊥
          refused (ok u) d h = cc
          refused (err e) d h = cc

  answer-Restored :
      (w : RestoreCalls) (r : Result ShimError RestoreCapacityResponse) (c : Container A.State)
      → Serves A s c
      → Restored (answer_capacity A w r c)
  unfolding answer_capacity
  answer-Restored w (err e) c v = attempt-Restored w c v
  answer-Restored w (ok r) c v = by_answer r.allowed
    where
      by_answer :
          (b : Bool)
          → Restored (if b then attempt_restore A w c else deny_restore A r.redirect_addr c)
      by_answer true = attempt-Restored w c v
      by_answer false = deny-Restored r.redirect_addr c

module _ (A : Activator) where
  -- A restore that returns a pid, of a container whose activator is there, leaves the container
  -- running in that process, reported as running, with no port redirected to the activator and its
  -- checkpoint image deleted.
  pub restore-IsRestored :
      (w : RestoreCalls) (s : A.State) (c : Container A.State) (pid : ℕ)
      → c.activator ≡ some s
      → (restore A w c).0 ≡ ok pid
      → IsRestored A s pid (restore A w c).1 × ((restore A w c).1.image ≡ false)
  unfolding restore
  restore-IsRestored w s c pid a h = by_phase c.is_scaled_down pid h
    where
      by_phase :
          (b : Bool)
          → Restored A s (
              if b
              then answer_capacity A w (restore_capacity_request w c) c
              else (err already_restored, c))
      by_phase true = answer-Restored A s w (restore_capacity_request w c) c (s, a, refl)
      by_phase false = λ p h. absurd cc
