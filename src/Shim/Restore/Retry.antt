-- ===== src/Shim/Restore/Retry.antt =====
-- A restore that fails: the second attempt of Restore of shim/restore.go, and what restoreHandler of
-- shim/container.go does with the error.
use zeropod.Base.{
  ℕ, ◌≡◌, refl, ◌⊎◌, inl, inr, Bool, true, false, not, Option, none, some, Result, ok, err,
  Bool-cases, if_false, if_true, subst, ◌∙◌, sym, ap, if◌then◌else◌,
}
use zeropod.Activator.Interface.{Activator, ActivatorError}
use zeropod.Shim.Types.{
  Container, Outcome, ShimError, failed, nil_pointer, running, restore_failed, armed,
}
use zeropod.Shim.Phase.{set_phase_notify, send_fail_event}
use zeropod.Base.Int.{pos, eqb_ℤ}
use zeropod.Shim.Timers.{schedule_scale_down, schedule_scale_down_in, cancel_scale_down}
use zeropod.Shim.Restore.{
  Attempt, RestoreCalls, restored, disable_after_restore, start_restored, restore_process,
  restore_once, retry_restore, attempt_restore, answer_capacity, restore, restore_capacity_request,
  delete_image, handle_restored, restore_handler, set_exited, return_pid,
}
use zeropod.Shim.Restore.GivenUp.{can_start, restore_once_image, restore-GivenUp}

module _ (A : Activator) where
  -- The setting survives, and the image does not.
  abbrev Keeps : Container A.State → Outcome A.State ℕ → Type 0
  Keeps c r = r.1.cfg ≡ c.cfg

  disable-Keeps :
      (pid : ℕ) (o : Option A.State) (c : Container A.State)
      → Keeps c (disable_after_restore A pid o c)
  unfolding disable_after_restore restored
  disable-Keeps pid none c = refl
  disable-Keeps pid (some s) c = by_result (A.disable_redirects s).0
    where
      by_result :
          (r : Result ActivatorError (Unit {0}))
          → Keeps c (restored A pid r (record c { activator = some (A.disable_redirects s).1 }))
      by_result (ok u) = refl
      by_result (err e) = refl

  process-Keeps :
      (w : Attempt) (o : Option ℕ) (c : Container A.State) → Keeps c (restore_process A w o c)
  unfolding restore_process start_restored set_phase_notify send_fail_event
  process-Keeps w none c = refl
  process-Keeps w (some pid) c = by_branch w.has_process w.starts
    where
      by_branch :
          (b1 b2 : Bool)
          → Keeps c (
              if not b1
              then (err failed, c)
              else if b2
              then start_restored A w pid c
              else (err failed, send_fail_event w.clock restore_failed w.criu_log c))
      by_branch false b2 = refl
      by_branch true true = disable-Keeps pid c.activator (
          set_phase_notify w.clock running w.elapsed
            (record c { pid = some pid; process_exited = none }))
      by_branch true false = refl

  restore_once-Keeps : (w : Attempt) (c : Container A.State) → Keeps c (restore_once A w c)
  unfolding restore_once delete_image
  restore_once-Keeps w c = process-Keeps w w.created c

  -- An error is a panic, or it leaves checkpointing disabled and no image.
  abbrev Disabled : ShimError → Outcome A.State ℕ → Type 0
  Disabled e r = (e ≡ nil_pointer) ⊎ ((r.1.cfg.disable_checkpointing ≡ true) × (r.1.image ≡ false))

  abbrev Disables : Outcome A.State ℕ → Type 0
  Disables r = (e : ShimError) → r.0 ≡ err e → Disabled e r

  retry-Disables :
      (w : Attempt) (r : Result ShimError ℕ) (c : Container A.State)
      → c.image ≡ false
      → Disables (retry_restore A w r c)
  unfolding retry_restore
  retry-Disables w (ok p) c i e h = absurd cc
  retry-Disables w (err nil_pointer) c i e h = inl cc
  retry-Disables w (err x) c i e h = by_setting (Bool-cases c.cfg.disable_checkpointing)
    where
      disabled : Container A.State
      disabled = record c { cfg = record c.cfg { disable_checkpointing = true } }

      chosen : Bool → Outcome A.State ℕ
      chosen b = if b then (err x, c) else restore_once A w disabled

      by_setting :
          ((c.cfg.disable_checkpointing ≡ true) ⊎ (c.cfg.disable_checkpointing ≡ false))
          → Disabled e (chosen c.cfg.disable_checkpointing)
      by_setting (inl b) = subst (Disabled e) (sym (if_true _ b)) (inr (b, i))
      by_setting (inr b) = subst (Disabled e) (sym (if_false _ b)) (
          inr (
            ap (λ k. k.disable_checkpointing) (restore_once-Keeps w disabled),
            restore_once_image A w disabled,
          ))

  -- A restore of a scaled down container that is not asked for capacity and fails otherwise than by
  -- a panic leaves checkpointing disabled and the checkpoint image deleted.
  pub restore-failure_disables :
      (w : RestoreCalls) (c : Container A.State) (e : ShimError)
      → c.is_scaled_down ≡ true
      → c.cfg.capacity_request ≡ false
      → (restore A w c).0 ≡ err e
      → (e ≡ nil_pointer)
        ⊎ (((restore A w c).1.cfg.disable_checkpointing ≡ true) × ((restore A w c).1.image ≡ false))
  unfolding restore restore_capacity_request answer_capacity attempt_restore
  restore-failure_disables w c e d q =
      subst (λ (r : Outcome A.State ℕ). r.0 ≡ err e → Disabled e r)
        (sym (if_true _ d ∙ ap (λ x. answer_capacity A w x c) (if_false _ q)))
        (retry-Disables w.second (restore_once A w.first c).0 (restore_once A w.first c).1
          (restore_once_image A w.first c) e)

  -- The handler has panicked, and the container stays as it was when it was scaled down, but has no
  -- image, and both its process and its initial process have exited with code 1.
  pub record Panicked (c : Container A.State) (r : Outcome A.State ℕ) : Type 0 where
    pub panics : r.0 ≡ err nil_pointer
    pub process_exited : r.1.process_exited ≡ some 1
    pub initial_exited : r.1.initial_exited ≡ some 1
    pub no_pid : r.1.pid ≡ none
    pub no_image : r.1.image ≡ false
    pub disabled : r.1.cfg.disable_checkpointing ≡ true
    pub still_down : r.1.is_scaled_down ≡ true
    pub same_activator : r.1.activator ≡ c.activator
    pub scheduled :
        eqb_ℤ c.cfg.scale_down_duration (pos 0) ≡ false
        → r.1.scale_down_timer ≡ armed c.cfg.scale_down_duration

  -- When the handler of a scaled down container that is not asked for capacity restores it, and
  -- neither attempt starts a process, it marks the process and the initial process as exited with
  -- code 1 and then panics on the nil container; it never returns. The container is still scaled
  -- down, with its activator as it was, without an image and with checkpointing disabled, and its next
  -- scale down is scheduled if its duration is not zero.
  pub restore_handler-failure_panics :
      (w : RestoreCalls) (c : Container A.State)
      → c.is_scaled_down ≡ true
      → c.cfg.capacity_request ≡ false
      → can_start w.first ≡ false
      → can_start w.second ≡ false
      → Panicked c (restore_handler A w c)
  unfolding restore_handler handle_restored set_exited return_pid schedule_scale_down
      schedule_scale_down_in cancel_scale_down
  restore_handler-failure_panics w c d q f g =
      let given_up = restore-GivenUp A w c d q f g in
      let left : Container A.State = (restore A w c).1 in
      subst (λ x. Panicked c (handle_restored x left)) (sym given_up.is_failed)
        (record {
          panics = refl;
          process_exited = refl;
          initial_exited = refl;
          no_pid = refl;
          no_image = given_up.no_image;
          disabled = given_up.disabled;
          still_down = given_up.still_down ∙ d;
          same_activator = given_up.same_activator;
          scheduled = λ z.
              if_false _ (ap (λ t. eqb_ℤ t (pos 0)) given_up.same_duration ∙ z)
              ∙ ap armed given_up.same_duration;
        })
