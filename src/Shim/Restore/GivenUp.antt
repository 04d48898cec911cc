-- ===== src/Shim/Restore/GivenUp.antt =====
-- Two attempts of Restore of shim/restore.go that do not start a process.
use zeropod.Base.{
  ℕ, ◌≡◌, refl, Bool, true, false, not, ◌&&◌, Option, none, some, Result, err, if-cases, arith,
  if_false, if_true, subst, ◌∙◌, sym, ap,
}
use zeropod.Activator.Interface.{Activator}
use zeropod.Shim.Types.{Container, Outcome, ShimError, failed}
use zeropod.Shim.Phase.{send_fail_event}
use zeropod.Shim.Restore.{
  Attempt, RestoreCalls, restore_process, restore_once, retry_restore, attempt_restore,
  answer_capacity, restore, restore_capacity_request, delete_image,
}

-- An attempt starts the process of the container that it creates.
abbrev pub can_start : Attempt → Bool
can_start w = elim w.created [ none ↦ false | some pid ↦ w.has_process && w.starts ]

module _ (A : Activator) where
  pub restore_once_image :
      (w : Attempt) (c : Container A.State) → (restore_once A w c).1.image ≡ false
  unfolding restore_once delete_image
  restore_once_image w c = refl

  -- A failure before the process was started: the phase and the activator are as they were.
  record FailedEarly (c : Container A.State) (r : Outcome A.State ℕ) : Type 0 where
    is_failed : r.0 ≡ err failed
    still_down : r.1.is_scaled_down ≡ c.is_scaled_down
    same_activator : r.1.activator ≡ c.activator
    same_cfg : r.1.cfg ≡ c.cfg

  process-FailedEarly :
      (w : Attempt) (o : Option ℕ) (c : Container A.State)
      → elim o [ none ↦ false | some pid ↦ w.has_process && w.starts ] ≡ false
      → FailedEarly c (restore_process A w o c)
  unfolding restore_process send_fail_event
  process-FailedEarly w none c h = record {
    is_failed = refl;
    still_down = refl;
    same_activator = refl;
    same_cfg = refl;
  }
  process-FailedEarly w (some pid) c h =
      if-cases {B = Outcome A.State ℕ} (FailedEarly c) (not w.has_process)
        (λ n. record {
          is_failed = refl;
          still_down = refl;
          same_activator = refl;
          same_cfg = refl;
        })
        (λ n.
          if-cases {B = Outcome A.State ℕ} (FailedEarly c) w.starts (λ m. absurd (ground arith))
            (λ m. record {
              is_failed = refl;
              still_down = refl;
              same_activator = refl;
              same_cfg = refl;
            }))

  restore_once-FailedEarly :
      (w : Attempt) (c : Container A.State)
      → can_start w ≡ false
      → FailedEarly c (restore_once A w c)
  unfolding restore_once delete_image
  restore_once-FailedEarly w c h =
      let early = process-FailedEarly w w.created c h in
      record {
        is_failed = early.is_failed;
        still_down = early.still_down;
        same_activator = early.same_activator;
        same_cfg = early.same_cfg;
      }

  -- What two attempts leave that do not start the process.
  pub record GivenUp (c : Container A.State) (r : Outcome A.State ℕ) : Type 0 where
    pub is_failed : r.0 ≡ err failed
    pub still_down : r.1.is_scaled_down ≡ c.is_scaled_down
    pub same_activator : r.1.activator ≡ c.activator
    pub same_duration : r.1.cfg.scale_down_duration ≡ c.cfg.scale_down_duration
    pub disabled : r.1.cfg.disable_checkpointing ≡ true
    pub no_image : r.1.image ≡ false

  retry-GivenUp :
      (w : Attempt) (r : Result ShimError ℕ) (c d : Container A.State)
      → can_start w ≡ false
      → d.image ≡ false
      → FailedEarly c (r, d)
      → GivenUp c (retry_restore A w r d)
  unfolding retry_restore
  retry-GivenUp w r c d h i early =
      subst (λ x. GivenUp c (retry_restore A w x d)) (sym early.is_failed)
        (if-cases {B = Outcome A.State ℕ} (GivenUp c) d.cfg.disable_checkpointing
          (λ b. record {
            is_failed = refl;
            still_down = early.still_down;
            same_activator = early.same_activator;
            same_duration = ap (λ k. k.scale_down_duration) early.same_cfg;
            disabled = b;
            no_image = i;
          })
          (λ b.
            let disabled : Container A.State = record d {
              cfg = record d.cfg { disable_checkpointing = true };
            } in
            let again = restore_once-FailedEarly w disabled h in
            record {
              is_failed = again.is_failed;
              still_down = again.still_down ∙ early.still_down;
              same_activator = again.same_activator ∙ early.same_activator;
              same_duration =
                  ap (λ k. k.scale_down_duration) again.same_cfg
                  ∙ ap (λ k. k.scale_down_duration) early.same_cfg;
              disabled = ap (λ k. k.disable_checkpointing) again.same_cfg;
              no_image = restore_once_image w disabled;
            }))

  pub restore-GivenUp :
      (w : RestoreCalls) (c : Container A.State)
      → c.is_scaled_down ≡ true
      → c.cfg.capacity_request ≡ false
      → can_start w.first ≡ false
      → can_start w.second ≡ false
      → GivenUp c (restore A w c)
  unfolding restore restore_capacity_request answer_capacity attempt_restore
  restore-GivenUp w c d q f g =
      subst (GivenUp c) (sym (if_true _ d ∙ ap (λ x. answer_capacity A w x c) (if_false _ q))) (
        retry-GivenUp w.second (restore_once A w.first c).0 c (restore_once A w.first c).1 g
          (restore_once_image w.first c) (restore_once-FailedEarly w.first c f))
