-- ===== src/Shim/Restore.antt =====
-- Restore, restore and restoreCapacityRequest of shim/restore.go and restore_capacity.go, and
-- restoreHandler and ExitOK's exit codes of shim/container.go.
pub mod Outcomes
pub mod Denied
pub mod GivenUp
pub mod Retry
use zeropod.Base.{
  ℕ, ◌≡◌, refl, Bool, true, false, not, ◌&&◌, ◌||◌, Option, none, some, List, [], ◌∷◌, Text,
  is_empty, Result, ok, err, if◌then◌else◌,
}
use zeropod.Base.Int.{ℤ}
use zeropod.Activator.Interface.{Activator, ActivatorError}
use zeropod.Shim.Types.{
  Container, Outcome, activator_error, ShimError, already_restored, no_capacity, failed,
  nil_pointer, running, restore_failed,
}
use zeropod.Shim.Phase.{Clock, set_phase_notify, send_fail_event}
use zeropod.Shim.Timers.{schedule_scale_down}

-- What containerd and runc answer to one attempt: the pid of the new container, if it can be
-- created, whether it has a process and whether that starts.
pub record Attempt : Type 0 where
  pub clock : Clock
  pub created : Option ℕ
  pub has_process : Bool
  pub starts : Bool
  pub elapsed : ℤ
  pub criu_log : Text

pub record RestoreCapacityResponse : Type 0 where
  pub allowed : Bool
  pub redirect_addr : Text

-- `capacity` is the node service's answer to the capacity request.
pub record RestoreCalls : Type 0 where
  pub capacity : Result ShimError RestoreCapacityResponse
  pub first : Attempt
  pub second : Attempt

module _ {S : Type 0} where
  unfoldable pub delete_image : Container S → Container S
  delete_image c = record c { image = false }

  unfoldable pub restore_capacity_request :
      RestoreCalls → Container S → Result ShimError RestoreCapacityResponse
  restore_capacity_request w c =
      if c.cfg.capacity_request
      then w.capacity
      else ok (record { allowed = true; redirect_addr = [] })

module _ (A : Activator) where
  -- After the process has started.
  unfoldable pub restored :
      ℕ → Result ActivatorError (Unit {0}) → Container A.State → Outcome A.State ℕ
  restored pid (ok u) c = (ok pid, c)
  restored pid (err e) c = (err (activator_error e), c)

  unfoldable pub disable_after_restore : ℕ → Option A.State → Container A.State → Outcome A.State ℕ
  unfolding restored
  disable_after_restore pid none c = (err nil_pointer, c)
  disable_after_restore pid (some s) c =
      let (r, s') = A.disable_redirects s in restored pid r (record c { activator = some s' })

  unfoldable pub start_restored : Attempt → ℕ → Container A.State → Outcome A.State ℕ
  unfolding disable_after_restore
  start_restored w pid c =
      let replaced : Container A.State = record c { pid = some pid; process_exited = none } in
      let started = set_phase_notify w.clock running w.elapsed replaced in
      disable_after_restore pid c.activator started

  -- `restore` of the source, before its deferred deletion of the image.
  unfoldable pub restore_process : Attempt → Option ℕ → Container A.State → Outcome A.State ℕ
  unfolding start_restored
  restore_process w none c = (err failed, c)
  restore_process w (some pid) c =
      if not w.has_process
      then (err failed, c)
      else if w.starts
      then start_restored w pid c
      else (err failed, send_fail_event w.clock restore_failed w.criu_log c)

  -- `restore` of the source.
  unfoldable pub restore_once : Attempt → Container A.State → Outcome A.State ℕ
  unfolding restore_process delete_image
  restore_once w c = let (r, c') = restore_process w w.created c in (r, delete_image c')

  -- A failed restore is tried again without the checkpoint, which stays disabled. A panic is not.
  unfoldable pub retry_restore :
      Attempt → Result ShimError ℕ → Container A.State → Outcome A.State ℕ
  retry_restore w (ok pid) c = (ok pid, c)
  retry_restore w (err nil_pointer) c = (err nil_pointer, c)
  retry_restore w (err e) c =
      let disabled : Container A.State = record c {
        cfg = record c.cfg { disable_checkpointing = true };
      } in
      if c.cfg.disable_checkpointing then (err e, c) else restore_once w disabled

  unfoldable pub attempt_restore : RestoreCalls → Container A.State → Outcome A.State ℕ
  unfolding retry_restore
  attempt_restore w c = let (r, c') = restore_once w.first c in retry_restore w.second r c'

  unfoldable pub forwarded :
      Result ActivatorError (Unit {0}) → Container A.State → Outcome A.State ℕ
  forwarded (ok u) c = (err no_capacity, c)
  forwarded (err e) c = (err (activator_error e), c)

  unfoldable pub forward : Text → Option A.State → Container A.State → Outcome A.State ℕ
  unfolding forwarded
  forward addr none c = (err nil_pointer, c)
  forward addr (some s) c =
      let (r, s') = A.forward_to_target s addr in forwarded r (record c { activator = some s' })

  unfoldable pub deny_restore : Text → Container A.State → Outcome A.State ℕ
  unfolding forward
  deny_restore addr c = if is_empty addr then (err no_capacity, c) else forward addr c.activator c

  -- An error of the request is logged, and the restore goes on.
  unfoldable pub answer_capacity :
      RestoreCalls
      → Result ShimError RestoreCapacityResponse
      → Container A.State
      → Outcome A.State ℕ
  unfolding deny_restore
  answer_capacity w (err e) c = attempt_restore w c
  answer_capacity w (ok r) c =
      if r.allowed then attempt_restore w c else deny_restore r.redirect_addr c

  -- `Restore` of the source.
  unfoldable pub restore : RestoreCalls → Container A.State → Outcome A.State ℕ
  unfolding answer_capacity restore_capacity_request
  restore w c =
      if c.is_scaled_down
      then answer_capacity w (restore_capacity_request w c) c
      else (err already_restored, c)

module _ {S : Type 0} where
  unfoldable pub set_exited : ℕ → Container S → Container S
  set_exited code c = record c { process_exited = some code; initial_exited = some code }

  -- The pid of the container, which panics on a nil pointer.
  unfoldable pub return_pid : Container S → Outcome S ℕ
  return_pid c = elim c.pid [ none ↦ (err nil_pointer, c) | some pid ↦ (ok pid, c) ]

  -- What the handler does with the outcome. After an error the container is a nil pointer.
  unfoldable pub handle_restored : Result ShimError ℕ → Container S → Outcome S ℕ
  unfolding set_exited return_pid
  handle_restored (ok pid) c = return_pid (schedule_scale_down (record c { pid = some pid }))
  handle_restored (err already_restored) c = return_pid c
  handle_restored (err no_capacity) c = (ok 0, c)
  handle_restored (err nil_pointer) c = (err nil_pointer, c)
  handle_restored (err e) c =
      return_pid (schedule_scale_down (record (set_exited 1 c) { pid = none }))

unfoldable pub restore_handler :
    (A : Activator) → RestoreCalls → Container A.State → Outcome A.State ℕ
restore_handler A w c = let (r, c') = restore A w c in handle_restored r c'
