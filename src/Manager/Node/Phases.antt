-- ===== src/Manager/Node/Phases.antt =====
-- The phase of a container under the updates of the node service (manager/node/service.go).
use zeropod.Base.{
  ◌≡◌, refl, sym, ◌∙◌, ap, false, Option, some, List, [], ◌∷◌, Text, same, Result, ok,
  if◌then◌else◌, if-cases, if_true, if_false, same_refl, eq_of_same, arith,
}
use zeropod.Base.Int.{ℤ, pos, eqb_ℤ}
use zeropod.Api.Migrations.{
  MigrationPhase, MigrationContainerStatus, Migration, unset, pending, running, completed, failed,
  unclaimed, is_completed, is_failed,
}
use zeropod.Kube.{KubeError}
use zeropod.Manager.Node.Updates.{
  Update, find_status, set_status, get_container_status, set_or_update_container_status,
  empty_status, to_phase, restored_status, paused_status, finished_update, evac_status_update,
  failed_update, unclaimed_update,
}

abbrev pub phase_of : Text → Migration → MigrationPhase
phase_of name m = (get_container_status m name).phase

-- The migration after an update was sent, if one was needed.
abbrev pub updated : Update → Migration → Migration
updated u m = elim (u m) [ ok (some m') ↦ m' | _ ↦ m ]

-- The status that an update starts from.
known_status : Text → List MigrationContainerStatus → MigrationContainerStatus
known_status name [] = empty_status name
known_status name (s ∷ ss) = let rest = known_status name ss in if same s.name name then s else rest

known-phase :
    (name : Text) (ss : List MigrationContainerStatus)
    → (known_status name ss).phase ≡ (find_status name ss).phase
unfolding known_status find_status
known-phase name [] = refl
known-phase name (s ∷ ss) = ground (arith, known-phase name ss)

module _ (f : MigrationContainerStatus → MigrationContainerStatus)
    (f-name : (s : MigrationContainerStatus) → (f s).name ≡ s.name) where
  find-set :
      (name : Text) (ss : List MigrationContainerStatus)
      → find_status name (set_status name f ss) ≡ f (known_status name ss)
  unfolding known_status find_status set_status
  find-set name [] = if_true _ (ap (λ n. same n name) (f-name (empty_status name)) ∙ same_refl name)
  find-set name (s ∷ ss) =
      if-cases (λ r. find_status name r ≡ f (if same s.name name then s else known_status name ss))
        (same s.name name)
        (λ e. if_true _ (ap (λ n. same n name) (f-name s) ∙ e) ∙ ap f (sym (if_true _ e)))
        (λ e. if_false _ e ∙ find-set name ss ∙ ap f (sym (if_false _ e)))

  find-set_other :
      (other name : Text) (ss : List MigrationContainerStatus)
      → same name other ≡ false
      → find_status other (set_status name f ss) ≡ find_status other ss
  unfolding find_status set_status
  find-set_other other name [] h =
      if_false _ (ap (λ n. same n other) (f-name (empty_status name)) ∙ h)
  find-set_other other name (s ∷ ss) h =
      if-cases (λ r. find_status other r ≡ (if same s.name other then s else find_status other ss))
        (same s.name name)
        (λ e.
          let is_name = eq_of_same s.name name e in
          if_false _ (ap (λ n. same n other) (f-name s ∙ is_name) ∙ h)
          ∙ sym (if_false _ (ap (λ n. same n other) is_name ∙ h)))
        (λ e. ap (λ t. if same s.name other then s else t) (find-set_other other name ss h))

  -- A change of the status of a container that keeps its name is what is read back, and starts from
  -- the phase that was read before; the statuses of the other containers stay.
  pub set-reads_back :
      (name other : Text) (m : Migration)
      → same name other ≡ false
      → ((s : MigrationContainerStatus) × (s.phase ≡ phase_of name m)
          × (get_container_status (set_or_update_container_status m name f) name ≡ f s))
        × (get_container_status (set_or_update_container_status m name f) other
            ≡ get_container_status m other)
  unfolding get_container_status set_or_update_container_status
  set-reads_back name other m h = (
    (known_status name m.statuses, known-phase name m.statuses, find-set name m.statuses),
    find-set_other other name m.statuses h,
  )

  set-phase :
      (g : MigrationPhase → MigrationPhase)
      → ((s : MigrationContainerStatus) → (f s).phase ≡ g s.phase)
      → (name : Text) (m : Migration)
      → phase_of name (set_or_update_container_status m name f) ≡ g (phase_of name m)
  unfolding get_container_status set_or_update_container_status
  set-phase g f-phase name m =
      ap (λ s. s.phase) (find-set name m.statuses)
      ∙ f-phase (known_status name m.statuses)
      ∙ ap g (known-phase name m.statuses)

-- The phase that a restore leaves, and that an evacuation leaves.
abbrev pub phase_after_restore : MigrationPhase → MigrationPhase → MigrationPhase
phase_after_restore p q = if is_failed q then q else p

abbrev pub phase_after_evac : MigrationPhase → MigrationPhase
phase_after_evac q = if is_completed q then q else running

restored-name :
    (p : MigrationPhase) (d e : ℤ) (s : MigrationContainerStatus)
    → (restored_status p d e s).name ≡ s.name
unfolding restored_status
restored-name p d e s =
    if-cases (λ (t : MigrationContainerStatus). t.name ≡ s.name) (is_failed s.phase) (λ x. refl)
      (λ x.
        if-cases (λ (t : MigrationContainerStatus). t.name ≡ s.name) (eqb_ℤ d (pos 0)) (λ y. refl)
          (λ y. refl))

restored-phase :
    (p : MigrationPhase) (d e : ℤ) (s : MigrationContainerStatus)
    → (restored_status p d e s).phase ≡ phase_after_restore p s.phase
unfolding restored_status
restored-phase p d e s =
    if-cases (λ (t : MigrationContainerStatus). t.phase ≡ phase_after_restore p s.phase)
      (is_failed s.phase) (λ x. sym (if_true _ x))
      (λ x.
        if-cases (λ (t : MigrationContainerStatus). t.phase ≡ phase_after_restore p s.phase)
          (eqb_ℤ d (pos 0)) (λ y. sym (if_false _ x)) (λ y. sym (if_false _ x)))

finished-phase :
    (name : Text) (p : MigrationPhase) (d e : ℤ) (m : Migration)
    → phase_of name (updated (finished_update name p d e) m)
      ≡ phase_after_restore p (phase_of name m)
unfolding finished_update
finished-phase name p d e m =
    set-phase (restored_status p d e) (restored-name p d e) (phase_after_restore p)
      (restored-phase p d e) name m

evac-phase :
    (name : Text) (t : ℤ) (m : Migration)
    → phase_of name (updated (evac_status_update name t) m) ≡ phase_after_evac (phase_of name m)
unfolding evac_status_update
evac-phase name t m =
    if-cases {B = Result KubeError (Option Migration)}
      (λ r.
        phase_of name (elim r [ ok (some m') ↦ m' | _ ↦ m ]) ≡ phase_after_evac (phase_of name m))
      (is_completed (phase_of name m)) (λ e. sym (if_true _ e))
      (λ e.
        set-phase (paused_status t) (λ s. refl) (λ q. running) (λ s. refl) name m
        ∙ sym (if_false _ e))

-- The updates of a container's status refine the four moves of its phase: the end of a restore keeps
-- failed and else sets its own phase, an evacuation keeps completed and else sets running, and the
-- failure and the missing claim set failed and unclaimed whatever the phase was.
pub updates-Refine :
    (name : Text) (p : MigrationPhase) (t d e : ℤ) (m : Migration)
    → (phase_of name (updated (finished_update name p d e) m)
        ≡ phase_after_restore p (phase_of name m))
      × (phase_of name (updated (evac_status_update name t) m) ≡ phase_after_evac (phase_of name m))
      × (phase_of name (updated (failed_update name) m) ≡ failed)
      × (phase_of name (updated (unclaimed_update name) m) ≡ unclaimed)
unfolding failed_update unclaimed_update
updates-Refine name p t d e m = (
  finished-phase name p d e m,
  evac-phase name t m,
  set-phase (to_phase failed) (λ s. refl) (λ q. failed) (λ s. refl) name m,
  set-phase (to_phase unclaimed) (λ s. refl) (λ q. unclaimed) (λ s. refl) name m,
)

restore_evac : (q : MigrationPhase) → phase_after_restore completed (phase_after_evac q) ≡ completed
restore_evac unset = refl
restore_evac pending = refl
restore_evac running = refl
restore_evac completed = refl
restore_evac failed = refl
restore_evac unclaimed = refl

-- Where the status of the container is not set to failed, the end of a restore that succeeded and
-- the evacuation lead to completed in either order.
pub evac-restore :
    (name : Text) (t d e : ℤ) (m : Migration)
    → is_failed (phase_of name m) ≡ false
    → (phase_of name
          (updated (evac_status_update name t) (updated (finished_update name completed d e) m))
        ≡ completed)
      × (phase_of name
            (updated (finished_update name completed d e) (updated (evac_status_update name t) m))
          ≡ completed)
evac-restore name t d e m h = (
  evac-phase name t (updated (finished_update name completed d e) m)
      ∙ ap phase_after_evac (finished-phase name completed d e m ∙ if_false _ h),
  finished-phase name completed d e (updated (evac_status_update name t) m)
      ∙ ap (phase_after_restore completed) (evac-phase name t m)
      ∙ restore_evac (phase_of name m),
)
