-- ===== src/Manager/Subscriber.antt =====
-- The subscriber to the status events of a shim (manager/status.go) and the handlers that it calls
-- (manager/pod_labeller.go, manager/pod_scaler.go). The names of containers are DNS labels, so that
-- path.Join has nothing to clean.
use zeropod.Base.{
  Bool, true, false, List, [], ◌∷◌, ◌++◌, Text, codes, Result, ok, err, if◌then◌else◌,
}
use zeropod.Shim.Types.{
  ContainerPhase, ContainerStatus, ShimError, scaled_down, running, stopping, checkpoint_failed,
  restore_failed,
}
use zeropod.Api.Objects.{KubePod}
use zeropod.Kube.{KubeError, not_found, kube_failed, Call, then_call, ◌>>=◌, give, fail, Kube}
use zeropod.Manager.Scaler.{Json, Pod, PodContainer, reconcile_container_resources}

abbrev pub PodHandler : Type 0 → Type 0
PodHandler S = ContainerStatus → KubePod → Call S KubePod

-- The label of the status of a container.
abbrev pub status_label : Text → Text
status_label name = codes "status.zeropod.ctrox.dev/" ++ name

abbrev pub phase_text : ContainerPhase → Text
phase_text scaled_down = codes "SCALED_DOWN"
phase_text running = codes "RUNNING"
phase_text stopping = codes "STOPPING"
phase_text checkpoint_failed = codes "CHECKPOINT_FAILED"
phase_text restore_failed = codes "RESTORE_FAILED"

unfoldable pub set_label : ContainerStatus → KubePod → KubePod
set_label status pod = record pod {
  labels = (status_label status.name, phase_text status.phase) ∷ pod.labels;
}

unfoldable pub labelled : ContainerPhase → ContainerStatus → KubePod → KubePod
unfolding set_label
labelled running status pod = set_label status pod
labelled scaled_down status pod = set_label status pod
labelled _ status pod = pod

-- PodLabeller.Handle
unfoldable pub pod_labeller : {S : Type 0} → PodHandler S
unfolding labelled
pod_labeller status pod s = (ok (labelled status.phase status pod), s)

abbrev pub scaled_or_error : {S : Type 0} → KubePod → Result ShimError Pod → Call S KubePod
scaled_or_error pod (ok p) = give (record pod { spec = p })
scaled_or_error pod (err e) = fail kube_failed

-- PodScaler.Handle
unfoldable pub pod_scaler : {S : Type 0} → Json → PodHandler S
unfolding reconcile_container_resources
pod_scaler js status pod =
    scaled_or_error pod (reconcile_container_resources js status.name status.phase pod.spec)

module _ {S : Type 0} (kube : Kube S) where
  unfoldable pub run_handlers : List (PodHandler S) → PodHandler S
  unfolding then_call
  run_handlers [] status pod = give pod
  run_handlers (h ∷ hs) status pod = do pod' ← h status pod; run_handlers hs status pod'

  abbrev pub with_containers : List PodContainer → KubePod → KubePod
  with_containers cs pod = record pod { spec = record pod.spec { containers = cs } }

  -- Without the resize subresource the pod is updated.
  unfoldable pub or_update :
      KubePod → Result KubeError KubePod × S → Result KubeError (Unit {0}) × S
  unfolding then_call
  or_update pod (ok p, s) = (ok tt, s)
  or_update pod (err not_found, s) = (do _ ← kube.update_pod pod; give tt) s
  or_update pod (err e, s) = (err e, s)

  -- The containers are changed after the other fields.
  unfoldable pub apply_handled : List PodContainer → KubePod → Call S (Unit {0})
  unfolding or_update then_call
  apply_handled before pod = do
    sent ← kube.update_pod (with_containers before pod)
    λ s.
        or_update (with_containers pod.spec.containers sent)
          (kube.resize_pod (with_containers pod.spec.containers sent) s)

  unfoldable pub handle_pod : List (PodHandler S) → ContainerStatus → Call S (Unit {0})
  unfolding run_handlers apply_handled then_call
  handle_pod handlers status = kube.retry_on_conflict (do
    pod ← kube.get_pod record { name = status.pod_name; namespace = status.pod_namespace }
    pod' ← run_handlers handlers status pod
    apply_handled pod.spec.containers pod')

  abbrev pub is_nil : {A : Type 0} → List A → Bool
  is_nil [] = true
  is_nil (x ∷ xs) = false

  -- `delete_metrics` is Collector.deleteMetrics.
  unfoldable pub on_phase :
      (ContainerStatus → S → S)
      → List (PodHandler S)
      → ContainerPhase
      → ContainerStatus
      → Call S (Unit {0})
  unfolding handle_pod
  on_phase delete_metrics handlers stopping status s = (ok tt, delete_metrics status s)
  on_phase delete_metrics handlers _ status s =
      if is_nil handlers then (ok tt, s) else handle_pod handlers status s

  unfoldable pub on_status :
      (ContainerStatus → S → S) → List (PodHandler S) → ContainerStatus → Call S (Unit {0})
  unfolding on_phase
  on_status delete_metrics handlers status = on_phase delete_metrics handlers status.phase status
