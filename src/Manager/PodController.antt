-- ===== src/Manager/PodController.antt =====
-- The pod controller (`podReconciler` of manager/pod_controller.go): it creates a migration for a pod
-- that leaves its node, claims one for a pod that comes, and keeps account of the node's resources.
pub mod Prepare
pub mod Accounts
pub mod Reconcile
use zeropod.Base.{
  ℕ, ◌+◌, ◌*◌, ◌^◌, Bool, true, false, not, ◌&&◌, ◌||◌, Option, none, some, List, [], ◌∷◌, ◌++◌,
  Text, codes, same, is_empty, Result, ok, err, if◌then◌else◌, is_some,
}
use zeropod.Base.Int.{ℤ, pos, ltb_ℤ, clamp64, ◌-ℤ◌}
use zeropod.Config.{annotation, has_annotation, any_migration_annotated, live_migration_annotated}
use zeropod.Shim.Types.{ContainerStatus, scaled_down}
use zeropod.Api.Objects.{
  Key, KubePod, Node, StatusOfContainer, PodPhase, pod_pending, pod_running, pod_other,
}
use zeropod.Api.Migrations.{
  Migration, MigrationContainer, MigrationContainerStatus, MigrationPhase, pending, failed, unset,
  claim, claimed, claimed_and_matches_pod, matches_pod, pod_template_hash_key,
}
use zeropod.Kube.{
  KubeError, conflict, already_exists, kube_failed, Call, then_call, found_or_none, ◌>>=◌, ◌>>◌,
  give, fail, Kube,
}
use zeropod.Manager.Scaler.{ResourceList, amount}
use zeropod.Manager.Taints.{has_taint, remove_taint}
use zeropod.Manager.Trackers.{Tracker, cpu, memory, is_below_threshold}
use zeropod.Manager.Subscriber.{PodHandler, status_label, handle_pod}

abbrev pub checkpoint_cleanup_finalizer : Text
checkpoint_cleanup_finalizer = codes "migration.runtime.zeropod.ctrox.dev/checkpoint-cleanup"

-- `own` is controllerutil.SetOwnerReference.
pub record PodReconciler (S : Type 0) : Type 0 where
  pub node_name : Text
  pub auto_gc_migrations : Bool
  pub handlers : List (PodHandler S)
  pub own : KubePod → Migration → Result KubeError Migration

-- What a reconciliation asks for: to come back after so many nanoseconds, never if it is 0.
abbrev pub RequeueAfter : Type 0
RequeueAfter = ℕ

abbrev pub min_taint_duration : ℕ
min_taint_duration = 60 * 10 ^ 9

abbrev pub is_pending : PodPhase → Bool
is_pending pod_pending = true
is_pending _ = false

abbrev pub is_running : PodPhase → Bool
is_running pod_running = true
is_running _ = false

abbrev pub is_class : Option Text → Bool
is_class none = false
is_class (some c) = same c (codes "zeropod")

unfoldable pub is_zeropod : KubePod → Bool
is_zeropod pod = is_class pod.runtime_class

unfoldable pub container_running : KubePod → Text → Bool
container_running pod name =
    has_annotation pod.labels (status_label name)
    && same (annotation pod.labels (status_label name)) (codes "RUNNING")

-- The requests of resources that may be missing.
abbrev pub requested_by : (ResourceList → Option ℕ) → Option ResourceList → ℕ
requested_by f none = 0
requested_by f (some r) = amount (f r)

-- The loop over the statuses of a pod's containers.
unfoldable pub add_containers : (ResourceList → Option ℕ) → ℕ → List StatusOfContainer → ℕ
add_containers f sum [] = sum
add_containers f sum (c ∷ cs) = add_containers f (sum + requested_by f c.resources) cs

-- The loop over the pods of the cluster.
unfoldable pub add_pods : Text → (ResourceList → Option ℕ) → ℕ → List KubePod → ℕ
unfolding add_containers
add_pods node_name f sum [] = sum
add_pods node_name f sum (pod ∷ pods) =
    add_pods node_name f
      (if not (same pod.node_name node_name)
        then sum
        else (if not (is_running pod.phase)
            then sum
            else add_containers f (sum + requested_by f pod.resources) pod.statuses))
      pods

unfoldable pub added_recently : ℤ → Option ℤ → Bool
added_recently now none = false
added_recently now (some t) = ltb_ℤ (clamp64 (now -ℤ t)) (pos min_taint_duration)

unfoldable pub migration_containers :
    List StatusOfContainer → Result KubeError (List MigrationContainer)
migration_containers [] = ok []
migration_containers (c ∷ cs) = add (c.container_id) (migration_containers cs)
  where
    add :
        Option Text
        → Result KubeError (List MigrationContainer)
        → Result KubeError (List MigrationContainer)
    add none rest = err kube_failed
    add (some id) (err e) = err e
    add (some id) (ok rest) = ok (
        record { name = c.name; id = id; image_server = none; page_server = none; ports = [] }
        ∷ rest)

abbrev pub new_status : Text → MigrationPhase → MigrationContainerStatus
new_status name phase = record {
  name = name;
  phase = phase;
  paused_at = pos 0;
  restored_at = pos 0;
  migration_duration = pos 0;
}

-- A container that runs cannot be migrated but live.
unfoldable pub initial_statuses :
    Bool → KubePod → List MigrationContainer → List MigrationContainerStatus
unfolding container_running
initial_statuses live pod [] = []
initial_statuses live pod (c ∷ cs) =
    new_status c.name (if not live && container_running pod c.name then failed else pending)
    ∷ initial_statuses live pod cs

module _ {S : Type 0} (r : PodReconciler S) where
  unfoldable pub is_migration_candidate : KubePod → Bool
  unfolding is_zeropod
  is_migration_candidate pod =
      same pod.node_name r.node_name
      && is_zeropod pod
      && any_migration_annotated pod.spec.annotations

  unfoldable pub is_migration_source : KubePod → Bool
  unfolding is_migration_candidate
  is_migration_source pod = is_migration_candidate pod && pod.is_deleted

  unfoldable pub is_migration_target : KubePod → Bool
  unfolding is_migration_candidate
  is_migration_target pod =
      is_migration_candidate pod
      && not pod.is_deleted
      && not (is_empty pod.node_name)
      && is_pending pod.phase

  unfoldable pub owned : KubePod → Migration → Result KubeError Migration
  owned pod m = if r.auto_gc_migrations then r.own pod m else ok m

  abbrev migration_of : KubePod → List MigrationContainer → Migration
  migration_of pod cs = record {
    key = pod.key;
    version = 0;
    is_deleted = false;
    finalizers = checkpoint_cleanup_finalizer ∷ [];
    owners = [];
    spec = record {
      live_migration = live_migration_annotated pod.spec.annotations;
      restore_ready = false;
      source_node = pod.node_name;
      target_node = [];
      source_pod = pod.key.name;
      target_pod = [];
      target_pod_ip = [];
      pod_template_hash = annotation pod.labels pod_template_hash_key;
      containers = cs;
    };
    statuses = [];
  }

  unfoldable pub migration_for :
      KubePod → Result KubeError (List MigrationContainer) → Result KubeError Migration
  unfolding owned
  migration_for pod (err e) = err e
  migration_for pod (ok cs) = owned pod (migration_of pod cs)

  unfoldable pub new_migration : KubePod → Result KubeError Migration
  unfolding migration_for migration_containers
  new_migration pod = migration_for pod (migration_containers pod.statuses)
