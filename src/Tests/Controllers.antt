-- ===== src/Tests/Controllers.antt =====
-- The theorems on capacity, on the controllers and on the race for a migration, at a small cluster.
use zeropod.Base.{
  ℕ, suc, ◌+◌, ◌≡◌, refl, sym, ap, Bool, true, false, Option, none, some, List, [], ◌∷◌, Text,
  codes, Result, ok, err, inl, inr, if◌then◌else◌, if-cases, ◌==◌, Member,
}
use zeropod.Base.Int.{pos}
use zeropod.Config.{annotation, has_annotation, any_migration_annotated}
use zeropod.Api.Objects.{KubePod}
use zeropod.Api.Migrations.{
  Migration, MigrationContainer, claim, claimed_and_matches_pod, matches_pod, completed, final,
}
use zeropod.Kube.{KubeError}
use zeropod.Manager.Scaler.{ResourceList}
use zeropod.Manager.Trackers.{ResourceName, cpu, memory}
use zeropod.Manager.Node.Capacity.{
  RestoreCapacityRequest, deny, get_container_resources, has_capacity, requested_resources,
  restore_capacity, evict_pod,
}
use zeropod.Manager.Node.Capacity.Denied.{restore_capacity-IsDenied}
use zeropod.Manager.Node.Capacity.Evictions.{evict_pod-count}
use zeropod.Manager.Node.Service.{claim_first}
use zeropod.Manager.Node.Race.{World, here, step, tries, after_round}
use zeropod.Manager.Node.Race.Exclusive.{race-Exclusive}
use zeropod.Manager.PodController.{PodReconciler}
use zeropod.Manager.PodController.Accounts.{update_node_resources}
use zeropod.Manager.PodController.Accounts.Sums.{node_total, update_node_resources-sums}
use zeropod.Manager.MigrationController.{ImageStore, Finalizers, reconcile_migration}
use zeropod.Manager.MigrationController.Images.Reconciled.{reconcile_migration-Gone}
use zeropod.Tests.Clusters.{Cluster, cluster, cluster-laws, cluster-OptimisticLock, tracker}
use zeropod.Tests.Objects.{start, free_migration, waiting, pod_key, kube_pod}
use zeropod.Tests.Scalers.{json}

abbrev node_name : Text
node_name = codes "n1"

-- The pod goes to another node, which has got its IP.
abbrev leaving : Cluster
leaving = record start {
  migration = record free_migration {
    spec = record free_migration.spec { target_pod_ip = codes "10.0.0.2" };
  };
}

abbrev request : RestoreCapacityRequest
request = record { pod = pod_key; container_name = codes "app"; checkpoint_memory_bytes = 0 }

restore_capacity-IsDenied_example :
    (pod : KubePod) × (res : ResourceList) × ((cluster.get_pod pod_key leaving).0 ≡ ok pod)
    × (get_container_resources json pod (codes "app") ≡ ok res)
    × (has_capacity cluster tracker node_name
          (requested_resources cluster tracker node_name request res)
          (cluster.get_pod pod_key leaving).1
        ≡ false)
    × ((restore_capacity cluster tracker node_name json (pos 5) request leaving).1.is_pod_gone
        ≡ true)
unfolding restore_capacity zeropod.Base.◌>>=◌ has_annotation any_migration_annotated
restore_capacity-IsDenied_example =
    restore_capacity-IsDenied cluster tracker node_name cluster-laws (λ k s. s.is_pod_gone ≡ true)
      (λ k s e. refl) (λ k j s g. g) (λ k s g. g) json (pos 5) request leaving
      (deny (codes "10.0.0.2")) refl refl

evict_pod-count_example :
    (evict_pod cluster tracker node_name (pos 5) pod_key kube_pod leaving).1.tracker.evicted
    ≡ (if any_migration_annotated kube_pod.spec.annotations then 0 + 2 else 0 + 1)
unfolding evict_pod any_migration_annotated has_annotation
evict_pod-count_example =
    evict_pod-count cluster tracker node_name cluster-laws (λ s. s.tracker.evicted) (λ n s. refl)
      (λ n s. refl) (λ k s. refl) (λ k s. refl) (λ s. refl) (pos 5) pod_key kube_pod leaving
      (deny (codes "10.0.0.2")) refl

abbrev reconciler : PodReconciler Cluster
reconciler = record {
  node_name = codes "n1";
  auto_gc_migrations = false;
  handlers = [];
  own = λ p m. ok m;
}

told :
    (r : ResourceName) (q : ℕ) (t : Cluster) → tracker.requested r (tracker.set_requested r q t) ≡ q
told cpu q t = refl
told memory q t = refl

update_node_resources-sums_example :
    (t : Cluster) × (pods : List KubePod) × ((cluster.list_pods t).0 ≡ ok pods)
    × ((update_node_resources cluster tracker reconciler (pos 5) start).1.tracker.requested_cpu
        ≡ node_total (codes "n1") (λ q. q.cpu) pods)
    × ((update_node_resources cluster tracker reconciler (pos 5) start).1.tracker.requested_memory
        ≡ node_total (codes "n1") (λ q. q.memory) pods)
unfolding update_node_resources
update_node_resources-sums_example =
    update_node_resources-sums cluster tracker reconciler (λ n node s. refl)
      (record { told = told; untouched = λ q t. refl }) (pos 5) start 0 refl

abbrev store : ImageStore Cluster
store = record {
  exists = λ id s. (ok true, s);
  remove_all = λ id s. (ok tt, record s { is_image_gone = true });
}

abbrev finalizers : Finalizers
finalizers = record { contains = λ f fs. true; add = λ f fs. f ∷ fs; remove = λ f fs. [] }

abbrev finished : Migration
finished = record free_migration { statuses = record waiting { phase = completed } ∷ [] }

abbrev container : MigrationContainer
container = record {
  name = codes "app";
  id = codes "a1";
  image_server = some record { host = codes "h0"; port = 90 };
  page_server = none;
  ports = 80 ∷ [];
}

gone_stays :
    (id : Text) (m : Migration) (s : Cluster)
    → s.is_image_gone ≡ true
    → (cluster.update_migration m s).1.is_image_gone ≡ true
gone_stays id m s h =
    if-cases {B = Result KubeError Migration × Cluster} (λ r. r.1.is_image_gone ≡ true)
      (m.version == s.migration.version) (λ e. h) (λ e. h)

reconcile_migration-Gone_example :
    (reconcile_migration cluster store finalizers
      (codes "n0")
      (some finished)
      start).1.is_image_gone
    ≡ true
unfolding reconcile_migration final
reconcile_migration-Gone_example =
    reconcile_migration-Gone cluster store finalizers (codes "n0") (λ id s. s.is_image_gone ≡ true)
      (record {
        missing = λ id s e. absurd cc;
        removed = λ id s e. refl;
        exists-keeps = λ i j s g. g;
        remove-keeps = λ i j s g. refl;
      })
      gone_stays finished start refl refl refl (record waiting { phase = completed }) container
      (inl refl) refl refl

abbrev begin : World Cluster
begin = record { cluster = start; history = free_migration ∷ []; holders = [] }

abbrev ended : World Cluster
ended =
    after_round cluster (λ s. s.migration) begin (codes "app-1")
      (claim_first cluster (codes "n1") kube_pod (free_migration ∷ []) start)

race-Exclusive_example :
    (codes "app-1" ≡ codes "app-1") × (ended.cluster.migration.spec.target_pod ≡ codes "app-1")
unfolding claim_first claimed_and_matches_pod matches_pod annotation claim
race-Exclusive_example =
    race-Exclusive cluster (λ s. s.migration) cluster-OptimisticLock start ended refl refl
      (step here (tries free_migration kube_pod (codes "n1") (inl refl) refl refl)) (codes "app-1")
      (codes "app-1") (inl refl) (inl refl)
