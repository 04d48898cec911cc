-- ===== src/Manager/PodController/Accounts.antt =====
-- updateNodeResources of manager/pod_controller.go.
pub mod Sums
use zeropod.Base.{
  ℕ, ◌+◌, ◌*◌, ◌^◌, Bool, true, false, not, ◌&&◌, ◌||◌, Option, none, some, List, [], ◌∷◌, ◌++◌,
  Text, codes, same, is_empty, Result, ok, err, if◌then◌else◌, is_some,
}
use zeropod.Base.Int.{ℤ, pos, ltb_ℤ, clamp64, ◌-ℤ◌}
use zeropod.Config.{annotation, has_annotation, any_migration_annotated, live_migration_annotated}
use zeropod.Shim.Types.{ContainerStatus, scaled_down}
use zeropod.Api.Objects.{
  Key, KubePod, Node, StatusOfContainer, PodPhase, pod_pending, pod_running, pod_other,
}
use zeropod.Api.Migrations.{
  Migration, MigrationContainer, MigrationContainerStatus, MigrationPhase, pending, failed, unset,
  claim, claimed, claimed_and_matches_pod, matches_pod, pod_template_hash_key,
}
use zeropod.Kube.{
  KubeError, conflict, already_exists, kube_failed, Call, then_call, found_or_none, ◌>>=◌, ◌>>◌,
  give, fail, Kube,
}
use zeropod.Manager.Scaler.{ResourceList, amount}
use zeropod.Manager.Taints.{has_taint, remove_taint}
use zeropod.Manager.Trackers.{Tracker, cpu, memory, is_below_threshold}
use zeropod.Manager.Subscriber.{PodHandler, status_label, handle_pod}
use zeropod.Manager.PodController.{
  checkpoint_cleanup_finalizer, RequeueAfter, min_taint_duration, is_pending, is_running, is_class,
  is_zeropod, container_running, requested_by, add_containers, add_pods, added_recently,
  migration_containers, new_status, initial_statuses, is_migration_candidate, is_migration_source,
  is_migration_target, owned, migration_for, new_migration, PodReconciler,
}

module _ {S : Type 0} (kube : Kube S) (tr : Tracker S) (r : PodReconciler S) where
  unfoldable pub lift_taint : ℤ → Node → ℕ → ℕ → Bool × Option ℤ → Call S RequeueAfter
  unfolding added_recently is_below_threshold remove_taint then_call
  lift_taint now node cpus mem (false, t) s = (ok 0, s)
  lift_taint now node cpus mem (true, t) s =
      if added_recently now t
      then (ok min_taint_duration, s)
      else (if is_below_threshold tr cpu s cpus && is_below_threshold tr memory s mem
          then (do _ ← kube.update_node (record node { taints = remove_taint node.taints }); give 0)
              s
          else (ok 0, s))

  abbrev pub change : (S → S) → Call S (Unit {0})
  change f s = (ok tt, f s)

  unfoldable pub update_node_resources : ℤ → Call S RequeueAfter
  unfolding add_pods lift_taint has_taint then_call
  update_node_resources now = do
    node ← kube.get_node r.node_name
    change (λ s.
        tr.set_capacity memory (amount node.capacity.memory)
          (tr.set_capacity cpu (amount node.capacity.cpu) s))
    pods ← kube.list_pods
    change (λ s.
        tr.set_requested memory (add_pods r.node_name (λ q. q.memory) 0 pods)
          (tr.set_requested cpu (add_pods r.node_name (λ q. q.cpu) 0 pods) s))
    lift_taint now node (add_pods r.node_name (λ q. q.cpu) 0 pods)
        (add_pods r.node_name (λ q. q.memory) 0 pods) (has_taint node.taints)
