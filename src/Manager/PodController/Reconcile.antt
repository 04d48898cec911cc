-- ===== src/Manager/PodController/Reconcile.antt =====
-- Reconcile of manager/pod_controller.go.
use zeropod.Base.{◌*◌, ◌^◌, Bool, Option, none, some, Result, ok, err, if◌then◌else◌}
use zeropod.Base.Int.{ℤ}
use zeropod.Api.Objects.{Key, KubePod}
use zeropod.Api.Migrations.{Migration}
use zeropod.Kube.{KubeError, Call, then_call, found_or_none, ◌>>=◌, ◌>>◌, give, Kube}
use zeropod.Manager.Trackers.{Tracker}
use zeropod.Manager.PodController.{
  RequeueAfter, is_migration_source, is_migration_target, PodReconciler,
}
use zeropod.Manager.PodController.Prepare.{prepare_migration_source, prepare_migration_target}
use zeropod.Manager.PodController.Accounts.{update_node_resources}

module _ {S : Type 0} (kube : Kube S) (tr : Tracker S) (r : PodReconciler S) where
  unfoldable pub reconcile_source : KubePod → Call S (Unit {0})
  unfolding is_migration_source prepare_migration_source
  reconcile_source pod s =
      if is_migration_source r pod then prepare_migration_source kube r pod s else (ok tt, s)

  abbrev pub requeue_soon : RequeueAfter → Bool → RequeueAfter
  requeue_soon after requeue = if requeue then 100 * 10 ^ 6 else after

  unfoldable pub reconcile_target : ℤ → RequeueAfter → KubePod → Call S RequeueAfter
  unfolding is_migration_target prepare_migration_target then_call
  reconcile_target now after pod s =
      if is_migration_target r pod
      then (do requeue ← prepare_migration_target kube r now pod; give (requeue_soon after requeue))
          s
      else (ok after, s)

  -- A pod that is gone cannot be migrated any more.
  unfoldable pub reconcile_pod : ℤ → RequeueAfter → Option KubePod → Call S RequeueAfter
  unfolding reconcile_source reconcile_target then_call
  reconcile_pod now after none = give 0
  reconcile_pod now after (some pod) = do reconcile_source pod; reconcile_target now after pod

  -- Nothing is to be done if there is a migration already.
  unfoldable pub unless_migrating :
      Result KubeError Migration × S → Call S RequeueAfter → Result KubeError RequeueAfter × S
  unless_migrating (ok m, s) next = (ok 0, s)
  unless_migrating (err e, s) next = next s

  unfoldable pub reconcile : ℤ → Key → Call S RequeueAfter
  unfolding update_node_resources unless_migrating reconcile_pod then_call
  reconcile now key = do
    after ← update_node_resources kube tr r now
    λ s.
        unless_migrating (kube.get_migration key s)
          (do pod ← λ t. found_or_none (kube.get_pod key t); reconcile_pod now after pod)
