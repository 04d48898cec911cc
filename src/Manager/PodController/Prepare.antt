-- ===== src/Manager/PodController/Prepare.antt =====
-- prepareMigrationSource, prepareMigrationTarget and updatePodResources of
-- manager/pod_controller.go.
use zeropod.Base.{
  Bool, true, false, not, ◌&&◌, some, List, [], ◌∷◌, ◌++◌, Result, ok, err, if◌then◌else◌,
}
use zeropod.Base.Int.{ℤ, pos}
use zeropod.Shim.Types.{scaled_down}
use zeropod.Api.Objects.{KubePod}
use zeropod.Api.Migrations.{
  Migration, MigrationContainer, claim, claimed, claimed_and_matches_pod, matches_pod,
}
use zeropod.Kube.{
  KubeError, conflict, already_exists, Call, then_call, ◌>>=◌, ◌>>◌, give, fail, Kube,
}
use zeropod.Manager.Subscriber.{handle_pod}
use zeropod.Manager.PodController.{initial_statuses, owned, new_migration, PodReconciler}

module _ {S : Type 0} (kube : Kube S) (r : PodReconciler S) where
  -- A migration that exists already is as good.
  unfoldable pub or_existing :
      Migration → Result KubeError Migration × S → Result KubeError Migration × S
  or_existing m (ok n, s) = (ok n, s)
  or_existing m (err already_exists, s) = (ok m, s)
  or_existing m (err e, s) = (err e, s)

  -- A failure to send the status is ignored.
  unfoldable pub send_statuses : KubePod → Migration → Call S (Unit {0})
  unfolding initial_statuses
  send_statuses pod m s = (
    ok tt,
    (kube.update_migration_status
        (record m {
          statuses = m.statuses ++ initial_statuses m.spec.live_migration pod m.spec.containers;
        })
        s).1,
  )

  unfoldable pub create_for : KubePod → Result KubeError Migration → Call S (Unit {0})
  unfolding or_existing send_statuses then_call
  create_for pod (err e) = fail e
  create_for pod (ok m) = do
    created ← λ s. or_existing m (kube.create_migration m s)
    send_statuses pod created

  unfoldable pub prepare_migration_source : KubePod → Call S (Unit {0})
  unfolding create_for new_migration
  prepare_migration_source pod = create_for pod (new_migration r pod)

  -- The labels and the resources follow as if each container were scaled down.
  unfoldable pub update_pod_resources : ℤ → KubePod → List MigrationContainer → Call S (Unit {0})
  unfolding handle_pod then_call
  update_pod_resources now pod [] = give tt
  update_pod_resources now pod (c ∷ cs) = do
    handle_pod kube r.handlers record {
      id = [];
      name = c.name;
      pod_name = pod.key.name;
      pod_namespace = pod.key.namespace;
      phase = scaled_down;
      event_time = now;
      event_duration = some (pos 0);
      event_log = [];
      dry_run = false;
    }
    update_pod_resources now pod cs

  -- Whether to come back
  unfoldable pub after_claim :
      ℤ → KubePod → Result KubeError Migration × S → Result KubeError Bool × S
  unfolding update_pod_resources then_call
  after_claim now pod (ok m, s) =
      if not m.spec.live_migration
      then (do update_pod_resources now pod m.spec.containers; give false) s
      else (ok false, s)
  after_claim now pod (err conflict, s) = (ok true, s)
  after_claim now pod (err e, s) = (err e, s)

  unfoldable pub claim_for : ℤ → KubePod → Result KubeError Migration → Call S Bool
  unfolding after_claim
  claim_for now pod (err e) s = (err e, s)
  claim_for now pod (ok m) s = after_claim now pod (kube.update_migration m s)

  unfoldable pub claim_for_target : ℤ → KubePod → List Migration → Call S Bool
  unfolding claim_for owned
  claim_for_target now pod [] s = (ok false, s)
  claim_for_target now pod (mig ∷ migs) s =
      let rest = claim_for_target now pod migs s in
      if claimed_and_matches_pod mig pod
      then (ok false, s)
      else (if matches_pod mig pod && not (claimed mig)
          then claim_for now pod (owned r pod (claim pod.key.name pod.node_name mig)) s
          else rest)

  unfoldable pub prepare_migration_target : ℤ → KubePod → Call S Bool
  unfolding claim_for_target then_call
  prepare_migration_target now pod = do
    migs ← kube.list_migrations pod.key.namespace
    claim_for_target now pod migs
