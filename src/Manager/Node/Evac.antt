-- ===== src/Manager/Node/Evac.antt =====
-- PrepareEvac and Evac of manager/node/service.go: the side of the node that a container leaves.
pub mod Served
use zeropod.Base.{
  ℕ, Bool, true, false, not, ◌&&◌, Option, none, some, List, [], ◌∷◌, Text, Result, ok, err,
  if◌then◌else◌,
}
use zeropod.Base.Int.{ℤ}
use zeropod.Api.Objects.{Key, KubePod}
use zeropod.Api.Migrations.{Migration, MigrationServer, claimed}
use zeropod.Kube.{
  KubeError, kube_failed, Call, then_call, found_or_none, ◌>>=◌, ◌>>◌, give, fail, Kube,
}
use zeropod.Manager.Node.Updates.{evac_update, evac_status_update, unclaimed_update}
use zeropod.Manager.Node.Service.{
  NodeService, Images, PodInfo, update_migration_with, update_migration_status_with,
}

abbrev pub if_claimed : Option Migration → Option (Unit {0})
if_claimed none = none
if_claimed (some m) = if claimed m then some tt else none

abbrev pub if_ready : Migration → Option (Unit {0})
if_ready m = if m.spec.restore_ready then some tt else none

module _ {S : Type 0} (kube : Kube S) (images : Images S) (ns : NodeService) where
  unfoldable pub await_claim : Key → Call S (Unit {0})
  unfolding found_or_none then_call
  await_claim key =
      kube.poll
        (λ s. then_call (found_or_none (kube.get_migration key s)) (λ m. give (if_claimed m)))

  unfoldable pub await_ready : Key → Call S (Unit {0})
  unfolding then_call
  await_ready key = kube.poll (do m ← kube.get_migration key; give (if_ready m))

  -- Whether the update that follows a failure succeeds or not, the failure is the error.
  unfoldable pub or_set_unclaimed :
      Key → Text → Result KubeError (Unit {0}) × S → Result KubeError (Unit {0}) × S
  unfolding update_migration_status_with unclaimed_update
  or_set_unclaimed key name (ok u, s) = (ok tt, s)
  or_set_unclaimed key name (err e, s) =
      (err e, (update_migration_status_with kube key (unclaimed_update name) s).1)

  unfoldable pub prepare_evac : PodInfo → Call S (Unit {0})
  unfolding await_claim await_ready or_set_unclaimed then_call
  prepare_evac info = do
    λ s. or_set_unclaimed info.key info.container_name (await_claim info.key s)
    await_ready info.key

  -- Only for a live migration
  unfoldable pub page_server : Bool → Text → Call S (Option MigrationServer)
  page_server live id s =
      let started = images.start_page_proxy id s in
      if not live
      then (ok none, s)
      else (if not ns.live_migration_supported
          then (err kube_failed, s)
          else (ok (some record { host = ns.host; port = started.0 }), started.1))

  abbrev pub image_server : MigrationServer
  image_server = record { host = ns.host; port = ns.port }

  unfoldable pub evac : PodInfo → Text → Bool → ℤ → Call S (Unit {0})
  unfolding page_server update_migration_with update_migration_status_with evac_update
      evac_status_update then_call
  evac info id live paused_at = do
    _ ← kube.get_pod info.key
    pages ← page_server live id
    update_migration_with kube info.key
        (evac_update info.container_name live image_server pages info.ports)
    update_migration_status_with kube info.key (evac_status_update info.container_name paused_at)
