-- ===== src/Manager/Node/Restore.antt =====
-- Restore and FinishRestore of manager/node/service.go: the side of the node that a container is
-- migrated to.
pub mod Awaited
pub mod Ready
use zeropod.Base.{
  ℕ, ◌*◌, Bool, true, false, not, ◌&&◌, ◌||◌, Option, none, some, List, [], ◌∷◌, Text, same, any,
  Result, ok, err, if◌then◌else◌, is_some,
}
use zeropod.Base.Int.{ℤ, pos}
use zeropod.Api.Objects.{Key, KubePod}
use zeropod.Api.Migrations.{
  Migration, MigrationContainer, MigrationServer, MigrationPhase, completed, failed, is_failed,
}
use zeropod.Kube.{
  KubeError, timed_out, nil_pointer, kube_failed, Call, then_call, ◌>>=◌, ◌>>◌, give, fail, Kube,
}
use zeropod.Manager.Node.Updates.{finished_update}
use zeropod.Manager.Node.Service.{
  NodeService, Images, PodInfo, local, find_matching_migration, set_migration_failed,
  update_migration_status_with,
}

pub record RestoreResponse : Type 0 where
  pub image_id : Text
  pub live_migration : Bool
  pub ports : List ℕ

unfoldable pub is_set_to_failed : Text → Migration → Bool
is_set_to_failed name m = any (λ s. same s.name name && is_failed s.phase) m.statuses

unfoldable pub ready : Text → Migration → Migration
ready ip m = record m { spec = record m.spec { restore_ready = true; target_pod_ip = ip } }

unfoldable pub has_servers : Bool → MigrationContainer → Bool
has_servers live c =
    (live && is_some c.page_server && is_some c.image_server) || is_some c.image_server

-- The first container of the name that has its servers.
unfoldable pub served_container : Text → Bool → List MigrationContainer → Option MigrationContainer
unfolding has_servers
served_container name live [] = none
served_container name live (c ∷ cs) =
    let rest = served_container name live cs in
    if same c.name name && has_servers live c then some c else rest

abbrev pub with_migration :
    Migration → Option MigrationContainer → Option (Migration × MigrationContainer)
with_migration m none = none
with_migration m (some c) = some (m, c)

abbrev pub first_for_pod : Text → List Migration → Option Migration
first_for_pod name [] = none
first_for_pod name (m ∷ ms) =
    let rest = first_for_pod name ms in if same m.spec.target_pod name then some m else rest

abbrev pub restore_duration : Option ℕ → ℤ
restore_duration none = pos 0
restore_duration (some t) = pos (t * 1000)

module _ {S : Type 0} (kube : Kube S) (images : Images S) (ns : NodeService) where
  -- The object is sent again as it is after a conflict.
  unfoldable pub mark_ready : Text → Migration → Call S Migration
  unfolding ready
  mark_ready ip m = kube.retry_on_conflict (kube.update_migration (ready ip m))

  unfoldable pub await_servers : Key → Text → Call S (Migration × MigrationContainer)
  unfolding served_container then_call
  await_servers key name = kube.poll (do
    m ← kube.get_migration key
    give (with_migration m (served_container name m.spec.live_migration m.spec.containers)))

  -- A failure sets the container to failed, and is an error of its own.
  unfoldable pub or_set_failed :
      {A : Type 0} → Key → Text → Result KubeError A × S → Result KubeError A × S
  unfolding set_migration_failed
  or_set_failed key name (ok a, s) = (ok a, s)
  or_set_failed key name (err e, s) = (err kube_failed, set_migration_failed kube key name s)

  unfoldable pub fetch_image : Option MigrationServer → Text → Call S (Unit {0})
  unfolding local
  fetch_image none id s = (err nil_pointer, s)
  fetch_image (some server) id s =
      if local ns server.host then (ok tt, s) else images.pull_image server id s

  unfoldable pub serve_pages : Option MigrationServer → Text → Call S (Unit {0})
  serve_pages none id = fail nil_pointer
  serve_pages (some server) id = images.start_lazy_pages server id

  unfoldable pub start_pages : PodInfo → Text → Migration → MigrationContainer → Call S (Unit {0})
  unfolding serve_pages set_migration_failed
  start_pages info id m c s =
      if not m.spec.live_migration
      then (ok tt, s)
      else (if not ns.live_migration_supported
          then (err kube_failed, set_migration_failed kube m.key info.container_name s)
          else serve_pages c.page_server id s)

  unfoldable pub restore_served :
      PodInfo → Text → Migration × MigrationContainer → Call S RestoreResponse
  unfolding fetch_image start_pages then_call
  restore_served info id (m, c) = do
    fetch_image c.image_server c.id
    images.rename_image c.id id
    start_pages info id m c
    give (record { image_id = id; live_migration = m.spec.live_migration; ports = c.ports })

  unfoldable pub restore_matching : PodInfo → Text → Migration → Call S RestoreResponse
  unfolding is_set_to_failed mark_ready await_servers or_set_failed restore_served then_call
  restore_matching info id m s =
      let going =
        (do
          m' ← mark_ready info.ip m
          found ← λ t.
              or_set_failed m'.key info.container_name (await_servers m'.key info.container_name t)
          restore_served info id found)
          s in
      if is_set_to_failed info.container_name m then (err kube_failed, s) else going

  unfoldable pub restore : PodInfo → Text → Call S RestoreResponse
  unfolding restore_matching find_matching_migration then_call
  restore info id = do
    pod ← kube.get_pod info.key
    m ← find_matching_migration kube ns.node_name pod
    restore_matching info id m

  unfoldable pub finish_matching : PodInfo → ℤ → MigrationPhase → ℤ → Migration → Call S (Unit {0})
  unfolding update_migration_status_with finished_update
  finish_matching info restore_end phase restore_dur m =
      update_migration_status_with kube m.key
        (finished_update info.container_name phase restore_dur restore_end)

  -- What CRIU's statistics say decides the phase; without them the migration has failed.
  unfoldable pub finish_live :
      PodInfo → ℤ → Migration → Result KubeError (Option ℕ) × S → Result KubeError (Unit {0}) × S
  unfolding finish_matching
  finish_live info restore_end m (ok t, s) =
      finish_matching info restore_end completed (restore_duration t) m s
  finish_live info restore_end m (err e, s) = finish_matching info restore_end failed (pos 0) m s

  -- The image is removed at the end, also after an error.
  unfoldable pub and_remove_image :
      Text → Result KubeError (Unit {0}) × S → Result KubeError (Unit {0}) × S
  and_remove_image id r = (r.0, (images.remove_image id r.1).1)

  unfoldable pub finish_found : PodInfo → Text → ℤ → Option Migration → Call S (Unit {0})
  unfolding finish_matching finish_live and_remove_image
  finish_found info id restore_end none s = (err kube_failed, s)
  finish_found info id restore_end (some m) s =
      if not (is_nil m.spec.containers) && m.spec.live_migration
      then and_remove_image id (finish_live info restore_end m (images.restore_stats id s))
      else finish_matching info restore_end completed (pos 0) m s
    where
      is_nil : {A : Type 0} → List A → Bool
      is_nil [] = true
      is_nil (x ∷ xs) = false

  unfoldable pub finish_restore : PodInfo → Text → ℤ → Call S (Unit {0})
  unfolding finish_found then_call
  finish_restore info id restore_end = do
    ms ← kube.list_migrations info.key.namespace
    finish_found info id restore_end (first_for_pod info.key.name ms)
