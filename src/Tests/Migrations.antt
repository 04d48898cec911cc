-- ===== src/Tests/Migrations.antt =====
-- The theorems on the node service, at a small cluster.
use zeropod.Base.{true, ◌≡◌, refl, false, none, some, [], ◌∷◌, Text, codes, ok, arith}
use zeropod.Base.Int.{pos}
use zeropod.Api.Objects.{KubePod}
use zeropod.Api.Migrations.{
  Migration, claim, claimed_and_matches_pod, matches_pod, failed, completed, unclaimed,
}
use zeropod.Config.{annotation}
use zeropod.Manager.Node.Updates.{
  get_container_status, evac_update, evac_status_update, finished_update, failed_update,
  unclaimed_update,
}
use zeropod.Manager.Node.Phases.{
  phase_of, updated, phase_after_restore, phase_after_evac, updates-Refine, evac-restore,
}
use zeropod.Manager.Node.Restore.{mark_ready, restore}
use zeropod.Manager.Node.Evac.Served.{Serves, evac_update-served}
use zeropod.Manager.Node.Service.{NodeService, Images, PodInfo}
use zeropod.Manager.Node.Restore.Ready.{Restored, mark_ready-IsStale, restore-Restored}
use zeropod.Tests.Clusters.{
  Cluster, cluster, cluster-laws, cluster-KeepsSpec, cluster-OptimisticLock,
}
use zeropod.Shim.Migration.{MigrationCalls, Creation, migration_restore}
use zeropod.Shim.Migration.Checkpoints.{Fate, migration_restore-Fate}
use zeropod.Tests.Fixtures.{cfg}
use zeropod.Tests.Objects.{start, free_migration, pod_key}

abbrev name : Text
name = codes "app"

updates-Refine_example :
    (phase_of name (updated (finished_update name completed (pos 5) (pos 9)) free_migration)
      ≡ phase_after_restore completed (phase_of name free_migration))
    × (phase_of name (updated (evac_status_update name (pos 7)) free_migration)
        ≡ phase_after_evac (phase_of name free_migration))
    × (phase_of name (updated (failed_update name) free_migration) ≡ failed)
    × (phase_of name (updated (unclaimed_update name) free_migration) ≡ unclaimed)
updates-Refine_example = updates-Refine name completed (pos 7) (pos 5) (pos 9) free_migration

evac-restore_example :
    (phase_of name (
        updated
          (evac_status_update name (pos 7))
          (updated (finished_update name completed (pos 5) (pos 9)) free_migration))
      ≡ completed)
    × (phase_of name (
          updated
            (finished_update name completed (pos 5) (pos 9))
            (updated (evac_status_update name (pos 7)) free_migration))
        ≡ completed)
unfolding get_container_status
evac-restore_example = evac-restore name (pos 7) (pos 5) (pos 9) free_migration refl

abbrev moved : Migration
moved = record free_migration {
  spec = record free_migration.spec {
    containers =
        record {
          name = codes "app";
          id = codes "a1";
          image_server = some record { host = codes "h1"; port = 91 };
          page_server = none;
          ports = 80 ∷ [];
        }
        ∷ [];
  };
}

evac_update-served_example :
    Serves name false (record { host = codes "h1"; port = 91 }) none (80 ∷ []) free_migration moved
unfolding evac_update
evac_update-served_example =
    evac_update-served name false (record { host = codes "h1"; port = 91 }) none (80 ∷ [])
      free_migration moved refl

abbrev images : Images Cluster
images = record {
  pull_image = λ server id s. (ok tt, s);
  rename_image = λ from to s. (ok tt, s);
  remove_image = λ id s. (ok tt, s);
  restore_stats = λ id s. (ok none, s);
  start_page_proxy = λ id s. (4000, s);
  start_lazy_pages = λ server id s. (ok tt, s);
}

abbrev service : NodeService
service = record {
  host = codes "h1";
  node_name = codes "n1";
  port = 91;
  live_migration_supported = false;
}

abbrev info : PodInfo
info = record { key = pod_key; container_name = name; ip = codes "10.0.0.2"; ports = [] }

restore-Restored_example :
    (p : KubePod) × ((cluster.get_pod pod_key start).0 ≡ ok p)
    × Restored cluster images service info
        (codes "b2")
        p
        start
        (record { image_id = codes "b2"; live_migration = false; ports = 80 ∷ [] })
unfolding restore claimed_and_matches_pod matches_pod annotation claim
restore-Restored_example =
    restore-Restored cluster images service cluster-laws cluster-KeepsSpec refl info (codes "b2")
      start (record { image_id = codes "b2"; live_migration = false; ports = 80 ∷ [] }) refl

-- The migration was changed since it was read with version 3.
abbrev changed : Cluster
changed = record start { migration = record free_migration { version = 4 } }

mark_ready-IsStale_example : ¬ (
    (mark_ready cluster images service (codes "10.0.0.2") free_migration changed).0
    ≡ ok free_migration)
mark_ready-IsStale_example =
    mark_ready-IsStale cluster images service cluster-laws (λ s. s.migration) cluster-OptimisticLock
      (codes "10.0.0.2") free_migration changed (omega arith) free_migration

abbrev calls : MigrationCalls
calls = record {
  dials = true;
  sandbox_ips = λ path. none;
  restores = λ i id. some record { image_id = id; live_migration = false; ports = 80 ∷ [] };
  has_descriptors = λ path. true;
  sets_work_path = true;
  has_socket = λ path. false;
  finishes = λ i id start now. true;
}

abbrev creation : Creation
creation = record { ports = []; checkpoint = []; work_path = [] }

migration_restore-Fate_example :
    Fate calls cfg
      (codes "b2")
      creation
      (migration_restore calls cfg (codes "b2") creation).0
      (migration_restore calls cfg (codes "b2") creation).1
migration_restore-Fate_example = migration_restore-Fate calls cfg (codes "b2") creation
