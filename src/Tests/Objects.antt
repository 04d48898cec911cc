-- ===== src/Tests/Objects.antt =====
-- A pod on a node without room, and a migration of one container that waits for it.
use zeropod.Base.{◌^◌, false, none, some, [], ◌∷◌, codes}
use zeropod.Base.Int.{pos}
use zeropod.Api.Objects.{Key, KubePod, pod_running}
use zeropod.Api.Migrations.{Migration, MigrationContainerStatus, pending, pod_template_hash_key}
use zeropod.Manager.PodController.{checkpoint_cleanup_finalizer}
use zeropod.Tests.Clusters.{Cluster}
use zeropod.Tests.Scalers.{pod, half_cpu}

abbrev pub pod_key : Key
pod_key = record { name = codes "app-1"; namespace = codes "default" }

abbrev pub kube_pod : KubePod
kube_pod = record {
  key = pod_key;
  version = 1;
  labels = (pod_template_hash_key, codes "h") ∷ [];
  is_deleted = false;
  node_name = codes "n1";
  runtime_class = some (codes "zeropod");
  phase = pod_running;
  resources = none;
  spec = record pod { annotations = (codes "zeropod.ctrox.dev/migrate", codes "app") ∷ [] };
  statuses =
      record { name = codes "app"; container_id = some (codes "a1"); resources = some half_cpu }
      ∷ [];
}

abbrev pub waiting : MigrationContainerStatus
waiting = record {
  name = codes "app";
  phase = pending;
  paused_at = pos 0;
  restored_at = pos 0;
  migration_duration = pos 0;
}

abbrev pub free_migration : Migration
free_migration = record {
  key = record { name = codes "app-0"; namespace = codes "default" };
  version = 3;
  is_deleted = false;
  finalizers = checkpoint_cleanup_finalizer ∷ [];
  owners = [];
  spec = record {
    live_migration = false;
    restore_ready = false;
    source_node = codes "n0";
    target_node = [];
    source_pod = codes "app-0";
    target_pod = [];
    target_pod_ip = [];
    pod_template_hash = codes "h";
    containers =
        record {
          name = codes "app";
          id = codes "a1";
          image_server = some record { host = codes "h0"; port = 90 };
          page_server = none;
          ports = 80 ∷ [];
        }
        ∷ [];
  };
  statuses = waiting ∷ [];
}

abbrev pub start : Cluster
start = record {
  pod = kube_pod;
  is_pod_gone = false;
  node = record {
    name = codes "n1";
    version = 1;
    capacity = record { cpu = some (10 ^ 9); memory = some (10 ^ 9); others = [] };
    taints = [];
  };
  migration = free_migration;
  tracker = record {
    capacity_cpu = 10 ^ 9;
    capacity_memory = 10 ^ 9;
    requested_cpu = 0;
    requested_memory = 0;
    evicted = 0;
  };
  is_image_gone = false;
}
