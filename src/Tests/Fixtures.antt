-- ===== src/Tests/Fixtures.antt =====
-- A kernel that accepts every call, a server and a container with one port, and what runc and the
-- node answer to it.
use zeropod.Base.{◌+◌, ◌*◌, ◌^◌, true, false, none, some, [], ◌∷◌, codes, ok}
use zeropod.Base.Int.{pos}
use zeropod.Config.{Config, Spec, Env}
use zeropod.Activator.Server.{Kernel, Server, attached}
use zeropod.Activator.Server.Redirects.{server_activator}
use zeropod.Activator.Interface.{Activator}
use zeropod.Shim.Types.{Container, ContainerMetrics, unset, idle}
use zeropod.Shim.Phase.{Clock}
use zeropod.Shim.ScaleDown.{Calls}
use zeropod.Shim.Restore.{Attempt, RestoreCalls}
use zeropod.Shim.Init.{InitCalls}
use zeropod.Shim.Check.{Reload}
use zeropod.Shim.Task.{ContainerProcess}

abbrev pub kernel : Kernel
kernel = record {
  pinned = true;
  loads = λ _. true;
  accepts = λ _. true;
  free_port = λ i. some (40000 + i);
  attach = attached;
  now = λ _. pos (10 ^ 12);
  boot_time = λ _. some (pos (10 ^ 11));
}

abbrev pub act : Activator
act = server_activator kernel

abbrev pub new_server : Server
new_server = record {
  ports = [];
  listeners = [];
  loaded = [];
  active = [];
  disabled = [];
  egress = [];
  ingress = [];
  tracker = [];
  is_started = false;
  is_forwarding = false;
  target_addr = [];
  calls = 0;
}

-- Serves port 80, with its redirect off and activity at 90 seconds after boot.
abbrev pub running_server : Server
running_server = record {
  ports = 80 ∷ [];
  listeners = 40000 ∷ [];
  loaded = [];
  active = [];
  disabled = 80 ∷ [];
  egress = (40000, 80) ∷ [];
  ingress = (80, 40000) ∷ [];
  tracker = (80, 9 * 10 ^ 10) ∷ [];
  is_started = true;
  is_forwarding = false;
  target_addr = [];
  calls = 9;
}

abbrev pub spec : Spec
spec = record { annotations = []; namespaces = [] }

abbrev pub cfg : Config
cfg = record {
  file = record {
    tracker_ignore_localhost = true;
    capacity_request = false;
    probe_address = [];
    reuseport_activator = false;
  };
  zeropod_container_names = [];
  ports = 80 ∷ [];
  scale_down_duration = pos (60 * 10 ^ 9);
  disable_checkpointing = false;
  dry_run = false;
  pre_dump = false;
  migrate = [];
  live_migrate = [];
  container_name = codes "app";
  container_type = codes "container";
  pod_name = codes "pod";
  pod_namespace = codes "default";
  pod_uid = codes "1";
  containerd_namespace = codes "k8s.io";
  disable_probe_detection = false;
  probe_buffer_size = pos 1024;
  proxy_timeout = pos (5 * 10 ^ 9);
  connect_timeout = pos (5 * 10 ^ 9);
  disable_migrate_data = false;
  spec = spec;
}

abbrev pub metrics : ContainerMetrics
metrics = record {
  last_checkpoint = none;
  last_restore = none;
  last_checkpoint_duration = none;
  last_restore_duration = none;
  running = true;
  checkpoint_errors = 0;
  restore_errors = 0;
  checkpoint_memory_bytes = 0;
  dry_run_scale_downs = 0;
  dry_run_restores = 0;
}

abbrev pub running_container : Container Server
running_container = record {
  id = codes "abc";
  cfg = cfg;
  activator = some running_server;
  pid = some 7;
  process_exited = none;
  initial_exited = none;
  image = false;
  is_scaled_down = false;
  skip_start = false;
  dry_run_scaled_down = false;
  dry_run_since = pos 0;
  dry_run_poll_timer = unset;
  scale_down_timer = idle;
  init_timer = unset;
  init_backoff = pos 0;
  drain_timer = unset;
  drain_start_time = pos 0;
  evac_drain_started = false;
  evacuated = false;
  events = [];
  event_capacity = 128;
  checkpointed_pids = [];
  metrics = metrics;
  last_config_reload = pos 0;
}

-- Scaled down, with its redirect on.
abbrev pub down_container : Container Server
down_container = record running_container {
  activator = some (record running_server { disabled = [] });
  is_scaled_down = true;
  image = true;
  checkpointed_pids = 7 ∷ [];
  metrics = record metrics { running = false };
}

abbrev pub clock : Clock
clock = record {
  now = pos (10 ^ 12);
  duration_text = λ _. codes "1m0s";
  pages_written = some 10;
  page_size = 4096;
}

abbrev pub calls : Calls
calls = record {
  clock = clock;
  snapshot_dir = true;
  is_init = true;
  pre_dumps = true;
  checkpoints = true;
  deletes = true;
  elapsed = pos 1000;
  criu_log = [];
}

abbrev pub attempt : Attempt
attempt = record {
  clock = clock;
  created = some 8;
  has_process = true;
  starts = true;
  elapsed = pos 1000;
  criu_log = [];
}

abbrev pub restore_calls : RestoreCalls
restore_calls = record {
  capacity = ok (record { allowed = true; redirect_addr = [] });
  first = attempt;
  second = attempt;
}

abbrev pub env : Env
env = record {
  parse_duration = λ _. some (pos (10 ^ 9));
  arm64 = false;
  namespace = none;
  executable = true;
  config_file = none;
  unmarshal = λ _ f. some f;
}

-- Not registered yet.
abbrev pub fresh_container : Container Server
fresh_container = record running_container { activator = none; pid = none }

abbrev pub init_calls : InitCalls Server
init_calls = record {
  detected = none;
  stored = none;
  netinfo = true;
  stored_after = none;
  new_server = new_server;
}

-- The configuration has not changed on disk.
abbrev pub reload : Reload
reload = record {
  last_modified = pos 0;
  last_modified_after = pos 0;
  bundle_spec = some spec;
  env = env;
  activator_reloads = true;
}

-- The exit of the process with pid 7.
abbrev pub exit : ContainerProcess
exit = record { container_id = codes "abc"; pid = 7; is_main = true }
