-- ===== src/Config.antt =====
-- `NewConfig` and the predicates of api/shim/v1/config.go: the typed configuration that the shim
-- reads from the annotations of a container's spec and from the file shim.json.
pub mod Strconv
mod Types
pub mod PortMap
pub mod DryRun
unfoldable pub use Types.*
use zeropod.Base.{
  ℕ, ◌*◌, Bool, true, false, not, ◌&&◌, ◌||◌, Option, none, some, List, [], ◌∷◌, ◌++◌, Text, codes,
  if◌then◌else◌, same, is_empty, contains, delete_func, split, Result, ok, err, ◌>>=◌,
}
use zeropod.Base.Int.{ℤ, pos}
use Strconv.{parse_uint, parse_bool, atoi}

-- The loop over the ports of one mapping.
parse_ports : List Text → Result ConfigError (List ℕ)
unfolding ◌>>=◌
parse_ports [] = ok []
parse_ports (p ∷ ps) =
    let rest = parse_ports ps in do port ← number (parse_uint 16 p); ports ← rest; ok (port ∷ ports)

-- One mapping, split at `=`: the ports it adds for the container `name`.
mapping_ports : Text → List Text → Result ConfigError (List ℕ)
unfolding parse_ports
mapping_ports name (n ∷ ports ∷ []) = if same n name then parse_ports (split b',' ports) else ok []
mapping_ports name _ = err invalid_port_map

-- The loop over the mappings.
collect_ports : Text → List Text → Result ConfigError (List ℕ)
unfolding mapping_ports ◌>>=◌
collect_ports name [] = ok []
collect_ports name (m ∷ ms) =
    let rest = collect_ports name ms in
    do found ← mapping_ports name (split b'=' m); others ← rest; ok (found ++ others)

unfoldable pub container_ports : Text → Text → Result ConfigError (List ℕ)
unfolding collect_ports
container_ports name ports_map =
    if is_empty ports_map then ok [] else collect_ports name (split b';' ports_map)

unfoldable pub bool_annotation : Text → Result ConfigError Bool
bool_annotation v = if is_empty v then ok false else number (parse_bool v)

unfoldable pub duration_annotation : Env → ℕ → Text → Result ConfigError ℤ
duration_annotation e default v =
    if is_empty v
    then ok (pos default)
    else elim (e.parse_duration v) [ none ↦ err bad_duration | some d ↦ ok d ]

unfoldable pub size_annotation : Text → Result ConfigError ℤ
size_annotation v = if is_empty v then ok (pos 1024) else number (atoi v)

unfoldable pub names_annotation : Text → List Text
names_annotation v = if is_empty v then [] else split b',' v

-- With dry-run set the container is taken off both kinds of migration.
unfoldable pub dry_migrate : Bool → Text → List Text → List Text
dry_migrate dry_run name migrate =
    if dry_run && contains migrate name then delete_func (λ s. same s name) migrate else migrate

unfoldable pub dry_live_migrate : Bool → Text → Text → Text
dry_live_migrate dry_run name live =
    if dry_run && (not (is_empty live) && same live name) then [] else live

unfoldable pub namespace_or_default : Option Text → Text
namespace_or_default none = codes "k8s.io"
namespace_or_default (some ns) = ns

default_file : FileConfig
default_file = record {
  tracker_ignore_localhost = true;
  capacity_request = false;
  probe_address = [];
  reuseport_activator = false;
}

-- A file that cannot be read leaves the defaults.
unfoldable pub read_file : Env → Result ConfigError FileConfig
unfolding default_file
read_file e =
    if e.executable
    then elim e.config_file [
      | none ↦ ok default_file
      | some b ↦ elim (e.unmarshal b default_file) [ none ↦ err bad_file | some f ↦ ok f ]
    ]
    else err no_executable

unfoldable pub new_config : Env → Spec → Result ConfigError Config
new_config e spec = do
  let container_name = annotation spec.annotations (codes "io.kubernetes.cri.container-name")
  ports ←
      container_ports container_name
        (annotation spec.annotations (codes "zeropod.ctrox.dev/ports-map"))
  dur ←
      duration_annotation e minute
        (annotation spec.annotations (codes "zeropod.ctrox.dev/scaledown-duration"))
  disable_checkpointing ←
      bool_annotation
        (annotation spec.annotations (codes "zeropod.ctrox.dev/disable-checkpointing"))
  pre_dump ← bool_annotation (annotation spec.annotations (codes "zeropod.ctrox.dev/pre-dump"))
  dry_run ← bool_annotation (annotation spec.annotations (codes "zeropod.ctrox.dev/dry-run"))
  disable_probe_detection ←
      bool_annotation
        (annotation spec.annotations (codes "zeropod.ctrox.dev/disable-probe-detection"))
  probe_buffer_size ←
      size_annotation (annotation spec.annotations (codes "zeropod.ctrox.dev/probe-buffer-size"))
  proxy_timeout ←
      duration_annotation e (5 * second)
        (annotation spec.annotations (codes "zeropod.ctrox.dev/proxy-timeout"))
  connect_timeout ←
      duration_annotation e (5 * second)
        (annotation spec.annotations (codes "zeropod.ctrox.dev/connect-timeout"))
  disable_migrate_data ←
      bool_annotation (annotation spec.annotations (codes "zeropod.ctrox.dev/disable-migrate-data"))
  file ← read_file e
  ok (record {
    file = file;
    zeropod_container_names =
        names_annotation (annotation spec.annotations (codes "zeropod.ctrox.dev/container-names"));
    ports = ports;
    scale_down_duration = dur;
    disable_checkpointing = disable_checkpointing;
    dry_run = dry_run;
    pre_dump = pre_dump && not e.arm64;
    migrate =
        dry_migrate dry_run container_name
          (names_annotation (annotation spec.annotations (codes "zeropod.ctrox.dev/migrate")));
    live_migrate =
        dry_live_migrate dry_run container_name
          (annotation spec.annotations (codes "zeropod.ctrox.dev/live-migrate"));
    container_name = container_name;
    container_type = annotation spec.annotations (codes "io.kubernetes.cri.container-type");
    pod_name = annotation spec.annotations (codes "io.kubernetes.cri.sandbox-name");
    pod_namespace = annotation spec.annotations (codes "io.kubernetes.cri.sandbox-namespace");
    pod_uid = annotation spec.annotations (codes "io.kubernetes.cri.sandbox-uid");
    containerd_namespace = namespace_or_default e.namespace;
    disable_probe_detection = disable_probe_detection;
    probe_buffer_size = probe_buffer_size;
    proxy_timeout = proxy_timeout;
    connect_timeout = connect_timeout;
    disable_migrate_data = disable_migrate_data;
    spec = spec;
  })

unfoldable pub is_zeropod_container : Config → Bool
is_zeropod_container c =
    contains c.zeropod_container_names c.container_name
    || elim c.zeropod_container_names [ [] ↦ true | _ ∷ _ ↦ false ]

unfoldable pub migration_enabled : Config → Bool
migration_enabled c = contains c.migrate c.container_name && not c.disable_checkpointing

unfoldable pub live_migration_enabled : Config → Bool
live_migration_enabled c = same c.live_migrate c.container_name

unfoldable pub any_migration_enabled : Config → Bool
unfolding migration_enabled live_migration_enabled
any_migration_enabled c = migration_enabled c || live_migration_enabled c

-- The package-level functions, on the annotations of a pod.
unfoldable pub any_migration_annotated : Annotations → Bool
any_migration_annotated m =
    has_annotation m (codes "zeropod.ctrox.dev/migrate")
    || has_annotation m (codes "zeropod.ctrox.dev/live-migrate")

unfoldable pub live_migration_annotated : Annotations → Bool
live_migration_annotated m = has_annotation m (codes "zeropod.ctrox.dev/live-migrate")
