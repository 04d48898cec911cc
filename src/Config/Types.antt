-- ===== src/Config/Types.antt =====
-- The records that config.go and its callers pass around (api/shim/v1/config.go).
-- What `NewConfig` asks of its surroundings is the record `Env`: time.ParseDuration (it computes
-- with floats), the architecture, the containerd namespace of the context, the executable's path,
-- the content of shim.json and encoding/json on it.
use zeropod.Base.{
  ℕ, ◌*◌, ◌^◌, Bool, false, ◌||◌, Option, List, [], ◌∷◌, Text, if◌then◌else◌, same, Result, ok, err,
}
use zeropod.Base.Int.{ℤ}
use zeropod.Config.Strconv.{NumError}

abbrev pub Annotations : Type 0
Annotations = List (Text × Text)

-- m[key] on a Go map, with the empty string where the key is missing
unfoldable pub annotation : Annotations → Text → Text
annotation [] key = []
annotation ((k, v) ∷ m) key = if same k key then v else annotation m key

-- _, ok := m[key]
unfoldable pub has_annotation : Annotations → Text → Bool
has_annotation [] key = false
has_annotation ((k, v) ∷ m) key = same k key || has_annotation m key

-- The parts of an OCI spec that the program reads; a namespace is its type and its path.
pub record Spec : Type 0 where
  pub annotations : Annotations
  pub namespaces : List (Text × Text)

-- The fields with a JSON name, which shim.json sets.
pub record FileConfig : Type 0 where
  pub tracker_ignore_localhost : Bool
  pub capacity_request : Bool
  pub probe_address : Text
  pub reuseport_activator : Bool

pub record Config : Type 0 where
  pub file : FileConfig
  pub open file use *
  pub zeropod_container_names : List Text
  pub ports : List ℕ
  pub scale_down_duration : ℤ
  pub disable_checkpointing : Bool
  pub dry_run : Bool
  pub pre_dump : Bool
  pub migrate : List Text
  pub live_migrate : Text
  pub container_name : Text
  pub container_type : Text
  pub pod_name : Text
  pub pod_namespace : Text
  pub pod_uid : Text
  pub containerd_namespace : Text
  pub disable_probe_detection : Bool
  pub probe_buffer_size : ℤ
  pub proxy_timeout : ℤ
  pub connect_timeout : ℤ
  pub disable_migrate_data : Bool
  pub spec : Spec

pub data ConfigError : Type 0 where
  invalid_port_map : ConfigError
  bad_number : NumError → ConfigError
  bad_duration : ConfigError
  no_executable : ConfigError
  bad_file : ConfigError

pub record Env : Type 0 where
  pub parse_duration : Text → Option ℤ
  pub arm64 : Bool
  pub namespace : Option Text
  pub executable : Bool
  pub config_file : Option Text
  pub unmarshal : Text → FileConfig → Option FileConfig

abbrev pub second : ℕ
second = 10 ^ 9

abbrev pub minute : ℕ
minute = 60 * second

abbrev pub number : {A : Type 0} → Result NumError A → Result ConfigError A
number (ok n) = ok n
number (err e) = err (bad_number e)
