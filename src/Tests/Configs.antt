-- ===== src/Tests/Configs.antt =====
-- The theorems on the configuration at written annotations.
use zeropod.Base.{◌≡◌, refl, true, false, [], ◌∷◌, Text, codes, Free, split, ok, ◌>>=◌, arith}
use zeropod.Config.{
  Config, Spec, new_config, container_ports, duration_annotation, bool_annotation, size_annotation,
  names_annotation, dry_migrate, dry_live_migrate, namespace_or_default, read_file, annotation,
  any_migration_enabled,
}
use zeropod.Config.Strconv.{parse_bool}
use zeropod.Config.PortMap.{
  Mapping, IsMapping, digits_value, print_map, selected, container_ports-print_map,
}
use zeropod.Config.DryRun.{new_config-dry_run}
use zeropod.Tests.Fixtures.{env, cfg}

abbrev mapping : Text → Mapping
mapping name = record { name = name; first = 8 ∷ 0 ∷ []; others = (8 ∷ 1 ∷ []) ∷ [] }

is_mapping : {name : Text} → Free b'=' name → Free b';' name → IsMapping (mapping name)
unfolding digits_value
is_mapping e s = record { no_equals = e; no_semicolon = s; are_ports = omega arith }

container_ports-print_map_example :
    container_ports (codes "a") (print_map (mapping (codes "a") ∷ mapping (codes "b") ∷ []))
    ≡ ok (selected (codes "a") (mapping (codes "a") ∷ mapping (codes "b") ∷ []))
container_ports-print_map_example =
    container_ports-print_map (codes "a") (mapping (codes "a")) (mapping (codes "b") ∷ [])
      (is_mapping (refl, tt) (refl, tt), (is_mapping (refl, tt) (refl, tt), tt))

abbrev dry_spec : Spec
dry_spec = record {
  annotations =
      (codes "io.kubernetes.cri.container-name", codes "app")
      ∷ (codes "zeropod.ctrox.dev/dry-run", codes "true")
      ∷ (codes "zeropod.ctrox.dev/migrate", codes "db,app")
      ∷ (codes "zeropod.ctrox.dev/live-migrate", codes "app")
      ∷ [];
  namespaces = [];
}

-- Both kinds of migration are taken off.
abbrev dry_config : Config
dry_config = record cfg {
  ports = [];
  dry_run = true;
  migrate = codes "db" ∷ [];
  container_type = [];
  pod_name = [];
  pod_namespace = [];
  pod_uid = [];
  spec = dry_spec;
}

new_config-dry_run_example : any_migration_enabled dry_config ≡ false
unfolding new_config container_ports duration_annotation bool_annotation size_annotation
    names_annotation dry_migrate dry_live_migrate namespace_or_default read_file annotation ◌>>=◌
    parse_bool split
new_config-dry_run_example = new_config-dry_run env dry_spec dry_config refl refl refl
