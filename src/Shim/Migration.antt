-- ===== src/Shim/Migration.antt =====
-- MigrationRestore, FinishRestore and getSandboxIP of shim/restore.go and GetNetworkNS of
-- shim/util.go: what the shim asks of the node service when a container is created and when it was
-- started. Paths of images are those under the default base path, for an ID without a separator.
pub mod Checkpoints
use zeropod.Base.{
  ℕ, ◌%◌, ◌^◌, Bool, true, false, not, ◌&&◌, Option, none, some, List, [], ◌∷◌, ◌++◌, map, Text,
  codes, same, Result, ok, err, if◌then◌else◌,
}
use zeropod.Base.Int.{ℤ}
use zeropod.Config.{Config, Spec}
use zeropod.Api.Objects.{Key}
use zeropod.Shim.Types.{ShimError, restore_request_failed, restore_dial, invalid_checkpoint, failed}
use zeropod.Manager.Node.Service.{PodInfo}
use zeropod.Manager.Node.Restore.{RestoreResponse}

-- `dials` is the node service's socket, `restores` its answer to Restore, `sandbox_ips` the addresses
-- of eth0 in a network namespace, `has_descriptors` the stat of descriptors.json in a directory,
-- `sets_work_path` the change of the options, and `has_socket` whether lazy-pages.socket appears in
-- time.
pub record MigrationCalls : Type 0 where
  pub dials : Bool
  pub sandbox_ips : Text → Option (List Text)
  pub restores : PodInfo → Text → Option RestoreResponse
  pub has_descriptors : Text → Bool
  pub sets_work_path : Bool
  pub has_socket : Text → Bool
  pub finishes : PodInfo → Text → ℤ → ℤ → Bool

-- The parts of the request and of the configuration that are changed.
pub record Creation : Type 0 where
  pub ports : List ℕ
  pub checkpoint : Text
  pub work_path : Text

unfoldable pub snapshot_path : Text → Text
snapshot_path id = codes "/var/lib/zeropod/i/" ++ id ++ codes "/snapshot"

unfoldable pub get_network_ns : List (Text × Text) → Option Text
get_network_ns [] = none
get_network_ns ((type, path) ∷ ns) =
    let rest = get_network_ns ns in if same type (codes "network") then some path else rest

abbrev pub first_ip : Option (List Text) → Option Text
first_ip (some (ip ∷ ips)) = some ip
first_ip _ = none

module _ (w : MigrationCalls) where
  unfoldable pub ip_of_ns : Option Text → Option Text
  ip_of_ns none = none
  ip_of_ns (some path) = first_ip (w.sandbox_ips path)

  unfoldable pub get_sandbox_ip : Config → Option Text
  unfolding ip_of_ns get_network_ns
  get_sandbox_ip cfg = ip_of_ns (get_network_ns cfg.spec.namespaces)

  -- Without an address connections are not forwarded during the migration.
  abbrev pub ip_or_empty : Option Text → Text
  ip_or_empty none = []
  ip_or_empty (some ip) = ip

  unfoldable pub pod_info : Config → Text → PodInfo
  pod_info cfg ip = record {
    key = record { name = cfg.pod_name; namespace = cfg.pod_namespace };
    container_name = cfg.container_name;
    ip = ip;
    ports = [];
  }

  -- The ports of the migration, for a container that has none configured.
  unfoldable pub migrated_ports : List ℕ → List ℕ → List ℕ
  migrated_ports [] answered = map (λ p. p % 2 ^ 16) answered
  migrated_ports (p ∷ ps) answered = p ∷ ps

  -- A live migration starts the container, from the checkpoint if the pages are served.
  unfoldable pub await_pages : RestoreResponse → Creation → Result ShimError Bool × Creation
  await_pages r c =
      if not r.live_migration
      then (ok true, c)
      else (if w.has_socket c.checkpoint
          then (ok false, c)
          else (ok false, record c { checkpoint = [] }))

  unfoldable pub use_checkpoint : RestoreResponse → Creation → Result ShimError Bool × Creation
  unfolding await_pages snapshot_path
  use_checkpoint r c =
      let path = snapshot_path r.image_id in
      if not (w.has_descriptors path)
      then (err invalid_checkpoint, c)
      else (if not w.sets_work_path
          then (err failed, record c { checkpoint = path })
          else await_pages r (record c { checkpoint = path; work_path = path }))

  unfoldable pub on_answer : Option RestoreResponse → Creation → Result ShimError Bool × Creation
  unfolding migrated_ports use_checkpoint
  on_answer none c = (err restore_request_failed, c)
  on_answer (some r) c = use_checkpoint r (record c { ports = migrated_ports c.ports r.ports })

  unfoldable pub migration_restore : Config → Text → Creation → Result ShimError Bool × Creation
  unfolding get_sandbox_ip pod_info on_answer
  migration_restore cfg id c =
      if not w.dials
      then (err restore_dial, c)
      else on_answer (w.restores (pod_info cfg (ip_or_empty (get_sandbox_ip cfg))) id) c

  unfoldable pub finish_migration : Config → Text → ℤ → ℤ → Result ShimError (Unit {0})
  unfolding pod_info
  finish_migration cfg id start now =
      if not w.dials
      then err failed
      else (if w.finishes (pod_info cfg []) id start now then ok tt else err failed)
