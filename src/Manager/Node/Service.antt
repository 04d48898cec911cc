-- ===== src/Manager/Node/Service.antt =====
-- The calls of the node service on migrations (findMatchingMigration, updateMigration,
-- updateMigrationStatus, setMigrationFailed, local of manager/node/service.go), and what it asks of
-- the node.
pub mod Claimed
use zeropod.Base.{
  ℕ, Bool, true, false, not, ◌&&◌, Option, none, some, List, [], ◌∷◌, Text, same, Result, ok, err,
  if◌then◌else◌,
}
use zeropod.Base.Int.{ℤ}
use zeropod.Api.Objects.{Key, KubePod}
use zeropod.Api.Migrations.{
  Migration, MigrationServer, claim, claimed, claimed_and_matches_pod, matches_pod,
}
use zeropod.Kube.{KubeError, conflict, no_match, Call, then_call, ◌>>=◌, ◌>>◌, give, fail, Kube}
use zeropod.Manager.Node.Updates.{Update, failed_update}

pub record NodeService : Type 0 where
  pub host : Text
  pub node_name : Text
  pub port : ℕ
  pub live_migration_supported : Bool

-- `pull_image` dials a server and extracts the image of an ID that it sends; `rename_image` and
-- `remove_image` act on the directories of two IDs and of one. `restore_stats` reads CRIU's file,
-- with the time of the restore in microseconds if it has one. `start_page_proxy` gives a port.
pub record Images (S : Type 0) : Type 0 where
  pub pull_image : MigrationServer → Text → Call S (Unit {0})
  pub rename_image : Text → Text → Call S (Unit {0})
  pub remove_image : Text → Call S (Unit {0})
  pub restore_stats : Text → Call S (Option ℕ)
  pub start_page_proxy : Text → S → ℕ × S
  pub start_lazy_pages : MigrationServer → Text → Call S (Unit {0})

-- The pod and the container that a request is about.
pub record PodInfo : Type 0 where
  pub key : Key
  pub container_name : Text
  pub ip : Text
  pub ports : List ℕ

unfoldable pub local : NodeService → Text → Bool
local ns host = same ns.host host

-- A conflict leads to the next migration.
unfoldable pub unless_conflict :
    {S : Type 0}
    → Result KubeError Migration × S
    → Call S Migration
    → Result KubeError Migration × S
unless_conflict (err conflict, s) next = next s
unless_conflict (r, s) next = (r, s)

module _ {S : Type 0} (kube : Kube S) where
  unfoldable pub claim_first : Text → KubePod → List Migration → Call S Migration
  unfolding unless_conflict
  claim_first node_name pod [] s = (err no_match, s)
  claim_first node_name pod (mig ∷ migs) s =
      let rest = claim_first node_name pod migs in
      if claimed_and_matches_pod mig pod
      then (ok mig, s)
      else (if matches_pod mig pod && not (claimed mig)
          then unless_conflict (kube.update_migration (claim pod.key.name node_name mig) s) rest
          else rest s)

  unfoldable pub find_matching_migration : Text → KubePod → Call S Migration
  unfolding claim_first then_call
  find_matching_migration node_name pod =
      kube.retry_no_match
        (do migs ← kube.list_migrations pod.key.namespace; claim_first node_name pod migs)

  unfoldable pub send_update :
      (Migration → Call S Migration) → Result KubeError (Option Migration) → Call S (Unit {0})
  unfolding then_call
  send_update send (ok none) = give tt
  send_update send (ok (some m)) = do _ ← send m; give tt
  send_update send (err e) = fail e

  unfoldable pub update_migration_with : Key → Update → Call S (Unit {0})
  unfolding send_update then_call
  update_migration_with key update =
      kube.retry_on_conflict
        (do m ← kube.get_migration key; send_update kube.update_migration (update m))

  unfoldable pub update_migration_status_with : Key → Update → Call S (Unit {0})
  unfolding send_update then_call
  update_migration_status_with key update =
      kube.retry_on_conflict
        (do m ← kube.get_migration key; send_update kube.update_migration_status (update m))

  -- A failure is logged.
  unfoldable pub set_migration_failed : Key → Text → S → S
  unfolding update_migration_status_with failed_update
  set_migration_failed key name s = (update_migration_status_with key (failed_update name) s).1
