-- ===== src/Manager/Node/Race.antt =====
-- Nodes that compete for one migration: the rounds of findMatchingMigration in
-- manager/node/service.go for that migration, on what was read of it at any earlier time, between the
-- updates that other parts of zeropod send.
pub mod Invariant
pub mod Exclusive
use zeropod.Base.{
  ℕ, ◌≡◌, ◌<◌, Bool, true, false, List, [], ◌∷◌, Text, Result, ok, err, is_empty, Member, is_ok,
  if◌then◌else◌,
}
use zeropod.Api.Objects.{KubePod}
use zeropod.Api.Migrations.{Migration}
use zeropod.Kube.{KubeError, Call, Kube}
use zeropod.Manager.Node.Service.{claim_first}

-- The documented rules for updates: one that is accepted was made from the version that is stored,
-- stores what was sent under a later version, and an update of the status leaves the spec.
pub record OptimisticLock {S : Type 0} (kube : Kube S) (stored : S → Migration) : Type 0 where
  pub accepted :
      (m n : Migration) (s : S)
      → (kube.update_migration m s).0 ≡ ok n
      → (m.version ≡ (stored s).version)
        × ((stored s).version < (stored (kube.update_migration m s).1).version)
        × ((stored (kube.update_migration m s).1).spec ≡ m.spec)
  pub refused :
      (m : Migration) (e : KubeError) (s : S)
      → (kube.update_migration m s).0 ≡ err e
      → stored (kube.update_migration m s).1 ≡ stored s
  pub marked :
      (m n : Migration) (s : S)
      → (kube.update_migration_status m s).0 ≡ ok n
      → ((stored s).version < (stored (kube.update_migration_status m s).1).version)
        × ((stored (kube.update_migration_status m s).1).spec ≡ (stored s).spec)
  pub unmarked :
      (m : Migration) (e : KubeError) (s : S)
      → (kube.update_migration_status m s).0 ≡ err e
      → stored (kube.update_migration_status m s).1 ≡ stored s

-- The cluster, all that was ever stored of the migration, and the pods that took it for theirs.
pub record World (S : Type 0) : Type 0 where
  pub cluster : S
  pub history : List Migration
  pub holders : List Text

pub record Agrees (m n : Migration) : Type 0 where
  pub pod : m.spec.target_pod ≡ n.spec.target_pod
  pub node : m.spec.target_node ≡ n.spec.target_node

module _ {S : Type 0} (kube : Kube S) (stored : S → Migration) where
  abbrev pub after_round : World S → Text → Result KubeError Migration × S → World S
  after_round w name r = record {
    cluster = r.1;
    history = stored r.1 ∷ w.history;
    holders = if is_ok r.0 then name ∷ w.holders else w.holders;
  }

  abbrev pub after_update : World S → S → World S
  after_update w s = record w { cluster = s; history = stored s ∷ w.history }

  -- A round of a pod with a name on a node with a name, an update that leaves the target, or one of
  -- the status; all but the last from some version that was read.
  pub data Step (w : World S) : World S → Type 0 where
    tries :
        (m : Migration) (pod : KubePod) (node_name : Text)
        → Member m w.history
        → is_empty pod.key.name ≡ false
        → is_empty node_name ≡ false
        → Step w (after_round w pod.key.name (claim_first kube node_name pod (m ∷ []) w.cluster))
    edits :
        (m n : Migration)
        → Member m w.history
        → n.version ≡ m.version
        → Agrees n m
        → Step w (after_update w (kube.update_migration n w.cluster).1)
    marks : (m : Migration) → Step w (after_update w (kube.update_migration_status m w.cluster).1)

  pub data Reachable (w : World S) : World S → Type 0 where
    here : Reachable w w
    step : {v u : World S} → Reachable w v → Step v u → Reachable w u
