-- ===== src/Tests/Clusters.antt =====
-- A small cluster: one pod, one node, one migration, a tracker and an image store, with the laws that
-- the theorems on the manager ask for. Nothing is retried, and a poll that finds nothing times out.
use zeropod.Base.{
  suc, ◌<◌, ◌/◌, ◌≡◌, refl, sym, ap, Bool, true, Option, none, some, [], ◌∷◌, Result, ok, err,
  ok-injective, if◌then◌else◌, ◌==◌, ==_iff, if-cases, arith,
}
use zeropod.Api.Objects.{KubePod, Node}
use zeropod.Api.Migrations.{Migration}
use zeropod.Kube.{KubeError, not_found, conflict, already_exists, timed_out, Kube}
use zeropod.Kube.Laws.{KubeLaws}
use zeropod.Manager.Trackers.{Tracker, NodeTracker, node_tracker}
use zeropod.Manager.Node.Race.{OptimisticLock}
use zeropod.Manager.Node.Service.Claimed.{KeepsSpec}

pub record Cluster : Type 0 where
  pub pod : KubePod
  pub is_pod_gone : Bool
  pub node : Node
  pub migration : Migration
  pub tracker : NodeTracker
  pub is_image_gone : Bool

abbrev next_version : Migration → Migration → Migration
next_version m n = record m { version = suc n.version; statuses = n.statuses }

abbrev next_status : Migration → Migration → Migration
next_status m n = record n { version = suc n.version; statuses = m.statuses }

abbrev pub answered :
    {A : Type 0} → Result KubeError (Option A) × Cluster → Result KubeError A × Cluster
answered (ok none, s) = (err timed_out, s)
answered (ok (some a), s) = (ok a, s)
answered (err e, s) = (err e, s)

abbrev pub cluster : Kube Cluster
cluster = record {
  get_pod = λ k s. if s.is_pod_gone then (err not_found, s) else (ok s.pod, s);
  list_pods = λ s. (ok (s.pod ∷ []), s);
  update_pod = λ p s. (ok p, record s { pod = p });
  resize_pod = λ p s. (ok p, record s { pod = p });
  delete_pod = λ k s. (ok tt, record s { is_pod_gone = true });
  get_node = λ n s. (ok s.node, s);
  update_node = λ n s. (ok n, record s { node = n });
  get_migration = λ k s. (ok s.migration, s);
  list_migrations = λ n s. (ok (s.migration ∷ []), s);
  create_migration = λ m s. (err already_exists, s);
  update_migration = λ m s.
      if m.version == s.migration.version
      then (ok (next_version m s.migration), record s { migration = next_version m s.migration })
      else (err conflict, s);
  update_migration_status = λ m s.
      if m.version == s.migration.version
      then (ok (next_status m s.migration), record s { migration = next_status m s.migration })
      else (err conflict, s);
  retry_on_conflict = λ m. m;
  retry_no_match = λ m. m;
  poll = λ m s. answered (m s);
}

answered-keeps :
    {A : Type 0} (P : Cluster → Type 0) (r : Result KubeError (Option A) × Cluster)
    → P r.1
    → P (answered r).1
answered-keeps P (ok none, s) p = p
answered-keeps P (ok (some a), s) p = p
answered-keeps P (err e, s) p = p

answered-gives :
    {A : Type 0} (Q : A → Cluster → Type 0) (r : Result KubeError (Option A) × Cluster) (a : A)
    → ((o : Option A) → r.0 ≡ ok o → (b : A) → o ≡ some b → Q b r.1)
    → (answered r).0 ≡ ok a
    → Q a (answered r).1
answered-gives Q (ok none, s) a q e = absurd cc
answered-gives Q (ok (some b), s) a q e = q (some b) refl a cc
answered-gives Q (err x, s) a q e = absurd cc

pub cluster-laws : KubeLaws cluster
cluster-laws = record {
  retried_on_conflict = λ P Q m h. h;
  retried_no_match = λ P Q m h. h;
  polled = λ P Q m h. record {
    keeps = λ s p. answered-keeps P (m s) (h.keeps s p);
    gives = λ s a p e. answered-gives Q (m s) a (λ o is_o. h.gives s o p is_o) e;
  };
}

pub cluster-KeepsSpec : KeepsSpec cluster.update_migration
cluster-KeepsSpec = record {
  spec = λ m n s.
      if-cases {B = Result KubeError Migration × Cluster} (λ x. x.0 ≡ ok n → n.spec ≡ m.spec)
        (m.version == s.migration.version) (λ h e. ap (λ x. x.spec) (sym (ok-injective e)))
        (λ h e. absurd cc);
}

pub cluster-OptimisticLock : OptimisticLock cluster (λ s. s.migration)
cluster-OptimisticLock = record {
  accepted = λ m n s.
      if-cases {B = Result KubeError Migration × Cluster}
        (λ x.
          x.0 ≡ ok n
          → (m.version ≡ s.migration.version)
            × (s.migration.version < x.1.migration.version)
            × (x.1.migration.spec ≡ m.spec))
        (m.version == s.migration.version)
        (λ h e. ((==_iff m.version s.migration.version).0 h, omega arith, refl)) (λ h e. absurd cc);
  refused = λ m e s.
      if-cases {B = Result KubeError Migration × Cluster}
        (λ x. x.0 ≡ err e → x.1.migration ≡ s.migration) (m.version == s.migration.version)
        (λ h e. absurd cc) (λ h e. refl);
  marked = λ m n s.
      if-cases {B = Result KubeError Migration × Cluster}
        (λ x.
          x.0 ≡ ok n
          → (s.migration.version < x.1.migration.version) × (x.1.migration.spec ≡ s.migration.spec))
        (m.version == s.migration.version) (λ h e. (omega arith, refl)) (λ h e. absurd cc);
  unmarked = λ m e s.
      if-cases {B = Result KubeError Migration × Cluster}
        (λ x. x.0 ≡ err e → x.1.migration ≡ s.migration) (m.version == s.migration.version)
        (λ h e. absurd cc) (λ h e. refl);
}

-- A quarter of the capacity is the threshold.
abbrev pub tracker : Tracker Cluster
tracker =
    let t : Tracker NodeTracker = node_tracker (λ q. q / 4) in
    record {
      capacity = λ r s. t.capacity r s.tracker;
      requested = λ r s. t.requested r s.tracker;
      set_capacity = λ r q s. record s { tracker = t.set_capacity r q s.tracker };
      set_requested = λ r q s. record s { tracker = t.set_requested r q s.tracker };
      threshold = t.threshold;
      inc_evicted = λ s. record s { tracker = t.inc_evicted s.tracker };
      use_checkpoint_memory = t.use_checkpoint_memory;
    }
