-- ===== src/Manager/Node/Restore/Ready.antt =====
-- When a restore is ready (Restore of manager/node/service.go).
use zeropod.Base.{
  ◌≡◌, sym, ◌∙◌, ap, subst, true, false, Text, is_empty, Result, ok, if-cases, Result-cases, inl,
  inr, ◌<◌, arith,
}
use zeropod.Api.Objects.{KubePod}
use zeropod.Api.Migrations.{Migration, MigrationContainer, claimed_and_matches_pod}
use zeropod.Kube.{KubeError, Kube}
use zeropod.Kube.Laws.{KubeLaws, then_ok}
use zeropod.Manager.Node.Service.{NodeService, Images, PodInfo, find_matching_migration}
use zeropod.Manager.Node.Restore.Awaited.{
  Awaited, IsFetched, await_servers-IsAwaited, served-ok, or_set_failed-ok,
}
use zeropod.Manager.Node.Race.{OptimisticLock}
use zeropod.Manager.Node.Service.Claimed.{KeepsSpec, find_matching_migration-IsClaimed}
use zeropod.Manager.Node.Restore.{
  RestoreResponse, is_set_to_failed, ready, mark_ready, await_servers, or_set_failed,
  restore_served, restore_matching, restore,
}

module _ {S : Type 0} (kube : Kube S) (images : Images S) (ns : NodeService) where
  -- Where the API stores a later version of a migration than the one that was found, that one is
  -- never marked as ready, however often the update is retried: it is the same object each time. The
  -- retries and the optimistic lock of the API are as documented.
  pub mark_ready-IsStale :
      KubeLaws kube
      → (stored : S → Migration) → OptimisticLock kube stored
      → (ip : Text) (m : Migration) (s : S) → m.version < (stored s).version
      → (n : Migration) → ¬ ((mark_ready kube images ns ip m s).0 ≡ ok n)
  unfolding mark_ready ready
  mark_ready-IsStale laws stored lock ip m s h n e =
      (laws.retried_on_conflict (λ t. m.version < (stored t).version) (λ a t. ⊥)
          (kube.update_migration (ready ip m))
          record {
            keeps = λ t p. elim (Result-cases (kube.update_migration (ready ip m) t).0) [
              | inl (a, e) ↦ absurd (omega (arith, p, (lock.accepted (ready ip m) a t e).0))
              | inr (x, e) ↦
                  subst (λ k. m.version < k.version) (sym (lock.refused (ready ip m) x t e)) p
            ];
            gives = λ t a p e. omega (arith, p, (lock.accepted (ready ip m) a t e).0);
          }).gives
        s n h e

  -- A migration that is marked as ready has the flag and the address in its spec.
  mark_ready-IsReady :
      KubeLaws kube
      → KeepsSpec kube.update_migration
      → (ip : Text) (m : Migration) (s : S) (n : Migration)
      → (mark_ready kube images ns ip m s).0 ≡ ok n
      → (n.spec.restore_ready ≡ true) × (n.spec.target_pod_ip ≡ ip)
  unfolding mark_ready ready
  mark_ready-IsReady laws keeps ip m s n e =
      let same_spec : n.spec ≡ (ready ip m).spec =
        (laws.retried_on_conflict (λ t. Unit) (λ a t. a.spec ≡ (ready ip m).spec)
            (kube.update_migration (ready ip m))
            record { keeps = λ t p. tt; gives = λ t a p e. keeps.spec (ready ip m) a t e }).gives
          s n tt e in
      (ap (λ k. k.restore_ready) same_spec, ap (λ k. k.target_pod_ip) same_spec)

  -- What stands behind the answer of a restore: `before` is the state in which the migrations are
  -- searched, and `found` the migration and the state that the search ends with.
  pub record Restored (info : PodInfo) (id : Text) (pod : KubePod) (before : S)
      (r : RestoreResponse) : Type 0 where
    pub migration : Migration
    pub after : S
    pub found : find_matching_migration kube ns.node_name pod before ≡ (ok migration, after)
    pub claimed : claimed_and_matches_pod migration pod ≡ true
    pub not_failed : is_set_to_failed info.container_name migration ≡ false
    pub marked : Migration
    pub is_marked : (mark_ready kube images ns info.ip migration after).0 ≡ ok marked
    pub is_ready : marked.spec.restore_ready ≡ true
    pub has_ip : marked.spec.target_pod_ip ≡ info.ip
    pub awaited : Migration
    pub container : MigrationContainer
    pub is_awaited : Awaited kube images ns marked.key info.container_name awaited container
    pub is_fetched : IsFetched kube images ns container
    pub renamed : (t : S) × ((images.rename_image container.id id t).0 ≡ ok tt)
    pub image_id : r.image_id ≡ id
    pub ports : r.ports ≡ container.ports
    pub live : r.live_migration ≡ awaited.spec.live_migration
    pub supported : r.live_migration ≡ true → ns.live_migration_supported ≡ true

  matching-ok :
      KubeLaws kube
      → KeepsSpec kube.update_migration
      → (info : PodInfo) (id : Text) (pod : KubePod) (m : Migration)
      → claimed_and_matches_pod m pod ≡ true
      → (before s : S) → find_matching_migration kube ns.node_name pod before ≡ (ok m, s)
      → (r : RestoreResponse) → (restore_matching kube images ns info id m s).0 ≡ ok r
      → Restored info id pod before r
  unfolding restore_matching
  matching-ok laws keeps info id pod m h before s is_m r =
      if-cases {B = Result KubeError RestoreResponse × S}
        (λ x. x.0 ≡ ok r → Restored info id pod before r) (is_set_to_failed info.container_name m)
        (λ f e. absurd cc)
        (λ f e.
          let marked = then_ok (mark_ready kube images ns info.ip m s) _ r e in
          let ready_one = mark_ready-IsReady laws keeps info.ip m s marked.0 marked.1 in
          let found =
            then_ok
              (or_set_failed kube images ns marked.0.key info.container_name (
                await_servers kube images ns marked.0.key info.container_name
                  (mark_ready kube images ns info.ip m s).1))
              (restore_served kube images ns info id) r (ap (λ x. x.0) (sym marked.2) ∙ e) in
          let (is_r, supported, renamed, fetched) =
            served-ok kube images ns info id found.0.0 found.0.1 _ r
              (ap (λ x. x.0) (sym found.2 ∙ sym marked.2) ∙ e) in
          record {
            migration = m;
            after = s;
            found = is_m;
            claimed = h;
            not_failed = f;
            marked = marked.0;
            is_marked = marked.1;
            is_ready = ready_one.0;
            has_ip = ready_one.1;
            awaited = found.0.0;
            container = found.0.1;
            is_awaited =
                await_servers-IsAwaited kube images ns laws marked.0.key info.container_name _
                  found.0.0 found.0.1
                  (or_set_failed-ok kube images ns marked.0.key info.container_name _ found.0
                    found.1);
            is_fetched = fetched;
            renamed = renamed;
            image_id = ap (λ q. q.image_id) is_r;
            ports = ap (λ q. q.ports) is_r;
            live = ap (λ q. q.live_migration) is_r;
            supported = λ l. supported (ap (λ q. q.live_migration) (sym is_r) ∙ l);
          })

  -- On a node with a name, where the API and the retries behave as documented: a restore that is
  -- answered without an error read the pod, and the migration that its search gave is claimed for
  -- that pod and does not have the container set to failed. That migration was marked as ready, with
  -- the address of the pod. The API then answered with a migration that lists a container of the
  -- name with an image server, whose image is local or was pulled, and was renamed to the requested
  -- ID. The answer has that ID, the ports of that container, and says that the migration is live as
  -- the API does, and only on a node that supports it.
  pub restore-Restored :
      KubeLaws kube
      → KeepsSpec kube.update_migration
      → is_empty ns.node_name ≡ false
      → (info : PodInfo) (id : Text) (s : S) (r : RestoreResponse)
      → (restore kube images ns info id s).0 ≡ ok r
      → (pod : KubePod) × ((kube.get_pod info.key s).0 ≡ ok pod)
        × Restored info id pod (kube.get_pod info.key s).1 r
  unfolding restore
  restore-Restored laws keeps h info id s r e =
      let got = then_ok (kube.get_pod info.key s) _ r e in
      let found =
        then_ok (find_matching_migration kube ns.node_name got.0 (kube.get_pod info.key s).1)
          (restore_matching kube images ns info id) r (ap (λ x. x.0) (sym got.2) ∙ e) in
      (
        got.0,
        got.1,
        matching-ok laws keeps info id got.0 found.0
            (find_matching_migration-IsClaimed kube keeps laws ns.node_name got.0 h _ found.0
              found.1)
            (kube.get_pod info.key s).1
            (find_matching_migration kube ns.node_name got.0 (kube.get_pod info.key s).1).1
            (ap
              (λ o. (
                o,
                (find_matching_migration kube ns.node_name got.0 (kube.get_pod info.key s).1).1,
              ))
              found.1)
            r (ap (λ x. x.0) (sym found.2 ∙ sym got.2) ∙ e),
      )
