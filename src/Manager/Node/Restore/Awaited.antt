-- ===== src/Manager/Node/Restore/Awaited.antt =====
-- What the steps of Restore of manager/node/service.go after the mark give.
use zeropod.Base.{
  ◌≡◌, refl, sym, ◌∙◌, ap, subst, Bool, true, not, ◌&&◌, ◌||◌, Option, none, some, List, [], ◌∷◌,
  Text, same, is_some, Result, ok, err, ok-injective, if-cases, inl, inr, ◌⊎◌, Member, arith,
}
use zeropod.Api.Objects.{Key}
use zeropod.Api.Migrations.{Migration, MigrationContainer, MigrationServer}
use zeropod.Kube.{KubeError, give, Kube}
use zeropod.Kube.Laws.{KubeLaws, then_ok}
use zeropod.Manager.Node.Service.{NodeService, Images, PodInfo, local}
use zeropod.Manager.Node.Restore.{
  RestoreResponse, has_servers, served_container, with_migration, await_servers, or_set_failed,
  fetch_image, start_pages, restore_served,
}

some-injective : {A : Type 0} {a b : A} → ◌≡◌ {A = Option A} (some a) (some b) → a ≡ b
some-injective p = cc

-- The test for both servers of a live migration is the test for the image server alone.
pub has_servers-eq :
    (live : Bool) (c : MigrationContainer) → has_servers live c ≡ is_some c.image_server
unfolding has_servers
has_servers-eq live c = both live (is_some c.page_server) (is_some c.image_server)
  where
    both : (x y z : Bool) → ((x && y && z) || z) ≡ z
    both x y z = ground arith

abbrev pub IsServed : Text → MigrationContainer → Type 0
IsServed name c = (same c.name name ≡ true) × (is_some c.image_server ≡ true)

served_container-IsServed :
    (name : Text) (live : Bool) (cs : List MigrationContainer) (c : MigrationContainer)
    → served_container name live cs ≡ some c
    → IsServed name c
unfolding served_container
served_container-IsServed name live [] c e = absurd cc
served_container-IsServed name live (x ∷ cs) c e =
    (if-cases {B = Option MigrationContainer} (λ o. o ≡ some c → IsServed name c)
        (same x.name name && has_servers live x)
        (λ h p. subst (IsServed name) (some-injective p) (of_test h))
        (λ h. served_container-IsServed name live cs c))
      e
  where
    of_test : (same x.name name && has_servers live x) ≡ true → IsServed name x
    of_test h =
        let eq : has_servers live x ≡ is_some x.image_server = has_servers-eq live x in
        (ground arith, ground arith)

served_container-Member :
    (name : Text) (live : Bool) (cs : List MigrationContainer) (c : MigrationContainer)
    → served_container name live cs ≡ some c
    → Member c cs
unfolding served_container
served_container-Member name live [] c e = absurd cc
served_container-Member name live (x ∷ cs) c e =
    (if-cases {B = Option MigrationContainer} (λ o. o ≡ some c → Member c (x ∷ cs))
        (same x.name name && has_servers live x) (λ h p. inl (sym (some-injective p)))
        (λ h p. inr (served_container-Member name live cs c p)))
      e

module _ {S : Type 0} (kube : Kube S) (images : Images S) (ns : NodeService) where
  -- The API answered with the migration `m`, which lists the container `c` with its servers.
  pub record Awaited (key : Key) (name : Text) (m : Migration) (c : MigrationContainer)
      : Type 0 where
    pub read : (t : S) × ((kube.get_migration key t).0 ≡ ok m)
    pub is_listed : Member c m.spec.containers
    pub is_served : IsServed name c

  pub await_servers-IsAwaited :
      KubeLaws kube
      → (key : Key) (name : Text) (s : S) (m : Migration) (c : MigrationContainer)
      → (await_servers kube images ns key name s).0 ≡ ok (m, c)
      → Awaited key name m c
  unfolding await_servers
  await_servers-IsAwaited laws key name s m c =
      (laws.polled (λ t. Unit) (λ x t. Awaited key name x.0 x.1) _
          record {
            keeps = λ t p. tt;
            gives = λ t o p e x is_x.
                let got = then_ok (kube.get_migration key t) _ o e in
                asked t got.0 got.1
                  (served_container name got.0.spec.live_migration got.0.spec.containers) refl x
                  (ok-injective (ap (λ r. r.0) (sym got.2) ∙ e) ∙ is_x);
          }).gives
        s (m, c) tt
    where
      asked :
          (t : S) (n : Migration)
          → (kube.get_migration key t).0 ≡ ok n
          → (o : Option MigrationContainer)
          → served_container name n.spec.live_migration n.spec.containers ≡ o
          → (x : Migration × MigrationContainer) → with_migration n o ≡ some x
          → Awaited key name x.0 x.1
      asked t n g none h x e = absurd cc
      asked t n g (some d) h x e =
          subst (λ y. Awaited key name y.0 y.1) (some-injective e)
            (record {
              read = (t, g);
              is_listed = served_container-Member name n.spec.live_migration n.spec.containers d h;
              is_served =
                  served_container-IsServed name n.spec.live_migration n.spec.containers d h;
            })

  start_pages-IsSupported :
      (info : PodInfo) (id : Text) (m : Migration) (c : MigrationContainer) (s : S) (u : Unit {0})
      → (start_pages kube images ns info id m c s).0 ≡ ok u
      → m.spec.live_migration ≡ true
      → ns.live_migration_supported ≡ true
  unfolding start_pages
  start_pages-IsSupported info id m c s u =
      if-cases {B = Result KubeError (Unit {0}) × S}
        (λ x. x.0 ≡ ok u → m.spec.live_migration ≡ true → ns.live_migration_supported ≡ true)
        (not m.spec.live_migration) (λ h e l. absurd (ground arith))
        (λ h.
          if-cases {B = Result KubeError (Unit {0}) × S}
            (λ x. x.0 ≡ ok u → m.spec.live_migration ≡ true → ns.live_migration_supported ≡ true)
            (not ns.live_migration_supported) (λ n e l. absurd cc) (λ n e l. ground arith))

  -- The image is on the node, or was pulled from the server that has it.
  abbrev pub IsFetched : MigrationContainer → Type 0
  IsFetched c =
      (server : MigrationServer) × (c.image_server ≡ some server)
      × ((local ns server.host ≡ true) ⊎ ((t : S) × ((images.pull_image server c.id t).0 ≡ ok tt)))

  fetch_image-IsFetched :
      (o : Option MigrationServer) (id : Text) (s : S) (u : Unit {0})
      → (fetch_image kube images ns o id s).0 ≡ ok u
      → (server : MigrationServer) × (o ≡ some server)
        × ((local ns server.host ≡ true) ⊎ ((t : S) × ((images.pull_image server id t).0 ≡ ok tt)))
  unfolding fetch_image
  fetch_image-IsFetched none id s u e = absurd cc
  fetch_image-IsFetched (some server) id s u e = (
    server,
    refl,
    (if-cases {B = Result KubeError (Unit {0}) × S}
          (λ x.
            x.0 ≡ ok u
            → (local ns server.host ≡ true)
              ⊎ ((t : S) × ((images.pull_image server id t).0 ≡ ok tt)))
          (local ns server.host) (λ h e. inl h) (λ h e. inr (s, e)))
        e,
  )

  pub served-ok :
      (info : PodInfo) (id : Text) (m : Migration) (c : MigrationContainer) (s : S)
      (r : RestoreResponse)
      → (restore_served kube images ns info id (m, c) s).0 ≡ ok r
      → (r ≡ record { image_id = id; live_migration = m.spec.live_migration; ports = c.ports })
        × (m.spec.live_migration ≡ true → ns.live_migration_supported ≡ true)
        × ((t : S) × ((images.rename_image c.id id t).0 ≡ ok tt))
        × IsFetched c
  unfolding restore_served start_pages
  served-ok info id m c s r e =
      let fetched = then_ok (fetch_image kube images ns c.image_server c.id s) _ r e in
      let renamed =
        then_ok (images.rename_image c.id id _) _ r (ap (λ x. x.0) (sym fetched.2) ∙ e) in
      let started =
        then_ok (start_pages kube images ns info id m c _)
          (λ u.
            give
              (record { image_id = id; live_migration = m.spec.live_migration; ports = c.ports }))
          r (ap (λ x. x.0) (sym renamed.2 ∙ sym fetched.2) ∙ e) in
      (
        sym (ok-injective (ap (λ x. x.0) (sym started.2 ∙ sym renamed.2 ∙ sym fetched.2) ∙ e)),
        start_pages-IsSupported info id m c _ started.0 started.1,
        (_, renamed.1),
        fetch_image-IsFetched c.image_server c.id s fetched.0 fetched.1,
      )

  pub or_set_failed-ok :
      {A : Type 0} (key : Key) (name : Text) (x : Result KubeError A × S) (a : A)
      → (or_set_failed kube images ns key name x).0 ≡ ok a
      → x.0 ≡ ok a
  unfolding or_set_failed
  or_set_failed-ok key name (ok b, s) a e = e
  or_set_failed-ok key name (err x, s) a e = absurd cc
