-- ===== src/Manager/Node/Evac/Served.antt =====
-- The servers that Evac of manager/node/service.go sets are those that Restore waits for.
use zeropod.Base.{
  ℕ, ◌≡◌, refl, ◌∙◌, subst, Bool, true, false, ◌&&◌, Option, none, some, List, [], ◌∷◌, Text, same,
  Result, ok, if-cases, if_true, if_false, if◌then◌else◌, arith,
}
use zeropod.Api.Migrations.{Migration, MigrationContainer, MigrationServer}
use zeropod.Kube.{KubeError}
use zeropod.Manager.Node.Updates.{update_first, behind, with_servers, found_or_error, evac_update}
use zeropod.Manager.Node.Restore.{has_servers, served_container}
use zeropod.Manager.Node.Restore.Awaited.{has_servers-eq}

-- The first container of the name.
abbrev pub first_named : Text → List MigrationContainer → Option MigrationContainer
first_named name [] = none
first_named name (c ∷ cs) =
    let rest = first_named name cs in if same c.name name then some c else rest

module _ (name : Text) (live : Bool) (images : MigrationServer) (pages : Option MigrationServer)
    (ports : List ℕ) where
  -- The containers `ds` give the changed container where `cs` have the one that it was.
  abbrev Gives : List MigrationContainer → List MigrationContainer → Type 0
  Gives cs ds =
      (c : MigrationContainer) × (first_named name cs ≡ some c)
      × (served_container name live ds ≡ some (with_servers images pages ports c))

  first-served :
      (cs ds : List MigrationContainer)
      → update_first name (with_servers images pages ports) cs ≡ some ds
      → Gives cs ds
  unfolding update_first served_container has_servers
  first-served [] ds e = absurd cc
  first-served (c ∷ cs) ds e =
      (if-cases {B = Option (List MigrationContainer)} (λ o. o ≡ some ds → Gives (c ∷ cs) ds)
          (same c.name name)
          (λ h p. (
            c,
            if_true _ h,
            subst (λ xs. served_container name live xs ≡ some (with_servers images pages ports c))
                (some-injective p)
                (if_true _ (both h (has_servers-eq live (with_servers images pages ports c)))),
          ))
          (λ h. later h (update_first name (with_servers images pages ports) cs) (first-served cs)))
        e
    where
      both : {x y : Bool} → x ≡ true → y ≡ true → (x && y) ≡ true
      both h k = ground arith

      some-injective : {A : Type 0} {a b : A} → ◌≡◌ {A = Option A} (some a) (some b) → a ≡ b
      some-injective p = cc

      later :
          same c.name name ≡ false
          → (o : Option (List MigrationContainer))
          → ((es : List MigrationContainer) → o ≡ some es → Gives cs es)
          → behind c o ≡ some ds
          → Gives (c ∷ cs) ds
      later h none f p = absurd cc
      later h (some es) f p =
          let found = f es refl in
          (
            found.0,
            if_false _ h ∙ found.1,
            subst
                (λ xs.
                  served_container name live xs ≡ some (with_servers images pages ports found.0))
                (some-injective p)
                (if_false {b = same c.name name && has_servers live c} _ (ground arith) ∙ found.2),
          )

  -- What a restore finds in the migration `n` that an evacuation has made of `m`.
  pub record Serves (m n : Migration) : Type 0 where
    pub is_live : n.spec.live_migration ≡ live
    pub before : MigrationContainer
    pub is_first : first_named name m.spec.containers ≡ some before
    pub after : MigrationContainer
    pub is_served : served_container name n.spec.live_migration n.spec.containers ≡ some after
    pub same_name : after.name ≡ before.name
    pub same_id : after.id ≡ before.id
    pub image_server : after.image_server ≡ some images
    pub page_server : after.page_server ≡ pages
    pub same_ports : after.ports ≡ ports

  -- After the update of an evacuation, a restore that waits for the servers of the container finds
  -- them: the container that it takes has the name and the ID of the first one of that name before
  -- the update, and the image server, the page server and the ports of the evacuation; the migration
  -- is live as the evacuation says.
  pub evac_update-served :
      (m n : Migration) → evac_update name live images pages ports m ≡ ok (some n) → Serves m n
  unfolding evac_update
  evac_update-served m n =
      sent (update_first name (with_servers images pages ports) m.spec.containers)
        (first-served m.spec.containers)
    where
      inside :
          {x y : Migration}
          → ◌≡◌ {A = Result KubeError (Option Migration)} (ok (some x)) (ok (some y))
          → x ≡ y
      inside e = cc

      sent :
          (o : Option (List MigrationContainer))
          → ((ds : List MigrationContainer) → o ≡ some ds → Gives m.spec.containers ds)
          → found_or_error live m o ≡ ok (some n)
          → Serves m n
      sent none f e = absurd cc
      sent (some ds) f e =
          let found = f ds refl in
          subst (Serves m) (inside e) (record {
            is_live = refl;
            before = found.0;
            is_first = found.1;
            after = with_servers images pages ports found.0;
            is_served = found.2;
            same_name = refl;
            same_id = refl;
            image_server = refl;
            page_server = refl;
            same_ports = refl;
          })
