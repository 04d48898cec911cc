-- ===== src/Config/DryRun.antt =====
-- Dry-run and migration exclude one another (NewConfig of api/shim/v1/config.go).
use zeropod.Base.{
  true, false, ◌≡◌, refl, List, ◌∷◌, [], Text, arith, is_empty, same, contains, any-delete_func, ok,
  Ensures, Ensures-bind, Ensures-ok,
}
use zeropod.Config.{
  Config, Env, Spec, new_config, any_migration_enabled, dry_migrate, dry_live_migrate,
}

contains-dry_migrate :
    (name : Text) (migrate : List Text) → contains (dry_migrate true name migrate) name ≡ false
unfolding dry_migrate
contains-dry_migrate name migrate =
    ground (arith, any-delete_func (λ (s : Text). same s name) migrate)

same-dry_live_migrate :
    (name live : Text) → is_empty name ≡ false → same (dry_live_migrate true name live) name ≡ false
unfolding dry_live_migrate
same-dry_live_migrate [] live h = cc
same-dry_live_migrate (c ∷ s) [] h = refl
same-dry_live_migrate (c ∷ s) (d ∷ t) h = ground arith

abbrev Excludes : Config → Type 0
Excludes c = c.dry_run ≡ true → is_empty c.container_name ≡ false → any_migration_enabled c ≡ false

assembled-Excludes :
    (c : Config) (name live : Text) (migrate : List Text)
    → c.container_name ≡ name
    → c.migrate ≡ dry_migrate c.dry_run name migrate
    → c.live_migrate ≡ dry_live_migrate c.dry_run name live
    → Excludes c
unfolding any_migration_enabled
assembled-Excludes c name live migrate en em el dry named =
    ground (arith, contains-dry_migrate name migrate, same-dry_live_migrate name live)

new_config-Excludes : (e : Env) (s : Spec) → Ensures Excludes (new_config e s)
unfolding new_config
new_config-Excludes e s = Ensures-bind λ ports _. Ensures-bind λ dur _. Ensures-bind λ disable _.
    Ensures-bind λ pre _. Ensures-bind λ dry _. Ensures-bind λ probe _. Ensures-bind λ size _.
      Ensures-bind λ proxy _. Ensures-bind λ connect _.
        Ensures-bind λ data_off _.
          Ensures-bind λ file _. Ensures-ok (assembled-Excludes _ _ _ _ refl refl refl)

-- A configuration that NewConfig returns with dry-run set has neither kind of migration enabled
-- for its container, if the container has a name.
pub new_config-dry_run :
    (e : Env) (s : Spec) (c : Config)
    → new_config e s ≡ ok c
    → c.dry_run ≡ true
    → is_empty c.container_name ≡ false
    → any_migration_enabled c ≡ false
new_config-dry_run e s c h = (new_config-Excludes e s).holds c h
