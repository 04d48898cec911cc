-- ===== src/Manager/Node/Updates.antt =====
-- Changes of a migration that the node service sends to the API (updateContainerSpec,
-- getContainerStatus, setOrUpdateContainerStatus and the functions that Evac, FinishRestore,
-- PrepareEvac and setMigrationFailed pass to them in manager/node/service.go).
use zeropod.Base.{
  ℕ, Bool, Option, none, some, List, [], ◌∷◌, Text, same, Result, ok, err, if◌then◌else◌,
}
use zeropod.Base.Int.{ℤ, pos, eqb_ℤ, clamp64, ◌-ℤ◌}
use zeropod.Api.Migrations.{
  MigrationServer, MigrationContainer, MigrationPhase, MigrationContainerStatus, Migration, unset,
  running, failed, unclaimed, is_completed, is_failed,
}
use zeropod.Kube.{KubeError, kube_failed}

abbrev pub behind : {A : Type 0} → A → Option (List A) → Option (List A)
behind x none = none
behind x (some xs) = some (x ∷ xs)

-- The first container of the name is changed; `none` if there is no container of the name.
unfoldable pub update_first :
    Text
    → (MigrationContainer → MigrationContainer)
    → List MigrationContainer
    → Option (List MigrationContainer)
update_first name f [] = none
update_first name f (c ∷ cs) =
    let rest = update_first name f cs in if same c.name name then some (f c ∷ cs) else behind c rest

abbrev pub empty_status : Text → MigrationContainerStatus
empty_status name = record {
  name = name;
  phase = unset;
  paused_at = pos 0;
  restored_at = pos 0;
  migration_duration = pos 0;
}

unfoldable pub find_status : Text → List MigrationContainerStatus → MigrationContainerStatus
find_status name [] = empty_status []
find_status name (s ∷ ss) = let rest = find_status name ss in if same s.name name then s else rest

unfoldable pub get_container_status : Migration → Text → MigrationContainerStatus
unfolding find_status
get_container_status m name = find_status name m.statuses

unfoldable pub set_status :
    Text
    → (MigrationContainerStatus → MigrationContainerStatus)
    → List MigrationContainerStatus
    → List MigrationContainerStatus
set_status name f [] = f (empty_status name) ∷ []
set_status name f (s ∷ ss) =
    let rest = set_status name f ss in if same s.name name then f s ∷ ss else s ∷ rest

unfoldable pub set_or_update_container_status :
    Migration → Text → (MigrationContainerStatus → MigrationContainerStatus) → Migration
unfolding set_status
set_or_update_container_status m name f = record m { statuses = set_status name f m.statuses }

-- What an update function says: whether an update is needed, and the changed migration.
abbrev pub Update : Type 0
Update = Migration → Result KubeError (Option Migration)

abbrev pub to_phase : MigrationPhase → MigrationContainerStatus → MigrationContainerStatus
to_phase p s = record s { phase = p }

unfoldable pub failed_update : Text → Update
unfolding set_or_update_container_status
failed_update name m = ok (some (set_or_update_container_status m name (to_phase failed)))

unfoldable pub unclaimed_update : Text → Update
unfolding set_or_update_container_status
unclaimed_update name m = ok (some (set_or_update_container_status m name (to_phase unclaimed)))

-- A status that is set to failed stays as it is.
unfoldable pub restored_status :
    MigrationPhase → ℤ → ℤ → MigrationContainerStatus → MigrationContainerStatus
restored_status p restore_dur restore_end s =
    if is_failed s.phase
    then s
    else (if eqb_ℤ restore_dur (pos 0) then record s { phase = p } else record s {
      phase = p;
      restored_at = restore_end;
      migration_duration = clamp64 (restore_end -ℤ s.paused_at);
    })

unfoldable pub finished_update : Text → MigrationPhase → ℤ → ℤ → Update
unfolding set_or_update_container_status restored_status
finished_update name p restore_dur restore_end m =
    ok (some (set_or_update_container_status m name (restored_status p restore_dur restore_end)))

abbrev pub paused_status : ℤ → MigrationContainerStatus → MigrationContainerStatus
paused_status paused_at s = record s { paused_at = paused_at; phase = running }

unfoldable pub evac_status_update : Text → ℤ → Update
unfolding get_container_status set_or_update_container_status
evac_status_update name paused_at m =
    if is_completed (get_container_status m name).phase
    then ok none
    else ok (some (set_or_update_container_status m name (paused_status paused_at)))

abbrev pub with_servers :
    MigrationServer → Option MigrationServer → List ℕ → MigrationContainer → MigrationContainer
with_servers images pages ports c = record c {
  image_server = some images;
  page_server = pages;
  ports = ports;
}

abbrev pub found_or_error :
    Bool → Migration → Option (List MigrationContainer) → Result KubeError (Option Migration)
found_or_error live m none = err kube_failed
found_or_error live m (some cs) =
    ok (some (record m { spec = record m.spec { containers = cs; live_migration = live } }))

unfoldable pub evac_update :
    Text → Bool → MigrationServer → Option MigrationServer → List ℕ → Update
unfolding update_first
evac_update name live images pages ports m =
    found_or_error live m (update_first name (with_servers images pages ports) m.spec.containers)
