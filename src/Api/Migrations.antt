-- ===== src/Api/Migrations.antt =====
-- Migration and its methods (api/runtime/v1/types.go).
pub mod Claims
use zeropod.Base.{
  ℕ, Bool, true, false, not, ◌&&◌, ◌||◌, Option, none, some, List, [], ◌∷◌, Text, codes, same,
  is_empty, any,
}
use zeropod.Base.Int.{ℤ}
use zeropod.Config.{annotation}
use zeropod.Api.Objects.{Key, KubePod}

pub record MigrationServer : Type 0 where
  pub host : Text
  pub port : ℕ

pub record MigrationContainer : Type 0 where
  pub name : Text
  pub id : Text
  pub image_server : Option MigrationServer
  pub page_server : Option MigrationServer
  pub ports : List ℕ

pub record MigrationSpec : Type 0 where
  pub live_migration : Bool
  pub restore_ready : Bool
  pub source_node : Text
  pub target_node : Text
  pub source_pod : Text
  pub target_pod : Text
  pub target_pod_ip : Text
  pub pod_template_hash : Text
  pub containers : List MigrationContainer

-- `unset` is the empty string.
pub data MigrationPhase : Type 0 where
  unset pending running completed failed unclaimed : MigrationPhase

-- Times are nanoseconds, zero for the zero time.
pub record MigrationContainerStatus : Type 0 where
  pub name : Text
  pub phase : MigrationPhase
  pub paused_at : ℤ
  pub restored_at : ℤ
  pub migration_duration : ℤ

pub record Migration : Type 0 where
  pub key : Key
  pub version : ℕ
  pub is_deleted : Bool
  pub finalizers : List Text
  pub owners : List Key
  pub spec : MigrationSpec
  pub statuses : List MigrationContainerStatus

unfoldable pub final : MigrationPhase → Bool
final completed = true
final failed = true
final unclaimed = true
final _ = false

abbrev pub is_completed : MigrationPhase → Bool
is_completed completed = true
is_completed _ = false

abbrev pub is_failed : MigrationPhase → Bool
is_failed failed = true
is_failed _ = false

abbrev pub is_unclaimed : MigrationPhase → Bool
is_unclaimed unclaimed = true
is_unclaimed _ = false

abbrev pub pod_template_hash_key : Text
pod_template_hash_key = codes "pod-template-hash"

unfoldable pub matches_pod : Migration → KubePod → Bool
matches_pod mig pod = same mig.spec.pod_template_hash (annotation pod.labels pod_template_hash_key)

unfoldable pub claim : Text → Text → Migration → Migration
claim pod_name node_name mig = record mig {
  spec = record mig.spec { target_pod = pod_name; target_node = node_name };
}

unfoldable pub has_unclaimed_container : Migration → Bool
has_unclaimed_container mig = any (λ s. is_unclaimed s.phase) mig.statuses

unfoldable pub claimed : Migration → Bool
unfolding has_unclaimed_container
claimed mig = not (is_empty mig.spec.target_node) || has_unclaimed_container mig

unfoldable pub claimed_and_matches_pod : Migration → KubePod → Bool
unfolding claimed
claimed_and_matches_pod mig pod = same mig.spec.target_pod pod.key.name && claimed mig
