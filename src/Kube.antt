-- ===== src/Kube.antt =====
-- The Kubernetes API as the manager's client sees it, and the retries of client-go: a parameter of
-- the code that calls them. A call is a computation on the state `S` of the cluster; the state
-- also stands for what others do meanwhile, so that a call that only reads may change it.
pub mod Laws
use zeropod.Base.{ℕ, Bool, true, false, Option, none, some, List, Text, Result, ok, err}
use zeropod.Api.Objects.{Key, KubePod, Node}
use zeropod.Api.Migrations.{Migration}

pub data KubeError : Type 0 where
  not_found conflict already_exists invalid timed_out : KubeError
  -- found no migration
  no_match : KubeError
  -- a Go panic on a nil pointer
  nil_pointer : KubeError
  -- any other error
  kube_failed : KubeError

abbrev pub Call : Type 0 → Type 0 → Type 0
Call S A = S → Result KubeError A × S

unfoldable pub then_call :
    {S A B : Type 0} → Result KubeError A × S → (A → Call S B) → Result KubeError B × S
then_call (ok a, s) f = f a s
then_call (err e, s) f = (err e, s)

infixl 5 ◌>>=◌ ◌>>◌
abbrev pub ◌>>=◌ : {S A B : Type 0} → Call S A → (A → Call S B) → Call S B
◌>>=◌ m f s = then_call (m s) f

abbrev pub ◌>>◌ : {S B : Type 0} → Call S (Unit {0}) → Call S B → Call S B
◌>>◌ m k s = then_call (m s) (λ _. k)

abbrev pub give : {S A : Type 0} → A → Call S A
give a s = (ok a, s)

abbrev pub fail : {S A : Type 0} → KubeError → Call S A
fail e s = (err e, s)

unfoldable pub found_or_none :
    {S A : Type 0} → Result KubeError A × S → Result KubeError (Option A) × S
found_or_none r = (optional r.0, r.1)
  where
    optional : {A : Type 0} → Result KubeError A → Result KubeError (Option A)
    optional (ok a) = ok (some a)
    optional (err not_found) = ok none
    optional (err e) = err e

-- What a failure is replaced by.
unfoldable pub or_else : {S A : Type 0} → A → Result KubeError A × S → Result KubeError A × S
or_else a (ok b, s) = (ok b, s)
or_else a (err e, s) = (ok a, s)

-- An update gives the object with its new version. `retry_on_conflict` is retry.RetryOnConflict,
-- `retry_no_match` is retry.OnError for `no_match`, and `poll` is wait.PollUntilContextCancel with
-- a deadline, where `none` asks for another round.
pub record Kube (S : Type 0) : Type 1 where
  pub get_pod : Key → Call S KubePod
  pub list_pods : Call S (List KubePod)
  pub update_pod : KubePod → Call S KubePod
  pub resize_pod : KubePod → Call S KubePod
  pub delete_pod : Key → Call S (Unit {0})
  pub get_node : Text → Call S Node
  pub update_node : Node → Call S Node
  pub get_migration : Key → Call S Migration
  pub list_migrations : Text → Call S (List Migration)
  pub create_migration : Migration → Call S Migration
  pub update_migration : Migration → Call S Migration
  pub update_migration_status : Migration → Call S Migration
  pub retry_on_conflict : {A : Type 0} → Call S A → Call S A
  pub retry_no_match : {A : Type 0} → Call S A → Call S A
  pub poll : {A : Type 0} → Call S (Option A) → Call S A
