-- ===== src/Manager/MigrationController.antt =====
-- The migration controller (`migrationReconciler` of manager/migration_controller.go), which removes
-- the images of migrated containers from the node that they left.
pub mod Images
use zeropod.Base.{
  ℕ, Bool, true, false, not, Option, none, some, List, [], ◌∷◌, Text, same, Result, ok, err,
  if◌then◌else◌,
}
use zeropod.Api.Objects.{Key}
use zeropod.Api.Migrations.{Migration, MigrationContainer, MigrationContainerStatus, final}
use zeropod.Kube.{KubeError, Call, then_call, found_or_none, ◌>>=◌, ◌>>◌, give, fail, Kube}
use zeropod.Manager.PodController.{checkpoint_cleanup_finalizer}

-- The directory of the image of an ID: os.Stat, which says whether it is there, and os.RemoveAll.
pub record ImageStore (S : Type 0) : Type 0 where
  pub exists : Text → Call S Bool
  pub remove_all : Text → Call S (Unit {0})

-- ContainsFinalizer, AddFinalizer and RemoveFinalizer of controllerutil.
pub record Finalizers : Type 0 where
  pub contains : Text → List Text → Bool
  pub add : Text → List Text → List Text
  pub remove : Text → List Text → List Text

module _ {S : Type 0} (kube : Kube S) (store : ImageStore S) (fin : Finalizers)
    (node_name : Text) where
  -- An image that is not there ends the loop.
  unfoldable pub remove_and : Text → Call S (Unit {0}) → Bool → Call S (Unit {0})
  unfolding then_call
  remove_and id rest false = give tt
  remove_and id rest true = do store.remove_all id; rest

  unfoldable pub cleanup_checkpoint_image : Text → List MigrationContainer → Call S (Unit {0})
  unfolding remove_and then_call
  cleanup_checkpoint_image name [] s = (ok tt, s)
  cleanup_checkpoint_image name (c ∷ cs) s =
      let rest = cleanup_checkpoint_image name cs in
      if not (same name c.name)
      then rest s
      else then_call (store.exists c.id s) (remove_and c.id rest)

  unfoldable pub cleanup_all_checkpoint_images :
      List MigrationContainer → List MigrationContainerStatus → Call S (Unit {0})
  unfolding cleanup_checkpoint_image then_call
  cleanup_all_checkpoint_images cs [] = give tt
  cleanup_all_checkpoint_images cs (st ∷ sts) = do
    cleanup_checkpoint_image st.name cs
    cleanup_all_checkpoint_images cs sts

  unfoldable pub cleanup_final_checkpoint_images :
      List MigrationContainer → List MigrationContainerStatus → Call S (Unit {0})
  unfolding cleanup_checkpoint_image then_call
  cleanup_final_checkpoint_images cs [] s = (ok tt, s)
  cleanup_final_checkpoint_images cs (st ∷ sts) s =
      let rest = cleanup_final_checkpoint_images cs sts in
      if not (final st.phase)
      then rest s
      else then_call (cleanup_checkpoint_image st.name cs s) (λ _. rest)

  unfoldable pub ensure_finalizers : Migration → Call S Migration
  ensure_finalizers m s =
      if not (fin.contains checkpoint_cleanup_finalizer m.finalizers)
      then kube.update_migration
          (record m { finalizers = fin.add checkpoint_cleanup_finalizer m.finalizers }) s
      else (ok m, s)

  unfoldable pub finalize : Migration → Call S (Unit {0})
  unfolding cleanup_all_checkpoint_images then_call
  finalize m s =
      if fin.contains checkpoint_cleanup_finalizer m.finalizers
      then (do
        cleanup_all_checkpoint_images m.spec.containers m.statuses
        _ ←
            kube.update_migration
              (record m { finalizers = fin.remove checkpoint_cleanup_finalizer m.finalizers })
        give tt)
          s
      else (ok tt, s)

  unfoldable pub tidy : Migration → Call S (Unit {0})
  unfolding ensure_finalizers cleanup_final_checkpoint_images then_call
  tidy m = do
    m' ← ensure_finalizers m
    cleanup_final_checkpoint_images m'.spec.containers m'.statuses

  unfoldable pub reconcile_migration : Option Migration → Call S (Unit {0})
  unfolding finalize tidy
  reconcile_migration none s = (ok tt, s)
  reconcile_migration (some m) s =
      if not (same m.spec.source_node node_name)
      then (ok tt, s)
      else (if m.is_deleted then finalize m s else tidy m s)

  unfoldable pub reconcile : Key → Call S (Unit {0})
  unfolding reconcile_migration then_call found_or_none
  reconcile key = do m ← λ s. found_or_none (kube.get_migration key s); reconcile_migration m
