-- ===== src/Manager/MigrationController/Images/Reconciled.antt =====
-- Which images a reconciliation removes (manager/migration_controller.go).
use zeropod.Base.{
  ◌≡◌, sym, ◌∙◌, ap, subst, true, not, ◌||◌, some, List, [], ◌∷◌, Text, same, Result, ok, if-cases,
  Member, inl, inr, arith,
}
use zeropod.Api.Migrations.{Migration, MigrationContainer, MigrationContainerStatus, final}
use zeropod.Kube.{KubeError, then_call, Kube}
use zeropod.Kube.Laws.{then_ok, then-keeps}
use zeropod.Manager.PodController.{checkpoint_cleanup_finalizer}
use zeropod.Manager.MigrationController.{
  ImageStore, Finalizers, cleanup_checkpoint_image, cleanup_all_checkpoint_images,
  cleanup_final_checkpoint_images, ensure_finalizers, finalize, tidy, reconcile_migration,
}
use zeropod.Manager.MigrationController.Images.{Goes, container_of, cleanup-keeps, cleanup-Gone}

module _ {S : Type 0} (kube : Kube S) (store : ImageStore S) (fin : Finalizers) (node_name : Text)
    (Gone : Text → S → Type 0) (goes : Goes store Gone) where
  all-keeps :
      (id : Text) (cs : List MigrationContainer) (sts : List MigrationContainerStatus) (s : S)
      → Gone id s
      → Gone id (cleanup_all_checkpoint_images kube store fin node_name cs sts s).1
  unfolding cleanup_all_checkpoint_images
  all-keeps id cs [] s g = g
  all-keeps id cs (st ∷ sts) s g =
      then-keeps (Gone id) (cleanup_checkpoint_image kube store fin node_name st.name cs s) _
        (cleanup-keeps kube store fin node_name Gone goes id st.name cs s g)
        (λ u t. all-keeps id cs sts t)

  all-Gone :
      (cs : List MigrationContainer) (sts : List MigrationContainerStatus) (s : S)
      → (cleanup_all_checkpoint_images kube store fin node_name cs sts s).0 ≡ ok tt
      → (st : MigrationContainerStatus) (c : MigrationContainer) → Member st sts
      → container_of st.name cs ≡ some c
      → Gone c.id (cleanup_all_checkpoint_images kube store fin node_name cs sts s).1
  unfolding cleanup_all_checkpoint_images
  all-Gone cs [] s e st c is_in is_c = absurd is_in
  all-Gone cs (x ∷ sts) s e st c is_in is_c =
      let first =
        then_ok (cleanup_checkpoint_image kube store fin node_name x.name cs s)
          (λ _. cleanup_all_checkpoint_images kube store fin node_name cs sts) tt e in
      let after : S = (cleanup_checkpoint_image kube store fin node_name x.name cs s).1 in
      subst (λ r. Gone c.id r.1) (sym first.2)
        (elim is_in [
          | inl is_x ↦ all-keeps c.id cs sts after (
              cleanup-Gone kube store fin node_name Gone goes x.name cs s c first.1
                (ap (λ y. container_of y.name cs) (sym is_x) ∙ is_c))
          | inr later ↦ all-Gone cs sts after (ap (λ r. r.0) (sym first.2) ∙ e) st c later is_c
        ])

  final-keeps :
      (id : Text) (cs : List MigrationContainer) (sts : List MigrationContainerStatus) (s : S)
      → Gone id s
      → Gone id (cleanup_final_checkpoint_images kube store fin node_name cs sts s).1
  unfolding cleanup_final_checkpoint_images
  final-keeps id cs [] s g = g
  final-keeps id cs (st ∷ sts) s g =
      if-cases {B = Result KubeError (Unit {0}) × S} (λ x. Gone id x.1) (not (final st.phase))
        (λ h. final-keeps id cs sts s g)
        (λ h.
          then-keeps (Gone id) (cleanup_checkpoint_image kube store fin node_name st.name cs s) _
            (cleanup-keeps kube store fin node_name Gone goes id st.name cs s g)
            (λ u t. final-keeps id cs sts t))

  final-Gone :
      (cs : List MigrationContainer) (sts : List MigrationContainerStatus) (s : S)
      → (cleanup_final_checkpoint_images kube store fin node_name cs sts s).0 ≡ ok tt
      → (st : MigrationContainerStatus) (c : MigrationContainer) → Member st sts
      → final st.phase ≡ true
      → container_of st.name cs ≡ some c
      → Gone c.id (cleanup_final_checkpoint_images kube store fin node_name cs sts s).1
  unfolding cleanup_final_checkpoint_images
  final-Gone cs [] s e st c is_in is_final is_c = absurd is_in
  final-Gone cs (x ∷ sts) s e st c is_in is_final is_c =
      (if-cases {B = Result KubeError (Unit {0}) × S} (λ r. r.0 ≡ ok tt → Gone c.id r.1)
          (not (final x.phase))
          (λ h e. elim is_in [
            | inl is_x ↦
                let x_final : final x.phase ≡ true =
                  ap (λ y. final y.phase) (sym is_x) ∙ is_final in
                absurd (ground arith)
            | inr later ↦ final-Gone cs sts s e st c later is_final is_c
          ])
          (λ h e.
            let first =
              then_ok (cleanup_checkpoint_image kube store fin node_name x.name cs s)
                (λ _. cleanup_final_checkpoint_images kube store fin node_name cs sts) tt e in
            let after : S = (cleanup_checkpoint_image kube store fin node_name x.name cs s).1 in
            subst (λ r. Gone c.id r.1) (sym first.2)
              (elim is_in [
                | inl is_x ↦ final-keeps c.id cs sts after (
                    cleanup-Gone kube store fin node_name Gone goes x.name cs s c first.1
                      (ap (λ y. container_of y.name cs) (sym is_x) ∙ is_c))
                | inr later ↦
                    final-Gone cs sts after (ap (λ r. r.0) (sym first.2) ∙ e) st c later is_final
                      is_c
              ])))
        e

  module _
      (update : (id : Text) (m : Migration) (s : S)
        → Gone id s
        → Gone id (kube.update_migration m s).1)
      (m : Migration)
      (has_finalizer : fin.contains checkpoint_cleanup_finalizer m.finalizers ≡ true)
      (st : MigrationContainerStatus) (c : MigrationContainer) (is_in : Member st m.statuses)
      (is_c : container_of st.name m.spec.containers ≡ some c) where
    finalize-Gone :
        (s : S)
        → (finalize kube store fin node_name m s).0 ≡ ok tt
        → Gone c.id (finalize kube store fin node_name m s).1
    unfolding finalize
    finalize-Gone s =
        if-cases {B = Result KubeError (Unit {0}) × S} (λ r. r.0 ≡ ok tt → Gone c.id r.1)
          (fin.contains checkpoint_cleanup_finalizer m.finalizers)
          (λ f e.
            let cleaned =
              then_ok
                (cleanup_all_checkpoint_images kube store fin node_name m.spec.containers m.statuses
                  s)
                _ tt e in
            subst (λ r. Gone c.id r.1) (sym cleaned.2)
              (then-keeps (Gone c.id) (kube.update_migration _ _) _
                (update c.id _ _
                  (all-Gone m.spec.containers m.statuses s cleaned.1 st c is_in is_c))
                (λ n t g. g)))
          (λ f e. absurd cc)

    tidy-Gone :
        (s : S)
        → (tidy kube store fin node_name m s).0 ≡ ok tt
        → final st.phase ≡ true
        → Gone c.id (tidy kube store fin node_name m s).1
    unfolding tidy ensure_finalizers then_call
    tidy-Gone s =
        if-cases {B = Result KubeError Migration × S}
          (λ r.
            (then_call r (λ n.
                cleanup_final_checkpoint_images kube store fin node_name n.spec.containers
                  n.statuses)).0
              ≡ ok tt
            → final st.phase ≡ true
            → Gone c.id
                (then_call r (λ n.
                  cleanup_final_checkpoint_images kube store fin node_name n.spec.containers
                    n.statuses)).1)
          (not (fin.contains checkpoint_cleanup_finalizer m.finalizers))
          (λ h e. absurd (ground arith))
          (λ h e is_final. final-Gone m.spec.containers m.statuses s e st c is_in is_final is_c)

  -- When the reconciliation of a migration from this node succeeds, which has the finalizer of the
  -- controller, then the image of each container that has a status in it is gone, if the migration
  -- is deleted or the status is final. `Gone` is any property of an image that its removal, and the
  -- answer that it is not there, establish, and that the other calls keep.
  pub reconcile_migration-Gone :
      ((id : Text) (m : Migration) (s : S) → Gone id s → Gone id (kube.update_migration m s).1)
      → (m : Migration) (s : S) → same m.spec.source_node node_name ≡ true
      → fin.contains checkpoint_cleanup_finalizer m.finalizers ≡ true
      → (reconcile_migration kube store fin node_name (some m) s).0 ≡ ok tt
      → (st : MigrationContainerStatus) (c : MigrationContainer) → Member st m.statuses
      → (m.is_deleted || final st.phase) ≡ true
      → container_of st.name m.spec.containers ≡ some c
      → Gone c.id (reconcile_migration kube store fin node_name (some m) s).1
  unfolding reconcile_migration
  reconcile_migration-Gone update m s own has_finalizer e st c is_in due is_c =
      (if-cases {B = Result KubeError (Unit {0}) × S} (λ r. r.0 ≡ ok tt → Gone c.id r.1)
          (not (same m.spec.source_node node_name)) (λ h e. absurd (ground arith))
          (λ h.
            if-cases {B = Result KubeError (Unit {0}) × S} (λ r. r.0 ≡ ok tt → Gone c.id r.1)
              m.is_deleted (λ d. finalize-Gone update m has_finalizer st c is_in is_c s)
              (λ d e. tidy-Gone update m has_finalizer st c is_in is_c s e (ground arith))))
        e
