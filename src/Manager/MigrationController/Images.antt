-- ===== src/Manager/MigrationController/Images.antt =====
-- The removal of the image of a container (cleanupCheckpointImage of
-- manager/migration_controller.go).
pub mod Reconciled
use zeropod.Base.{
  ◌≡◌, refl, sym, ◌∙◌, ap, subst, Bool, true, false, not, ◌||◌, Option, none, some, List, [], ◌∷◌,
  Text, same, Result, ok, err, if◌then◌else◌, if-cases, if_true, if_false, Member, inl, inr, arith,
}
use zeropod.Api.Objects.{Key}
use zeropod.Api.Migrations.{Migration, MigrationContainer, MigrationContainerStatus, final}
use zeropod.Kube.{KubeError, Call, then_call, found_or_none, give, Kube}
use zeropod.Kube.Laws.{then_ok, then-keeps}
use zeropod.Manager.PodController.{checkpoint_cleanup_finalizer}
use zeropod.Manager.MigrationController.{
  ImageStore, Finalizers, remove_and, cleanup_checkpoint_image, cleanup_all_checkpoint_images,
  cleanup_final_checkpoint_images, ensure_finalizers, finalize, tidy, reconcile_migration,
}

-- The first container of a name
abbrev pub container_of : Text → List MigrationContainer → Option MigrationContainer
container_of name [] = none
container_of name (c ∷ cs) =
    let rest = container_of name cs in if same name c.name then some c else rest

some-injective : {A : Type 0} {a b : A} → ◌≡◌ {A = Option A} (some a) (some b) → a ≡ b
some-injective p = cc

-- What is known of the images: `Gone` is established by a removal and by the answer that an image
-- is not there, and kept by all that the controller does.
pub record Goes {S : Type 0} (store : ImageStore S) (Gone : Text → S → Type 0) : Type 0 where
  pub missing :
      (id : Text) (s : S) → (store.exists id s).0 ≡ ok false → Gone id (store.exists id s).1
  pub removed :
      (id : Text) (s : S) → (store.remove_all id s).0 ≡ ok tt → Gone id (store.remove_all id s).1
  pub exists-keeps : (i j : Text) (s : S) → Gone i s → Gone i (store.exists j s).1
  pub remove-keeps : (i j : Text) (s : S) → Gone i s → Gone i (store.remove_all j s).1

module _ {S : Type 0} (kube : Kube S) (store : ImageStore S) (fin : Finalizers) (node_name : Text)
    (Gone : Text → S → Type 0) (goes : Goes store Gone) where
  pub cleanup-keeps :
      (id name : Text) (cs : List MigrationContainer) (s : S)
      → Gone id s
      → Gone id (cleanup_checkpoint_image kube store fin node_name name cs s).1
  unfolding cleanup_checkpoint_image remove_and
  cleanup-keeps id name [] s g = g
  cleanup-keeps id name (c ∷ cs) s g =
      if-cases {B = Result KubeError (Unit {0}) × S} (λ x. Gone id x.1) (not (same name c.name))
        (λ h. cleanup-keeps id name cs s g)
        (λ h.
          then-keeps (Gone id) (store.exists c.id s) _ (goes.exists-keeps id c.id s g)
            (λ there t k. asked there t k (cleanup-keeps id name cs)))
    where
      asked :
          (there : Bool) (t : S)
          → Gone id t
          → ((u : S)
              → Gone id u
              → Gone id (cleanup_checkpoint_image kube store fin node_name name cs u).1)
          → Gone id
              (remove_and kube store fin node_name c.id
                (cleanup_checkpoint_image kube store fin node_name name cs)
                there
                t).1
      asked false t k f = k
      asked true t k f =
          then-keeps (Gone id) (store.remove_all c.id t) _ (goes.remove-keeps id c.id t k)
            (λ u v. f v)

  pub cleanup-Gone :
      (name : Text) (cs : List MigrationContainer) (s : S) (c : MigrationContainer)
      → (cleanup_checkpoint_image kube store fin node_name name cs s).0 ≡ ok tt
      → container_of name cs ≡ some c
      → Gone c.id (cleanup_checkpoint_image kube store fin node_name name cs s).1
  unfolding cleanup_checkpoint_image remove_and
  cleanup-Gone name [] s c e is_c = absurd cc
  cleanup-Gone name (d ∷ cs) s c e is_c =
      (if-cases {B = Result KubeError (Unit {0}) × S} (λ x. x.0 ≡ ok tt → Gone c.id x.1)
          (not (same name d.name))
          (λ h e.
            cleanup-Gone name cs s c e
              (sym (if_false {b = same name d.name} _ (ground arith)) ∙ is_c))
          (λ h e.
            let is_d : d ≡ c =
              some-injective (sym (if_true {b = same name d.name} _ (ground arith)) ∙ is_c) in
            let asked = then_ok (store.exists d.id s) _ tt e in
            subst
              (λ (x : MigrationContainer).
                Gone x.id
                  (then_call (store.exists d.id s) (
                    remove_and kube store fin node_name d.id
                      (cleanup_checkpoint_image kube store fin node_name name cs))).1)
              is_d
              (subst (λ x. Gone d.id x.1) (sym asked.2)
                (gone asked.0 (store.exists d.id s).1 (λ f. goes.missing d.id s (asked.1 ∙ ap ok f))
                  (ap (λ x. x.0) (sym asked.2) ∙ e)))))
        e
    where
      gone :
          (there : Bool) (t : S)
          → (there ≡ false → Gone d.id t)
          → (remove_and kube store fin node_name d.id
              (cleanup_checkpoint_image kube store fin node_name name cs)
              there
              t).0
            ≡ ok tt
          → Gone d.id
              (remove_and kube store fin node_name d.id
                (cleanup_checkpoint_image kube store fin node_name name cs)
                there
                t).1
      gone false t f e = f refl
      gone true t f e =
          let removed =
            then_ok (store.remove_all d.id t)
              (λ _. cleanup_checkpoint_image kube store fin node_name name cs) tt e in
          subst (λ x. Gone d.id x.1) (sym removed.2)
            (cleanup-keeps d.id name cs _ (goes.removed d.id t removed.1))
