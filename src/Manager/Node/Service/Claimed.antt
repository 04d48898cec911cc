-- ===== src/Manager/Node/Service/Claimed.antt =====
-- The migration that findMatchingMigration of manager/node/service.go gives.
use zeropod.Base.{
  ◌≡◌, sym, ◌∙◌, ap, subst, true, false, not, ◌&&◌, List, [], ◌∷◌, Text, same, is_empty, same_refl,
  Result, ok, err, ok-injective, if-cases, arith,
}
use zeropod.Api.Objects.{KubePod}
use zeropod.Api.Migrations.{
  Migration, claim, claimed, claimed_and_matches_pod, has_unclaimed_container, matches_pod,
}
use zeropod.Kube.{
  KubeError, not_found, conflict, already_exists, invalid, timed_out, no_match, nil_pointer,
  kube_failed, Call, Kube,
}
use zeropod.Kube.Laws.{KubeLaws, then_ok}
use zeropod.Manager.Node.Service.{claim_first, find_matching_migration, unless_conflict}

-- An update of a migration gives it back with its spec.
pub record KeepsSpec {S : Type 0} (send : Migration → Call S Migration) : Type 0 where
  pub spec : (m n : Migration) (s : S) → (send m s).0 ≡ ok n → n.spec ≡ m.spec

same-spec :
    (pod : KubePod) (node_name : Text) (m n : Migration)
    → is_empty node_name ≡ false
    → n.spec ≡ (claim pod.key.name node_name m).spec
    → claimed_and_matches_pod n pod ≡ true
unfolding claim claimed_and_matches_pod claimed has_unclaimed_container
same-spec pod node_name m n h e =
    let is_ours : same n.spec.target_pod pod.key.name ≡ true =
      ap (λ spec. same spec.target_pod pod.key.name) e ∙ same_refl pod.key.name in
    let has_node : is_empty n.spec.target_node ≡ false =
      ap (λ spec. is_empty spec.target_node) e ∙ h in
    ground arith

module _ {S : Type 0} (kube : Kube S) (keeps : KeepsSpec kube.update_migration) where
  claim_first-IsClaimed :
      (node_name : Text) (pod : KubePod)
      → is_empty node_name ≡ false
      → (migs : List Migration) (s : S) (m : Migration)
      → (claim_first kube node_name pod migs s).0 ≡ ok m
      → claimed_and_matches_pod m pod ≡ true
  unfolding claim_first unless_conflict
  claim_first-IsClaimed node_name pod h [] s m e = absurd cc
  claim_first-IsClaimed node_name pod h (mig ∷ migs) s m e =
      (if-cases {B = Result KubeError Migration × S}
          (λ x. x.0 ≡ ok m → claimed_and_matches_pod m pod ≡ true) (claimed_and_matches_pod mig pod)
          (λ c e. subst (λ n. claimed_and_matches_pod n pod ≡ true) (ok-injective e) c)
          (λ c.
            if-cases {B = Result KubeError Migration × S}
              (λ x. x.0 ≡ ok m → claimed_and_matches_pod m pod ≡ true)
              (matches_pod mig pod && not (claimed mig))
              (λ f.
                sent (kube.update_migration (claim pod.key.name node_name mig) s).0 _
                  (λ e. same-spec pod node_name mig m h (keeps.spec _ m s e))
                  (λ t. claim_first-IsClaimed node_name pod h migs t m))
              (λ f. claim_first-IsClaimed node_name pod h migs s m)))
        e
    where
      sent :
          (r : Result KubeError Migration) (t : S)
          → (r ≡ ok m → claimed_and_matches_pod m pod ≡ true)
          → ((u : S)
              → (claim_first kube node_name pod migs u).0 ≡ ok m
              → claimed_and_matches_pod m pod ≡ true)
          → (unless_conflict (r, t) (claim_first kube node_name pod migs)).0 ≡ ok m
          → claimed_and_matches_pod m pod ≡ true
      sent (ok n) t f g e = f e
      sent (err conflict) t f g e = g t e
      sent (err not_found) t f g e = absurd cc
      sent (err already_exists) t f g e = absurd cc
      sent (err invalid) t f g e = absurd cc
      sent (err timed_out) t f g e = absurd cc
      sent (err no_match) t f g e = absurd cc
      sent (err nil_pointer) t f g e = absurd cc
      sent (err kube_failed) t f g e = absurd cc

  -- The migration that is found for a pod, on a node with a name, is claimed for that pod, however
  -- many rounds it took and whichever claims met a conflict.
  pub find_matching_migration-IsClaimed :
      KubeLaws kube
      → (node_name : Text) (pod : KubePod) → is_empty node_name ≡ false
      → (s : S) (m : Migration) → (find_matching_migration kube node_name pod s).0 ≡ ok m
      → claimed_and_matches_pod m pod ≡ true
  unfolding find_matching_migration
  find_matching_migration-IsClaimed laws node_name pod h s m e =
      (laws.retried_no_match (λ t. Unit) (λ n t. claimed_and_matches_pod n pod ≡ true) _
          record {
            keeps = λ t p. tt;
            gives = λ t n p e.
                let listed =
                  then_ok (kube.list_migrations pod.key.namespace t)
                    (claim_first kube node_name pod) n e in
                claim_first-IsClaimed node_name pod h listed.0 _ n
                  (ap (λ x. x.0) (sym listed.2) ∙ e);
          }).gives
        s m tt e
