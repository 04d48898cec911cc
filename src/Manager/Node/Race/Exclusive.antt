-- ===== src/Manager/Node/Race/Exclusive.antt =====
-- At most one pod takes a migration (findMatchingMigration of manager/node/service.go).
use zeropod.Base.{
  ◌≡◌, refl, sym, ◌∙◌, ap, subst, true, false, not, ◌&&◌, [], ◌∷◌, Text, same, eq_of_same, is_empty,
  Result, ok, err, if-cases, Bool-cases, Member, inl, inr, arith,
}
use zeropod.Api.Objects.{KubePod}
use zeropod.Api.Migrations.{Migration, claim, claimed, claimed_and_matches_pod, matches_pod}
use zeropod.Api.Migrations.Claims.{free_node}
use zeropod.Kube.{
  KubeError, not_found, conflict, already_exists, invalid, timed_out, no_match, nil_pointer,
  kube_failed, Kube,
}
use zeropod.Manager.Node.Service.{claim_first, unless_conflict}
use zeropod.Manager.Node.Race.Invariant.{
  Inv, Snapshot, Snapshot-refl, Moves, Holds, Inv-moved, Inv-still, Inv-taken, edited, marked,
}
use zeropod.Manager.Node.Race.{
  OptimisticLock, World, Agrees, after_round, Step, tries, edits, marks, Reachable, here, step,
}

true≢false : true ≡ false → ⊥
true≢false e = absurd cc

module _ {S : Type 0} (kube : Kube S) (stored : S → Migration)
    (lock : OptimisticLock kube stored) where
  -- A claim of a free version that is accepted moves the stored migration, which was free, too.
  claim-Moves :
      (w : World S) (m n : Migration) (name node_name : Text)
      → Inv kube stored w
      → Member m w.history
      → is_empty node_name ≡ false
      → claimed m ≡ false
      → (kube.update_migration (claim name node_name m) w.cluster).0 ≡ ok n
      → Moves
          (stored w.cluster)
          (stored (kube.update_migration (claim name node_name m) w.cluster).1)
        × Holds name (stored (kube.update_migration (claim name node_name m) w.cluster).1)
  unfolding claim
  claim-Moves w m n name node_name i is_in h free e =
      let (current, later, sent) = lock.accepted (claim name node_name m) n w.cluster e in
      let agrees : Agrees m (stored w.cluster) = (i.read m is_in).current current in
      let was_free : is_empty (stored w.cluster).spec.target_node ≡ true =
        ap is_empty (sym agrees.node) ∙ free_node m free in
      let has_node : is_empty
            (stored (kube.update_migration (claim name node_name m) w.cluster).1).spec.target_node
          ≡ false =
        ap (λ p. is_empty p.target_node) sent ∙ h in
      (
        record {
          later = later;
          kept = λ g. absurd (true≢false (sym was_free ∙ g));
          blank = λ g. absurd (true≢false (sym g ∙ has_node));
        },
        record { pod = ap (λ p. p.target_pod) sent; node = has_node },
      )

  mine-Holds :
      (w : World S) (m : Migration) (pod : KubePod)
      → Inv kube stored w
      → Member m w.history
      → is_empty pod.key.name ≡ false
      → claimed_and_matches_pod m pod ≡ true
      → Holds pod.key.name (stored w.cluster)
  unfolding claimed_and_matches_pod
  mine-Holds w m pod i is_in h mine =
      let snap = i.read m is_in in
      let is_same : same m.spec.target_pod pod.key.name ≡ true = ground arith in
      let is_name : m.spec.target_pod ≡ pod.key.name = eq_of_same _ _ is_same in
      let has_node : is_empty m.spec.target_node ≡ false =
        elim (Bool-cases (is_empty m.spec.target_node)) [
          | inl e ↦ absurd (true≢false (sym (ap is_empty (snap.blank e)) ∙ ap is_empty is_name ∙ h))
          | inr e ↦ e
        ] in
      let a = snap.kept has_node in
      record { pod = sym a.pod ∙ is_name; node = ap is_empty (sym a.node) ∙ has_node }

  tried :
      (w : World S) (m : Migration) (pod : KubePod) (node_name : Text)
      → Inv kube stored w
      → Member m w.history
      → is_empty pod.key.name ≡ false
      → is_empty node_name ≡ false
      → Inv kube stored (
          after_round kube stored w pod.key.name
            (claim_first kube node_name pod (m ∷ []) w.cluster))
  unfolding claim_first unless_conflict
  tried w m pod node_name i is_in has_name has_node =
      if-cases {B = Result KubeError Migration × S}
        (λ r. Inv kube stored (after_round kube stored w pod.key.name r))
        (claimed_and_matches_pod m pod)
        (λ mine.
          Inv-taken kube stored lock w pod.key.name m w.cluster
            (Inv-still kube stored lock w w.cluster i refl)
            (mine-Holds w m pod i is_in has_name mine))
        (λ other.
          if-cases {B = Result KubeError Migration × S}
            (λ r. Inv kube stored (after_round kube stored w pod.key.name r))
            (matches_pod m pod && not (claimed m))
            (λ free.
              sent (kube.update_migration (claim pod.key.name node_name m) w.cluster).0 refl
                (ground arith))
            (λ free. Inv-still kube stored lock w w.cluster i refl))
    where
      sent :
          (r : Result KubeError Migration)
          → (kube.update_migration (claim pod.key.name node_name m) w.cluster).0 ≡ r
          → claimed m ≡ false
          → Inv kube stored (
              after_round kube stored w pod.key.name (
                unless_conflict
                  (r, (kube.update_migration (claim pod.key.name node_name m) w.cluster).1)
                  (claim_first kube node_name pod [])))
      sent (ok n) e f =
          let (moves, holds) = claim-Moves w m n pod.key.name node_name i is_in has_node f e in
          Inv-taken kube stored lock w pod.key.name n _ (Inv-moved kube stored lock w _ i moves)
            holds
      sent (err not_found) e f =
          Inv-still kube stored lock w _ i (lock.refused _ not_found w.cluster e)
      sent (err conflict) e f =
          Inv-still kube stored lock w _ i (lock.refused _ conflict w.cluster e)
      sent (err already_exists) e f =
          Inv-still kube stored lock w _ i (lock.refused _ already_exists w.cluster e)
      sent (err invalid) e f = Inv-still kube stored lock w _ i (lock.refused _ invalid w.cluster e)
      sent (err timed_out) e f =
          Inv-still kube stored lock w _ i (lock.refused _ timed_out w.cluster e)
      sent (err no_match) e f =
          Inv-still kube stored lock w _ i (lock.refused _ no_match w.cluster e)
      sent (err nil_pointer) e f =
          Inv-still kube stored lock w _ i (lock.refused _ nil_pointer w.cluster e)
      sent (err kube_failed) e f =
          Inv-still kube stored lock w _ i (lock.refused _ kube_failed w.cluster e)

  Inv-kept : {w u : World S} → Inv kube stored w → Step kube stored w u → Inv kube stored u
  Inv-kept {w = w} i (tries m pod node_name is_in has_name has_node) =
      tried w m pod node_name i is_in has_name has_node
  Inv-kept {w = w} i (edits m n is_in version a) = edited kube stored lock w m n i is_in version a
  Inv-kept {w = w} i (marks m) = marked kube stored lock w m i

  Inv-reached : {w u : World S} → Inv kube stored w → Reachable kube stored w u → Inv kube stored u
  Inv-reached i here = i
  Inv-reached i (step r s) = Inv-kept (Inv-reached i r) s

  -- Where the API keeps to its optimistic lock: from a migration that nobody claimed, whatever rounds, updates that leave the target, and
  -- updates of the status follow on one another, from whatever earlier versions: the pods that took
  -- the migration for theirs all have the one name that is stored as its target.
  pub race-Exclusive :
      (s : S) (w : World S)
      → (stored s).spec.target_pod ≡ []
      → (stored s).spec.target_node ≡ []
      → Reachable kube stored (record { cluster = s; history = stored s ∷ []; holders = [] }) w
      → (a b : Text) → Member a w.holders
      → Member b w.holders
      → (a ≡ b) × ((stored w.cluster).spec.target_pod ≡ a)
  race-Exclusive s w no_pod no_node reached a b in_a in_b =
      let i : Inv kube stored w =
        Inv-reached
          (record {
            read = λ m is_in. elim is_in [
              | inl e ↦ subst (λ x. Snapshot x (stored s)) (sym e) (Snapshot-refl (λ h. no_pod))
              | inr none ↦ absurd none
            ];
            now = Snapshot-refl (λ h. no_pod);
            held = λ name none. absurd none;
          })
          reached in
      (sym (i.held a in_a).pod ∙ (i.held b in_b).pod, (i.held a in_a).pod)
