-- ===== src/Manager/Node/Capacity/Evictions.antt =====
-- The count of evictions (evictPod of manager/node/service.go).
use zeropod.Base.{
  ℕ, suc, ◌+◌, ◌≡◌, refl, sym, ◌∙◌, ap, Bool, true, false, List, Text, Result, ok, if◌then◌else◌,
  if-cases, if_true, if_false, arith,
}
use zeropod.Base.Int.{ℤ}
use zeropod.Config.{any_migration_annotated}
use zeropod.Api.Objects.{Key, KubePod, Node}
use zeropod.Kube.{KubeError, Kube}
use zeropod.Kube.Laws.{KubeLaws, then-keeps}
use zeropod.Shim.Restore.{RestoreCapacityResponse}
use zeropod.Manager.Taints.{Taint, add_taint}
use zeropod.Manager.Trackers.{Tracker}
use zeropod.Manager.Node.Capacity.{
  redirect_to_target, answer_eviction, evict_pod, taint_node, send_taint,
}
use zeropod.Manager.Node.Capacity.Denied.{redirected, evicted, await-keeps}

module _ {S : Type 0} (kube : Kube S) (tr : Tracker S) (node_name : Text) (laws : KubeLaws kube)
    (count : S → ℕ) where
  taint-count :
      ((n : Text) (s : S) → count (kube.get_node n s).1 ≡ count s)
      → ((n : Node) (s : S) → count (kube.update_node n s).1 ≡ count s)
      → (now : ℤ) (s : S) → count (taint_node kube tr node_name now s).1 ≡ count s
  unfolding taint_node send_taint
  taint-count get_node update_node now s =
      (laws.retried_on_conflict (λ t. count t ≡ count s) (λ a t. Unit) _
          record {
            keeps = λ t p.
                then-keeps (λ u. count u ≡ count s) (kube.get_node node_name t) _
                  (get_node node_name t ∙ p)
                  (λ node u q. sent node (add_taint now node.taints) u ∙ q);
            gives = λ t a p e. tt;
          }).keeps
        s refl
    where
      sent :
          (node : Node) (x : Bool × List Taint) (t : S)
          → count (send_taint kube tr node_name node x t).1 ≡ count t
      sent node (false, ts) t = refl
      sent node (true, ts) t =
          then-keeps (λ u. count u ≡ count t) (kube.update_node (record node { taints = ts }) t) _
            (update_node _ t) (λ a u q. q)

  -- An eviction of a pod without migration that succeeds is counted once, and one of a pod with
  -- migration twice, where no call of the API touches the count and the retries and polls are as
  -- documented.
  pub evict_pod-count :
      ((n : Text) (s : S) → count (kube.get_node n s).1 ≡ count s)
      → ((n : Node) (s : S) → count (kube.update_node n s).1 ≡ count s)
      → ((k : Key) (s : S) → count (kube.delete_pod k s).1 ≡ count s)
      → ((k : Key) (s : S) → count (kube.get_migration k s).1 ≡ count s)
      → ((s : S) → count (tr.inc_evicted s) ≡ suc (count s))
      → (now : ℤ) (key : Key) (pod : KubePod) (s : S) (r : RestoreCapacityResponse)
      → (evict_pod kube tr node_name now key pod s).0 ≡ ok r
      → count (evict_pod kube tr node_name now key pod s).1
        ≡ (if any_migration_annotated pod.spec.annotations then count s + 2 else count s + 1)
  unfolding answer_eviction
  evict_pod-count get_node update_node delete get_migration inc now key pod s r e =
      let ev = evicted kube tr node_name now key pod s r e in
      let gone : S = (kube.delete_pod pod.key (taint_node kube tr node_name now s).1).1 in
      let once : count (tr.inc_evicted gone) ≡ suc (count s) =
        inc gone ∙ ap suc (delete pod.key _ ∙ taint-count get_node update_node now s) in
      let twice : count (redirect_to_target kube tr node_name key (tr.inc_evicted gone)).1
          ≡ suc (suc (count s)) =
        ap (λ x. count x.1) (redirected kube tr node_name key (tr.inc_evicted gone)).1
        ∙ inc _
        ∙ ap suc (
            await-keeps kube tr node_name laws (λ t. count t ≡ suc (count s)) key
              (λ t p. get_migration key t ∙ p) (tr.inc_evicted gone) once) in
      ap (λ x. count x.1) ev.1
      ∙ if-cases {B = Result KubeError RestoreCapacityResponse × S}
          (λ x.
            count x.1
            ≡ (if any_migration_annotated pod.spec.annotations then count s + 2 else count s + 1))
          (any_migration_annotated pod.spec.annotations)
          (λ a. twice ∙ omega arith ∙ sym (if_true _ a))
          (λ a. once ∙ omega arith ∙ sym (if_false _ a))
