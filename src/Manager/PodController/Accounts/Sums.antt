-- ===== src/Manager/PodController/Accounts/Sums.antt =====
-- The sum of the requests (updateNodeResources of manager/pod_controller.go).
use zeropod.Base.{
  ℕ, ◌+◌, ◌≡◌, refl, sym, ◌∙◌, ap, Bool, true, false, not, ◌&&◌, Option, List, [], ◌∷◌, Text, same,
  Result, ok, if◌then◌else◌, if-cases, if_true, if_false, arith,
}
use zeropod.Base.Int.{ℤ}
use zeropod.Api.Objects.{KubePod, Node, StatusOfContainer}
use zeropod.Kube.{KubeError, then_call, Kube}
use zeropod.Kube.Laws.{then_ok, then-keeps}
use zeropod.Manager.Scaler.{ResourceList, amount}
use zeropod.Manager.Taints.{has_taint, remove_taint}
use zeropod.Manager.Trackers.{Tracker, ResourceName, cpu, memory, is_below_threshold}
use zeropod.Manager.PodController.{
  PodReconciler, RequeueAfter, add_pods, add_containers, requested_by, is_running, added_recently,
}
use zeropod.Manager.PodController.Accounts.{update_node_resources, lift_taint}

-- Sums without a loop: over the containers of a pod, and over the pods that run on the node.
abbrev pub sum_of : {A : Type 0} → (A → ℕ) → List A → ℕ
sum_of f [] = 0
sum_of f (x ∷ xs) = f x + sum_of f xs

abbrev pub runs_on : Text → KubePod → Bool
runs_on node_name pod = same pod.node_name node_name && is_running pod.phase

abbrev pub pod_total : (ResourceList → Option ℕ) → KubePod → ℕ
pod_total f pod =
    requested_by f pod.resources + sum_of (λ c. requested_by f c.resources) pod.statuses

abbrev pub node_total : Text → (ResourceList → Option ℕ) → List KubePod → ℕ
node_total node_name f pods = sum_of (λ p. if runs_on node_name p then pod_total f p else 0) pods

add_containers-eq :
    (f : ResourceList → Option ℕ) (n : ℕ) (cs : List StatusOfContainer)
    → add_containers f n cs ≡ n + sum_of (λ c. requested_by f c.resources) cs
unfolding add_containers
add_containers-eq f n [] = omega arith
add_containers-eq f n (c ∷ cs) =
    add_containers-eq f (n + requested_by f c.resources) cs ∙ omega arith

add_pods-eq :
    (node_name : Text) (f : ResourceList → Option ℕ) (pods : List KubePod) (n : ℕ)
    → add_pods node_name f n pods ≡ n + node_total node_name f pods
unfolding add_pods
add_pods-eq node_name f [] n = omega arith
add_pods-eq node_name f (pod ∷ pods) n =
    add_pods-eq node_name f pods _ ∙ ap (λ k. k + node_total node_name f pods) round ∙ omega arith
  where
    round :
        (if not (same pod.node_name node_name)
          then n
          else (if not (is_running pod.phase)
              then n
              else add_containers f (n + requested_by f pod.resources) pod.statuses))
        ≡ n + (if runs_on node_name pod then pod_total f pod else 0)
    round =
        if-cases (λ k. k ≡ n + (if runs_on node_name pod then pod_total f pod else 0))
          (not (same pod.node_name node_name))
          (λ h.
            omega arith
            ∙ ap (λ k. n + k) (sym (if_false {b = runs_on node_name pod} _ (ground arith))))
          (λ h.
            if-cases (λ k. k ≡ n + (if runs_on node_name pod then pod_total f pod else 0))
              (not (is_running pod.phase))
              (λ g.
                omega arith
                ∙ ap (λ k. n + k) (sym (if_false {b = runs_on node_name pod} _ (ground arith))))
              (λ g.
                add_containers-eq f _ pod.statuses
                ∙ omega arith
                ∙ ap (λ k. n + k) (sym (if_true {b = runs_on node_name pod} _ (ground arith)))))

-- A tracker that gives back what it was told.
pub record Remembers {T : Type 0} (tr : Tracker T) : Type 0 where
  pub told : (r : ResourceName) (q : ℕ) (t : T) → tr.requested r (tr.set_requested r q t) ≡ q
  pub untouched :
      (q : ℕ) (t : T) → tr.requested cpu (tr.set_requested memory q t) ≡ tr.requested cpu t

module _ {S : Type 0} (kube : Kube S) (tr : Tracker S) (r : PodReconciler S)
    (same_tracker : (n : ResourceName) (node : Node) (s : S)
      → tr.requested n (kube.update_node node s).1 ≡ tr.requested n s) where
  lift_taint-keeps :
      (n : ResourceName) (now : ℤ) (node : Node) (cpus mem : ℕ) (x : Bool × Option ℤ) (s : S)
      → tr.requested n (lift_taint kube tr r now node cpus mem x s).1 ≡ tr.requested n s
  unfolding lift_taint
  lift_taint-keeps n now node cpus mem (false, t) s = refl
  lift_taint-keeps n now node cpus mem (true, t) s =
      if-cases {B = Result KubeError RequeueAfter × S} (λ x. tr.requested n x.1 ≡ tr.requested n s)
        (added_recently now t) (λ h. refl)
        (λ h.
          if-cases {B = Result KubeError RequeueAfter × S}
            (λ x. tr.requested n x.1 ≡ tr.requested n s)
            (is_below_threshold tr cpu s cpus && is_below_threshold tr memory s mem)
            (λ g.
              then-keeps (λ u. tr.requested n u ≡ tr.requested n s)
                (kube.update_node (record node { taints = remove_taint node.taints }) s) _
                (same_tracker n _ s) (λ a u q. q))
            (λ g. refl))

  -- When the resources of the node were updated, the tracker has as requests the sums over the pods
  -- in the cluster that run on the node, of what each asks for itself and in its containers; the
  -- calls of the API do not touch the tracker, and it gives back what it was told.
  pub update_node_resources-sums :
      Remembers tr
      → (now : ℤ) (s : S) (after : RequeueAfter)
      → (update_node_resources kube tr r now s).0 ≡ ok after
      → (t : S) × (pods : List KubePod) × ((kube.list_pods t).0 ≡ ok pods)
        × (tr.requested cpu (update_node_resources kube tr r now s).1
            ≡ node_total r.node_name (λ q. q.cpu) pods)
        × (tr.requested memory (update_node_resources kube tr r now s).1
            ≡ node_total r.node_name (λ q. q.memory) pods)
  unfolding update_node_resources then_call
  update_node_resources-sums told now s after e =
      let got = then_ok (kube.get_node r.node_name s) _ after e in
      let capacity : S =
        tr.set_capacity memory (amount got.0.capacity.memory)
          (tr.set_capacity cpu (amount got.0.capacity.cpu) (kube.get_node r.node_name s).1) in
      let listed = then_ok (kube.list_pods capacity) _ after (ap (λ x. x.0) (sym got.2) ∙ e) in
      let pods : List KubePod = listed.0 in
      let cpus : ℕ = add_pods r.node_name (λ q. q.cpu) 0 pods in
      let mem : ℕ = add_pods r.node_name (λ q. q.memory) 0 pods in
      let told_cpu : S = tr.set_requested cpu cpus (kube.list_pods capacity).1 in
      let final = got.2 ∙ listed.2 in
      (
        capacity,
        pods,
        listed.1,
        ap (λ x. tr.requested cpu x.1) final
            ∙ lift_taint-keeps cpu now got.0 cpus mem (has_taint got.0.taints)
                (tr.set_requested memory mem told_cpu)
            ∙ told.untouched mem told_cpu
            ∙ told.told cpu cpus (kube.list_pods capacity).1
            ∙ add_pods-eq r.node_name (λ q. q.cpu) pods 0
            ∙ omega arith,
        ap (λ x. tr.requested memory x.1) final
            ∙ lift_taint-keeps memory now got.0 cpus mem (has_taint got.0.taints)
                (tr.set_requested memory mem told_cpu)
            ∙ told.told memory mem told_cpu
            ∙ add_pods-eq r.node_name (λ q. q.memory) pods 0
            ∙ omega arith,
      )
