-- ===== src/Manager/Node/Capacity/Denied.antt =====
-- What a denied restore has behind it (RestoreCapacity and evictPod of manager/node/service.go).
use zeropod.Base.{
  ◌≡◌, refl, sym, ◌∙◌, ap, subst, true, false, [], Text, Result, ok, err, ok-injective, if-cases,
}
use zeropod.Base.Int.{ℤ}
use zeropod.Config.{any_migration_annotated}
use zeropod.Api.Objects.{Key, KubePod}
use zeropod.Kube.{KubeError, then_call, found_or_none, or_else, give, Kube}
use zeropod.Kube.Laws.{KubeLaws, then_ok, then-keeps}
use zeropod.Manager.Scaler.{Json, ResourceList}
use zeropod.Shim.Restore.{RestoreCapacityResponse}
use zeropod.Manager.Trackers.{Tracker}
use zeropod.Manager.Node.Capacity.{
  RestoreCapacityRequest, ResourcesError, bad_requests, empty_requests, allow, deny,
  await_target_ip, redirect_to_target, answer_eviction, evict_pod, admit, restore_capacity,
  count_eviction, taint_node, has_capacity, requested_resources, get_container_resources,
}

allowed-IsNotDenied :
    {X : Type 0} {r : RestoreCapacityResponse}
    → ◌≡◌ {A = Result KubeError RestoreCapacityResponse} (ok allow) (ok r)
    → r.allowed ≡ false
    → X
allowed-IsNotDenied {r = r} e h =
    let a : true ≡ r.allowed = ap (λ x. x.allowed) (ok-injective e) in absurd cc

module _ {S : Type 0} (kube : Kube S) (tr : Tracker S) (node_name : Text) where
  pub redirected :
      (key : Key) (s : S)
      → (ip : Text) × (redirect_to_target kube tr node_name key s
          ≡ (ok (deny ip), tr.inc_evicted (await_target_ip kube tr node_name key s).1))
  unfolding redirect_to_target or_else count_eviction then_call
  redirected key s =
      answered (await_target_ip kube tr node_name key s).0
        (await_target_ip kube tr node_name key s).1
    where
      answered :
          (r : Result KubeError Text) (t : S)
          → (ip : Text) × (then_call
                (or_else [] (r, t))
                (λ ip u. then_call (count_eviction kube tr node_name u) (λ _. give (deny ip)))
              ≡ (ok (deny ip), tr.inc_evicted t))
      answered (ok ip) t = (ip, refl)
      answered (err e) t = ([], refl)

  pub evicted :
      (now : ℤ) (key : Key) (pod : KubePod) (s : S) (r : RestoreCapacityResponse)
      → (evict_pod kube tr node_name now key pod s).0 ≡ ok r
      → ((kube.delete_pod pod.key (taint_node kube tr node_name now s).1).0 ≡ ok tt)
        × (evict_pod kube tr node_name now key pod s
            ≡ answer_eviction kube tr node_name key pod
                (tr.inc_evicted (kube.delete_pod pod.key (taint_node kube tr node_name now s).1).1))
  unfolding evict_pod count_eviction then_call
  evicted now key pod s r e =
      let tainted = then_ok (taint_node kube tr node_name now s) _ r e in
      let deleted =
        then_ok (kube.delete_pod pod.key (taint_node kube tr node_name now s).1)
          (λ _ t. answer_eviction kube tr node_name key pod (tr.inc_evicted t)) r
          (ap (λ x. x.0) (sym tainted.2) ∙ e) in
      (deleted.1, tainted.2 ∙ deleted.2)

  answered_with :
      (P : RestoreCapacityResponse → S → Type 0) (key : Key) (pod : KubePod) (s : S)
      → P (deny []) s
      → ((ip : Text) → P (deny ip) (tr.inc_evicted (await_target_ip kube tr node_name key s).1))
      → (r : RestoreCapacityResponse) → (answer_eviction kube tr node_name key pod s).0 ≡ ok r
      → P r (answer_eviction kube tr node_name key pod s).1
  unfolding answer_eviction
  answered_with P key pod s plain waited r =
      if-cases {B = Result KubeError RestoreCapacityResponse × S} (λ x. x.0 ≡ ok r → P r x.1)
        (any_migration_annotated pod.spec.annotations)
        (λ a e.
          let t = redirected key s in
          subst (λ q. P q (redirect_to_target kube tr node_name key s).1)
            (ok-injective (ap (λ x. x.0) (sym t.1) ∙ e))
            (subst (λ x. P (deny t.0) x.1) (sym t.1) (waited t.0)))
        (λ a e. subst (λ q. P q s) (ok-injective e) plain)

  module _ (laws : KubeLaws kube) where
    -- What the calls that it makes keep, the wait keeps.
    pub await-keeps :
        (P : S → Type 0) (key : Key)
        → ((s : S) → P s → P (kube.get_migration key s).1)
        → (s : S) → P s
        → P (await_target_ip kube tr node_name key s).1
    unfolding await_target_ip
    await-keeps P key keep s =
        (laws.polled P (λ a t. Unit) _
            record {
              keeps = λ t p.
                  then-keeps P (found_or_none (kube.get_migration key t)) _ (keep t p) (λ m u q. q);
              gives = λ t a p e b h. tt;
            }).keeps
          s

    -- When a restore is denied, the API had the pod, the node had no capacity for the resources that
    -- the container requests, and the pod is deleted. `Gone` is any property of a pod that its
    -- deletion establishes and that reading migrations and counting evictions keep; the retries and
    -- polls are as documented.
    pub restore_capacity-IsDenied :
        (Gone : Key → S → Type 0)
        → ((k : Key) (s : S) → (kube.delete_pod k s).0 ≡ ok tt → Gone k (kube.delete_pod k s).1)
        → ((k j : Key) (s : S) → Gone k s → Gone k (kube.get_migration j s).1)
        → ((k : Key) (s : S) → Gone k s → Gone k (tr.inc_evicted s))
        → (js : Json) (now : ℤ) (req : RestoreCapacityRequest) (s : S) (r : RestoreCapacityResponse)
        → (restore_capacity kube tr node_name js now req s).0 ≡ ok r
        → r.allowed ≡ false
        → (pod : KubePod) × (res : ResourceList) × ((kube.get_pod req.pod s).0 ≡ ok pod)
          × (get_container_resources js pod req.container_name ≡ ok res)
          × (has_capacity kube tr node_name
                (requested_resources kube tr node_name req res)
                (kube.get_pod req.pod s).1
              ≡ false)
          × Gone pod.key (restore_capacity kube tr node_name js now req s).1
    unfolding restore_capacity admit then_call
    restore_capacity-IsDenied Gone delete get inc js now req s r e h =
        let got =
          then_ok (kube.get_pod req.pod s)
            (λ pod.
              admit kube tr node_name now req pod
                (get_container_resources js pod req.container_name))
            r e in
        let (res, is_res, no_capacity, gone) =
          refused got.0 (get_container_resources js got.0 req.container_name)
            (kube.get_pod req.pod s).1 (ap (λ x. x.0) (sym got.2) ∙ e) in
        (got.0, res, got.1, is_res, no_capacity, subst (λ x. Gone got.0.key x.1) (sym got.2) gone)
      where
        gone_after :
            (pod : KubePod) (t : S)
            → (evict_pod kube tr node_name now req.pod pod t).0 ≡ ok r
            → Gone pod.key (evict_pod kube tr node_name now req.pod pod t).1
        gone_after pod t e =
            let ev = evicted now req.pod pod t r e in
            subst (λ x. Gone pod.key x.1) (sym ev.1)
              (answered_with (λ a u. Gone pod.key u) req.pod pod
                (tr.inc_evicted (kube.delete_pod pod.key (taint_node kube tr node_name now t).1).1)
                (inc pod.key _ (delete pod.key _ ev.0))
                (λ ip. inc pod.key _ (
                  await-keeps (Gone pod.key) req.pod (get pod.key req.pod) _
                    (inc pod.key _ (delete pod.key _ ev.0))))
                r (ap (λ x. x.0) (sym ev.1) ∙ e))

        refused :
            (pod : KubePod) (x : Result ResourcesError ResourceList) (t : S)
            → (admit kube tr node_name now req pod x t).0 ≡ ok r
            → (res : ResourceList) × (x ≡ ok res)
              × (has_capacity kube tr node_name (requested_resources kube tr node_name req res) t
                  ≡ false)
              × Gone pod.key (admit kube tr node_name now req pod x t).1
        refused pod (err empty_requests) t e = allowed-IsNotDenied e h
        refused pod (err bad_requests) t e = absurd cc
        refused pod (ok res) t e =
            (if-cases {B = Result KubeError RestoreCapacityResponse × S}
                (λ x.
                  x.0 ≡ ok r
                  → (q : ResourceList) × (◌≡◌ {A = Result ResourcesError ResourceList} (ok res)
                      (ok q))
                    × (has_capacity kube tr node_name (requested_resources kube tr node_name req q)
                          t
                        ≡ false)
                    × Gone pod.key x.1)
                (has_capacity kube tr node_name (requested_resources kube tr node_name req res) t)
                (λ c e. allowed-IsNotDenied e h) (λ c e. (res, refl, c, gone_after pod t e)))
              e
