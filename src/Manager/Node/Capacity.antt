-- ===== src/Manager/Node/Capacity.antt =====
-- RestoreCapacity, evictPod, getContainerResources and hasCapacity of manager/node/service.go. The
-- response that stands beside an error is dropped, as the caller of an RPC does not get it.
pub mod Denied
pub mod Evictions
use zeropod.Base.{
  ℕ, ◌+◌, ◌*◌, ◌^◌, Bool, true, false, not, ◌&&◌, ◌||◌, Option, none, some, List, [], ◌∷◌, Text,
  same, is_empty, Result, ok, err, if◌then◌else◌, ◌==◌, is_some,
}
use zeropod.Base.Int.{ℤ}
use zeropod.Config.{Annotations, any_migration_annotated}
use zeropod.Api.Objects.{Key, KubePod, Node}
use zeropod.Api.Migrations.{Migration}
use zeropod.Kube.{
  KubeError, kube_failed, Call, then_call, found_or_none, or_else, ◌>>=◌, ◌>>◌, give, fail, Kube,
}
use zeropod.Shim.Types.{ShimError}
use zeropod.Shim.Restore.{RestoreCapacityResponse}
use zeropod.Manager.Scaler.{Json, Pod, PodContainer, ResourceList, amount, initial_requests}
use zeropod.Manager.Taints.{Taint, add_taint}
use zeropod.Manager.Trackers.{Tracker, cpu, memory, is_above_threshold}

-- `checkpoint_memory_bytes` is that of the last checkpoint.
pub record RestoreCapacityRequest : Type 0 where
  pub pod : Key
  pub container_name : Text
  pub checkpoint_memory_bytes : ℕ

pub data ResourcesError : Type 0 where
  empty_requests bad_requests : ResourcesError

-- The last container of the name counts.
unfoldable pub named_container :
    Text → Option PodContainer → List PodContainer → Option PodContainer
named_container name found [] = found
named_container name found (c ∷ cs) =
    named_container name (if same c.name name then some c else found) cs

abbrev is_nil : {A : Type 0} → List A → Bool
is_nil [] = true
is_nil (x ∷ xs) = false

-- A nil map
unfoldable pub has_no_requests : ResourceList → Bool
has_no_requests r = not (is_some r.cpu) && not (is_some r.memory) && is_nil r.others

unfoldable pub requests_or_error :
    Result ShimError ResourceList → Result ResourcesError ResourceList
requests_or_error (ok r) = ok r
requests_or_error (err e) = err bad_requests

unfoldable pub container_requests :
    Json → Annotations → Option PodContainer → Result ResourcesError ResourceList
unfolding has_no_requests requests_or_error initial_requests
container_requests js a none = err empty_requests
container_requests js a (some c) =
    if has_no_requests c.requests
    then err empty_requests
    else requests_or_error (initial_requests js c a)

unfoldable pub get_container_resources : Json → KubePod → Text → Result ResourcesError ResourceList
unfolding container_requests named_container
get_container_resources js pod name =
    container_requests js pod.spec.annotations (named_container name none pod.spec.containers)

abbrev pub target_ip : Option Migration → Option Text
target_ip none = none
target_ip (some m) = if is_empty m.spec.target_pod_ip then none else some m.spec.target_pod_ip

abbrev pub allow : RestoreCapacityResponse
allow = record { allowed = true; redirect_addr = [] }

abbrev pub deny : Text → RestoreCapacityResponse
deny ip = record { allowed = false; redirect_addr = ip }

module _ {S : Type 0} (kube : Kube S) (tr : Tracker S) (node_name : Text) where
  unfoldable pub has_capacity : ResourceList → S → Bool
  unfolding is_above_threshold
  has_capacity res s =
      if tr.capacity cpu s == 0 || tr.capacity memory s == 0
      then true
      else not (is_above_threshold tr cpu s (amount res.cpu + tr.requested cpu s))
        && not (is_above_threshold tr memory s (amount res.memory + tr.requested memory s))

  unfoldable pub send_taint : Node → Bool × List Taint → Call S (Unit {0})
  send_taint node (false, ts) = give tt
  send_taint node (true, ts) = do _ ← kube.update_node (record node { taints = ts }); give tt

  unfoldable pub taint_node : ℤ → Call S (Unit {0})
  unfolding send_taint add_taint then_call
  taint_node now =
      kube.retry_on_conflict
        (do node ← kube.get_node node_name; send_taint node (add_taint now node.taints))

  unfoldable pub count_eviction : Call S (Unit {0})
  count_eviction s = (ok tt, tr.inc_evicted s)

  -- Waits for the migration of the pod to have the IP of its target.
  unfoldable pub await_target_ip : Key → Call S Text
  unfolding found_or_none then_call
  await_target_ip key =
      kube.poll
        (λ s. then_call (found_or_none (kube.get_migration key s)) (λ m. give (target_ip m)))

  unfoldable pub redirect_to_target : Key → Call S RestoreCapacityResponse
  unfolding await_target_ip or_else count_eviction then_call
  redirect_to_target key = do
    ip ← λ s. or_else [] (await_target_ip key s)
    count_eviction
    give (deny ip)

  unfoldable pub answer_eviction : Key → KubePod → Call S RestoreCapacityResponse
  unfolding redirect_to_target
  answer_eviction key pod s =
      if any_migration_annotated pod.spec.annotations
      then redirect_to_target key s
      else (ok (deny []), s)

  unfoldable pub evict_pod : ℤ → Key → KubePod → Call S RestoreCapacityResponse
  unfolding taint_node count_eviction answer_eviction then_call
  evict_pod now key pod = do
    taint_node now
    kube.delete_pod pod.key
    count_eviction
    answer_eviction key pod

  unfoldable pub requested_resources : RestoreCapacityRequest → ResourceList → ResourceList
  requested_resources req res =
      if tr.use_checkpoint_memory && not (req.checkpoint_memory_bytes == 0)
      then record res { memory = some (req.checkpoint_memory_bytes * 10 ^ 9) }
      else res

  unfoldable pub admit :
      ℤ
      → RestoreCapacityRequest
      → KubePod
      → Result ResourcesError ResourceList
      → Call S RestoreCapacityResponse
  unfolding has_capacity evict_pod requested_resources
  admit now req pod (err empty_requests) s = (ok allow, s)
  admit now req pod (err bad_requests) s = (err kube_failed, s)
  admit now req pod (ok res) s =
      if has_capacity (requested_resources req res) s
      then (ok allow, s)
      else evict_pod now req.pod pod s

  unfoldable pub restore_capacity :
      Json → ℤ → RestoreCapacityRequest → Call S RestoreCapacityResponse
  unfolding admit get_container_resources then_call
  restore_capacity js now req = do
    pod ← kube.get_pod req.pod
    admit now req pod (get_container_resources js pod req.container_name)
