-- ===== src/Manager/Scaler.antt =====
-- manager/pod_scaler.go: the resource requests of a container follow its phase. A quantity is known
-- by its value in billionths; the first entry of a key of a map counts. After an error the caller
-- drops the pod, so that the result is the pod or the error.
pub mod Restores
pub mod Pods
use zeropod.Base.{
  ℕ, ◌*◌, ◌^◌, Bool, true, false, not, ◌&&◌, ◌||◌, Option, none, some, List, [], ◌∷◌, Text, codes,
  same, Result, ok, err, ◌>>=◌, ◌>>◌, if◌then◌else◌, ◌==◌, is_some,
}
use zeropod.Config.{Annotations, annotation, has_annotation}
use zeropod.Shim.Types.{ContainerPhase, scaled_down, running, ShimError, failed}

-- The two requests that are scaled, and the others.
pub record ResourceList : Type 0 where
  pub cpu : Option ℕ
  pub memory : Option ℕ
  pub others : List (Text × ℕ)

pub record PodContainer : Type 0 where
  pub name : Text
  pub requests : ResourceList

pub record Pod : Type 0 where
  pub annotations : Annotations
  pub containers : List PodContainer

-- encoding/json on a containerResource.
abbrev pub ContainerResource : Type 0
ContainerResource = List (Text × ℕ)

pub record Json : Type 0 where
  pub marshal : ContainerResource → Option Text
  pub unmarshal : Text → Option ContainerResource

abbrev pub cpu_annotation_key : Text
cpu_annotation_key = codes "zeropod.ctrox.dev/cpu-requests"

abbrev pub memory_annotation_key : Text
memory_annotation_key = codes "zeropod.ctrox.dev/memory-requests"

-- 1m and 1Ki
abbrev pub scaled_down_cpu : ℕ
scaled_down_cpu = 10 ^ 6

abbrev pub scaled_down_memory : ℕ
scaled_down_memory = 1024 * 10 ^ 9

-- A key that is missing reads as the empty quantity.
abbrev pub amount : Option ℕ → ℕ
amount none = 0
amount (some q) = q

abbrev pub find_request : Text → ContainerResource → Option ℕ
find_request name [] = none
find_request name ((k, q) ∷ m) =
    let rest = find_request name m in if same k name then some q else rest

unfoldable pub is_up_to_date : ResourceList → ResourceList → ContainerPhase → Bool
is_up_to_date initial current scaled_down =
    (amount current.cpu == scaled_down_cpu || amount current.cpu == 0)
    && (amount current.memory == scaled_down_memory || amount current.memory == 0)
is_up_to_date initial current running =
    amount current.cpu == amount initial.cpu && amount current.memory == amount initial.memory
is_up_to_date initial current _ = true

-- An empty request stays as it is.
unfoldable pub shrink : ℕ → Option ℕ → Option ℕ
shrink small q = if amount q == 0 then q else some small

unfoldable pub new_requests : ResourceList → ResourceList → ContainerPhase → ResourceList
unfolding shrink
new_requests initial current scaled_down = record current {
  cpu = shrink scaled_down_cpu current.cpu;
  memory = shrink scaled_down_memory current.memory;
}
new_requests initial current running = initial
new_requests initial current _ = current

-- The annotation's quantity, unless it is missing or empty.
unfoldable pub initial_request : Option ℕ → Option ℕ → Option ℕ
initial_request none q = q
initial_request (some p) q = if p == 0 then q else some p

unfoldable pub decoded : Option ContainerResource → Result ShimError ContainerResource
decoded none = err failed
decoded (some m) = ok m

unfoldable pub annotated_requests : Json → Annotations → Text → Result ShimError ContainerResource
unfolding decoded
annotated_requests js a key =
    if has_annotation a key then decoded (js.unmarshal (annotation a key)) else ok []

unfoldable pub initial_requests : Json → PodContainer → Annotations → Result ShimError ResourceList
unfolding annotated_requests initial_request
initial_requests js c a = do
  cpus ← annotated_requests js a cpu_annotation_key
  memory ← annotated_requests js a memory_annotation_key
  ok (record c.requests {
    cpu = initial_request (find_request c.name cpus) c.requests.cpu;
    memory = initial_request (find_request c.name memory) c.requests.memory;
  })

-- The requests of the containers by their names.
unfoldable pub requests_by_name :
    (ResourceList → Option ℕ) → ContainerResource → List PodContainer → ContainerResource
requests_by_name f m [] = m
requests_by_name f m (c ∷ cs) = requests_by_name f ((c.name, amount (f c.requests)) ∷ m) cs

unfoldable pub encoded : Text → Annotations → Option Text → Result ShimError Annotations
encoded key a none = err failed
encoded key a (some t) = ok ((key, t) ∷ a)

unfoldable pub set_annotation :
    Json → Text → ContainerResource → Annotations → Result ShimError Annotations
unfolding encoded
set_annotation js key m a = if has_annotation a key then ok a else encoded key a (js.marshal m)

unfoldable pub set_annotations : Json → Pod → Result ShimError Annotations
unfolding set_annotation requests_by_name
set_annotations js pod = do
  a ←
      set_annotation js cpu_annotation_key (requests_by_name (λ r. r.cpu) [] pod.containers)
        pod.annotations
  set_annotation js memory_annotation_key (requests_by_name (λ r. r.memory) [] pod.containers) a

unfoldable pub scaled_container : PodContainer → ContainerPhase → ResourceList → PodContainer
unfolding is_up_to_date new_requests
scaled_container c phase initial =
    if is_up_to_date initial c.requests phase
    then c
    else record c { requests = new_requests initial c.requests phase }

-- A container without either request is ignored.
unfoldable pub reconcile_container :
    Json → Annotations → ContainerPhase → PodContainer → Result ShimError PodContainer
unfolding initial_requests scaled_container
reconcile_container js a phase c =
    if not (is_some c.requests.cpu) && not (is_some c.requests.memory)
    then ok c
    else initial_requests js c a >>= λ initial. ok (scaled_container c phase initial)

unfoldable pub reconcile_containers :
    Json
    → Annotations
    → Text
    → ContainerPhase
    → List PodContainer
    → Result ShimError (List PodContainer)
unfolding reconcile_container
reconcile_containers js a name phase [] = ok []
reconcile_containers js a name phase (c ∷ cs) = do
  c' ← if same c.name name then reconcile_container js a phase c else ok c
  cs' ← reconcile_containers js a name phase cs
  ok (c' ∷ cs')

unfoldable pub reconcile_container_resources :
    Json → Text → ContainerPhase → Pod → Result ShimError Pod
unfolding set_annotations reconcile_containers
reconcile_container_resources js name phase pod = do
  a ← set_annotations js pod
  cs ← reconcile_containers js a name phase pod.containers
  ok (record { annotations = a; containers = cs })
