-- ===== src/Manager/Scaler/Pods.antt =====
-- The requests of a pod after a container was scaled down and up again (manager/pod_scaler.go).
use zeropod.Base.{
  ℕ, Text, ◌≡◌, refl, ◌∙◌, ap, Bool, false, ◌||◌, Option, some, List, [], ◌∷◌, same, same_refl,
  arith, Result, ok, ◌>>=◌, All, if_true, if_false, Bool-cases, inl, inr, if◌then◌else◌,
}
use zeropod.Config.{Annotations, annotation, has_annotation}
use zeropod.Shim.Types.{scaled_down, running, ShimError}
use zeropod.Manager.Scaler.{
  ResourceList, PodContainer, Pod, Json, ContainerResource, amount, find_request, requests_by_name,
  cpu_annotation_key, memory_annotation_key, annotated_requests, decoded, encoded, set_annotation,
  set_annotations, reconcile_container, reconcile_containers, reconcile_container_resources,
}
use zeropod.Manager.Scaler.Restores.{AreRecorded, IsScaled, down-IsScaled, reconcile-back}

abbrev pub has_name : List PodContainer → Text → Bool
has_name [] name = false
has_name (c ∷ cs) name = same c.name name || has_name cs name

-- No two containers share a name.
abbrev pub DistinctNames : List PodContainer → Type 0
DistinctNames [] = Unit
DistinctNames (c ∷ cs) = (has_name cs c.name ≡ false) × DistinctNames cs

module _ (f : ResourceList → Option ℕ) where
  find-other :
      (name : Text) (m : ContainerResource) (cs : List PodContainer)
      → has_name cs name ≡ false
      → find_request name (requests_by_name f m cs) ≡ find_request name m
  unfolding requests_by_name
  find-other name m [] h = refl
  find-other name m (c ∷ cs) h =
      find-other name ((c.name, amount (f c.requests)) ∷ m) cs (ground arith)
      ∙ if_false {b = same c.name name} (some (amount (f c.requests))) (ground arith)

  find-own :
      (m : ContainerResource) (cs : List PodContainer)
      → DistinctNames cs
      → All (λ c. find_request c.name (requests_by_name f m cs) ≡ some (amount (f c.requests))) cs
  unfolding requests_by_name
  find-own m [] h = tt
  find-own m (c ∷ cs) h = (
    find-other c.name ((c.name, amount (f c.requests)) ∷ m) cs h.0 ∙ if_true _ (same_refl c.name),
    find-own ((c.name, amount (f c.requests)) ∷ m) cs h.1,
  )

-- Writing a map out and reading it back.
abbrev pub RoundTrips : Json → ContainerResource → Type 0
RoundTrips js m = (t : Text) × (js.marshal m ≡ some t) × (js.unmarshal t ≡ some m)

module _ (js : Json) (a : Annotations) (name : Text) where
  cons-ok :
      (x : Result ShimError PodContainer) (xs : Result ShimError (List PodContainer))
      (d : PodContainer) (ds : List PodContainer)
      → x ≡ ok d
      → xs ≡ ok ds
      → (x >>= λ c. xs >>= λ cs. ok (c ∷ cs)) ≡ ok (d ∷ ds)
  unfolding ◌>>=◌
  cons-ok x xs d ds e f =
      ap (λ y. y >>= λ c. xs >>= λ cs. ok (c ∷ cs)) e ∙ ap (λ ys. ys >>= λ cs. ok (d ∷ cs)) f

  -- Some containers come of scaling down, and scaling those up gives these back.
  abbrev GoesBack : List PodContainer → Type 0
  GoesBack cs =
      (ds : List PodContainer) × (reconcile_containers js a name scaled_down cs ≡ ok ds)
      × (reconcile_containers js a name running ds ≡ ok cs)

  abbrev StepsBack : PodContainer → Type 0
  StepsBack c =
      (d : PodContainer) × ((if same c.name name
          then reconcile_container js a scaled_down c
          else ok c)
        ≡ ok d)
      × ((if same d.name name then reconcile_container js a running d else ok d) ≡ ok c)

  IsScaled-name : (c d : PodContainer) → IsScaled c d → d.name ≡ c.name
  IsScaled-name c d (IsScaled.scaled p m sp sm) = refl

  container-back : (c : PodContainer) → AreRecorded js a c → StepsBack c
  container-back c h = elim (Bool-cases (same c.name name)) [
    | inl e ↦
        let (d, q, s) = down-IsScaled js a c h in
        (
          d,
          if_true _ e ∙ q,
          if_true _ (ap (λ n. same n name) (IsScaled-name c d s) ∙ e) ∙ reconcile-back js a c h d s,
        )
    | inr e ↦ (c, if_false _ e, if_false _ e)
  ]

  containers-back : (cs : List PodContainer) → All (AreRecorded js a) cs → GoesBack cs
  unfolding reconcile_containers
  containers-back [] h = ([], refl, refl)
  containers-back (c ∷ cs) h =
      let (d, down, up) = container-back c h.0 in
      let (ds, downs, ups) = containers-back cs h.1 in
      (d ∷ ds, cons-ok _ _ d ds down downs, cons-ok _ _ c cs up ups)

set-new :
    (js : Json) (key : Text) (m : ContainerResource) (a : Annotations) (t : Text)
    → has_annotation a key ≡ false
    → js.marshal m ≡ some t
    → set_annotation js key m a ≡ ok ((key, t) ∷ a)
unfolding set_annotation encoded
set-new js key m a t h e = if_false _ h ∙ ap (encoded key a) e

module _ (js : Json) (pod : Pod) where
  cpus : ContainerResource
  cpus = requests_by_name (λ r. r.cpu) [] pod.containers

  memories : ContainerResource
  memories = requests_by_name (λ r. r.memory) [] pod.containers

  -- The annotations after `SetAnnotations` on a pod without them.
  annotated : Text → Text → Annotations
  annotated t u = (memory_annotation_key, u) ∷ (cpu_annotation_key, t) ∷ pod.annotations

  set-annotated :
      (t u : Text)
      → has_annotation pod.annotations cpu_annotation_key ≡ false
      → has_annotation pod.annotations memory_annotation_key ≡ false
      → js.marshal cpus ≡ some t
      → js.marshal memories ≡ some u
      → set_annotations js pod ≡ ok (annotated t u)
  unfolding set_annotations ◌>>=◌ cpus memories annotated has_annotation
  set-annotated t u nc nm e f =
      ap (λ r. r >>= set_annotation js memory_annotation_key memories)
        (set-new js cpu_annotation_key cpus pod.annotations t nc e)
      ∙ set-new js memory_annotation_key memories ((cpu_annotation_key, t) ∷ pod.annotations) u nm f

  set-kept :
      (t u : Text) (cs : List PodContainer)
      → set_annotations js (record { annotations = annotated t u; containers = cs })
        ≡ ok (annotated t u)
  unfolding set_annotations set_annotation ◌>>=◌ annotated has_annotation
  set-kept t u cs = refl

  All-AreRecorded :
      (t u : Text) (m n : ContainerResource) (cs : List PodContainer)
      → js.unmarshal t ≡ some m
      → js.unmarshal u ≡ some n
      → All (λ c. find_request c.name m ≡ some (amount c.requests.cpu)) cs
      → All (λ c. find_request c.name n ≡ some (amount c.requests.memory)) cs
      → All (AreRecorded js (annotated t u)) cs
  unfolding annotated annotated_requests annotation has_annotation decoded
  All-AreRecorded t u m n [] e f p q = tt
  All-AreRecorded t u m n (c ∷ cs) e f p q = (
    record {
      cpu = record { map = m; decodes = ap decoded e; holds = p.0 };
      memory = record { map = n; decodes = ap decoded f; holds = q.0 };
    },
    All-AreRecorded t u m n cs e f p.1 q.1,
  )

  -- The pod with other containers and the annotations of the initial requests.
  abbrev recorded_pod : Text → Text → List PodContainer → Pod
  recorded_pod t u cs = record { annotations = annotated t u; containers = cs }

  first-pass :
      (name t u : Text) (ds : List PodContainer)
      → set_annotations js pod ≡ ok (annotated t u)
      → reconcile_containers js (annotated t u) name scaled_down pod.containers ≡ ok ds
      → reconcile_container_resources js name scaled_down pod ≡ ok (recorded_pod t u ds)
  unfolding reconcile_container_resources ◌>>=◌
  first-pass name t u ds e f =
      ap
        (λ r. r >>= λ a. reconcile_containers js a name scaled_down pod.containers >>= λ cs.
          ok (record { annotations = a; containers = cs }))
        e
      ∙ ap (λ r. r >>= λ cs. ok (recorded_pod t u cs)) f

  second-pass :
      (name t u : Text) (ds : List PodContainer)
      → reconcile_containers js (annotated t u) name running ds ≡ ok pod.containers
      → reconcile_container_resources js name running (recorded_pod t u ds)
        ≡ ok (recorded_pod t u pod.containers)
  unfolding reconcile_container_resources ◌>>=◌
  second-pass name t u ds f =
      ap
        (λ r. r >>= λ a. reconcile_containers js a name running ds >>= λ cs.
          ok (record { annotations = a; containers = cs }))
        (set-kept t u ds)
      ∙ ap (λ r. r >>= λ cs. ok (recorded_pod t u cs)) f

  -- Where a pod has neither annotation yet, its containers have distinct names, and the maps of
  -- their requests can be written to annotations and read back: scaling down the resources of a
  -- container succeeds, and scaling up those of the pod that this gives leads back to the requests
  -- that the pod had, with the annotations kept.
  pub reconcile-RoundTrips :
      (name : Text)
      → has_annotation pod.annotations cpu_annotation_key ≡ false
      → has_annotation pod.annotations memory_annotation_key ≡ false
      → DistinctNames pod.containers
      → RoundTrips js (requests_by_name (λ r. r.cpu) [] pod.containers)
      → RoundTrips js (requests_by_name (λ r. r.memory) [] pod.containers)
      → (p : Pod) × (reconcile_container_resources js name scaled_down pod ≡ ok p)
        × (reconcile_container_resources js name running p
            ≡ ok (record p { containers = pod.containers }))
  unfolding cpus memories
  reconcile-RoundTrips name nc nm d (t, wt, rt) (u, wu, ru) =
      let recorded =
        All-AreRecorded t u cpus memories pod.containers rt ru
          (find-own (λ r. r.cpu) [] pod.containers d)
          (find-own (λ r. r.memory) [] pod.containers d) in
      let (ds, down, up) = containers-back js (annotated t u) name pod.containers recorded in
      (
        recorded_pod t u ds,
        first-pass name t u ds (set-annotated t u nc nm wt wu) down,
        second-pass name t u ds up,
      )
