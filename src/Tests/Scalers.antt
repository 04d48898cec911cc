-- ===== src/Tests/Scalers.antt =====
-- The theorems on the pod scaler, at a pod of one container that requests half a CPU.
use zeropod.Base.{Text, ◌*◌, ◌^◌, ◌≡◌, refl, Option, none, some, [], ◌∷◌, codes, ok}
use zeropod.Config.{has_annotation}
use zeropod.Shim.Types.{scaled_down, running}
use zeropod.Manager.Scaler.{
  ResourceList, Pod, Json, ContainerResource, reconcile_container_resources, requests_by_name,
}
use zeropod.Manager.Scaler.Pods.{reconcile-RoundTrips}

-- A format for maps of one entry: the quantity, then the name.
abbrev marshal : ContainerResource → Option Text
marshal ((name, q) ∷ []) = some (q ∷ name)
marshal _ = none

abbrev unmarshal : Text → Option ContainerResource
unmarshal [] = none
unmarshal (q ∷ name) = some ((name, q) ∷ [])

abbrev pub json : Json
json = record { marshal = marshal; unmarshal = unmarshal }

abbrev pub half_cpu : ResourceList
half_cpu = record { cpu = some (5 * 10 ^ 8); memory = none; others = [] }

abbrev pub pod : Pod
pod = record {
  annotations = [];
  containers = record { name = codes "app"; requests = half_cpu } ∷ [];
}

reconcile-RoundTrips_example :
    (p : Pod) × (reconcile_container_resources json (codes "app") scaled_down pod ≡ ok p)
    × (reconcile_container_resources json (codes "app") running p
        ≡ ok (record p { containers = pod.containers }))
unfolding requests_by_name has_annotation
reconcile-RoundTrips_example =
    reconcile-RoundTrips json pod (codes "app") refl refl (refl, tt)
      (5 * 10 ^ 8 ∷ codes "app", refl, refl) (0 ∷ codes "app", refl, refl)
