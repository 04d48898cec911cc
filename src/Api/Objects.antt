-- ===== src/Api/Objects.antt =====
-- The fields of corev1.Pod and corev1.Node that the code reads or writes. A map without an entry is
-- nil, as it is when an object was read from the API. A missing string is empty.
use zeropod.Base.{ℕ, Bool, Option, List, Text, same, ◌&&◌}
use zeropod.Config.{Annotations}
use zeropod.Manager.Scaler.{Pod, ResourceList}
use zeropod.Manager.Taints.{Taint}

-- The name of an object and its namespace.
pub record Key : Type 0 where
  pub name : Text
  pub namespace : Text

unfoldable pub same_key : Key → Key → Bool
same_key k l = same k.name l.name && same k.namespace l.namespace

pub data PodPhase : Type 0 where
  pod_pending pod_running pod_other : PodPhase

-- `container_id` is the ID after the scheme, none if url.Parse rejects it.
pub record StatusOfContainer : Type 0 where
  pub name : Text
  pub container_id : Option Text
  pub resources : Option ResourceList

pub record KubePod : Type 0 where
  pub key : Key
  pub version : ℕ
  pub labels : Annotations
  pub is_deleted : Bool
  pub node_name : Text
  pub runtime_class : Option Text
  pub phase : PodPhase
  pub resources : Option ResourceList
  pub spec : Pod
  pub statuses : List StatusOfContainer

pub record Node : Type 0 where
  pub name : Text
  pub version : ℕ
  pub capacity : ResourceList
  pub taints : List Taint
