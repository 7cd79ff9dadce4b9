-- ===== src/Cluster.antt =====
-- The Kubernetes objects that the operator reads and writes, cut down to the fields that it uses.
-- A field that the client library may leave empty is an `Option`.
use gefyra.Prelude.{ℕ, Bool, List, Option, Text}
use gefyra.Prelude.Dict.{Dict}

pub record HttpGet : Type 0 where
  pub port : ℕ
  pub scheme : Option Text

-- V1Probe; of `_exec` and `tcp_socket` only their presence is read
pub record Probe : Type 0 where
  pub exec : Bool
  pub tcp_socket : Bool
  pub http_get : Option HttpGet

pub record Container : Type 0 where
  pub name : Text
  pub image : Text
  pub command : Option (List Text)
  pub args : Option (List Text)
  pub ports : Option (List ℕ)
  pub startup_probe : Option Probe
  pub readiness_probe : Option Probe
  pub liveness_probe : Option Probe

pub record Metadata : Type 0 where
  pub name : Text
  pub labels : Option (Dict Text)
  pub annotations : Option (Dict Text)
  pub resource_version : Option Text
  pub uid : Option Text

-- V1Deployment and V1StatefulSet, with the labels of the pod template and the selector
pub record Controller : Type 0 where
  pub metadata : Metadata
  pub template_labels : Option (Dict Text)
  pub match_labels : Option (Dict Text)
  pub containers : List Container

pub record Pod : Type 0 where
  pub metadata : Metadata
  pub containers : List Container

pub data Workload : Type 0 where
  deployment stateful_set : Controller → Workload
  pod : Pod → Workload

pub record ServicePort : Type 0 where
  pub name : Text
  pub port : ℕ
  pub target_port : ℕ

pub record Service : Type 0 where
  pub name : Text
  pub namespace : Text
  pub labels : Dict Text
  pub selector : Dict Text
  pub ports : List ServicePort

-- An entry of a pod's `container_statuses`, with `started_at` of a `running` state if there is one
pub record ContainerStatus : Type 0 where
  pub name : Text
  pub restart_count : ℕ
  pub ready : Bool
  pub started : Option Bool
  pub running : Option (Option Text)

-- A V1Pod of the cluster, with the name of the first of its owner references if it has any
pub record LivePod : Type 0 where
  pub name : Text
  pub phase : Text
  pub owner : Option Text
  pub containers : List Container
  pub container_statuses : Option (List ContainerStatus)
