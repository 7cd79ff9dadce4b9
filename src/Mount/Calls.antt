-- ===== src/Mount/Calls.antt =====
-- The calls by which a bridge mount changes the cluster
-- (operator/gefyra/bridge_mount/carrier2mount/__init__.py), as a sequence.
pub mod Steps
use gefyra.Prelude.{ℕ, Bool, true, false, List, [], ◌∷◌, Option, Text, ◌==◌}
use gefyra.Result.{Result, ok, err, Error, api_exception, runtime_error}
use gefyra.Cluster.{Container, Service, Workload}
use gefyra.Lifecycle.Machine.{Action}
use gefyra.Carrier.Config.{Carrier2Config}
use gefyra.Mount.Names.{Kind}
use gefyra.Mount.Tls.{Which}

-- What is kept of a container to restore it.
pub record OriginalConfig : Type 0 where
  pub image : Text
  pub command : Option (List Text)
  pub args : Option (List Text)

abbrev pub original_of : Container → OriginalConfig
original_of c = record { image = c.image; command = c.command; args = c.args }

-- V1HorizontalPodAutoscaler, with the kind and the name of its target
pub record Hpa : Type 0 where
  pub name : Text
  pub target_kind : Text
  pub target_name : Text
  pub resource_version : Option Text
  pub uid : Option Text

-- The calls that change the cluster, each with what it writes.
pub data Call : Type 0 where
  -- the JSON patch of the restore ConfigMap, and its creation with one entry
  add_original create_originals : Text → OriginalConfig → Call
  patch_pod : Text → List Container → Call
  -- the wait for a restart of the container
  await_restart : Text → Call
  inject_file : Text → Text → Which → ℕ → Call
  commit : Text → Carrier2Config → Call
  -- the restart annotation of a controller, with its kind
  restart_workload : Kind → Text → Call
  -- the shadow's workload, its service and its autoscaler
  create_workload patch_workload : Workload → Call
  create_service patch_service : Service → Call
  create_hpa patch_hpa : Hpa → Call
  delete_workload : Kind → Text → Call
  delete_service delete_hpa : Text → Call

-- The calls that were made and succeeded, the last one first.
abbrev pub Trace : Type 0
Trace = List Call

abbrev pub Step : Type 0
Step = Action Trace (Unit {0})

abbrev pub is_missing : Error → Bool
is_missing (api_exception status) = status == 404
is_missing e = false

abbrev pub is_there_already : Error → Bool
is_there_already (api_exception status) = status == 409
is_there_already e = false

abbrev pub is_api_exception : Error → Bool
is_api_exception (api_exception status) = true
is_api_exception e = false

abbrev pub is_runtime_error : Error → Bool
is_runtime_error runtime_error = true
is_runtime_error e = false

-- What a call comes to after the calls before it.
module _ (outcome : Trace → Call → Result (Unit {0})) where
  -- A call that fails leaves nothing behind.
  abbrev pub recorded : Trace → Call → Result (Unit {0}) → Trace × Result (Unit {0})
  recorded trace c (ok u) = (c ∷ trace, ok tt)
  recorded trace c (err e) = (trace, err e)

  unfoldable pub call : Call → Step
  call c trace = recorded trace c (outcome trace c)

  -- A result that is computed from what is read.
  abbrev pub read {ℓ} : {A : Type ℓ} → Result A → Action Trace A
  read r trace = (trace, r)
