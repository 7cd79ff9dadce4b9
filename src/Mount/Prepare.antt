-- ===== src/Mount/Prepare.antt =====
-- Making the shadow of a workload (`prepare` and `_duplicate_workload` of
-- operator/gefyra/bridge_mount/carrier2mount/__init__.py). The uuid that is drawn is an argument; a
-- service is written with the namespace that it is created in.
pub mod Made
use gefyra.Prelude.{ℕ, Bool, true, false, List, [], ◌∷◌, Option, none, some, Text, if◌then◌else◌}
use gefyra.Result.{Result, ok, err, Error, mount_install_exception, bridge_install_exception, ◌>>=◌}
use gefyra.Cluster.{Service, Workload, deployment, stateful_set, pod}
use gefyra.Lifecycle.Machine.{Action, ◌>=>◌, ◌>&&>◌, done, raise, catching, caught}
use gefyra.Mount.Names.{Kind, generate_k8s_conform_name, workload_suffix, max_name}
use gefyra.Mount.Clone.{clone_workload_structure, get_svc_for_workload, metadata_of}
use gefyra.Mount.Calls.{
  Call, create_workload, patch_workload, create_service, patch_service, create_hpa, patch_hpa,
  Trace, Step, Hpa, call, read, is_there_already, is_api_exception,
}
use gefyra.Mount.Removal.{get_workload, find_hpa_for_deployment}

-- What is read when a mount is prepared.
pub record Prepared : Type 0 where
  pub namespace : Text
  pub target : Text
  pub container : Text
  pub read_namespaced : Kind → Text → Result Workload
  pub hpas : Result (List Hpa)

-- The autoscaler of the shadow.
abbrev pub clone_hpa : Workload → Workload → Hpa → Hpa
clone_hpa old new h = record h {
  name = generate_k8s_conform_name (metadata_of old).name workload_suffix max_name;
  resource_version = none;
  uid = none;
  target_name = (metadata_of new).name;
}

module _ (mount : Prepared) (outcome : Trace → Call → Result (Unit {0})) where
  -- Created, or patched where it is there already; another ApiException is turned into `refusal`.
  abbrev pub or_patch : Error → Call → Trace × Result (Unit {0}) → Trace × Result (Unit {0})
  or_patch refusal patch (after, ok u) = (after, ok tt)
  or_patch refusal patch (after, err e) =
      let again = call outcome patch after in
      if is_there_already e
      then again
      else if is_api_exception e
      then (after, err refusal)
      else (after, err e)

  unfoldable pub create_or_patch : Error → Call → Call → Step
  unfolding call
  create_or_patch refusal create patch trace = or_patch refusal patch (call outcome create trace)

  abbrev write_hpa : Workload → Workload → Option Hpa → Step
  write_hpa old new none = done
  write_hpa old new (some h) =
      create_or_patch mount_install_exception (create_hpa (clone_hpa old new h))
        (patch_hpa (clone_hpa old new h))

  -- `_handle_hpa_for_deployment`
  unfoldable pub handle_hpa_for_deployment : Workload → Workload → Step
  unfolding create_or_patch find_hpa_for_deployment
  handle_hpa_for_deployment old new =
      read outcome (find_hpa_for_deployment (metadata_of old).name mount.hpas) >=> write_hpa old new

  -- `isinstance(workload, V1Deployment)`
  abbrev write_hpa_if_deployment : Workload → Workload → Step
  write_hpa_if_deployment (deployment w) new = handle_hpa_for_deployment (deployment w) new
  write_hpa_if_deployment old new = done

  -- The workload and its service.
  unfoldable pub write_shadow : Workload → Workload → Service → Step
  unfolding create_or_patch handle_hpa_for_deployment
  write_shadow old new svc =
      write_hpa_if_deployment old new
      >&&> create_or_patch bridge_install_exception (create_workload new) (patch_workload new)
      >&&> create_or_patch bridge_install_exception (create_service svc) (patch_service svc)

  -- `_duplicate_workload`
  unfoldable pub duplicate_workload : Text → Step
  unfolding write_shadow clone_workload_structure get_svc_for_workload get_workload
  duplicate_workload uuid =
      read outcome (get_workload mount.read_namespaced mount.target) >=> λ old.
      let new = clone_workload_structure uuid old in
      read outcome (get_svc_for_workload mount.target mount.container mount.namespace new)
      >=> write_shadow old new

  -- `prepare`: whatever goes wrong is a BridgeMountInstallException
  unfoldable pub prepare : Text → Step
  unfolding duplicate_workload
  prepare uuid = catching (λ e. true) (raise mount_install_exception) (duplicate_workload uuid)
