-- ===== src/Mount/Removal.antt =====
-- Restoring the original workload and removing the shadow (`uninstall` and what it calls in
-- operator/gefyra/bridge_mount/carrier2mount/__init__.py). The time of the restart annotation is left
-- out.
pub mod Returns
use gefyra.Prelude.{
  ℕ, Bool, true, false, ◌&&◌, List, [], ◌∷◌, Option, none, some, Text, codes, text_eq,
  if◌then◌else◌,
}
use gefyra.Prelude.Dict.{Dict, lookup}
use gefyra.Result.{
  Result, ok, err, Error, api_exception, runtime_error, type_error, attribute_error,
  mount_target_exception, or_raise, ◌>>=◌,
}
use gefyra.Cluster.{Container, Controller, Pod, Workload, deployment, stateful_set, pod}
use gefyra.Lifecycle.Machine.{Action, ◌>=>◌, ◌>&&>◌, done, raise, catching}
use gefyra.Mount.Names.{Kind, split_target_type_name, gefyra_workload_name, gefyra_svc_name}
use gefyra.Mount.Calls.{
  OriginalConfig, Call, restart_workload, patch_pod, delete_workload, delete_service, delete_hpa,
  Trace, Step, Hpa, call, read, is_missing,
}
use gefyra.Mount.Install.{original_key}

-- `_get_workload`, from what the read comes to
abbrev read_workload : Result Workload → Result Workload
read_workload (err (api_exception status)) =
    if is_missing (api_exception status) then err mount_target_exception else err runtime_error
read_workload r = r

unfoldable pub get_workload : (Kind → Text → Result Workload) → Text → Result Workload
get_workload read_namespaced target = do
  split ← split_target_type_name target
  read_workload (read_namespaced split.1 split.0)

-- The assignments to the first container with the name.
unfoldable pub with_original : Text → OriginalConfig → List Container → Result (List Container)
with_original name o [] = err runtime_error
with_original name o (c ∷ cs) =
    let rest = with_original name o cs >>= λ ds. ok (c ∷ ds) in
    if text_eq c.name name
    then ok (record c { image = o.image; command = o.command; args = o.args } ∷ cs)
    else rest

-- `configmap.data.get(key)`, and the error of reading None as JSON
abbrev pub original_in : Text → Option (Dict OriginalConfig) → Result OriginalConfig
original_in name none = err attribute_error
original_in name (some data_) = or_raise type_error (lookup name data_)

abbrev is_hpa_of : Text → Hpa → Bool
is_hpa_of name h = text_eq h.target_kind (codes "Deployment") && text_eq h.target_name name

-- The loop of `_find_hpa_for_deployment`.
unfoldable pub first_hpa : Text → List Hpa → Option Hpa
first_hpa name [] = none
first_hpa name (h ∷ hs) = let rest = first_hpa name hs in if is_hpa_of name h then some h else rest

-- `_find_hpa_for_deployment`, where an ApiException of the listing counts as no autoscaler
unfoldable pub find_hpa_for_deployment : Text → Result (List Hpa) → Result (Option Hpa)
unfolding first_hpa
find_hpa_for_deployment name (ok hs) = ok (first_hpa name hs)
find_hpa_for_deployment name (err (api_exception status)) = ok none
find_hpa_for_deployment name (err e) = err e

-- `target_exists`, from what the reads of the namespace and of the workload come to
abbrev exists_unless_missing : Result Workload → Result Bool
exists_unless_missing (ok w) = ok true
exists_unless_missing (err mount_target_exception) = ok false
exists_unless_missing (err e) = err e

unfoldable pub target_exists :
    Result (Unit {0}) → (Kind → Text → Result Workload) → Text → Result Bool
unfolding get_workload
target_exists (ok u) read_namespaced target =
    exists_unless_missing (get_workload read_namespaced target)
target_exists (err (api_exception status)) read_namespaced target =
    if is_missing (api_exception status) then ok false else err (api_exception status)
target_exists (err e) read_namespaced target = err e

-- What is read when a mount is removed.
pub record Removed : Type 0 where
  pub namespace : Text
  pub target : Text
  pub container : Text
  pub read_namespaced : Kind → Text → Result Workload
  -- the pod of a mount on a bare pod, and the data of the restore ConfigMap
  pub pod_containers : Text → Result (List Container)
  pub originals : Result (Option (Dict OriginalConfig))
  pub hpas : Result (List Hpa)

module _ (mount : Removed) (outcome : Trace → Call → Result (Unit {0})) where
  -- `_patch_pod_with_original_config`
  unfoldable pub patch_pod_with_original_config : Text → Step
  unfolding call with_original
  patch_pod_with_original_config name =
      read outcome (do
        containers ← mount.pod_containers name
        data_ ← mount.originals
        original ← original_in (original_key mount.namespace name) data_
        with_original mount.container original containers)
      >=> λ containers. call outcome (patch_pod name containers)

  -- A controller is restarted; a bare pod, which has no template, is patched.
  abbrev restore_workload : Kind → Workload → Step
  restore_workload kind (deployment w) = call outcome (restart_workload kind (w.metadata).name)
  restore_workload kind (stateful_set w) = call outcome (restart_workload kind (w.metadata).name)
  restore_workload kind (pod w) = patch_pod_with_original_config (w.metadata).name

  -- `restore_original_workload`
  unfoldable pub restore_original_workload : Step
  unfolding get_workload patch_pod_with_original_config call
  restore_original_workload = read outcome (split_target_type_name mount.target) >=> λ split.
      read outcome (get_workload mount.read_namespaced mount.target) >=> restore_workload split.1

  -- A deletion of something that is missing is passed over.
  abbrev unless_missing : Step → Step
  unless_missing = catching is_missing done

  abbrev delete_found_hpa : Option Hpa → Step
  delete_found_hpa none = done
  delete_found_hpa (some h) = call outcome (delete_hpa h.name)

  -- `uninstall_duplicated_workload`
  unfoldable pub uninstall_duplicated_workload : Step
  unfolding find_hpa_for_deployment call
  uninstall_duplicated_workload = read outcome (split_target_type_name mount.target) >=> λ split.
      read outcome (gefyra_workload_name mount.target) >=> λ name. unless_missing (
        call outcome (delete_workload split.1 name)
        >&&> (read outcome (find_hpa_for_deployment name mount.hpas) >=> delete_found_hpa))

  -- `uninstall_service`
  unfoldable pub uninstall_service : Step
  unfolding call
  uninstall_service = read outcome (gefyra_svc_name mount.target mount.container) >=> λ name.
      unless_missing (call outcome (delete_service name))

  -- `uninstall`; whatever restoring raises is logged only
  unfoldable pub uninstall : Step
  unfolding uninstall_duplicated_workload uninstall_service restore_original_workload
  uninstall =
      uninstall_duplicated_workload
      >&&> uninstall_service
      >&&> catching (λ e. true) done restore_original_workload
