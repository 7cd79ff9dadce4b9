-- ===== src/Mount/Install.antt =====
-- Installing Carrier2 into the pods of a mount (`install` of
-- operator/gefyra/bridge_mount/carrier2mount/__init__.py). What changes the cluster is a sequence of
-- calls; what is read in a run does not change in it. The JSON text of an original configuration
-- stands for its value.
pub mod Scan
pub mod Same
pub mod Order
pub mod Ensured
pub mod Committed
pub mod Restore
use gefyra.Prelude.{
  ℕ, Bool, true, false, not, ◌&&◌, ◌||◌, List, [], ◌∷◌, ◌++◌, Option, none, some, Text, codes,
  text_eq, ltb, length, ◌==◌, if◌then◌else◌, all,
}
use gefyra.Prelude.Dict.{Dict, lookup}
use gefyra.Result.{
  Result, ok, err, Error, api_exception, runtime_error, temporary_error, bridge_install_exception,
  ◌>>=◌,
}
use gefyra.Cluster.{Container, LivePod, Probe, Service}
use gefyra.Lifecycle.Machine.{Action, ◌>=>◌, ◌>&&>◌, done, raise, catching}
use gefyra.Carrier.Config.{
  Bridge, CarrierRule, Carrier2Config, Carrier2Proxy, new_config, new_proxy,
  add_bridge_rules_for_mount,
}
use gefyra.Carrier.Probes.{get_all_probes, carrier_probe, check_probe_compatibility}
use gefyra.Mount.Calls.{
  OriginalConfig, original_of, Call, add_original, create_originals, patch_pod, await_restart,
  inject_file, commit, Trace, Step, call, read, is_missing, is_api_exception, is_runtime_error,
}
use gefyra.Mount.Upstreams.{get_upstreams_for_svc, or_type_error}
use gefyra.Mount.Tls.{
  Params, SecretRef, Which, certificate, key, get_tls_from_provider_parameters,
  tls_param_from_key_secret,
}

-- What the container that is looked for comes to.
pub record Target : Type 0 where
  pub container : Container
  pub ports : List ℕ
  pub probes : List Probe
  -- the containers of the pod, with the image of this one replaced
  pub patched : List Container

-- The first container with the name, between those before it and those after it.
unfoldable pub find_container :
    Text → List Container → Option (List Container × Container × List Container)
find_container name [] = none
find_container name (c ∷ cs) =
    let rest = find_container name cs in
    if text_eq c.name name
    then some ([], c, cs)
    else elim rest [ none ↦ none | some (before, found, after) ↦ some (c ∷ before, found, after) ]

abbrev pub with_image : Text → Container → Container
with_image image c = record c { image = image }

abbrev target_from : Text → Option (List Container × Container × List Container) → Result Target
target_from image none = err bridge_install_exception
target_from image (some (before, c, after)) = or_type_error c.ports >>= λ ports.
    let probes = get_all_probes c in
    if all (λ p. check_probe_compatibility (some p)) probes
    then ok (record {
      container = c;
      ports = ports;
      probes = probes;
      patched = before ++ (with_image image c ∷ after);
    })
    else err bridge_install_exception

-- The loop over the containers of a pod, without the call in it.
unfoldable pub find_target : Text → Text → List Container → Result Target
unfolding find_container
find_target image name cs = target_from image (find_container name cs)

-- `len(set(owner names)) > 1`: two pods with owners of different names
unfoldable pub owned_by_other : Text → List LivePod → Bool
owned_by_other name [] = false
owned_by_other name (p ∷ ps) =
    let rest = owned_by_other name ps in
    elim p.owner [ none ↦ rest | some owner ↦ if text_eq owner name then rest else true ]

unfoldable pub has_many_owners : List LivePod → Bool
has_many_owners [] = false
has_many_owners (p ∷ ps) =
    let rest = has_many_owners ps in
    elim p.owner [ none ↦ rest | some owner ↦ owned_by_other owner ps || rest ]

-- `f"{namespace}-{pod_name}"`
abbrev pub original_key : Text → Text → Text
original_key namespace pod = namespace ++ (b'-' ∷ pod)

-- The operator's configuration, the mount, and what is read in a run.
pub record Mounted (Raw : Type 0) : Type 0 where
  pub carrier_image : Text
  pub namespace : Text
  pub container : Text
  pub params : Params
  pub svc : Result Service
  pub read_secret : SecretRef → Result Text
  pub bridges : Result (List (Bridge Raw))
  pub validate : Dict Raw → Result CarrierRule

module _ {Raw : Type 0} (mount : Mounted Raw) where
  open mount use {params, svc, read_secret}

  -- `_set_carrier_upstream`, the loop over the ports
  unfoldable pub upstream_proxies : List ℕ → Result (List Carrier2Proxy)
  upstream_proxies [] = ok []
  upstream_proxies (port ∷ ports) =
      let later = upstream_proxies ports in
      svc >>= λ service. get_tls_from_provider_parameters read_secret params port >>= λ tls.
      later >>= λ proxies. ok (
        record (new_proxy port) {
          cluster_upstream = some (get_upstreams_for_svc service (some port));
          tls = tls;
        }
        ∷ proxies)

  abbrev with_probes : List ℕ → List Probe → Carrier2Config → Result Carrier2Config
  with_probes ports [] config = ok config
  with_probes ports (p ∷ ps) config = do
    probes ← carrier_probe ports (p ∷ ps)
    ok (record config { probes = some probes })

  -- `_set_carrier_upstream`
  unfoldable pub set_carrier_upstream : List ℕ → List Probe → Result Carrier2Config
  unfolding upstream_proxies
  set_carrier_upstream ports probes = do
    proxies ← upstream_proxies ports
    with_probes ports probes (record new_config { proxy = proxies })

  -- The configuration that is committed, with the rules of all bridges of the mount.
  unfoldable pub config_for : Target → Result Carrier2Config
  unfolding set_carrier_upstream
  config_for target = do
    config ← set_carrier_upstream target.ports target.probes
    bridges ← mount.bridges
    add_bridge_rules_for_mount mount.validate bridges none none config

  -- What a call comes to after the calls before it.
  module _ (outcome : Trace → Call → Result (Unit {0})) where
    -- `_store_pod_original_config`
    unfoldable pub store_pod_original_config : Container → Text → Step
    unfolding call
    store_pod_original_config c pod =
        let name = original_key mount.namespace pod in
        catching is_missing (call outcome (create_originals name (original_of c)))
          (call outcome (add_original name (original_of c)))

    -- The patch, unless the container runs Carrier2 already.
    unfoldable pub patch_target : Text → Target → Step
    unfolding call
    patch_target pod target =
        let patch =
          catching is_api_exception (raise temporary_error)
            (call outcome (patch_pod pod target.patched)) in
        if text_eq target.container.image mount.carrier_image then done else patch

    -- One file from a secret, if the parameters ask for it.
    abbrev inject_one : Text → Which → ℕ → Step
    inject_one pod which port =
        let inject = call outcome (inject_file pod mount.container which port) in
        if tls_param_from_key_secret which params port then inject else done

    -- The loop over the ports that injects files.
    unfoldable pub inject_files : Text → List ℕ → Step
    inject_files pod [] = done
    inject_files pod (port ∷ ports) =
        inject_one pod certificate port >&&> inject_one pod key port >&&> inject_files pod ports

    -- What a RuntimeError of a wait is turned into.
    abbrev in_time : Step → Step
    in_time = catching is_runtime_error (raise bridge_install_exception)

    -- Storing, patching and the wait for the restart.
    unfoldable pub replace_image : Text → Target → Step
    unfolding call
    replace_image pod target =
        store_pod_original_config target.container pod
        >&&> patch_target pod target
        >&&> in_time (call outcome (await_restart pod))

    -- The files from secrets, and the configuration.
    unfoldable pub configure : Text → Target → Step
    unfolding call
    configure pod target = read outcome (config_for target) >=> λ config.
        inject_files pod target.ports >&&> in_time (call outcome (commit pod config))

    -- What the loop over the pods does with a pod that is not terminating.
    unfoldable pub install_pod : LivePod → Step
    unfolding replace_image configure
    install_pod p =
        read outcome (find_target mount.carrier_image mount.container p.containers) >=> λ target.
        replace_image p.name target >&&> configure p.name target

    -- The loop over the pods.
    unfoldable pub install_pods : List LivePod → Step
    unfolding install_pod
    install_pods [] = done
    install_pods (p ∷ ps) =
        let rest = install_pods ps in
        if text_eq p.phase (codes "Terminating") then rest else install_pod p >&&> rest

    -- `install`, on the original pods as they are read
    unfoldable pub install : Result (List LivePod) → Step
    unfolding has_many_owners install_pods
    install pods = read outcome pods >=> λ found.
        if has_many_owners found then raise temporary_error else install_pods found
