-- ===== src/Scenarios/Installing.antt =====
-- A mount on the pods of a workload, in a cluster where every call succeeds.
use gefyra.Prelude.{
  ℕ, ◌≡◌, refl, ◌⊎◌, inl, inr, Bool, true, false, List, [], ◌∷◌, ◌++◌, Option, none, some, Text,
  codes, All, text_eq,
}
use gefyra.Prelude.Dict.{Dict}
use gefyra.Result.{Result, ok, err, key_error}
use gefyra.Cluster.{Container, LivePod, Service}
use gefyra.Carrier.Config.{CarrierRule, Carrier2Config}
use gefyra.Carrier.Provider.{base_carrier_config}
use gefyra.Mount.Tls.{Params, SecretRef}
use gefyra.Mount.Calls.{Call, Trace, patch_pod}
use gefyra.Mount.Install.{
  Mounted, Target, find_target, set_carrier_upstream, install, install_pod, has_many_owners,
}
use gefyra.Mount.Install.Same.{IsDistinct, set_carrier_upstream-base}
use gefyra.Mount.Install.Order.{IsOrdered}
use gefyra.Mount.Install.Order.Held.{install-IsOrdered}
use gefyra.Mount.Install.Restore.{originals, restore-install_pod}
use gefyra.Mount.Removal.{Removed, patch_pod_with_original_config}

abbrev web : Container
web = record {
  name = codes "web";
  image = codes "web:1";
  command = none;
  args = some (codes "run" ∷ []);
  ports = some (80 ∷ []);
  startup_probe = none;
  readiness_probe = none;
  liveness_probe = none;
}

abbrev side : Container
side = record web { name = codes "side" }

abbrev containers : List Container
containers = side ∷ web ∷ []

abbrev pub web_pod : LivePod
web_pod = record {
  name = codes "web-0";
  phase = codes "Running";
  owner = none;
  containers = containers;
  container_statuses = none;
}

abbrev svc : Service
svc = record {
  name = codes "s";
  namespace = codes "prod";
  labels = [];
  selector = [];
  ports = record { name = codes "80-0"; port = 80; target_port = 80 } ∷ [];
}

abbrev no_params : Params
no_params = record { ports = []; tls = none }

abbrev pub mount : Mounted Text
mount = record {
  carrier_image = codes "carrier2:1";
  namespace = codes "prod";
  container = codes "web";
  params = no_params;
  svc = ok svc;
  read_secret = λ s. err key_error;
  bridges = ok [];
  validate = λ d. ok (record { match = [] });
}

abbrev pub fine : Trace → Call → Result (Unit {0})
fine w c = ok tt

abbrev patched : List Container
patched = side ∷ record web { image = codes "carrier2:1" } ∷ []

abbrev web_target : Target
web_target = record { container = web; ports = 80 ∷ []; probes = []; patched = patched }

target_run : find_target (codes "carrier2:1") (codes "web") containers ≡ ok web_target
unfolding find_target text_eq gefyra.Carrier.Probes.get_all_probes
target_run = refl

containers-IsDistinct : IsDistinct containers
containers-IsDistinct = unfold text_eq in ((refl, tt), (tt, tt))

set_carrier_upstream-base_example :
    set_carrier_upstream mount (80 ∷ []) []
    ≡ base_carrier_config (ok svc) (λ s. err key_error) (some no_params) (codes "web") containers
set_carrier_upstream-base_example =
    set_carrier_upstream-base mount containers web_target containers-IsDistinct target_run
      (refl, tt)

install-IsOrdered_example : IsOrdered (codes "prod") (install mount fine (ok (web_pod ∷ [])) []).0
install-IsOrdered_example = install-IsOrdered mount fine (ok (web_pod ∷ [])) [] tt

abbrev made : Trace
made = (install mount fine (ok (web_pod ∷ [])) []).0

install_run : install mount fine (ok (web_pod ∷ [])) [] ≡ (made, ok tt)
unfolding install text_eq find_target gefyra.Carrier.Probes.get_all_probes
    gefyra.Mount.Install.store_pod_original_config gefyra.Mount.Install.patch_target
    gefyra.Mount.Install.config_for gefyra.Mount.Tls.get_tls_from_provider_parameters
    gefyra.Mount.Tls.select_pair gefyra.Mount.Tls.port_settings gefyra.Prelude.Dict.lookup
    gefyra.Carrier.Config.add_bridge_rules_for_mount gefyra.Carrier.Config.add_bridges
    gefyra.Mount.Install.inject_files gefyra.Mount.Tls.tls_param_from_key_secret
    gefyra.Mount.Tls.select_tls
install_run = refl

abbrev made_in_pod : Trace
made_in_pod = (install_pod mount fine web_pod []).0

install_pod_run : install_pod mount fine web_pod [] ≡ (made_in_pod, ok tt)
unfolding install_pod find_target text_eq gefyra.Carrier.Probes.get_all_probes
    gefyra.Mount.Install.store_pod_original_config gefyra.Mount.Install.patch_target
    gefyra.Mount.Install.config_for gefyra.Mount.Tls.get_tls_from_provider_parameters
    gefyra.Mount.Tls.select_pair gefyra.Mount.Tls.port_settings gefyra.Prelude.Dict.lookup
    gefyra.Carrier.Config.add_bridge_rules_for_mount gefyra.Carrier.Config.add_bridges
    gefyra.Mount.Install.inject_files gefyra.Mount.Tls.tls_param_from_key_secret
    gefyra.Mount.Tls.select_tls
install_pod_run = refl

abbrev removed : Removed
removed = record {
  namespace = codes "prod";
  target = codes "pod/web-0";
  container = codes "web";
  read_namespaced = λ k n. err key_error;
  pod_containers = λ n. ok patched;
  originals = ok (originals made_in_pod);
  hpas = ok [];
}

patched_read :
    (t : Target)
    → find_target (codes "carrier2:1") (codes "web") containers ≡ ok t
    → ok patched ≡ ok t.patched
patched_read t e = cc (target_run, e)

restore-install_pod_example :
    patch_pod_with_original_config removed fine (codes "web-0") []
    ≡ (patch_pod (codes "web-0") containers ∷ [], ok tt)
restore-install_pod_example =
    restore-install_pod mount fine web_pod [] made_in_pod [] removed fine install_pod_run refl refl
      refl patched_read refl
