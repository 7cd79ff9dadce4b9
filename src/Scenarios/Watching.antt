-- ===== src/Scenarios/Watching.antt =====
-- Preparing, watching and removing a mount on a workload with one healthy pod.
use gefyra.Prelude.{
  ℕ, ◌≡◌, refl, ◌⊎◌, inl, inr, Bool, true, false, List, [], ◌∷◌, Option, none, some, Text, codes,
  show,
}
use gefyra.Result.{Result, ok, err, key_error}
use gefyra.Cluster.{Container, LivePod, Workload, pod}
use gefyra.Carrier.Config.{new_config, new_proxy}
use gefyra.Mount.Names.{Kind, split_target_type_name}
use gefyra.Mount.Tls.{
  Params, SecretRef, TlsSettings, from_secret, certificate, key, tls_param_from_key_secret,
}
use gefyra.Mount.Calls.{Call, Trace}
use gefyra.Mount.Removal.{Removed, uninstall}
use gefyra.Mount.Removal.Returns.{AreDeleted, uninstall_total}
use gefyra.Mount.Prepare.{Prepared, prepare}
use gefyra.Mount.Ready.{Watched, ready}
use gefyra.Mount.Ready.Healthy.{IsReady, ready-IsReady}

abbrev fine : Trace → Call → Result (Unit {0})
fine w c = ok tt

abbrev web : Container
web = record {
  name = codes "web";
  image = codes "carrier2:1";
  command = none;
  args = none;
  ports = some (80 ∷ []);
  startup_probe = none;
  readiness_probe = none;
  liveness_probe = none;
}

abbrev web_workload : Workload
web_workload = pod (record {
  metadata = record {
    name = codes "web";
    labels = none;
    annotations = none;
    resource_version = none;
    uid = none;
  };
  containers = web ∷ [];
})

abbrev pub removed : Removed
removed = record {
  namespace = codes "prod";
  target = codes "pod/web";
  container = codes "web";
  read_namespaced = λ k n. ok web_workload;
  pod_containers = λ n. err key_error;
  originals = err key_error;
  hpas = ok [];
}

all_deleted : AreDeleted fine
all_deleted c w d = inl refl

target_run : split_target_type_name (codes "pod/web") ≡ ok (codes "web", Kind.pod)
unfolding split_target_type_name
target_run = refl

uninstall_total_example : (v : Trace) × (uninstall removed fine [] ≡ (v, ok tt))
uninstall_total_example =
    uninstall_total fine removed all_deleted (inl ([], refl)) (codes "web") Kind.pod [] target_run

abbrev pub prepared : Prepared
prepared = record {
  namespace = codes "prod";
  target = codes "pod/web";
  container = codes "web";
  read_namespaced = λ k n. ok web_workload;
  hpas = ok [];
}

abbrev made : Trace
made = (prepare prepared fine (codes "u1") []).0

prepare_run : prepare prepared fine (codes "u1") [] ≡ (made, ok tt)
unfolding prepare split_target_type_name gefyra.Prelude.Dict.lookup gefyra.Prelude.Dict.insert
    gefyra.Mount.Upstreams.get_ports_for_workload
prepare_run = refl

abbrev web_pod : LivePod
web_pod = record {
  name = codes "web-0";
  phase = codes "Running";
  owner = none;
  containers = web ∷ [];
  container_statuses = some (
      record {
        name = codes "web";
        restart_count = 1;
        ready = true;
        started = some true;
        running = some (some (codes "t"));
      }
      ∷ []);
}

abbrev secret : SecretRef
secret = record { name = codes "n"; key = codes "k"; namespace = codes "ns" }

abbrev from_secrets : TlsSettings
from_secrets = record { certificate = some (from_secret secret); key = none; sni = none }

abbrev pub watched : Watched
watched = record {
  container = codes "web";
  carrier_image = codes "carrier2:1";
  params = record { ports = []; tls = some from_secrets };
  original_pods = ok (web_pod ∷ []);
  gefyra_pods = ok (web_pod ∷ []);
  read_secret = λ s. ok (codes "new");
  read_file = λ p f. ok (codes "old" ∷ []);
  read_config = λ p. ok (record new_config {
    proxy = record (new_proxy 80) { cluster_upstream = some (codes "up" ∷ []) } ∷ [];
  });
}

abbrev ready_trace : Trace
ready_trace = (ready watched fine []).0

ready_run : ready watched fine [] ≡ (ready_trace, ok true)
unfolding ready gefyra.Mount.Health.async_any gefyra.Mount.Health.pod_ready_and_healthy
    gefyra.Prelude.text_eq gefyra.Mount.Health.carrier_installed gefyra.Mount.Health.containers_have
    gefyra.Mount.Health.async_all tls_param_from_key_secret gefyra.Mount.Tls.select_tls
    gefyra.Mount.Tls.port_settings gefyra.Prelude.Dict.lookup gefyra.Prelude.strip
ready_run = refl

ready-IsReady_example : IsReady watched fine
ready-IsReady_example = ready-IsReady watched fine [] ready_trace ready_run
