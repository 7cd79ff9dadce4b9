-- ===== src/Scenarios/Pods.antt =====
-- Adding and removing a bridge in the pods of a mount.
use gefyra.Prelude.{
  ℕ, ◌≡◌, ◌≢◌, refl, Bool, true, false, List, [], ◌∷◌, ◌++◌, Option, none, some, Text, codes, All,
  Occurs,
}
use gefyra.Prelude.Dict.{Dict}
use gefyra.Result.{Result, ok, err, key_error}
use gefyra.Cluster.{Container, LivePod, Service}
use gefyra.Carrier.Config.{Bridge, CarrierRule, Carrier2Config}
use gefyra.Carrier.Config.Routes.{route}
use gefyra.Carrier.Config.Rounds.{targets}
use gefyra.Carrier.Pods.{Commit, World, Served, add_proxy_route, remove_proxy_route}
use gefyra.Carrier.Pods.Gathered.{commit_of}
use gefyra.Carrier.Pods.Routed.{IsServed, add_proxy_route_lem, remove_proxy_route_lem}

abbrev web : Container
web = record {
  name = codes "web";
  image = codes "carrier2:1";
  command = none;
  args = none;
  ports = some (80 ∷ []);
  startup_probe = none;
  readiness_probe = none;
  liveness_probe = none;
}

abbrev web_pod : LivePod
web_pod = record {
  name = codes "web-0";
  phase = codes "Running";
  owner = none;
  containers = web ∷ [];
  container_statuses = some (
      record {
        name = codes "web";
        restart_count = 1;
        ready = true;
        started = some true;
        running = some (some (codes "t"));
      }
      ∷ []);
}

abbrev svc : Service
svc = record {
  name = codes "s";
  namespace = codes "prod";
  labels = [];
  selector = [];
  ports = record { name = codes "80-0"; port = 80; target_port = 80 } ∷ [];
}

abbrev bridge : Bridge Text
bridge = record {
  name = codes "b";
  port_mappings = codes "8080:80" ∷ [];
  cluster_endpoint = some ((codes "80", codes "h:10000") ∷ []);
  rules = some [];
}

abbrev served : Served Text
served = record {
  bridge_name = codes "b";
  container = codes "web";
  mount_ready = ok true;
  pods = ok (web_pod ∷ []);
  svc = ok svc;
  read_secret = λ s. err key_error;
  parameter = none;
  bridges = ok (bridge ∷ []);
  validate = λ d. ok (record { match = [] });
}

abbrev fine : List Commit → Commit → Result (Unit {0})
fine cs c = ok tt

abbrev before : World
before = record { updated = false; commits = [] }

abbrev added : World
added = (add_proxy_route served fine before).0

add_run : add_proxy_route served fine before ≡ (added, ok tt)
unfolding add_proxy_route gefyra.Mount.Health.pod_ready_and_healthy gefyra.Prelude.text_eq
    gefyra.Carrier.Provider.base_carrier_config gefyra.Carrier.Probes.get_all_probes
    gefyra.Carrier.Config.add_bridge_rules_for_mount gefyra.Carrier.Config.add_bridges
    gefyra.Carrier.Config.add_ports gefyra.Carrier.Config.add_port gefyra.Prelude.split_on
    gefyra.Prelude.int gefyra.Carrier.Config.serves gefyra.Carrier.Config.convert_bridge_to_rule
    gefyra.Prelude.Dict.lookup gefyra.Carrier.Config.show_signed gefyra.Prelude.show
add_run = refl

abbrev removed : World
removed = (remove_proxy_route served fine added).0

remove_run : remove_proxy_route served fine added ≡ (removed, ok tt)
unfolding remove_proxy_route gefyra.Mount.Health.pod_ready_and_healthy gefyra.Prelude.text_eq
    gefyra.Carrier.Provider.base_carrier_config gefyra.Carrier.Probes.get_all_probes
    gefyra.Carrier.Config.add_bridge_rules_for_mount gefyra.Carrier.Config.add_bridges
remove_run = refl

targeted : targets 80 (codes "8080:80" ∷ []) ≡ true
unfolding targets gefyra.Carrier.Config.target_port gefyra.Prelude.split_on gefyra.Prelude.int
    gefyra.Carrier.Config.denotes
targeted = refl

named : codes "b" ≢ []
named e = cc

add_proxy_route_lem_example :
    All (IsServed served fine bridge 80 added) (web_pod ∷ [])
    × (add_proxy_route served fine added ≡ (added, ok tt))
add_proxy_route_lem_example =
    add_proxy_route_lem served fine [] [] bridge 80 (web_pod ∷ []) before added refl refl named tt
      targeted refl refl add_run

remove_proxy_route_lem_example :
    All
      (λ (p : LivePod).
        (config : Carrier2Config) × Occurs (commit_of served fine p config) removed.commits
        × ((port : ℕ) → route port (codes "b") config.proxy ≡ none))
      (web_pod ∷ [])
remove_proxy_route_lem_example =
    remove_proxy_route_lem served fine (bridge ∷ []) (web_pod ∷ []) added removed refl named refl
      remove_run
