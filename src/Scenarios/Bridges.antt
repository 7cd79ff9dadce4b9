-- ===== src/Scenarios/Bridges.antt =====
-- Bridges: configurations, probes and admission.
use gefyra.Prelude.{
  ◌≡◌, ◌≢◌, ◌↔◌, refl, map, [], ◌∷◌, ◌++◌, none, some, arith, Text, codes, text_eq, Bool, true,
  false, ℕ, List, Option, not, ◌&&◌, All, Signed, length, int,
}
use gefyra.Prelude.Dict.{Dict, lookup, insert}
use gefyra.Result.{Result, ok}
use gefyra.Cluster.{Container, Service, Probe}
use gefyra.Mount.Tls.{SecretRef}
use gefyra.Mount.Upstreams.{get_upstreams_for_svc}
use gefyra.Carrier.Config.{
  Bridge, CarrierBridge, CarrierProbe, CarrierRule, Carrier2Proxy, Carrier2Config,
  convert_bridge_to_rule, add_bridges,
}
use gefyra.Carrier.Config.Routes.{at_port, ports, route}
use gefyra.Carrier.Config.Rounds.{targets, IsRouted}
use gefyra.Carrier.Config.Mounts.{IsBystander}
use gefyra.Carrier.Probes.{has_port, is_http, is_https, carrier_probe}
use gefyra.Carrier.Provider.{
  base_carrier_config, update_carrier_config_add, update_carrier_config_remove, proxy_route_exists,
}
use gefyra.Carrier.Provider.Base.{named_ports}
use gefyra.Carrier.Provider.Served.{update_carrier_config_add_lem, update_carrier_config_remove_lem}

abbrev ready_probe : Probe
ready_probe = record {
  exec = false;
  tcp_socket = false;
  http_get = some (record { port = 8080; scheme = none });
}

abbrev web_container : Container
web_container = record {
  name = codes "web";
  image = codes "web:1";
  command = none;
  args = none;
  ports = some (80 ∷ []);
  startup_probe = none;
  readiness_probe = some ready_probe;
  liveness_probe = none;
}

abbrev web_svc : Service
web_svc = record {
  name = codes "w";
  namespace = codes "p";
  labels = [];
  selector = [];
  ports = record { name = codes "80-0"; port = 80; target_port = 80 } ∷ [];
}

abbrev no_secret : SecretRef → Result Text
no_secret r = ok []

abbrev accept : Dict Text → Result CarrierRule
accept rule = ok (record { match = [] })

abbrev bridge : Text → Text → Bridge Text
bridge name endpoint = record {
  name = name;
  port_mappings = codes "90:80" ∷ [];
  cluster_endpoint = some ((codes "80", endpoint) ∷ []);
  rules = some (((codes "match", []) ∷ []) ∷ []);
}

abbrev first_bridge : Bridge Text
first_bridge = bridge (codes "a") (codes "h:1")

abbrev second_bridge : Bridge Text
second_bridge = bridge (codes "b") (codes "h:2")

abbrev web_route : CarrierBridge
web_route = record { endpoint = codes "h:2"; rules = record { match = [] } ∷ [] }

abbrev first_route : CarrierBridge
first_route = record { endpoint = codes "h:1"; rules = record { match = [] } ∷ [] }

abbrev config_with : Dict CarrierBridge → Carrier2Config
config_with bridges = record {
  version = 1;
  threads = 4;
  error_log = codes "/tmp/carrier.log";
  pid_file = codes "/tmp/carrier2.pid";
  upgrade_sock = codes "/tmp/carrier2.sock";
  upstream_keepalive_pool_size = 100;
  probes = some (record { http_get = 8080 ∷ []; https_get = [] });
  proxy =
      record {
        port = some 80;
        tls = none;
        cluster_upstream = some (codes "w.p.svc.cluster.local:80" ∷ []);
        bridges = bridges;
      }
      ∷ [];
}

abbrev both : Dict CarrierBridge
both = (codes "a", first_route) ∷ (codes "b", web_route) ∷ []

base_run :
    base_carrier_config (ok web_svc) no_secret none (codes "web") (web_container ∷ [])
    ≡ ok (config_with [])
unfolding base_carrier_config text_eq gefyra.Carrier.Probes.get_all_probes carrier_probe
    gefyra.Carrier.Probes.probe_ports gefyra.Carrier.Provider.upstream_ports get_upstreams_for_svc
    is_http is_https gefyra.Prelude.show
base_run = refl

add_run :
    update_carrier_config_add
      (ok web_svc)
      no_secret
      none
      accept
      (codes "b")
      (codes "web")
      (web_container ∷ [])
      (first_bridge ∷ second_bridge ∷ [])
    ≡ ok (config_with both)
unfolding update_carrier_config_add gefyra.Carrier.Config.add_bridge_rules_for_mount add_bridges
    gefyra.Carrier.Config.add_ports gefyra.Carrier.Config.add_port gefyra.Prelude.split_on int
    gefyra.Carrier.Config.serves convert_bridge_to_rule lookup gefyra.Carrier.Config.show_signed
    gefyra.Prelude.show gefyra.Carrier.Config.update_proxy gefyra.Carrier.Config.denotes
    gefyra.Carrier.Config.get_rules gefyra.Carrier.Config.get_rules_for_bridge
    gefyra.Carrier.Config.put_bridge gefyra.Carrier.Config.route_port
    gefyra.Carrier.Config.target_port gefyra.Prelude.scan_digits gefyra.Prelude.strip
    gefyra.Prelude.strip_left insert text_eq
add_run = rw base_run refl

remove_run :
    update_carrier_config_remove
      (ok web_svc)
      no_secret
      none
      accept
      (codes "a")
      (codes "web")
      (web_container ∷ [])
      (first_bridge ∷ second_bridge ∷ [])
    ≡ ok (config_with ((codes "b", web_route) ∷ []))
unfolding update_carrier_config_remove gefyra.Carrier.Config.add_bridge_rules_for_mount add_bridges
    gefyra.Carrier.Config.add_ports gefyra.Carrier.Config.add_port gefyra.Prelude.split_on int
    gefyra.Carrier.Config.serves convert_bridge_to_rule lookup gefyra.Carrier.Config.show_signed
    gefyra.Prelude.show gefyra.Carrier.Config.update_proxy gefyra.Carrier.Config.denotes
    gefyra.Carrier.Config.get_rules gefyra.Carrier.Config.get_rules_for_bridge
    gefyra.Carrier.Config.put_bridge gefyra.Carrier.Config.route_port
    gefyra.Carrier.Config.target_port gefyra.Prelude.scan_digits gefyra.Prelude.strip
    gefyra.Prelude.strip_left insert text_eq
remove_run = rw base_run refl

targets_80 : targets 80 second_bridge.port_mappings ≡ true
unfolding gefyra.Carrier.Config.target_port gefyra.Prelude.split_on int
    gefyra.Carrier.Config.denotes
targets_80 = refl

int_80 : int (codes "80") ≡ some (at_port 80)
unfolding int
int_80 = refl

named-b : ◌≢◌ {A = Text} (codes "b") []
named-b e = cc

update_carrier_config_add_lem_example :
    (ports (config_with both).proxy ≡ map some (named_ports (codes "web") (web_container ∷ [])))
    × ((rule : CarrierBridge) × IsRouted accept second_bridge 80 rule (config_with both).proxy)
update_carrier_config_add_lem_example =
    update_carrier_config_add_lem (ok web_svc) no_secret none accept (codes "web")
      (web_container ∷ []) (first_bridge ∷ []) second_bridge [] (config_with both) 80 named-b tt
      add_run targets_80

named-a : ◌≢◌ {A = Text} (codes "a") []
named-a e = cc

update_carrier_config_remove_lem_example :
    (route 80 (codes "a") (config_with ((codes "b", web_route) ∷ [])).proxy ≡ none)
    × (proxy_route_exists
          (codes "80")
          (codes "h")
          (codes "1")
          (some (codes "a"))
          (config_with ((codes "b", web_route) ∷ [])).proxy
        ≡ ok false)
update_carrier_config_remove_lem_example =
    update_carrier_config_remove_lem (ok web_svc) no_secret none accept (codes "web")
      (web_container ∷ []) (codes "a") (first_bridge ∷ second_bridge ∷ [])
      (config_with ((codes "b", web_route) ∷ [])) (codes "80") (codes "h") (codes "1") 80 named-a
      remove_run int_80

bystander : All (IsBystander accept (some (codes "c"))) (first_bridge ∷ [])
unfolding text_eq
bystander = (refl, tt)

probe_run :
    carrier_probe (80 ∷ []) (ready_probe ∷ [])
    ≡ ok (record { http_get = 8080 ∷ []; https_get = [] })
unfolding carrier_probe gefyra.Carrier.Probes.probe_ports is_http is_https
probe_run = refl
