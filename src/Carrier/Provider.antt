-- ===== src/Carrier/Provider.antt =====
-- The Carrier2 bridge provider (operator/gefyra/bridge/carrier2/__init__.py). What the Kubernetes API
-- returns is an argument; the configuration that is written to a pod is the result.
pub mod Base
pub mod Served
use gefyra.Prelude.{
  ℕ, Bool, true, false, ◌&&◌, ◌||◌, not, List, [], ◌∷◌, ◌++◌, Option, none, some, Text, codes,
  text_eq, ◌==◌, if◌then◌else◌, any, int, show, Signed,
}
use gefyra.Prelude.Dict.{Dict, lookup, has_key}
use gefyra.Result.{or_raise, Result, ok, err, value_error, ◌>>=◌}
use gefyra.Cluster.{Container, Probe, Service}
use gefyra.Carrier.Config.{
  Carrier2Proxy, Carrier2Config, CarrierBridge, CarrierRule, CarrierTls, Bridge, new_proxy,
  new_config, serves, add_bridge_rules_for_mount,
}
use gefyra.Carrier.Probes.{get_all_probes, carrier_probe}
use gefyra.Mount.Upstreams.{get_upstreams_for_svc, or_type_error}
use gefyra.Mount.Tls.{SecretRef, Params, get_tls_from_provider_parameters}

-- `[int(p.port) for p in config.proxy if p.port]`
unfoldable pub upstream_ports : List Carrier2Proxy → List ℕ
upstream_ports [] = []
upstream_ports (p ∷ ps) =
    let rest = upstream_ports ps in
    elim p.port [ none ↦ rest | some port ↦ if port == 0 then rest else port ∷ rest ]

-- The probes of the container, if it has any.
unfoldable pub set_container_probes : List Probe → Carrier2Config → Result Carrier2Config
set_container_probes [] config = ok config
set_container_probes (p ∷ ps) config = do
  probes ← carrier_probe (upstream_ports config.proxy) (p ∷ ps)
  ok (record config { probes = some probes })

-- `_set_probes`, over the containers of the pod
unfoldable pub set_probes : Text → List Container → Carrier2Config → Result Carrier2Config
unfolding set_container_probes
set_probes name [] config = ok config
set_probes name (c ∷ cs) config =
    if text_eq c.name name
    then set_container_probes (get_all_probes c) config >>= set_probes name cs
    else set_probes name cs config

-- The service of the mount as it is read, the mount's parameters and the pod's containers.
module _ (svc : Result Service) (read_secret : SecretRef → Result Text)
    (parameter : Option Params) where
  -- `_cluster_upstream`
  unfoldable pub cluster_upstream : Carrier2Proxy → ℕ → Result Carrier2Proxy
  cluster_upstream proxy rport = do
    service ← svc
    ok (record proxy { cluster_upstream = some (get_upstreams_for_svc service (some rport)) })

  -- `_tls`
  abbrev tls_for : Option Params → ℕ → Carrier2Proxy → Result Carrier2Proxy
  tls_for none rport proxy = ok proxy
  tls_for (some params) rport proxy = do
    tls ← get_tls_from_provider_parameters read_secret params rport
    ok (record proxy { tls = tls })

  unfoldable pub tls_of_mount : Carrier2Proxy → ℕ → Result Carrier2Proxy
  tls_of_mount proxy rport = tls_for parameter rport proxy

  -- The loop over the ports of a container.
  unfoldable pub proxies_for_ports : List ℕ → Result (List Carrier2Proxy)
  unfolding cluster_upstream tls_of_mount
  proxies_for_ports [] = ok []
  proxies_for_ports (port ∷ ports) =
      let later = proxies_for_ports ports in
      cluster_upstream (new_proxy port) port >>= λ upstream.
      tls_of_mount upstream port >>= λ proxy. later >>= λ proxies. ok (proxy ∷ proxies)

  -- The loop of `_set_proxies` over the containers.
  unfoldable pub proxies_for_containers : Text → List Container → Result (List Carrier2Proxy)
  unfolding proxies_for_ports
  proxies_for_containers name [] = ok []
  proxies_for_containers name (c ∷ cs) =
      let later = proxies_for_containers name cs in
      let here = (do
        ports ← or_type_error c.ports
        proxies ← proxies_for_ports ports
        rest ← later
        ok (proxies ++ rest)) in
      if text_eq c.name name then here else later

  -- `_base_carrier_config`: first the proxies, then the probes
  unfoldable pub base_carrier_config : Text → List Container → Result Carrier2Config
  unfolding proxies_for_containers set_probes
  base_carrier_config name containers = do
    proxies ← proxies_for_containers name containers
    set_probes name containers (record new_config { proxy = proxies })

  module _ {Raw : Type 0} (validate : Dict Raw → Result CarrierRule) where
    -- `update_carrier_config_add`: what is committed
    unfoldable pub update_carrier_config_add :
        Text → Text → List Container → List (Bridge Raw) → Result Carrier2Config
    update_carrier_config_add bridge_name name containers bridges = do
      config ← base_carrier_config name containers
      add_bridge_rules_for_mount validate bridges (some bridge_name) none config

    -- `update_carrier_config_remove`: what is committed
    unfoldable pub update_carrier_config_remove :
        Text → Text → List Container → List (Bridge Raw) → Result Carrier2Config
    update_carrier_config_remove bridge_name name containers bridges = do
      config ← base_carrier_config name containers
      add_bridge_rules_for_mount validate bridges none (some bridge_name) config

-- `next((proxy for proxy in … if proxy.port == port), None)`
unfoldable pub find_proxy : Signed → List Carrier2Proxy → Option Carrier2Proxy
find_proxy n [] = none
find_proxy n (p ∷ ps) = if serves n p then some p else find_proxy n ps

abbrev is_filled : Dict CarrierBridge → Bool
is_filled [] = false
is_filled (e ∷ d) = true

-- `name and name not in proxy.bridges.keys()`
abbrev lacks_name : Option Text → Dict CarrierBridge → Bool
lacks_name none d = false
lacks_name (some []) d = false
lacks_name (some (c ∷ s)) d = not (has_key (c ∷ s) d)

-- `f"{destination_host}:{destination_port}"`
abbrev pub destination : Text → Text → Text
destination host port = host ++ (b':' ∷ port)

unfoldable pub has_endpoint : Text → Dict CarrierBridge → Bool
has_endpoint endpoint = any (λ e. text_eq e.1.endpoint endpoint)

abbrev exists_at : Option Text → Text → Option Carrier2Proxy → Bool
exists_at name endpoint none = false
exists_at name endpoint (some p) =
    if lacks_name name p.bridges then false else has_endpoint endpoint p.bridges

-- `proxy_route_exists`, on the configuration that is read from the first pod
unfoldable pub proxy_route_exists :
    Text → Text → Text → Option Text → List Carrier2Proxy → Result Bool
unfolding find_proxy has_endpoint
proxy_route_exists container_port host port name proxies =
    if not (any (λ (p : Carrier2Proxy). is_filled p.bridges) proxies)
    then ok false
    else (or_raise value_error (int container_port) >>= λ n.
        ok (exists_at name (destination host port) (find_proxy n proxies)))
