-- ===== src/Lib.antt =====
-- Gefyra's operator, which bridges traffic for a workload in a Kubernetes cluster to a container on
-- a developer's machine. All paths are from the root of the repository.
--
-- The parts and how they interact. A GefyraBridgeMount makes a workload ready for bridges: the
-- operator clones the workload and its service under derived names, and replaces the container in
-- the original's pods by Carrier2, a proxy whose upstream is the clone. A GefyraBridge then asks
-- Carrier2 to send matching requests to a client instead; its endpoint is a proxy service of
-- Stowaway, the WireGuard server in the cluster, which keeps its peers (the clients) and its proxy
-- routes in two ConfigMaps. A GefyraClient is one such client. Each of the three resources has a
-- state machine, which kopf's handlers drive.
--
-- - Prelude, Result: text as lists of characters, Python's int, str, split and dict, and exceptions
--   as values. A text of the source is a list of code points.
-- - Cluster: the Kubernetes objects, cut down to the fields that are read.
-- - Mount.Names: generate_k8s_conform_name and the names made with it
--   (operator/gefyra/bridge_mount/utils.py), _split_target_type_name, _gefyra_workload_name,
--   _gefyra_workload_type, gefyra_svc_name (operator/gefyra/bridge_mount/carrier2mount/__init__.py).
-- - Mount.Upstreams: get_upstreams_for_svc, get_ports_for_workload (bridge_mount/utils.py).
-- - Mount.Clone: _get_duplication_labels, _clean_annotations, _clone_workload_structure,
--   _get_svc_for_workload (carrier2mount/__init__.py).
-- - Mount.Tls: _tls_param_from_key_secret, the choice of the file in inject_tls_file, and
--   _get_tls_from_provider_parameters (bridge_mount/utils.py).
-- - Mount.Calls: the calls by which a mount changes the cluster, as a sequence of those that
--   succeeded; Mount.Calls.Steps has the rules for what holds before and after a step.
-- - Mount.Prepare: prepare, _duplicate_workload, _handle_hpa_for_deployment.
-- - Mount.Install: install, _set_carrier_upstream, _store_pod_original_config.
-- - Mount.Health, Mount.Ready: pod_ready_and_healthy, _carrier_installed, _upstream_set, ready,
--   prepared (carrier2mount/__init__.py), async_any, async_all (operator/gefyra/utils.py) and
--   update_tls_file (bridge_mount/utils.py).
-- - Mount.Removal: uninstall and what it calls, _patch_pod_with_original_config, target_exists,
--   _get_workload, _find_hpa_for_deployment.
-- - Carrier.Config: the classes of operator/gefyra/bridge/carrier2/config.py and
--   add_bridge_rules_for_mount with its helpers.
-- - Carrier.Probes, Carrier.Provider: _set_probes, _set_proxies, _tls, _cluster_upstream,
--   _base_carrier_config, update_carrier_config_add, update_carrier_config_remove and
--   proxy_route_exists (operator/gefyra/bridge/carrier2/__init__.py).
-- - Carrier.Pods: ready, add_proxy_route and remove_proxy_route over the pods of a mount (same file).
-- - Carrier.Admission: the two validate operations.
-- - Stowaway.ConfigMaps: the Kubernetes API on one ConfigMap, an interface with its documented laws.
-- - Stowaway.Peers: _edit_peer_configmap, add_peer, remove_peer, peer_exists, _translate_peer_name
--   (operator/gefyra/connection/stowaway/__init__.py).
-- - Stowaway.Routes: _get_free_proxyroute_port and _edit_proxyroutes_configmap (same file).
-- - Stowaway.Services: the Kubernetes API on services, an interface with its documented laws;
--   create_stowaway_proxy_service (connection/stowaway/resources/services.py) and
--   handle_stowaway_proxy_service (connection/stowaway/components.py).
-- - Stowaway.Destinations: add_destination, get_destination, remove_destination and
--   destination_exists (connection/stowaway/__init__.py), over the routes and the services.
-- - Stowaway.Debris: reconcile_proxyroutes (operator/gefyra/connection/stowaway/handler.py).
-- - Stowaway.Wireguard: _get_wireguard_connection_details and _read_wireguard_config
--   (connection/stowaway/__init__.py).
-- - Stowaway.Status: parse_wg_output (connection/stowaway/utils.py), with its regular expressions as
--   lists of the alternatives that are tried.
-- - Stowaway.Watch: read_wireguard_status (connection/stowaway/handler.py) and _patch_object
--   (operator/gefyra/base.py).
-- - Client.Cargo: create_wireguard_config (client/gefyra/local/cargo.py), StowawayConfig
--   (client/gefyra/types/stowaway.py) and how it is made (client/gefyra/types/client.py).
-- - Lifecycle.Machine: coroutines as state passing with exceptions, and the engine of
--   python-statemachine as an interface: an event without a transition from the current state raises
--   TransitionNotAllowed, and any other follows the declared transitions, the first from the current
--   state, whatever further events the callbacks send.
-- - Lifecycle.Clients: the transitions of GefyraClient (operator/gefyra/clientstate.py) and the
--   handlers of operator/gefyra/handler/clients.py.
-- - Lifecycle.Clients.Callbacks: what those transitions call (clientstate.py): on_create with the
--   functions of operator/gefyra/resources/serviceaccounts.py, can_add_client, enable_connection,
--   disable_connection, on_disable, on_terminate and cleanup_all_bridges. The peers of Stowaway change
--   by Stowaway.Peers; every other effect is a call that is recorded if it succeeds.
-- - Lifecycle.MountStates, Lifecycle.BridgeMounts: the transitions of GefyraBridgeMount
--   (operator/gefyra/bridge_mount_state.py), its tests, and the handlers of
--   operator/gefyra/handler/bridge_mounts.py.
-- - Lifecycle.BridgeMounts.Callbacks: what those transitions call (bridge_mount_state.py):
--   on_mark_missing, on_restore, on_arrange, _bridge_mount_prepared, on_install,
--   _bridge_mount_finished, on_terminate and cleanup_all_bridges, over the operations of a provider
--   (operator/gefyra/bridge_mount/abstract.py), which Mount.Prepare, Mount.Install, Mount.Ready and
--   Mount.Removal fill.
-- - Lifecycle.BridgeStates, Lifecycle.Bridges: the transitions of GefyraBridge
--   (operator/gefyra/bridgestate.py), the setting up and tearing down of its routes, its tests, and
--   the handlers of operator/gefyra/handler/bridges.py.
-- - Lifecycle.Bridges.Callbacks: what those transitions call (bridgestate.py): _install_provider,
--   _wait_for_provider, on_activate, on_restore, on_remove and on_terminate.
-- - Scenarios: the definitions run on concrete inputs, with a store that never fails and an engine
--   whose callbacks do nothing.
--
-- Bounds and fuel. No definition here runs on fuel but the printing of a decimal number, which has
-- one unit more than the number; every loop of the source goes over a list or a range and is
-- structural. Ports, lengths and times are natural numbers; int() of a text may be negative and is a
-- sign with a size. The range of the proxy routes' ports is the source's, 10000 to 59999.
--
-- Parameters. What the Kubernetes API returns is an argument or, for ConfigMaps and services, an
-- interface; what a call of the mount comes to is the parameter `outcome`; pydantic's check of a rule
-- is `validate`; secrets are `read_secret`; random letters and uuids are arguments. The connection
-- provider and the bridge provider of a bridge are the record `BridgeApi`. Locks make
-- handlers run one at a time, which is how they are modelled.
--
-- What the model leaves out of what it models. A float of WireGuard's output is its text, so that 1.5
-- and 1.50 differ here and not in Python. The port of a probe is a number; a named port, which the
-- list of the configuration refuses, is not modelled. A commit that fails leaves nothing behind,
-- where the source may have written the file before its reload fails. The service of a mount is
-- read once in a run, where the source reads it in each place that needs it.
--
-- Not modelled: the exec streams into pods and the YAML that they carry, the builders of Kubernetes
-- objects, the client's command line and its calls of docker, the Carrier2 proxy, which is Rust,
-- and kopf.
pub mod Prelude
pub mod Result
pub mod Cluster
pub mod Mount
pub mod Carrier
pub mod Stowaway
pub mod Lifecycle
pub mod Client
mod Scenarios
