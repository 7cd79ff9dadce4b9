-- ===== src/Scenarios/Bridging.antt =====
-- Bridges with an engine whose callbacks do nothing and providers that hold one route.
use gefyra.Prelude.{◌≡◌, refl, [], ◌∷◌, ◌||◌, true, false, none, some, codes, Option, Bool}
use gefyra.Result.{ok}
use gefyra.Lifecycle.Machine.{done, Runs, stay, step, plain_engine}
use gefyra.Lifecycle.BridgeStates
use gefyra.Lifecycle.BridgeStates.{State, next, same_state}
use gefyra.Lifecycle.Bridges.{
  BridgeApi, intact_from, bridge_create, update_bridge_destination, bridge_reconcile, bridge_delete,
}

abbrev bridge_api : BridgeApi (plain_engine next)
bridge_api = record {
  port_mappings = codes "9000:80" ∷ [];
  destination = codes "10.0.0.2";
  was_active = λ s. true;
  destination_exists = λ ip n s. (s, ok true);
  get_destination = λ ip n s. (s, ok (codes "svc:10000"));
  add_destination = λ ip n s. (s, ok (codes "svc:10000"));
  remove_destination = λ ip n. done;
  proxy_route_exists = λ t h p s. (s, ok false);
  add_proxy_route = λ t h p. done;
  remove_proxy_route = λ t h p. done;
  patch_endpoint = λ t address. done;
  post_event = done;
}

-- The route is missing, so the bridge is restored.
reconcile_run :
    bridge_reconcile (plain_engine next) bridge_api BridgeStates.active
    ≡ (BridgeStates.restoring, ok tt)
unfolding bridge_reconcile gefyra.Lifecycle.Bridges.intact_from gefyra.Prelude.split_on
    gefyra.Prelude.int gefyra.Prelude.split_once next
reconcile_run = refl

activate_step : next BridgeStates.activate BridgeStates.installed ≡ some BridgeStates.creating
unfolding next
activate_step = refl

establish_step : next BridgeStates.establish BridgeStates.creating ≡ some BridgeStates.active
unfolding next
establish_step = refl

abbrev coming_up : Runs next BridgeStates.installed BridgeStates.active
coming_up =
    step BridgeStates.activate activate_step (step BridgeStates.establish establish_step stay)
