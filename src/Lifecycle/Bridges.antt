-- ===== src/Lifecycle/Bridges.antt =====
-- Bridges: the handlers (operator/gefyra/handler/bridges.py) and what they do besides their events
-- (operator/gefyra/bridgestate.py). The connection provider and the bridge provider, and what the
-- Kubernetes API does to the object, are the record `BridgeApi`.
pub mod Handled
pub mod Callbacks
use gefyra.Prelude.{
  ◌≡◌, ℕ, Bool, true, false, not, ◌||◌, ◌&&◌, ◌==◌, List, [], ◌∷◌, ◌++◌, Option, none, some, Text,
  if◌then◌else◌, split_on, split_once, Cut, whole, parts, int, Signed,
}
use gefyra.Result.{Result, ok, err, Error, runtime_error, value_error, or_raise, ◌>>=◌}
use gefyra.Lifecycle.Machine.{Action, ◌>=>◌, ◌>&&>◌, done, raise, when, steps, catching, Engine}
use gefyra.Lifecycle.BridgeStates.{
  State, requested, installing, installed, active, error, Event, install, activate, restore,
  terminate, next, same_state,
}

-- `a, b = s.split(":")`
abbrev both_of : List Text → Result (Text × Text)
both_of (a ∷ b ∷ []) = ok (a, b)
both_of _ = err value_error

abbrev pub halves : Text → Result (Text × Text)
halves s = both_of (split_on b':' s)

-- `a, b = s.split(":", 1)`
abbrev cut_of : Cut → Result (Text × Text)
cut_of (whole w) = err value_error
cut_of (parts w s) = ok (w, s)

abbrev pub host_and_port : Text → Result (Text × Text)
host_and_port s = cut_of (split_once b':' s)

-- A mapping: the local port as a number, and the target port.
abbrev pub read_mapping : Text → Result (Signed × Text)
read_mapping mapping = halves mapping >>= λ p. or_raise value_error (int p.0) >>= λ n. ok (n, p.1)

abbrev pub any_error : Error → Bool
any_error e = true

abbrev pub is_runtime : Error → Bool
is_runtime runtime_error = true
is_runtime _ = false

module _ (machine : Engine next) where
  open machine use {World, state, send}

  -- A pure computation that may raise.
  abbrev pub lift {ℓ} : {A : Type ℓ} → Result A → Action World A
  lift r w = (w, r)

  abbrev pub give {ℓ} : {A : Type ℓ} → A → Action World A
  give a w = (w, ok a)

  pub record BridgeApi : Type 0 where
    pub port_mappings : List Text
    pub destination : Text
    pub was_active : World → Bool
    pub destination_exists : Text → Signed → Action World Bool
    pub get_destination : Text → Signed → Action World Text
    pub add_destination : Text → Signed → Action World Text
    pub remove_destination : Text → Signed → Action World (Unit {0})
    pub proxy_route_exists : Text → Text → Text → Action World Bool
    pub add_proxy_route : Text → Text → Text → Action World (Unit {0})
    pub remove_proxy_route : Text → Text → Text → Action World (Unit {0})
    pub patch_endpoint : Text → Text → Action World (Unit {0})
    pub post_event : Action World (Unit {0})

  abbrev pub is : State → World → Bool
  is s w = same_state (state w) s

  module _ (api : BridgeApi) where
    open api use {
      port_mappings, destination, was_active, destination_exists, get_destination, add_destination,
      remove_destination, proxy_route_exists, add_proxy_route, remove_proxy_route, patch_endpoint,
      post_event,
    }

    abbrev pub find_or_add : Text → Signed → Bool → Action World Text
    find_or_add ip n true = get_destination ip n
    find_or_add ip n false = add_destination ip n

    -- The first loop of `handle_proxyroute_setup`, on one mapping.
    abbrev pub set_endpoint : Text → Text → Action World (Unit {0})
    set_endpoint ip mapping = lift (read_mapping mapping) >=> λ m.
        destination_exists ip m.0 >=> λ exists. find_or_add ip m.0 exists >=> λ address.
        lift (host_and_port address) >=> λ at.
        patch_endpoint m.1 (at.0 ++ (b':' ∷ at.1)) >&&> post_event

    abbrev pub add_unless : Text → Text × Text → Bool → Action World (Unit {0})
    add_unless target at true = done
    add_unless target at false = add_proxy_route target at.0 at.1

    -- The second loop, on one mapping.
    abbrev pub set_route : Text → Text → Action World (Unit {0})
    set_route ip mapping = lift (read_mapping mapping) >=> λ m.
        get_destination ip m.0 >=> λ address. lift (host_and_port address) >=> λ at.
        proxy_route_exists m.1 at.0 at.1 >=> add_unless m.1 at

    unfoldable pub for_mappings :
        (Text → Action World (Unit {0})) → List Text → Action World (Unit {0})
    for_mappings act [] = done
    for_mappings act (mapping ∷ rest) = act mapping >&&> for_mappings act rest

    -- `handle_proxyroute_setup`
    unfoldable pub handle_proxyroute_setup : Text → Action World (Unit {0})
    handle_proxyroute_setup ip =
        for_mappings (set_endpoint ip) port_mappings >&&> for_mappings (set_route ip) port_mappings

    abbrev pub remove_quietly : Text → Signed → Action World (Unit {0})
    remove_quietly ip n = catching any_error done (remove_destination ip n)

    abbrev pub remove_if : Text → Text × Text → Bool → Action World (Unit {0})
    remove_if target at true = remove_proxy_route target at.0 at.1
    remove_if target at false = done

    abbrev pub unroute_at : Text → Signed → Text → Text × Text → Action World (Unit {0})
    unroute_at ip n target at =
        catching any_error done (proxy_route_exists target at.0 at.1 >=> remove_if target at)
        >&&> remove_quietly ip n

    -- What is done with the address of the destination, if there is one.
    abbrev pub unroute : Text → Signed → Text → Option Text → Action World (Unit {0})
    unroute ip n target none = remove_quietly ip n
    unroute ip n target (some address) = lift (host_and_port address) >=> unroute_at ip n target

    abbrev pub give_some : Text → Action World (Option Text)
    give_some address = give (some address)

    abbrev pub found_address : Text → Signed → Action World (Option Text)
    found_address ip n = catching is_runtime (give none) (get_destination ip n >=> give_some)

    abbrev pub unroute_if : Text → Signed → Text → Bool → Action World (Unit {0})
    unroute_if ip n target false = done
    unroute_if ip n target true = found_address ip n >=> unroute ip n target

    abbrev pub tear_down_mapped : Text → Signed × Text → Action World (Unit {0})
    tear_down_mapped ip m = destination_exists ip m.0 >=> unroute_if ip m.0 m.1

    abbrev pub tear_down : Text → Text → Action World (Unit {0})
    tear_down ip mapping = lift (read_mapping mapping) >=> tear_down_mapped ip

    -- `handle_proxyroute_teardown`
    unfoldable pub handle_proxyroute_teardown : Text → Action World (Unit {0})
    handle_proxyroute_teardown ip = for_mappings (tear_down ip) port_mappings

    abbrev pub check_at : Text → Text × Text → Action World Bool
    check_at target at = proxy_route_exists target at.0 at.1

    abbrev pub check_address : Text → Text → Action World Bool
    check_address target address = lift (host_and_port address) >=> check_at target

    abbrev pub check_route : Signed × Text → Bool → Action World Bool
    check_route m false = give false
    check_route m true = get_destination destination m.0 >=> check_address m.1

    abbrev pub check_mapped : Signed × Text → Action World Bool
    check_mapped m = destination_exists destination m.0 >=> check_route m

    abbrev pub check_mapping : Text → Action World Bool
    check_mapping mapping = lift (read_mapping mapping) >=> check_mapped

    abbrev pub go_on : Action World Bool → Bool → Action World Bool
    go_on rest true = rest
    go_on rest false = give false

    -- `is_intact`, which stops at the first mapping that is not
    unfoldable pub intact_from : List Text → Action World Bool
    intact_from [] = give true
    intact_from (mapping ∷ rest) = check_mapping mapping >=> go_on (intact_from rest)

    -- `bridge_create`
    abbrev pub create_steps : List (Action World (Unit {0}))
    create_steps =
        when (is requested) (send install)
        ∷ when (is installing) (send install)
        ∷ when (is installed) (send activate)
        ∷ []

    unfoldable pub bridge_create : Action World (Unit {0})
    bridge_create = steps create_steps

    abbrev pub is_given : Option Text → Bool
    is_given none = false
    is_given (some []) = false
    is_given (some (c ∷ s)) = true

    abbrev pub or_nothing : Option Text → Text
    or_nothing none = []
    or_nothing (some s) = s

    abbrev pub update_steps : Option Text → List (Action World (Unit {0}))
    update_steps old =
        handle_proxyroute_teardown (or_nothing old)
        ∷ send restore
        ∷ when (is installed) (send activate)
        ∷ []

    -- `update_bridge_destination`
    unfoldable pub update_bridge_destination : Option Text → Action World (Unit {0})
    update_bridge_destination old =
        when (λ w. is active w && is_given old) (steps (update_steps old))

    abbrev pub restore_unless : Bool → Action World (Unit {0})
    restore_unless true = done
    restore_unless false = send restore

    abbrev pub true_after : Unit {0} → Action World Bool
    true_after _ = give true

    abbrev pub restored : Action World Bool
    restored = send restore >=> true_after

    -- An exception counts as not intact, and the bridge is restored at once.
    abbrev pub probe : Action World Bool
    probe = catching any_error restored (intact_from port_mappings)

    abbrev pub reconcile_steps : List (Action World (Unit {0}))
    reconcile_steps =
        when (is error) (send restore)
        ∷ when (is active) (probe >=> restore_unless)
        ∷ when (is installing) (send install)
        ∷ when (is installed) (send activate)
        ∷ []

    -- `bridge_reconcile`
    unfoldable pub bridge_reconcile : Action World (Unit {0})
    bridge_reconcile = when was_active (catching any_error done (steps reconcile_steps))

    -- `bridge_delete`
    unfoldable pub bridge_delete : Action World (Unit {0})
    bridge_delete = catching any_error done (send terminate)
