-- ===== src/Scenarios/Destinations.antt =====
-- Destinations in stores that fail only for a service that is there already or missing.
use gefyra.Prelude.{
  ◌≡◌, refl, true, false, List, [], ◌∷◌, none, some, arith, Text, codes, Lacks, ◌<◌, inl, inr,
  Bool-cases, ◌⊎◌, Option, split_on, text_eq, int,
}
use gefyra.Prelude.Dict.{Dict, IsDict, lookup}
use gefyra.Result.{ok, err, Error, runtime_error, api_exception}
use gefyra.Carrier.Config.Routes.{at_port}
use gefyra.Stowaway.ConfigMaps.{Data, plain_api, merge}
use gefyra.Stowaway.Peers.Total.{Writes}
use gefyra.Stowaway.Routes.{or_no_routes, taken_ports, destination_of}
use gefyra.Stowaway.Routes.Listed.{IsAbsent}
use gefyra.Stowaway.Services.{is_there_already, ProxyService, is_named}
use gefyra.Stowaway.Services.Plain.{without, plain_services, create_in}
use gefyra.Stowaway.Destinations.{
  Setting, StowawayPod, World, add_destination, get_destination, remove_destination,
  destination_exists, destination_selector,
}
use gefyra.Stowaway.Destinations.Found.{get_destination-add_destination}
use gefyra.Stowaway.Destinations.Undone.{remove_destination-add_destination}
use gefyra.Stowaway.Destinations.Total.{Admits, IsRunning}

abbrev setting : Setting
setting = record { namespace = codes "gefyra"; pod_labels = [] }

abbrev pod : StowawayPod
pod = record { pod = ok (some (codes "p")); notify = λ name. ok tt }

abbrev empty : World plain_api plain_services setting pod
empty = record { routes = none; proxies = [] }

abbrev made : ProxyService
made = record {
  name = codes "gefyra-stowaway-proxy-10000";
  namespace = codes "gefyra";
  port_name = codes "10000";
  port = at_port 10000;
  target_port = at_port 10000;
  labels =
      (codes "gefyra.dev/app", codes "stowaway")
      ∷ (codes "gefyra.dev/role", codes "proxy")
      ∷ (codes "gefyra.dev/proxy-port", codes "10000")
      ∷ (codes "gefyra.dev/client-id", codes "c")
      ∷ (codes "gefyra.dev/destination", codes "h_80")
      ∷ [];
  selector = [];
}

abbrev with_destination : World plain_api plain_services setting pod
with_destination = record {
  routes = some ((codes "c-x", codes "h:80,10000") ∷ []);
  proxies = made ∷ [];
}

abbrev without_destination : World plain_api plain_services setting pod
without_destination = record { routes = some []; proxies = [] }

abbrev address : Text
address = codes "gefyra-stowaway-proxy-10000.gefyra.svc.cluster.local:10000"

add_run :
    add_destination plain_api plain_services setting pod
      (codes "x")
      (codes "c")
      (codes "h")
      (codes "80")
      empty
    ≡ ok (address, with_destination)
unfolding add_destination gefyra.Stowaway.Routes.get_free_proxyroute_port taken_ports
    gefyra.Stowaway.Routes.first_free gefyra.Stowaway.Services.create_stowaway_proxy_service
    gefyra.Prelude.Dict.update gefyra.Carrier.Config.show_signed gefyra.Prelude.Dict.insert
    gefyra.Prelude.show
add_run = refl

remove_run :
    remove_destination plain_api plain_services setting pod
      (codes "c")
      (codes "h")
      (codes "80")
      with_destination
    ≡ ok without_destination
unfolding remove_destination text_eq split_on int gefyra.Carrier.Config.show_signed
    gefyra.Prelude.show gefyra.Prelude.Dict.remove
remove_run = refl

abbrev found : List ProxyService
found = made ∷ []

found_run :
    plain_services.list (destination_selector (codes "c") (codes "h") (codes "80")) found ≡ ok found
unfolding destination_selector gefyra.Stowaway.Services.selects lookup text_eq
found_run = refl

get_destination-add_destination_example :
    (get_destination plain_api plain_services setting pod
        (codes "c")
        (codes "h")
        (codes "80")
        with_destination
      ≡ ok address)
    × (destination_exists plain_api plain_services setting pod
          (codes "c")
          (codes "h")
          (codes "80")
          with_destination
        ≡ ok true)
get_destination-add_destination_example =
    get_destination-add_destination plain_api plain_services setting pod (codes "x") (codes "c")
      (codes "h") (codes "80") empty with_destination none address found refl tt refl add_run
      found_run

h_80-IsAbsent : IsAbsent (codes "h:80") []
unfolding lookup
h_80-IsAbsent k v e = cc

remove_destination-add_destination_example :
    (get_destination plain_api plain_services setting pod
        (codes "c")
        (codes "h")
        (codes "80")
        without_destination
      ≡ err runtime_error)
    × (destination_exists plain_api plain_services setting pod
          (codes "c")
          (codes "h")
          (codes "80")
          without_destination
        ≡ ok false)
    × ((after : Data) × (ok (some []) ≡ ok after)
        × ((j : Text) → lookup j (or_no_routes after) ≡ lookup j []))
remove_destination-add_destination_example =
    remove_destination-add_destination plain_api plain_services setting pod (codes "x") (codes "c")
      (codes "h") (codes "80") empty with_destination without_destination none address found [] refl
      tt (unfold lookup in refl) (refl, (refl, (refl, (refl, tt)))) h_80-IsAbsent refl add_run
      found_run remove_run refl

plain-Writes_here : Writes plain_api
plain-Writes_here = record { patches = λ d s. (merge s d, refl); replaces = λ d s. (d, refl) }

create_in-total :
    (v : ProxyService) (s : List ProxyService)
    → ((t : List ProxyService) × (create_in v s ≡ ok t))
      ⊎ ((e : Error) × (create_in v s ≡ err e) × (is_there_already e ≡ true))
create_in-total v s = elim (Bool-cases (is_named v.name s)) [
  | inl there ↦ inr (api_exception 409, rw there refl, refl)
  | inr new ↦ inl (v ∷ s, rw new refl)
]

plain-Admits : Admits plain_services
plain-Admits = record { creates = create_in-total; patches = λ v s. (v ∷ without v.name s, refl) }

pod-IsRunning : IsRunning pod
pod-IsRunning = record { name = codes "p"; found = refl; told = inl refl }

no_ports : taken_ports [] ≡ ok []
unfolding taken_ports
no_ports = refl
