-- ===== src/Scenarios/Routes.antt =====
-- Proxy routes in a store that never fails.
use gefyra.Prelude.{
  ◌≡◌, refl, [], ◌∷◌, ◌+◌, ◌++◌, none, some, arith, Text, codes, text_eq, false, true, ◌<◌, ◌≤◌, ℕ,
  List, Signed, Lacks, if◌then◌else◌, split_on, int, Option,
}
use gefyra.Prelude.Dict.{Dict, IsDict, lookup, insert}
use gefyra.Result.{ok}
use gefyra.Carrier.Config.{denotes}
use gefyra.Carrier.Config.Routes.{at_port}
use gefyra.Stowaway.ConfigMaps.{Data, merge, plain_api}
use gefyra.Stowaway.Peers.Total.{Writes}
use gefyra.Stowaway.Routes.Total.{add_route_total}
use gefyra.Stowaway.Routes.{
  route_port, taken_ports, first_free, or_no_routes, get_free_proxyroute_port, add_route,
  remove_route, destination_of,
}
use gefyra.Stowaway.Routes.Listed.{IsAbsent, IsAbsent-cons}
use gefyra.Stowaway.Routes.Edits.{IsLowestFree, route_value, route_key, add_route_lem}
use gefyra.Stowaway.Routes.Undo.{remove_route-add_route}

abbrev taken : List Signed
taken = at_port 10000 ∷ []

abbrev routes : Dict Text
routes = (codes "c-x", codes "h:80,10000") ∷ []

taken_run : taken_ports routes ≡ ok taken
unfolding taken_ports route_port split_on int
taken_run = refl

first_run : first_free 3 10000 taken ≡ some 10001
unfolding first_free denotes
first_run = refl

abbrev all_routes : Dict Text
all_routes = (codes "c-x", codes "h:80,10000") ∷ (codes "c-y", codes "h:81,10001") ∷ []

add_run :
    add_route plain_api (codes "c") (codes "y") (codes "h:81") (some routes)
    ≡ ok (at_port 10001, some all_routes)
unfolding add_route get_free_proxyroute_port taken_ports route_port split_on int first_free denotes
    gefyra.Prelude.Dict.update insert text_eq gefyra.Prelude.show
add_run = refl

routes-IsDict : IsDict routes
routes-IsDict = unfold lookup in (refl, tt)

add_route_lem_example :
    (port : ℕ) × (at_port 10001 ≡ at_port port)
    × IsLowestFree taken port
    × ((k v : Text) (m : Signed)
        → lookup k routes ≡ some v
        → route_port v ≡ ok m
        → denotes m port ≡ false)
    × ((after : Data) × (ok (some all_routes) ≡ ok after)
        × ((j : Text)
            → lookup j (or_no_routes after) ≡ (
                if text_eq (route_key (codes "c") (codes "y")) j
                then some (route_value (codes "h:81") port)
                else lookup j routes)))
add_route_lem_example =
    add_route_lem plain_api (codes "c") (codes "y") (codes "h:81") (some routes) (some all_routes)
      (some routes) (at_port 10001) taken refl routes-IsDict taken_run add_run

h_81-IsAbsent-nil : IsAbsent (codes "h:81") []
unfolding lookup
h_81-IsAbsent-nil k v e = cc

h_81-differs : text_eq (destination_of (codes "h:80,10000")) (codes "h:81") ≡ false
unfolding text_eq split_on
h_81-differs = refl

h_81-IsAbsent : IsAbsent (codes "h:81") routes
h_81-IsAbsent =
    IsAbsent-cons (codes "h:81") (codes "c-x") (codes "h:80,10000") [] h_81-differs
      h_81-IsAbsent-nil

remove_run :
    remove_route plain_api (codes "h:81") (some all_routes) ≡ ok (at_port 10001, some routes)
unfolding remove_route text_eq split_on int gefyra.Prelude.Dict.remove
remove_run = refl

key-fresh : lookup (route_key (codes "c") (codes "y")) routes ≡ none
unfolding lookup text_eq
key-fresh = refl

h_81-Lacks : Lacks b',' (codes "h:81")
h_81-Lacks = (refl, (refl, (refl, (refl, tt))))

remove_route-add_route_example :
    (at_port 10001 ≡ at_port 10001)
    × ((after : Data) × (ok (some routes) ≡ ok after)
        × ((j : Text) → lookup j (or_no_routes after) ≡ lookup j routes))
remove_route-add_route_example =
    remove_route-add_route plain_api (codes "c") (codes "y") (codes "h:81") (some routes)
      (some all_routes) (some routes) (some routes) (at_port 10001) (at_port 10001) refl
      routes-IsDict key-fresh h_81-Lacks h_81-IsAbsent add_run remove_run

plain-Writes : Writes plain_api
plain-Writes = record { patches = λ d s. (merge s d, refl); replaces = λ d s. (d, refl) }

add_route_total_example :
    (r : Signed × Data) × (add_route plain_api (codes "c") (codes "y") (codes "h:81") (some routes)
      ≡ ok r)
add_route_total_example =
    add_route_total plain_api plain-Writes (codes "c") (codes "y") (codes "h:81") (some routes)
      (some routes) taken refl taken_run (omega arith)
