-- ===== src/Stowaway/Routes/Total.antt =====
-- That adding a route succeeds where the Kubernetes API does and there is room.
use gefyra.Prelude.{◌≡◌, ◌<◌, false, List, Text, Signed, length}
use gefyra.Prelude.Dict.{insert}
use gefyra.Result.{ok}
use gefyra.Stowaway.ConfigMaps.{ConfigMapApi, Data}
use gefyra.Stowaway.Peers.Total.{Writes}
use gefyra.Stowaway.Routes.{taken_ports, or_no_routes, add_route}
use gefyra.Stowaway.Routes.Edits.{route_key, route_value, get_free_proxyroute_port_lem}

-- If the ports of the routes are read, there are less than 50000 routes, and every call that
-- writes to the store succeeds, then adding a route succeeds.
pub add_route_total :
    (api : ConfigMapApi) (writes : Writes api) (peer suffix add : Text) (s : api.Store)
    (data_ : Data) (taken : List Signed)
    → api.read s ≡ ok data_
    → taken_ports (or_no_routes data_) ≡ ok taken
    → length (or_no_routes data_) < 50000
    → (r : Signed × api.Store) × (add_route api peer suffix add s ≡ ok r)
unfolding add_route
add_route_total api writes peer suffix add s data_ taken r e few =
    let (port, found, _) = get_free_proxyroute_port_lem data_ taken e few in
    let routes = insert (route_key peer suffix) (route_value add port) (or_no_routes data_) in
    let (t, f) = writes.patches routes s in
    ((record { negative = false; size = port }, t), rw (r, found, f))
