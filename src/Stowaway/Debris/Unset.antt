-- ===== src/Stowaway/Debris/Unset.antt =====
-- A bridge that has no endpoint yet.
use gefyra.Prelude.{◌≡◌, List, ◌∷◌, none, some, Text, text_eq_iff, true}
use gefyra.Prelude.Dict.{Dict}
use gefyra.Result.{Result, ok, err, key_error}
use gefyra.Stowaway.ConfigMaps.{ConfigMapApi}
use gefyra.Stowaway.Debris.{
  ListedBridge, RouteParts, parts_of, corresponds, is_used, sort_routes, reconcile_proxyroutes,
}

corresponds-unset :
    (route : RouteParts) (b : ListedBridge)
    → b.client ≡ route.peer
    → b.destination_ip ≡ route.ip
    → b.cluster_endpoint ≡ none
    → corresponds route b ≡ err key_error
unfolding corresponds
corresponds-unset route b c d e =
    rw ((text_eq_iff b.client route.peer).1 c, (text_eq_iff b.destination_ip route.ip).1 d, e)

-- If Stowaway is ready and the first listed bridge has the peer and the destination address of the
-- first route but no clusterEndpoint yet, then the removal of unused routes raises a KeyError.
pub reconcile_proxyroutes-unset :
    (api : ConfigMapApi) (notify : Result (Unit {0})) (s : api.Store) (key value : Text)
    (routes : Dict Text) (route : RouteParts) (b : ListedBridge) (bridges : List ListedBridge)
    → api.read s ≡ ok (some ((key, value) ∷ routes))
    → parts_of key value ≡ ok route
    → b.client ≡ route.peer
    → b.destination_ip ≡ route.ip
    → b.cluster_endpoint ≡ none
    → reconcile_proxyroutes api (ok true) notify (ok (b ∷ bridges)) s ≡ err key_error
unfolding reconcile_proxyroutes sort_routes is_used
reconcile_proxyroutes-unset api notify s key value routes route b bridges r p c d e =
    rw (r, p, corresponds-unset route b c d e)
