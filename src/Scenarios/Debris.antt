-- ===== src/Scenarios/Debris.antt =====
-- Routes with and without a bridge.
use gefyra.Prelude.{
  ◌≡◌, refl, [], ◌∷◌, ◌++◌, none, some, Text, codes, text_eq, true, false, Lacks, List,
}
use gefyra.Prelude.Dict.{Dict, IsDict, lookup}
use gefyra.Result.{ok, err, key_error}
use gefyra.Stowaway.ConfigMaps.{plain_api}
use gefyra.Stowaway.Debris.{ListedBridge, parts_of, reconcile_proxyroutes}
use gefyra.Stowaway.Debris.Unset.{reconcile_proxyroutes-unset}
use gefyra.Stowaway.Debris.Kept.{IsSwept, reconcile_proxyroutes_lem}
use gefyra.Stowaway.Debris.Matched.{bridge_at}

abbrev own : ListedBridge
own = bridge_at (codes "a-b") (codes "h") (codes "8080") (codes "svc") 10000 []

abbrev routes : Dict Text
routes = (codes "a-b-x", codes "h:80,10000") ∷ (codes "c-y", codes "h:81,10001") ∷ []

abbrev kept : Dict Text
kept = (codes "a-b-x", codes "h:80,10000") ∷ []

routes-IsDict : IsDict routes
unfolding text_eq
routes-IsDict = unfold lookup in (refl, (refl, tt))

sweep_run :
    reconcile_proxyroutes plain_api (ok true) (ok tt) (ok (own ∷ [])) (some routes)
    ≡ ok (codes "gefyra-stowaway-proxy-10001" ∷ [], some kept)
unfolding reconcile_proxyroutes gefyra.Stowaway.Debris.sort_routes gefyra.Stowaway.Debris.parts_of
    gefyra.Prelude.split_on gefyra.Stowaway.Debris.is_used gefyra.Stowaway.Debris.corresponds
    text_eq gefyra.Stowaway.Debris.before_last gefyra.Stowaway.Debris.has_port gefyra.Prelude.show
sweep_run = refl

reconcile_proxyroutes_lem_example : IsSwept plain_api (ok tt) (own ∷ []) routes (some kept)
reconcile_proxyroutes_lem_example =
    reconcile_proxyroutes_lem plain_api (ok tt) own [] (some routes) (some kept) (some routes)
      (codes "gefyra-stowaway-proxy-10001" ∷ []) refl routes-IsDict sweep_run

abbrev new_bridge : ListedBridge
new_bridge = record { client = codes "a-b"; destination_ip = codes "h"; cluster_endpoint = none }

own_parts :
    parts_of (codes "a-b-x") (codes "h:80,10000")
    ≡ ok (record { peer = codes "a-b"; ip = codes "h"; port = codes "10000" })
unfolding parts_of gefyra.Prelude.split_on gefyra.Stowaway.Debris.before_last
own_parts = refl

reconcile_proxyroutes-unset_example :
    reconcile_proxyroutes plain_api (ok true) (ok tt) (ok (new_bridge ∷ own ∷ [])) (some routes)
    ≡ err key_error
reconcile_proxyroutes-unset_example =
    reconcile_proxyroutes-unset plain_api (ok tt) (some routes) (codes "a-b-x") (codes "h:80,10000")
      ((codes "c-y", codes "h:81,10001") ∷ [])
      (record { peer = codes "a-b"; ip = codes "h"; port = codes "10000" }) new_bridge (own ∷ [])
      refl own_parts refl refl refl
