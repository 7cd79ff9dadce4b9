-- ===== src/Stowaway/Debris.antt =====
-- The proxy routes that no bridge uses any more, and their removal (`reconcile_proxyroutes` in
-- operator/gefyra/connection/stowaway/handler.py). What the Kubernetes API lists is an argument, and
-- the services that are to be deleted are part of the result; those that a run deletes before it
-- raises are left out.
pub mod Kept
pub mod Matched
pub mod Unset
pub mod Used
pub mod Sorted
use gefyra.Prelude.{
  ◌≡◌, ℕ, Bool, true, false, not, List, [], ◌∷◌, ◌++◌, Option, none, some, Text, codes, text_eq,
  any, ◌==◌, if◌then◌else◌, split_on, length,
}
use gefyra.Prelude.Dict.{Dict}
use gefyra.Result.{Result, ok, err, key_error, second, or_raise, ◌>>=◌, ◌>>◌}
use gefyra.Stowaway.ConfigMaps.{ConfigMapApi, Data}
use gefyra.Stowaway.Routes.{or_no_routes, destination_of, first_or}

-- A GefyraBridge as it is listed; `none` is a `clusterEndpoint` that is missing.
pub record ListedBridge : Type 0 where
  pub client : Text
  pub destination_ip : Text
  pub cluster_endpoint : Option (Dict Text)

-- `s.rsplit(c, 1)[0]`
unfoldable pub before_last : ℕ → Text → Text
before_last c [] = []
before_last c (d ∷ s) =
    let rest = before_last c s in
    if any (λ x. x == c) s then d ∷ rest else if d == c then [] else d ∷ s

-- `f"gefyra-stowaway-proxy-{stowaway_port}"`
abbrev pub proxy_service : Text → Text
proxy_service port = codes "gefyra-stowaway-proxy-" ++ port

-- `port in map(lambda x: x.split(":")[1], endpoints.values())`, which stops at the first match
unfoldable pub has_port : Text → Dict Text → Result Bool
has_port port [] = ok false
has_port port ((k, endpoint) ∷ rest) =
    let later = has_port port rest in
    second (split_on b':' endpoint) >>= λ p. if text_eq p port then ok true else later

-- The parts of a route that are compared.
pub record RouteParts : Type 0 where
  pub peer : Text
  pub ip : Text
  pub port : Text

unfoldable pub parts_of : Text → Text → Result RouteParts
parts_of key value = do
  port ← second (split_on b',' value)
  destination_port ← second (split_on b':' (destination_of value))
  ok (record {
    peer = before_last b'-' key;
    ip = first_or (split_on b':' (destination_of value));
    port = port;
  })

-- The test on a bridge.
unfoldable pub corresponds : RouteParts → ListedBridge → Result Bool
corresponds route bridge =
    let asked = or_raise key_error bridge.cluster_endpoint >>= has_port route.port in
    if text_eq bridge.client route.peer
    then if text_eq bridge.destination_ip route.ip then asked else ok false
    else ok false

-- The loop over the bridges, which stops at the first one that corresponds.
unfoldable pub is_used : RouteParts → List ListedBridge → Result Bool
is_used route [] = ok false
is_used route (b ∷ bs) =
    let later = is_used route bs in
    corresponds route b >>= λ found. if found then ok true else later

-- What the loop over the routes does with one, and what it has collected.
abbrev pub sort_in : Text → Text → Text → Bool → Dict Text × List Text → Dict Text × List Text
sort_in key value port true (kept, services) = ((key, value) ∷ kept, services)
sort_in key value port false (kept, services) = (kept, proxy_service port ∷ services)

-- The loop over the routes.
unfoldable pub sort_routes : List ListedBridge → Dict Text → Result (Dict Text × List Text)
sort_routes bridges [] = ok ([], [])
sort_routes bridges ((key, value) ∷ routes) =
    let later = sort_routes bridges routes in
    parts_of key value >>= λ route. is_used route bridges >>= λ used.
    later >>= λ sorted. ok (sort_in key value route.port used sorted)

-- The services of all routes.
unfoldable pub all_services : Dict Text → Result (List Text)
all_services [] = ok []
all_services ((key, value) ∷ routes) =
    let later = all_services routes in
    second (split_on b',' value) >>= λ port. later >>= λ rest. ok (proxy_service port ∷ rest)

module _ (api : ConfigMapApi) where
  open api use {Store, read, replace}

  -- The branch for no bridges at all.
  abbrev clear : Dict Text → Store → Result (List Text × Store)
  clear [] s = ok ([], s)
  clear (r ∷ routes) s = do
    services ← all_services (r ∷ routes)
    t ← replace (some []) s
    ok (services, t)

  -- What is done once the routes are sorted; `notify` is what telling the pod comes to.
  abbrev pub commit :
      Result (Unit {0}) → Dict Text → Store → Dict Text × List Text → Result (List Text × Store)
  commit notify routes s (kept, services) =
      let written = (do t ← replace (some kept) s; notify; ok (services, t)) in
      if length kept == length routes then ok ([], s) else written

  -- The branch for at least one bridge.
  abbrev pub sweep :
      Result (Unit {0}) → List ListedBridge → Dict Text → Store → Result (List Text × Store)
  sweep notify bridges [] s = ok ([], s)
  sweep notify bridges (r ∷ routes) s =
      sort_routes bridges (r ∷ routes) >>= commit notify (r ∷ routes) s

  abbrev pub with_bridges :
      Result (Unit {0})
      → Result (List ListedBridge)
      → Dict Text
      → Store
      → Result (List Text × Store)
  with_bridges notify (err e) routes s = ok ([], s)
  with_bridges notify (ok []) routes s = clear routes s
  with_bridges notify (ok (b ∷ bridges)) routes s = sweep notify (b ∷ bridges) routes s

  -- `reconcile_proxyroutes`, with whether Stowaway is ready and the bridges as they are read
  unfoldable pub reconcile_proxyroutes :
      Result Bool
      → Result (Unit {0})
      → Result (List ListedBridge)
      → Store
      → Result (List Text × Store)
  reconcile_proxyroutes ready notify bridges s = ready >>= λ is_ready.
      let go = read s >>= λ data_. with_bridges notify bridges (or_no_routes data_) s in
      if is_ready then go else ok ([], s)
