-- ===== src/Stowaway/Destinations.antt =====
-- Destinations behind Stowaway (operator/gefyra/connection/stowaway/__init__.py): a proxy route in the
-- ConfigMap and a proxy service for it. What a call that raises leaves behind is left out.
pub mod Found
pub mod Undone
pub mod Total
use gefyra.Prelude.{
  ℕ, Bool, true, false, List, [], ◌∷◌, ◌++◌, Option, none, some, Text, codes, contains_text,
  rsplit_once, Cut, whole, parts, ◌==◌, if◌then◌else◌, any, Signed,
}
use gefyra.Prelude.Dict.{Dict}
use gefyra.Result.{
  Result, ok, err, Error, api_exception, runtime_error, value_error, or_raise, ◌>>=◌, ◌>>◌,
}
use gefyra.Carrier.Config.{show_signed}
use gefyra.Stowaway.ConfigMaps.{ConfigMapApi, Data}
use gefyra.Stowaway.Routes.{edit_proxyroutes_configmap}
use gefyra.Stowaway.Services.{
  ProxyService, ServiceApi, app_label, role_label, client_label, destination_label,
  create_stowaway_proxy_service, handle_stowaway_proxy_service,
}

-- `f"{destination_ip}:{destination_port}"`
abbrev pub route_to : Text → Text → Text
route_to ip port = ip ++ (b':' ∷ port)

-- `f"{destination_ip}_{destination_port}"`
abbrev pub label_of : Text → Text → Text
label_of ip port = ip ++ (b'_' ∷ port)

-- `f"{name}.{namespace}.svc.cluster.local:{stowaway_port}"`
abbrev pub service_address : Text → Text → Text → Text
service_address namespace name port =
    name ++ (b'.' ∷ (namespace ++ (codes ".svc.cluster.local:" ++ port)))

-- The labels that the services of a destination are looked up by.
unfoldable pub destination_selector : Text → Text → Text → Dict Text
destination_selector peer ip port =
    (app_label, codes "stowaway")
    ∷ (role_label, codes "proxy")
    ∷ (client_label, peer)
    ∷ (destination_label, label_of ip port)
    ∷ []

-- `_, port = name.rsplit("-", 1)`
abbrev after_last_dash : Cut → Result Text
after_last_dash (whole a) = err value_error
after_last_dash (parts a b) = ok b

-- What the operator's configuration and the StatefulSet of Stowaway fix.
pub record Setting : Type 0 where
  pub namespace : Text
  pub pod_labels : Dict Text

-- The address of the first service that is found.
unfoldable pub address_of : Setting → List ProxyService → Result Text
address_of setting [] = err runtime_error
address_of setting (v ∷ vs) = do
  port ← after_last_dash (rsplit_once b'-' v.name)
  ok (service_address setting.namespace v.name port)

-- `any(f"{ip}:{port}" in v for v in configmap.data.values())`, as the loop of `destination_exists`
unfoldable pub has_route_to : Text → Dict Text → Bool
has_route_to wanted [] = false
has_route_to wanted ((k, v) ∷ routes) =
    let rest = has_route_to wanted routes in if contains_text wanted v then true else rest

abbrev route_in : Text → Data → Bool
route_in wanted none = false
route_in wanted (some routes) = has_route_to wanted routes

-- `except ApiException: return False`
abbrev false_on_api_exception : Result Bool → Result Bool
false_on_api_exception (ok b) = ok b
false_on_api_exception (err (api_exception status)) = ok false
false_on_api_exception (err e) = err e

-- `_get_stowaway_pod` and the RuntimeError of its callers where there is no pod, then
-- `_notify_stowaway_pod`, whose ApiException is logged only
abbrev notified : Result (Unit {0}) → Result (Unit {0})
notified (ok u) = ok u
notified (err (api_exception status)) = ok tt
notified (err e) = err e

-- The pod as it is read, and what telling it comes to.
pub record StowawayPod : Type 0 where
  pub pod : Result (Option Text)
  pub notify : Text → Result (Unit {0})

unfoldable pub notify_stowaway : StowawayPod → Result (Unit {0})
notify_stowaway p = do found ← p.pod; name ← or_raise runtime_error found; notified (p.notify name)

module _ (config : ConfigMapApi) (services : ServiceApi) (setting : Setting)
    (pod : StowawayPod) where
  -- The ConfigMap of the routes and the services.
  pub record World : Type 0 where
    pub routes : config.Store
    pub proxies : services.Store

  -- `add_destination`; the suffix is the random end of the key of the route
  unfoldable pub add_destination : Text → Text → Text → Text → World → Result (Text × World)
  unfolding edit_proxyroutes_configmap handle_stowaway_proxy_service notify_stowaway
  add_destination suffix peer ip port w =
      edit_proxyroutes_configmap config peer suffix (some (route_to ip port)) none w.routes
      >>= λ edited.
          handle_stowaway_proxy_service services setting.namespace setting.pod_labels edited.0
            (label_of ip port) peer w.proxies
          >>= λ made.
              notify_stowaway pod
              >> ok (
                service_address setting.namespace made.0.name (show_signed edited.0),
                record { routes = edited.1; proxies = made.1 },
              )

  -- `get_destination`
  unfoldable pub get_destination : Text → Text → Text → World → Result Text
  unfolding address_of
  get_destination peer ip port w =
      services.list (destination_selector peer ip port) w.proxies >>= address_of setting

  -- A service that is missing when it is deleted is passed over.
  abbrev deleted_or_missing : services.Store → Result services.Store → Result services.Store
  deleted_or_missing s (ok t) = ok t
  deleted_or_missing s (err (api_exception status)) =
      if status == 404 then ok s else err (api_exception status)
  deleted_or_missing s (err e) = err e

  -- `remove_destination`; its edit draws no suffix
  unfoldable pub remove_destination : Text → Text → Text → World → Result World
  unfolding edit_proxyroutes_configmap notify_stowaway create_stowaway_proxy_service
  remove_destination peer ip port w =
      edit_proxyroutes_configmap config peer [] none (some (route_to ip port)) w.routes
      >>= λ edited.
          let v =
            create_stowaway_proxy_service setting.namespace setting.pod_labels edited.0
              (label_of ip port) peer in
          deleted_or_missing w.proxies (services.delete v.name w.proxies) >>= λ left.
          notify_stowaway pod >> ok (record { routes = edited.1; proxies = left })

  abbrev exists_with : Text → config.Store → List ProxyService → Result Bool
  exists_with wanted s [] = ok false
  exists_with wanted s (v ∷ vs) = config.read s >>= λ data_. ok (route_in wanted data_)

  -- `destination_exists`
  unfoldable pub destination_exists : Text → Text → Text → World → Result Bool
  destination_exists peer ip port w = false_on_api_exception (
      services.list (destination_selector peer ip port) w.proxies
      >>= exists_with (route_to ip port) w.routes)
