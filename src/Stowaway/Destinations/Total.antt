-- ===== src/Stowaway/Destinations/Total.antt =====
-- That adding a destination succeeds where the Kubernetes API does, there is room and Stowaway runs.
use gefyra.Prelude.{ℕ, ◌≡◌, ◌⊎◌, inl, inr, ◌<◌, refl, true, List, some, Text, Signed, length}
use gefyra.Result.{ok, err, Error, api_exception}
use gefyra.Carrier.Config.{show_signed}
use gefyra.Stowaway.ConfigMaps.{ConfigMapApi, Data}
use gefyra.Stowaway.Peers.Total.{Writes}
use gefyra.Stowaway.Routes.{taken_ports, or_no_routes}
use gefyra.Stowaway.Routes.Total.{add_route_total}
use gefyra.Stowaway.Services.{
  ProxyService, ServiceApi, create_stowaway_proxy_service, handle_stowaway_proxy_service, or_patch,
  is_there_already,
}
use gefyra.Stowaway.Destinations.{
  Setting, StowawayPod, World, route_to, label_of, add_destination, notify_stowaway,
  service_address,
}
use gefyra.Stowaway.Destinations.Found.{edit-add_route}

module _ (services : ServiceApi) where
  open services use {Store, create, patch}

  -- A service can be created, or it is there already and can be patched.
  pub record Admits : Type 0 where
    pub creates :
        (v : ProxyService) (s : Store)
        → ((t : Store) × (create v s ≡ ok t))
          ⊎ ((e : Error) × (create v s ≡ err e) × (is_there_already e ≡ true))
    pub patches : (v : ProxyService) (s : Store) → (t : Store) × (patch v s ≡ ok t)

  or_patch_total :
      (admits : Admits) (v : ProxyService) (s : Store)
      → (t : Store) × (or_patch services v s (create v s) ≡ ok t)
  or_patch_total admits v s = elim (admits.creates v s) [
    | inl (t, e) ↦ (t, rw e refl)
    | inr (x, e, there) ↦ let (t, f) = admits.patches v s in (t, rw (e, there) f)
  ]

-- Stowaway runs: its pod is found, and telling it succeeds or fails with an ApiException.
pub record IsRunning (p : StowawayPod) : Type 0 where
  pub name : Text
  pub found : p.pod ≡ ok (some name)
  pub told : (p.notify name ≡ ok tt) ⊎ ((status : ℕ) × (p.notify name ≡ err (api_exception status)))

notify_stowaway_total : (p : StowawayPod) → IsRunning p → notify_stowaway p ≡ ok tt
unfolding notify_stowaway
notify_stowaway_total p h =
    rw h.found (elim h.told [ inl fine ↦ rw fine refl | inr (status, failed) ↦ rw failed refl ])

-- If Stowaway runs, the routes and their ports are read and are less than 50000, every write to
-- the ConfigMap succeeds, and a service can be created or is there already and can be patched,
-- then adding a destination succeeds.
pub add_destination_total :
    (config : ConfigMapApi) (services : ServiceApi) (setting : Setting) (pod : StowawayPod)
    (suffix peer ip port : Text) (w : World config services setting pod) (data_ : Data)
    (taken : List Signed)
    → Writes config
    → Admits services
    → IsRunning pod
    → config.read w.routes ≡ ok data_
    → taken_ports (or_no_routes data_) ≡ ok taken
    → length (or_no_routes data_) < 50000
    → (r : Text × World config services setting pod) × (add_destination config services setting pod
          suffix peer ip port w
        ≡ ok r)
unfolding add_destination handle_stowaway_proxy_service
add_destination_total config services setting pod suffix peer ip port w data_ taken writes admits
      running r e few =
    let ((n, t), f) =
      add_route_total config writes peer suffix (route_to ip port) w.routes data_ taken r e few in
    let v =
      create_stowaway_proxy_service setting.namespace setting.pod_labels n (label_of ip port)
        peer in
    let (s, g) = or_patch_total services admits v w.proxies in
    let address = service_address setting.namespace v.name (show_signed n) in
    (
      (address, record { routes = t; proxies = s }),
      rw
          (
            edit-add_route config peer suffix ip port w.routes,
            f,
            g,
            notify_stowaway_total pod running,
          )
          refl,
    )
