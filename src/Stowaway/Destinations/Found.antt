-- ===== src/Stowaway/Destinations/Found.antt =====
-- That a destination which was added is found at the address that was returned.
use gefyra.Prelude.{
  ℕ, ◌≡◌, refl, sym, ap, ◌∙◌, subst, inl, inr, true, ◌&&◌, List, [], ◌∷◌, none, some, arith, Text,
  codes, Lacks, All, leb, show, show-digits, text_eq, text_eq_refl, contains_text,
  contains_text-append, rsplit_once, rsplit_once-append, parts, Signed,
}
use gefyra.Prelude.Dict.{Dict, IsDict, lookup}
use gefyra.Result.{ok, ok-injective, >>=-eq-ok}
use gefyra.Carrier.Config.{show_signed}
use gefyra.Carrier.Config.Routes.{at_port}
use gefyra.Stowaway.ConfigMaps.{ConfigMapApi, Data}
use gefyra.Stowaway.Debris.{proxy_service}
use gefyra.Stowaway.Routes.{or_no_routes, add_route, edit_proxyroutes_configmap}
use gefyra.Stowaway.Routes.Edits.{
  add_route-IsAdded, route_key, route_value, lookup-patched, patched,
}
use gefyra.Stowaway.Services.{
  ProxyService, ServiceApi, selects, is_named, create_stowaway_proxy_service,
  handle_stowaway_proxy_service,
}
use gefyra.Stowaway.Services.Written.{IsWritten, handle_stowaway_proxy_service-IsWritten}
use gefyra.Stowaway.Destinations.{
  false_on_api_exception, Setting, StowawayPod, World, route_to, label_of, service_address,
  destination_selector, address_of, has_route_to, add_destination, get_destination,
  destination_exists, notify_stowaway, exists_with,
}

digits-Lacks_dash : (s : Text) → All (λ c. (leb 48 c && leb c 57) ≡ true) s → Lacks b'-' s
digits-Lacks_dash [] h = tt
digits-Lacks_dash (c ∷ s) h = (ground (arith, h.0), digits-Lacks_dash s h.1)

show_signed-at_port : (port : ℕ) → show_signed (at_port port) ≡ show port
unfolding show_signed
show_signed-at_port port = refl

-- The name of a proxy service tells its port.
pub rsplit-proxy_service :
    (port : ℕ)
    → rsplit_once b'-' (proxy_service (show port))
      ≡ parts (codes "gefyra-stowaway-proxy") (show port)
rsplit-proxy_service port =
    rsplit_once-append b'-' (codes "gefyra-stowaway-proxy") (show port)
      (digits-Lacks_dash (show port) (show-digits port))

-- A listing in which every service has one name, and there is one.
pub address_of-named :
    (setting : Setting) (port : ℕ) (vs : List ProxyService)
    → is_named (proxy_service (show port)) vs ≡ true
    → ((n : Text) → is_named n vs ≡ true → proxy_service (show port) ≡ n)
    → address_of setting vs
      ≡ ok (service_address setting.namespace (proxy_service (show port)) (show port))
unfolding address_of
address_of-named setting port [] h k = cc
address_of-named setting port (v ∷ vs) h k =
    let same : proxy_service (show port) ≡ v.name = k v.name (rw (text_eq_refl v.name) refl) in
    rw (← same, rsplit-proxy_service port) refl

-- A selector of a destination is met by the labels of the destination's service.
pub selects-destination :
    (namespace : Text) (pod_labels : Dict Text) (n : Signed) (peer ip port : Text)
    → selects
        (destination_selector peer ip port)
        (create_stowaway_proxy_service namespace pod_labels n (label_of ip port) peer).labels
      ≡ true
unfolding selects destination_selector create_stowaway_proxy_service lookup text_eq
selects-destination namespace pod_labels n peer ip port =
    rw (text_eq_refl peer, text_eq_refl (label_of ip port)) refl

module _ (config : ConfigMapApi) where
  open config use {Store}

  -- The branch of the edit for a destination, which is never empty.
  pub edit-add_route :
      (peer suffix ip port : Text) (s : Store)
      → edit_proxyroutes_configmap config peer suffix (some (route_to ip port)) none s
        ≡ add_route config peer suffix (route_to ip port) s
  unfolding edit_proxyroutes_configmap
  edit-add_route peer suffix [] port s = refl
  edit-add_route peer suffix (c ∷ ip) port s = refl

module _ (config : ConfigMapApi) (services : ServiceApi) (setting : Setting)
    (pod : StowawayPod) where
  -- What adding a destination did.
  pub record IsAddition (suffix peer ip port : Text) (w v : World config services setting pod)
      (data_ : Data) (address : Text) : Type 0 where
    pub stowaway_port : ℕ
    pub is_address :
        address
        ≡ service_address setting.namespace
            (proxy_service (show stowaway_port))
            (show stowaway_port)
    pub routed :
        add_route config peer suffix (route_to ip port) w.routes
        ≡ ok (at_port stowaway_port, v.routes)
    pub reads :
        config.read v.routes
        ≡ ok (patched data_ (route_key peer suffix) (route_value (route_to ip port) stowaway_port))
    pub written :
        IsWritten services
          (create_stowaway_proxy_service setting.namespace setting.pod_labels
            (at_port stowaway_port)
            (label_of ip port)
            peer)
          w.proxies
          v.proxies

  abbrev pub service_for : Text → Text → Text → Signed → ProxyService
  service_for peer ip port n =
      create_stowaway_proxy_service setting.namespace setting.pod_labels n (label_of ip port) peer

  built :
      (suffix peer ip port : Text) (w : World config services setting pod) (t : config.Store)
      (proxies : services.Store) (n : Signed) (made : ProxyService) (data_ : Data) (free : ℕ)
      → n ≡ at_port free
      → made ≡ service_for peer ip port n
      → add_route config peer suffix (route_to ip port) w.routes ≡ ok (n, t)
      → config.read t
        ≡ ok (patched data_ (route_key peer suffix) (route_value (route_to ip port) free))
      → IsWritten services (service_for peer ip port n) w.proxies proxies
      → IsAddition suffix peer ip port w
          (record { routes = t; proxies = proxies })
          data_
          (service_address setting.namespace made.name (show_signed n))
  unfolding create_stowaway_proxy_service
  built suffix peer ip port w t proxies n made data_ free at is routed reads written = record {
    stowaway_port = free;
    is_address = rw (is, at, show_signed-at_port free) refl;
    routed =
        subst (λ (m : Signed). add_route config peer suffix (route_to ip port) w.routes ≡ ok (m, t))
          at routed;
    reads = reads;
    written =
        subst (λ (m : Signed). IsWritten services (service_for peer ip port m) w.proxies proxies) at
          written;
  }

  pub add_destination-IsAddition :
      (suffix peer ip port : Text) (w v : World config services setting pod) (data_ : Data)
      (address : Text)
      → config.read w.routes ≡ ok data_
      → add_destination config services setting pod suffix peer ip port w ≡ ok (address, v)
      → IsAddition suffix peer ip port w v data_ address
  unfolding add_destination
  add_destination-IsAddition suffix peer ip port w v data_ address r e =
      let ((n, t), e1, f1) =
        >>=-eq-ok
          (edit_proxyroutes_configmap config peer suffix (some (route_to ip port)) none w.routes) _
          e in
      let ((made, proxies), e2, f2) =
        >>=-eq-ok
          (handle_stowaway_proxy_service services setting.namespace setting.pod_labels n
            (label_of ip port) peer w.proxies)
          _ f1 in
      let (u, e3, f3) = >>=-eq-ok (notify_stowaway pod) _ f2 in
      let (is, written) =
        handle_stowaway_proxy_service-IsWritten services setting.namespace setting.pod_labels n
          (label_of ip port) peer w.proxies proxies made e2 in
      let routed : add_route config peer suffix (route_to ip port) w.routes ≡ ok (n, t) =
        sym (edit-add_route config peer suffix ip port w.routes) ∙ e1 in
      let added =
        add_route-IsAdded config peer suffix (route_to ip port) w.routes t data_ n r routed in
      subst
        (λ (x : Text × World config services setting pod).
          IsAddition suffix peer ip port w x.1 data_ x.0)
        (ok-injective f3)
        (built suffix peer ip port w t proxies n made data_ added.port added.is_port is routed
          added.reads written)

  abbrev pub named_service : Text → Text → Text → ℕ → Text
  named_service peer ip port free = (service_for peer ip port (at_port free)).name

  pub named_service-proxy :
      (peer ip port : Text) (free : ℕ) → named_service peer ip port free ≡ proxy_service (show free)
  unfolding create_stowaway_proxy_service
  named_service-proxy peer ip port free = ap proxy_service (show_signed-at_port free)

  -- What is listed for a destination that was added, where nothing was listed before.
  pub listed-IsAddition :
      (suffix peer ip port : Text) (w v : World config services setting pod) (data_ : Data)
      (address : Text) (vs : List ProxyService)
      → (added : IsAddition suffix peer ip port w v data_ address)
      → services.list (destination_selector peer ip port) w.proxies ≡ ok []
      → services.list (destination_selector peer ip port) v.proxies ≡ ok vs
      → (is_named (proxy_service (show added.stowaway_port)) vs ≡ true)
        × ((n : Text) → is_named n vs ≡ true → proxy_service (show added.stowaway_port) ≡ n)
  listed-IsAddition suffix peer ip port w v data_ address vs added before after =
      let free = added.stowaway_port in
      let named = named_service-proxy peer ip port free in
      let selector = destination_selector peer ip port in
      (
        subst (λ (x : Text). is_named x vs ≡ true) named
            (added.written.listed selector vs after (
              selects-destination setting.namespace setting.pod_labels (at_port free) peer ip
                port)),
        λ n h. elim (added.written.kept selector n [] vs before after h) [
          | inl same ↦ sym named ∙ same
          | inr old ↦ cc
        ],
      )

  has_route_to-lookup :
      (wanted k v : Text) (d : Dict Text)
      → lookup k d ≡ some v
      → contains_text wanted v ≡ true
      → has_route_to wanted d ≡ true
  unfolding lookup has_route_to
  has_route_to-lookup wanted k v [] e h = cc
  has_route_to-lookup wanted k v ((j, w) ∷ d) e h = ground (arith, has_route_to-lookup wanted k v d)

  exists_with-named :
      (wanted n : Text) (s : config.Store) (data_ : Data) (vs : List ProxyService)
      → is_named n vs ≡ true
      → config.read s ≡ ok data_
      → has_route_to wanted (or_no_routes data_) ≡ true
      → exists_with config services setting pod wanted s vs ≡ ok true
  unfolding has_route_to
  exists_with-named wanted n s data_ [] h r k = cc
  exists_with-named wanted n s none (v ∷ vs) h r k = cc
  exists_with-named wanted n s (some d) (v ∷ vs) h r k = rw (r, k) refl

  has_route_to-patched :
      (peer suffix ip port : Text) (free : ℕ) (data_ : Data)
      → IsDict (or_no_routes data_)
      → has_route_to (route_to ip port) (
          or_no_routes
            (patched data_ (route_key peer suffix) (route_value (route_to ip port) free)))
        ≡ true
  has_route_to-patched peer suffix ip port free data_ dict =
      let key = route_key peer suffix in
      let value = route_value (route_to ip port) free in
      has_route_to-lookup (route_to ip port) key value (or_no_routes (patched data_ key value))
        (lookup-patched data_ key value key dict ∙ rw (text_eq_refl key) refl)
        (contains_text-append (route_to ip port) (b',' ∷ show free))

  -- If a destination is added with success, where the routes are a dictionary and no service was
  -- listed for it, then as long as its services are listed it exists, and get_destination finds
  -- the address that add_destination returned.
  pub get_destination-add_destination :
      (suffix peer ip port : Text) (w v : World config services setting pod) (data_ : Data)
      (address : Text) (vs : List ProxyService)
      → config.read w.routes ≡ ok data_
      → IsDict (or_no_routes data_)
      → services.list (destination_selector peer ip port) w.proxies ≡ ok []
      → add_destination config services setting pod suffix peer ip port w ≡ ok (address, v)
      → services.list (destination_selector peer ip port) v.proxies ≡ ok vs
      → (get_destination config services setting pod peer ip port v ≡ ok address)
        × (destination_exists config services setting pod peer ip port v ≡ ok true)
  unfolding get_destination destination_exists
  get_destination-add_destination suffix peer ip port w v data_ address vs r dict before e after =
      let added = add_destination-IsAddition suffix peer ip port w v data_ address r e in
      let (here, only) =
        listed-IsAddition suffix peer ip port w v data_ address vs added before after in
      let free = added.stowaway_port in
      let key = route_key peer suffix in
      let value = route_value (route_to ip port) free in
      (
        rw after (address_of-named setting free vs here only ∙ ap ok (sym added.is_address)),
        rw after (
            ap false_on_api_exception (
              exists_with-named (route_to ip port) (proxy_service (show free)) v.routes _ vs here
                added.reads (has_route_to-patched peer suffix ip port free data_ dict))),
      )
