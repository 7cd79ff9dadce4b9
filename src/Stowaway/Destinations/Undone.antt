-- ===== src/Stowaway/Destinations/Undone.antt =====
-- That a destination which was removed is gone, and that removing it undoes adding it.
use gefyra.Prelude.{
  ℕ, ◌≡◌, refl, sym, ap, ◌∙◌, subst, inl, inr, true, false, List, [], ◌∷◌, none, some, Text, Lacks,
  show, text_eq_refl, Bool-cases, ◌==◌, ==_iff, Signed,
}
use gefyra.Prelude.Dict.{Dict, IsDict, lookup}
use gefyra.Result.{Result, ok, err, api_exception, runtime_error, ok-injective, >>=-eq-ok}
use gefyra.Carrier.Config.Routes.{at_port}
use gefyra.Stowaway.ConfigMaps.{ConfigMapApi, Data}
use gefyra.Stowaway.Debris.{proxy_service}
use gefyra.Stowaway.Routes.{or_no_routes, remove_route, edit_proxyroutes_configmap}
use gefyra.Stowaway.Routes.Listed.{IsAbsent}
use gefyra.Stowaway.Routes.Edits.{route_key}
use gefyra.Stowaway.Routes.Undo.{remove_route-add_route}
use gefyra.Stowaway.Services.{ProxyService, ServiceApi, is_named, create_stowaway_proxy_service}
use gefyra.Stowaway.Destinations.{
  Setting, StowawayPod, World, route_to, label_of, destination_selector, add_destination,
  get_destination, remove_destination, destination_exists, notify_stowaway, deleted_or_missing,
  address_of,
}
use gefyra.Stowaway.Destinations.Found.{
  add_destination-IsAddition, listed-IsAddition, named_service-proxy,
}

module _ (config : ConfigMapApi) where
  open config use {Store}

  -- The branch of the edit for a destination to remove, which is never empty.
  edit-remove_route :
      (peer suffix ip port : Text) (s : Store)
      → edit_proxyroutes_configmap config peer suffix none (some (route_to ip port)) s
        ≡ remove_route config (route_to ip port) s
  unfolding edit_proxyroutes_configmap
  edit-remove_route peer suffix [] port s = refl
  edit-remove_route peer suffix (c ∷ ip) port s = refl

module _ (config : ConfigMapApi) (services : ServiceApi) (setting : Setting)
    (pod : StowawayPod) where
  -- What deleting a service that may be missing did.
  record IsDeleted (n : Text) (s t : services.Store) : Type 0 where
    gone :
        (selector : Dict Text) (us vs : List ProxyService)
        → services.list selector s ≡ ok us
        → services.list selector t ≡ ok vs
        → is_named n vs ≡ false
    kept :
        (selector : Dict Text) (m : Text) (us vs : List ProxyService)
        → services.list selector s ≡ ok us
        → services.list selector t ≡ ok vs
        → is_named m vs ≡ true
        → is_named m us ≡ true

  abbrev after_delete : services.Store → Result services.Store → Result services.Store
  after_delete = deleted_or_missing config services setting pod

  missing-IsDeleted :
      (n : Text) (s : services.Store)
      → services.delete n s ≡ err (api_exception 404)
      → IsDeleted n s s
  missing-IsDeleted n s e = record {
    gone = λ selector us vs f g. services.not_found n s selector vs e g;
    kept = λ selector m us vs f g h.
        subst (λ (x : List ProxyService). is_named m x ≡ true) (ok-injective (sym g ∙ f)) h;
  }

  left-IsDeleted :
      (n : Text) (s t : services.Store) (r : Result services.Store)
      → services.delete n s ≡ r
      → after_delete s r ≡ ok t
      → IsDeleted n s t
  left-IsDeleted n s t (ok u) e h =
      let here : services.delete n s ≡ ok t = e ∙ h in
      record {
        gone = λ selector us vs f g. services.deleted n s t selector vs here g;
        kept = λ selector m us vs f g k. services.delete-kept n m s t selector us vs here f g k;
      }
  left-IsDeleted n s t (err (api_exception status)) e h = elim (Bool-cases (status == 404)) [
    | inl missing ↦
        let at : status ≡ 404 = (==_iff status 404).0 missing in
        subst (λ (x : services.Store). IsDeleted n s x) (ok-injective (rw missing at h))
          (missing-IsDeleted n s (e ∙ ap (λ (k : ℕ). err (api_exception k)) at))
    | inr other ↦ cc (rw other at h)
  ]
  left-IsDeleted n s t (err x) e h = cc

  -- What removing a destination did: the port of its route, and its service deleted.
  record IsRemoval (peer ip port : Text) (v u : World config services setting pod) : Type 0 where
    number : Signed
    routed : remove_route config (route_to ip port) v.routes ≡ ok (number, u.routes)
    unlisted :
        IsDeleted
          (create_stowaway_proxy_service setting.namespace setting.pod_labels number
            (label_of ip port)
            peer).name
          v.proxies
          u.proxies

  remove_destination-IsRemoval :
      (peer ip port : Text) (v u : World config services setting pod)
      → remove_destination config services setting pod peer ip port v ≡ ok u
      → IsRemoval peer ip port v u
  unfolding remove_destination
  remove_destination-IsRemoval peer ip port v u e =
      let ((n, t), e1, f1) =
        >>=-eq-ok
          (edit_proxyroutes_configmap config peer [] none (some (route_to ip port)) v.routes) _ e in
      let name =
        (create_stowaway_proxy_service setting.namespace setting.pod_labels n (label_of ip port)
          peer).name in
      let (left, e2, f2) =
        >>=-eq-ok (after_delete v.proxies (services.delete name v.proxies)) _ f1 in
      let (_, _, f3) = >>=-eq-ok (notify_stowaway pod) _ f2 in
      let deleted = left-IsDeleted name v.proxies left _ refl e2 in
      subst (λ (x : World config services setting pod). IsRemoval peer ip port v x)
        (ok-injective f3)
        (record {
          number = n;
          routed = sym (edit-remove_route config peer [] ip port v.routes) ∙ e1;
          unlisted = deleted;
        })

  -- A listing without any name is empty.
  unnamed : (us : List ProxyService) → ((m : Text) → is_named m us ≡ false) → us ≡ []
  unnamed [] h = refl
  unnamed (x ∷ us) h = cc (h x.name, text_eq_refl x.name)

  excluded :
      (p m : Text) (us vs : List ProxyService)
      → is_named p us ≡ false
      → ((n : Text) → is_named n us ≡ true → is_named n vs ≡ true)
      → ((n : Text) → is_named n vs ≡ true → p ≡ n)
      → is_named m us ≡ false
  excluded p m us vs gone kept only = elim (Bool-cases (is_named m us)) [
    | inl here ↦
        cc (gone, subst (λ (x : Text). is_named x us ≡ true) (sym (only m (kept m here))) here)
    | inr other ↦ other
  ]

  -- If a destination is added and then removed, both with success, where the routes are a
  -- dictionary without the new key and without a route to the destination, which has no comma, and
  -- no service was listed for it, then as long as its services are listed it does not exist,
  -- get_destination raises a RuntimeError, and every key of the routes has what it had before.
  pub remove_destination-add_destination :
      (suffix peer ip port : Text) (w v u : World config services setting pod) (data_ : Data)
      (address : Text) (vs us : List ProxyService)
      → config.read w.routes ≡ ok data_
      → IsDict (or_no_routes data_)
      → lookup (route_key peer suffix) (or_no_routes data_) ≡ none
      → Lacks b',' (route_to ip port)
      → IsAbsent (route_to ip port) (or_no_routes data_)
      → services.list (destination_selector peer ip port) w.proxies ≡ ok []
      → add_destination config services setting pod suffix peer ip port w ≡ ok (address, v)
      → services.list (destination_selector peer ip port) v.proxies ≡ ok vs
      → remove_destination config services setting pod peer ip port v ≡ ok u
      → services.list (destination_selector peer ip port) u.proxies ≡ ok us
      → (get_destination config services setting pod peer ip port u ≡ err runtime_error)
        × (destination_exists config services setting pod peer ip port u ≡ ok false)
        × ((after : Data) × (config.read u.routes ≡ ok after)
            × ((j : Text) → lookup j (or_no_routes after) ≡ lookup j (or_no_routes data_)))
  unfolding get_destination destination_exists address_of
  remove_destination-add_destination suffix peer ip port w v u data_ address vs us r dict fresh
        lacks absent before e middle f after =
      let added =
        add_destination-IsAddition config services setting pod suffix peer ip port w v data_ address
          r e in
      let (here, only) =
        listed-IsAddition config services setting pod suffix peer ip port w v data_ address vs added
          before middle in
      let removed = remove_destination-IsRemoval peer ip port v u f in
      let (same, restored) =
        remove_route-add_route config peer suffix (route_to ip port) w.routes v.routes u.routes
          data_ (at_port added.stowaway_port) removed.number r dict fresh lacks absent added.routed
          removed.routed in
      let p = proxy_service (show added.stowaway_port) in
      let selector = destination_selector peer ip port in
      let gone : is_named p us ≡ false =
        subst (λ (x : Text). is_named x us ≡ false)
          (ap
              (λ (x : Signed).
                (create_stowaway_proxy_service setting.namespace setting.pod_labels x
                  (label_of ip port) peer).name)
              same
            ∙ named_service-proxy config services setting pod peer ip port added.stowaway_port)
          (removed.unlisted.gone selector vs us middle after) in
      let empty : us ≡ [] = unnamed us (λ m.
        excluded p m us vs gone (λ n h. removed.unlisted.kept selector n vs us middle after h)
          only) in
      let listed : services.list selector u.proxies ≡ ok [] = after ∙ ap ok empty in
      (rw listed refl, rw listed refl, restored)
