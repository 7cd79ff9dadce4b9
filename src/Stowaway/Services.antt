-- ===== src/Stowaway/Services.antt =====
-- The proxy services of Stowaway (operator/gefyra/connection/stowaway/resources/services.py and
-- components.py), and the Kubernetes API on services as it is called there. The service is not part
-- of the repository: it is the record `ServiceApi`, with what its documentation says of calls that
-- succeed and of a service that is not found.
pub mod Plain
pub mod Written
use gefyra.Prelude.{
  ℕ, ◌≡◌, ◌⊎◌, Bool, true, false, ◌||◌, List, [], ◌∷◌, Option, none, some, Text, codes, text_eq,
  ◌==◌, if◌then◌else◌, any, all, Signed,
}
use gefyra.Prelude.Dict.{Dict, lookup}
use gefyra.Result.{Result, ok, err, Error, api_exception, ◌>>=◌}
use gefyra.Carrier.Config.{show_signed}
use gefyra.Stowaway.Debris.{proxy_service}

-- V1Service of type ClusterIP, with its one port
pub record ProxyService : Type 0 where
  pub name : Text
  pub namespace : Text
  pub port_name : Text
  pub port : Signed
  pub target_port : Signed
  pub labels : Dict Text
  pub selector : Dict Text

abbrev pub app_label : Text
app_label = codes "gefyra.dev/app"

abbrev pub role_label : Text
role_label = codes "gefyra.dev/role"

abbrev pub client_label : Text
client_label = codes "gefyra.dev/client-id"

abbrev pub destination_label : Text
destination_label = codes "gefyra.dev/destination"

-- `create_stowaway_proxy_service`, with the namespace and the pod labels of the StatefulSet
unfoldable pub create_stowaway_proxy_service :
    Text → Dict Text → Signed → Text → Text → ProxyService
create_stowaway_proxy_service namespace pod_labels port destination client = record {
  name = proxy_service (show_signed port);
  namespace = namespace;
  port_name = show_signed port;
  port = port;
  target_port = port;
  labels =
      (app_label, codes "stowaway")
      ∷ (role_label, codes "proxy")
      ∷ (codes "gefyra.dev/proxy-port", show_signed port)
      ∷ (client_label, client)
      ∷ (destination_label, destination)
      ∷ [];
  selector = pod_labels;
}

abbrev has_value : Text → Option Text → Bool
has_value v none = false
has_value v (some w) = text_eq v w

-- What a label selector of equations means.
unfoldable pub selects : Dict Text → Dict Text → Bool
selects [] labels = true
selects ((k, v) ∷ selector) labels =
    let rest = selects selector labels in if has_value v (lookup k labels) then rest else false

abbrev pub is_named : Text → List ProxyService → Bool
is_named n = any (λ (v : ProxyService). text_eq v.name n)

pub record ServiceApi : Type 1 where
  pub Store : Type 0
  -- list_namespaced_service with a label selector
  pub list : Dict Text → Store → Result (List ProxyService)
  -- create_namespaced_service, patch_namespaced_service and delete_namespaced_service
  pub create : ProxyService → Store → Result Store
  pub patch : ProxyService → Store → Result Store
  pub delete : Text → Store → Result Store
  -- A service that was created or patched is listed by every selector of its labels, and no other
  -- service comes to be listed.
  pub created :
      (v : ProxyService) (s t : Store) (selector : Dict Text) (vs : List ProxyService)
      → create v s ≡ ok t
      → list selector t ≡ ok vs
      → selects selector v.labels ≡ true
      → is_named v.name vs ≡ true
  pub create-kept :
      (v : ProxyService) (s t : Store) (selector : Dict Text) (n : Text) (us vs : List ProxyService)
      → create v s ≡ ok t
      → list selector s ≡ ok us
      → list selector t ≡ ok vs
      → is_named n vs ≡ true
      → (v.name ≡ n) ⊎ (is_named n us ≡ true)
  pub patched :
      (v : ProxyService) (s t : Store) (selector : Dict Text) (vs : List ProxyService)
      → patch v s ≡ ok t
      → list selector t ≡ ok vs
      → selects selector v.labels ≡ true
      → is_named v.name vs ≡ true
  pub patch-kept :
      (v : ProxyService) (s t : Store) (selector : Dict Text) (n : Text) (us vs : List ProxyService)
      → patch v s ≡ ok t
      → list selector s ≡ ok us
      → list selector t ≡ ok vs
      → is_named n vs ≡ true
      → (v.name ≡ n) ⊎ (is_named n us ≡ true)
  -- A service that was deleted is not listed, and no service comes to be listed.
  pub deleted :
      (n : Text) (s t : Store) (selector : Dict Text) (vs : List ProxyService)
      → delete n s ≡ ok t
      → list selector t ≡ ok vs
      → is_named n vs ≡ false
  pub delete-kept :
      (n m : Text) (s t : Store) (selector : Dict Text) (us vs : List ProxyService)
      → delete n s ≡ ok t
      → list selector s ≡ ok us
      → list selector t ≡ ok vs
      → is_named m vs ≡ true
      → is_named m us ≡ true
  -- A service that is not found is not listed.
  pub not_found :
      (n : Text) (s : Store) (selector : Dict Text) (vs : List ProxyService)
      → delete n s ≡ err (api_exception 404)
      → list selector s ≡ ok vs
      → is_named n vs ≡ false

-- `e.status in [409, 422]`
abbrev pub is_there_already : Error → Bool
is_there_already (api_exception status) = status == 409 || status == 422
is_there_already e = false

module _ (api : ServiceApi) where
  open api use {Store, create, patch}

  abbrev pub or_patch : ProxyService → Store → Result Store → Result Store
  or_patch v s (ok t) = ok t
  or_patch v s (err e) = let patch_it = patch v s in if is_there_already e then patch_it else err e

  -- `handle_stowaway_proxy_service`
  unfoldable pub handle_stowaway_proxy_service :
      Text → Dict Text → Signed → Text → Text → Store → Result (ProxyService × Store)
  handle_stowaway_proxy_service namespace pod_labels port destination client s =
      let v = create_stowaway_proxy_service namespace pod_labels port destination client in
      or_patch v s (create v s) >>= λ t. ok (v, t)
