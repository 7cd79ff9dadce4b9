-- ===== src/Stowaway/Routes.antt =====
-- The proxy routes of Stowaway, kept in its ConfigMap (operator/gefyra/connection/stowaway/__init__.py).
-- The ten random letters in the key of a route are an argument.
pub mod Ports
pub mod Listed
pub mod Edits
pub mod Undo
pub mod Total
use gefyra.Prelude.{
  ℕ, zero, suc, Bool, true, false, List, [], ◌∷◌, ◌++◌, Option, none, some, Text, codes, text_eq,
  if◌then◌else◌, split_on, int, show, Signed, any,
}
use gefyra.Prelude.Dict.{Dict, insert, remove}
use gefyra.Result.{
  Result, ok, err, runtime_error, value_error, index_error, or_raise, second, ◌>>=◌,
}
use gefyra.Carrier.Config.{denotes}
use gefyra.Stowaway.ConfigMaps.{ConfigMapApi, Data}

-- `int(v.split(",")[1])`
unfoldable pub route_port : Text → Result Signed
route_port v = do part ← second (split_on b',' v); or_raise value_error (int part)

-- `[int(v.split(",")[1]) for v in routes.values()]`
unfoldable pub taken_ports : Dict Text → Result (List Signed)
taken_ports [] = ok []
taken_ports ((k, v) ∷ routes) =
    let later = taken_ports routes in route_port v >>= λ port. later >>= λ ports. ok (port ∷ ports)

-- `port in taken_ports`
abbrev pub is_taken : ℕ → List Signed → Bool
is_taken port = any (λ t. denotes t port)

-- The loop over `range(start, start + count)`.
unfoldable pub first_free : ℕ → ℕ → List Signed → Option ℕ
first_free zero start taken = none
first_free (suc count) start taken =
    let rest = first_free count (suc start) taken in
    if is_taken start taken then rest else some start

-- `routes or {}`
abbrev pub or_no_routes : Data → Dict Text
or_no_routes none = []
or_no_routes (some routes) = routes

-- `range(10000, 60000)`
abbrev pub port_count : ℕ
port_count = 50000

abbrev pub first_port : ℕ
first_port = 10000

-- `_get_free_proxyroute_port`, on the data that is read
unfoldable pub get_free_proxyroute_port : Data → Result ℕ
get_free_proxyroute_port data_ = do
  taken ← taken_ports (or_no_routes data_)
  or_raise runtime_error (first_free port_count first_port taken)

-- `v.split(",")[0]`; a split is never empty
abbrev pub first_or : List Text → Text
first_or [] = []
first_or (w ∷ ws) = w

abbrev pub destination_of : Text → Text
destination_of v = first_or (split_on b',' v)

-- The loop that looks for the route to remove: the last one with the destination, and its port.
unfoldable pub find_route : Text → Dict Text → Option (Text × Text) → Result (Option (Text × Text))
find_route gone [] found = ok found
find_route gone ((k, v) ∷ routes) found =
    let same = second (split_on b',' v) >>= λ port. find_route gone routes (some (k, port)) in
    let other = find_route gone routes found in
    if text_eq (destination_of v) gone then same else other

abbrev pub is_given : Option Text → Bool
is_given none = false
is_given (some []) = false
is_given (some (c ∷ s)) = true

module _ (api : ConfigMapApi) where
  open api use {Store, read, patch, replace}

  -- The branch that adds a route.
  unfoldable pub add_route : Text → Text → Text → Store → Result (Signed × Store)
  add_route peer suffix add s = read s >>= λ data_. get_free_proxyroute_port data_ >>= λ port.
      patch (insert (peer ++ (b'-' ∷ suffix)) (add ++ (b',' ∷ show port)) (or_no_routes data_)) s
      >>= λ t. ok (record { negative = false; size = port }, t)

  -- A key that is empty counts as none, as in `if to_be_deleted`.
  abbrev delete_route : Option (Text × Text) → Dict Text → Store → Result (Signed × Store)
  delete_route none routes s = ok (record { negative = false; size = 0 }, s)
  delete_route (some ([], port)) routes s = do n ← or_raise value_error (int port); ok (n, s)
  delete_route (some (c ∷ k, port)) routes s = replace (some (remove (c ∷ k) routes)) s >>= λ t.
      or_raise value_error (int port) >>= λ n. ok (n, t)

  -- The branch that removes a route.
  unfoldable pub remove_route : Text → Store → Result (Signed × Store)
  unfolding find_route
  remove_route gone s = read s >>= λ data_. find_route gone (or_no_routes data_) none >>= λ found.
      delete_route found (or_no_routes data_) s

  -- `_edit_proxyroutes_configmap`
  unfoldable pub edit_proxyroutes_configmap :
      Text → Text → Option Text → Option Text → Store → Result (Signed × Store)
  unfolding add_route remove_route
  edit_proxyroutes_configmap peer suffix none none s = err value_error
  edit_proxyroutes_configmap peer suffix none (some []) s = err value_error
  edit_proxyroutes_configmap peer suffix none (some (c ∷ gone)) s = remove_route (c ∷ gone) s
  edit_proxyroutes_configmap peer suffix (some []) none s = err value_error
  edit_proxyroutes_configmap peer suffix (some []) (some []) s = err value_error
  edit_proxyroutes_configmap peer suffix (some []) (some (c ∷ gone)) s = remove_route (c ∷ gone) s
  edit_proxyroutes_configmap peer suffix (some (c ∷ add)) other s =
      add_route peer suffix (c ∷ add) s
