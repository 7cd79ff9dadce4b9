-- ===== src/Stowaway/Routes/Edits.antt =====
-- What adding a route and removing it again do to the routes.
use gefyra.Prelude.{
  ℕ, ◌≤◌, ◌<◌, ◌≡◌, refl, ap, sym, ◌∙◌, subst, Bool, true, false, List, [], ◌∷◌, ◌++◌, Option, none,
  some, arith, Text, text_eq, if◌then◌else◌, split_on, split_on-append, split_on_lacking, show,
  show-digits, Signed, All, Lacks, length, leb, ◌&&◌,
}
use gefyra.Prelude.Dict.{
  Dict, IsDict, lookup, insert, update, lookup-insert, lookup-update, insert-IsDict, updated,
}
use gefyra.Result.{ok, runtime_error, or_raise-eq-ok, ok-injective, >>=-eq-ok}
use gefyra.Carrier.Config.{denotes}
use gefyra.Carrier.Config.Routes.{at_port}
use gefyra.Stowaway.ConfigMaps.{ConfigMapApi, Data, merge}
use gefyra.Stowaway.Routes.{
  route_port, taken_ports, is_taken, first_free, or_no_routes, port_count, first_port,
  get_free_proxyroute_port, add_route,
}
use gefyra.Stowaway.Routes.Ports.{first_free_lem, first_free_total}
use gefyra.Stowaway.Routes.Listed.{length-taken_ports, lookup-taken_ports}

-- A port that is free, the lowest of the range.
pub record IsLowestFree (taken : List Signed) (port : ℕ) : Type 0 where
  pub low : 10000 ≤ port
  pub high : port < 60000
  pub free : is_taken port taken ≡ false
  pub lowest : (q : ℕ) → 10000 ≤ q → q < port → is_taken q taken ≡ true

first_free-IsLowestFree :
    (taken : List Signed) (port : ℕ)
    → first_free port_count first_port taken ≡ some port
    → IsLowestFree taken port
first_free-IsLowestFree taken port e =
    let (low, high, free, lowest) = first_free_lem port_count first_port port taken e in
    record { low = low; high = omega arith; free = free; lowest = lowest }

-- If the ports of the routes are read and there are less than 50000 routes, then a port is found;
-- it is in the range from 10000 to 59999, no route has it, and it is the lowest such port.
pub get_free_proxyroute_port_lem :
    (data_ : Data) (taken : List Signed)
    → taken_ports (or_no_routes data_) ≡ ok taken
    → length (or_no_routes data_) < 50000
    → (port : ℕ) × (get_free_proxyroute_port data_ ≡ ok port) × IsLowestFree taken port
unfolding get_free_proxyroute_port
get_free_proxyroute_port_lem data_ taken e few =
    let (port, found) =
      first_free_total port_count first_port taken (omega (arith, length-taken_ports _ taken e)) in
    (port, rw (e, found), first_free-IsLowestFree taken port found)

get_free-IsLowestFree :
    (data_ : Data) (taken : List Signed) (port : ℕ)
    → taken_ports (or_no_routes data_) ≡ ok taken
    → get_free_proxyroute_port data_ ≡ ok port
    → IsLowestFree taken port
unfolding get_free_proxyroute_port
get_free-IsLowestFree data_ taken port e f =
    first_free-IsLowestFree taken port
      (or_raise-eq-ok runtime_error (first_free port_count first_port taken) port (rw e at f))

-- The value of a route: its destination and its port.
abbrev pub route_value : Text → ℕ → Text
route_value add port = add ++ (b',' ∷ show port)

digits-Lacks : (s : Text) → All (λ c. (leb 48 c && leb c 57) ≡ true) s → Lacks b',' s
digits-Lacks [] h = tt
digits-Lacks (c ∷ s) h = (ground (arith, h.0), digits-Lacks s h.1)

pub split_on-route_value :
    (add : Text) (port : ℕ)
    → Lacks b',' add
    → split_on b',' (route_value add port) ≡ add ∷ show port ∷ []
split_on-route_value add port h =
    split_on-append b',' add (show port) h
    ∙ ap (λ (r : List Text). add ∷ r)
        (split_on_lacking b',' (show port) (digits-Lacks (show port) (show-digits port)))

update-IsDict : (d e : Dict Text) → IsDict d → IsDict (update d e)
unfolding update
update-IsDict d [] h = h
update-IsDict d ((k, v) ∷ e) h = update-IsDict (insert k v d) e (insert-IsDict k v d h)

updated_test :
    (b : Bool) (v : Text) (o : Option Text)
    → updated (if b then some v else o) o ≡ (if b then some v else o)
updated_test true v o = refl
updated_test false v none = refl
updated_test false v (some w) = refl

-- The routes after a patch by the routes with one added.
abbrev pub patched : Data → Text → Text → Data
patched data_ key value = merge data_ (insert key value (or_no_routes data_))

pub lookup-patched :
    (data_ : Data) (key value j : Text)
    → IsDict (or_no_routes data_)
    → lookup j (or_no_routes (patched data_ key value))
      ≡ (if text_eq key j then some value else lookup j (or_no_routes data_))
lookup-patched none key value j h =
    lookup-update [] (insert key value []) j (insert-IsDict key value [] h)
    ∙ rw lookup-insert (updated_test (text_eq key j) value (lookup j []))
lookup-patched (some d) key value j h =
    lookup-update d (insert key value d) j (insert-IsDict key value d h)
    ∙ rw lookup-insert (updated_test (text_eq key j) value (lookup j d))

pub patched-IsDict :
    (data_ : Data) (key value : Text)
    → IsDict (or_no_routes data_)
    → IsDict (or_no_routes (patched data_ key value))
patched-IsDict none key value h = update-IsDict [] (insert key value []) tt
patched-IsDict (some d) key value h = update-IsDict d (insert key value d) h

-- The key of a new route.
abbrev pub route_key : Text → Text → Text
route_key peer suffix = peer ++ (b'-' ∷ suffix)

module _ (api : ConfigMapApi) where
  open api use {Store, read, patch, replace, read-patch, read-replace}

  -- What adding a route did: the port that it found and the data that it left.
  pub record IsAdded (peer suffix add : Text) (data_ : Data) (n : Signed) (t : Store) : Type 0 where
    pub port : ℕ
    pub is_port : n ≡ at_port port
    pub found : get_free_proxyroute_port data_ ≡ ok port
    pub reads : read t ≡ ok (patched data_ (route_key peer suffix) (route_value add port))

  pub add_route-IsAdded :
      (peer suffix add : Text) (s t : Store) (data_ : Data) (n : Signed)
      → read s ≡ ok data_
      → add_route api peer suffix add s ≡ ok (n, t)
      → IsAdded peer suffix add data_ n t
  unfolding add_route
  add_route-IsAdded peer suffix add s t data_ n r e =
      let (port, found, e1) = >>=-eq-ok (get_free_proxyroute_port data_) _ (rw r at e) in
      let (u, e2, e3) =
        >>=-eq-ok
          (patch (insert (route_key peer suffix) (route_value add port) (or_no_routes data_)) s) _
          e1 in
      record {
        port = port;
        is_port = ap (λ (x : Signed × Store). x.0) (sym (ok-injective e3));
        found = found;
        reads =
            subst
              (λ (x : Store).
                read x ≡ ok (patched data_ (route_key peer suffix) (route_value add port)))
              (ap (λ (x : Signed × Store). x.1) (ok-injective e3)) (read-patch s u _ data_ r e2);
      }

  -- If adding a route succeeds on routes whose ports are read and which are a dictionary, then the
  -- port that is returned is the lowest free one and differs from that of every listed route, and
  -- afterwards the new key has the destination with that port, and every other key has what it
  -- had.
  pub add_route_lem :
      (peer suffix add : Text) (s t : Store) (data_ : Data) (n : Signed) (taken : List Signed)
      → read s ≡ ok data_
      → IsDict (or_no_routes data_)
      → taken_ports (or_no_routes data_) ≡ ok taken
      → add_route api peer suffix add s ≡ ok (n, t)
      → (port : ℕ) × (n ≡ at_port port)
        × IsLowestFree taken port
        × ((k v : Text) (m : Signed)
            → lookup k (or_no_routes data_) ≡ some v
            → route_port v ≡ ok m
            → denotes m port ≡ false)
        × ((after : Data) × (read t ≡ ok after)
            × ((j : Text)
                → lookup j (or_no_routes after) ≡ (
                    if text_eq (route_key peer suffix) j
                    then some (route_value add port)
                    else lookup j (or_no_routes data_))))
  add_route_lem peer suffix add s t data_ n taken r dict e f =
      let added = add_route-IsAdded peer suffix add s t data_ n r f in
      let lowest = get_free-IsLowestFree data_ taken added.port e added.found in
      (
        added.port,
        added.is_port,
        lowest,
        λ k v m here port_of.
            lookup-taken_ports (or_no_routes data_) taken k v m added.port e here port_of
              lowest.free,
        (
          _,
          added.reads,
          λ j. lookup-patched data_ (route_key peer suffix) (route_value add added.port) j dict,
        ),
      )
