-- ===== src/Stowaway/Watch.antt =====
-- The watcher of the WireGuard status (`read_wireguard_status` of
-- operator/gefyra/connection/stowaway/handler.py). What is read does not change in a run, and what
-- it does to the clients' objects is a sequence of patches. `client.disable()` is not awaited there,
-- so that its coroutine does not run.
pub mod Written
pub mod Reached
pub mod Status
use gefyra.Prelude.{
  Bool, true, false, not, ◌&&◌, ◌||◌, List, [], ◌∷◌, Option, none, some, Text, codes, text_eq, ◌==◌,
  length, all, bool_eq, if◌then◌else◌, Signed,
}
use gefyra.Prelude.Dict.{Dict, lookup}
use gefyra.Result.{Result, ok, err, Error, key_error, or_raise, ◌>>=◌}
use gefyra.Lifecycle.Machine.{Action, ◌>=>◌, ◌>&&>◌, done, raise, catching}
use gefyra.Stowaway.Status.{
  Number, whole_number, decimal, Amount, WgValue, text, addresses, transfer, seconds, endpoint,
  port, parse_wg_output,
}

abbrev signed_eq : Signed → Signed → Bool
signed_eq a b = bool_eq a.negative b.negative && a.size == b.size

abbrev number_eq : Number → Number → Bool
number_eq (whole_number a) (whole_number b) = signed_eq a b
number_eq (decimal a) (decimal b) = text_eq a b
number_eq _ _ = false

abbrev amount_eq : Amount → Amount → Bool
amount_eq a b = number_eq a.value b.value && text_eq a.unit b.unit

abbrev texts_eq : List Text → List Text → Bool
texts_eq [] [] = true
texts_eq (a ∷ rest) (b ∷ others) = text_eq a b && texts_eq rest others
texts_eq _ _ = false

-- `==` on the values of a status
unfoldable pub value_eq : WgValue → WgValue → Bool
value_eq (text a) (text b) = text_eq a b
value_eq (addresses a) (addresses b) = texts_eq a b
value_eq (transfer a b) (transfer c d) = amount_eq a c && amount_eq b d
value_eq (seconds a) (seconds b) = signed_eq a b
value_eq (endpoint a b) (endpoint c d) = text_eq a c && signed_eq b d
value_eq (port a) (port b) = signed_eq a b
value_eq _ _ = false

abbrev has_entry : Dict WgValue → Text × WgValue → Bool
has_entry d (k, v) = elim (lookup k d) [ none ↦ false | some w ↦ value_eq v w ]

-- `==` on dictionaries
unfoldable pub status_eq : Dict WgValue → Dict WgValue → Bool
unfolding value_eq
status_eq d e = length d == length e && all (has_entry e) d

-- `bool(d.get("latest_handshake"))`
abbrev is_truthy : Option WgValue → Bool
is_truthy none = false
is_truthy (some (text [])) = false
is_truthy (some (addresses [])) = false
is_truthy (some v) = true

unfoldable pub has_handshake : Dict WgValue → Bool
has_handshake d = is_truthy (lookup (codes "latest_handshake") d)

-- A client as the watcher sees it: whether it is ACTIVE, `data["providerConfig"]
-- ["Interface.PublicKey"]`, and `data["status"]`, if it is there, with its `wireguard`.
pub record WatchedClient : Type 0 where
  pub name : Text
  pub is_active : Result Bool
  pub public_key : Result Text
  pub status : Option (Option (Dict WgValue))

-- `{"status": {}}`, `{"status": {"wireguard": {}}}` and `{"status": {"wireguard": peer_status}}`
pub data Patch : Type 0 where
  make_status clear_wireguard : Patch
  set_wireguard : Dict WgValue → Patch

pub record Patched : Type 0 where
  pub client : Text
  pub patch : Patch

abbrev pub patch_of : Text → Patch → Patched
patch_of name patch = record { client = name; patch = patch }

abbrev is_key : WgValue → Text → Bool
is_key (text a) k = text_eq a k
is_key v k = false

-- `next(filter(...))`, where `none` is its StopIteration
unfoldable pub find_peer : Result Text → List (Dict WgValue) → Result (Option (Dict WgValue))
find_peer key [] = ok none
find_peer key (p ∷ ps) =
    let later = find_peer key ps in
    or_raise key_error (lookup (codes "public_key") p) >>= λ v.
    key >>= λ k. if is_key v k then ok (some p) else later

abbrev pub is_stored : Dict WgValue → Option (Dict WgValue) → Bool
is_stored peer none = false
is_stored peer (some before) = status_eq peer before

module _ (outcome : List Patched → Patched → Result (Unit {0})) where
  -- A patch that fails leaves nothing behind.
  abbrev patched : List Patched → Patched → Result (Unit {0}) → List Patched × Result (Unit {0})
  patched before p (ok u) = (p ∷ before, ok tt)
  patched before p (err e) = (before, err e)

  -- `_patch_object`
  unfoldable pub patch_object : Text → Patch → Action (List Patched) (Unit {0})
  patch_object name patch before =
      patched before (patch_of name patch) (outcome before (patch_of name patch))

  -- `client.data["status"]["wireguard"].get("latest_handshake")`, if the peer has no handshake
  abbrev clear_if_lost :
      WatchedClient → Dict WgValue → Option (Dict WgValue) → Action (List Patched) (Unit {0})
  clear_if_lost c peer none = if has_handshake peer then done else raise key_error
  clear_if_lost c peer (some before) =
      let clear = patch_object c.name clear_wireguard in
      if has_handshake peer then done else if has_handshake before then clear else done

  abbrev write_peer :
      WatchedClient → Dict WgValue → Option (Dict WgValue) → Action (List Patched) (Unit {0})
  write_peer c peer before =
      clear_if_lost c peer before >&&> patch_object c.name (set_wireguard peer)

  -- A status that is missing is made in the cluster, but not in `client.data`, which is read next.
  abbrev pub update_with :
      WatchedClient
      → Dict WgValue
      → Option (Option (Dict WgValue))
      → Action (List Patched) (Unit {0})
  update_with c peer none = patch_object c.name make_status >&&> raise key_error
  update_with c peer (some before) =
      let write = write_peer c peer before in if is_stored peer before then done else write

  -- The `else` of the search for the peer.
  unfoldable pub update_status : WatchedClient → Dict WgValue → Action (List Patched) (Unit {0})
  unfolding patch_object
  update_status c peer = update_with c peer c.status

  abbrev with_peer :
      WatchedClient → Result (Option (Dict WgValue)) → Action (List Patched) (Unit {0})
  with_peer c (ok none) = done
  with_peer c (ok (some peer)) = update_status c peer
  with_peer c (err key_error) = done
  with_peer c (err e) = raise e

  abbrev if_active :
      List (Dict WgValue) → WatchedClient → Result Bool → Action (List Patched) (Unit {0})
  if_active peers c (ok true) = with_peer c (find_peer c.public_key peers)
  if_active peers c (ok false) = done
  if_active peers c (err e) = raise e

  -- What the loop does with a client; whatever is raised is logged only.
  unfoldable pub watch_client :
      List (Dict WgValue) → WatchedClient → Action (List Patched) (Unit {0})
  unfolding update_status find_peer
  watch_client peers c = catching (λ e. true) done (if_active peers c c.is_active)

  unfoldable pub watch_clients :
      List (Dict WgValue) → List WatchedClient → Action (List Patched) (Unit {0})
  unfolding watch_client
  watch_clients peers [] = done
  watch_clients peers (c ∷ cs) = watch_client peers c >&&> watch_clients peers cs

  abbrev with_output : List WatchedClient → Option Text → Action (List Patched) (Unit {0})
  with_output clients none = done
  with_output clients (some []) = done
  with_output clients (some (c ∷ output)) =
      watch_clients (parse_wg_output (c ∷ output)).peers clients

  abbrev with_clients :
      Result Bool
      → Result (Option Text)
      → Result (List WatchedClient)
      → Action (List Patched) (Unit {0})
  with_clients ready output (err e) = done
  with_clients ready output (ok []) = done
  with_clients ready output (ok (c ∷ cs)) = (λ w. (w, ready)) >=> λ r.
      let watch = ((λ w. (w, output)) >=> with_output (c ∷ cs)) in if r then watch else done

  -- `read_wireguard_status` of the handler, from the listed clients, whether Stowaway is ready, and
  -- what its own `read_wireguard_status` comes to
  unfoldable pub read_wireguard_status :
      Result (List WatchedClient)
      → Result Bool
      → Result (Option Text)
      → Action (List Patched) (Unit {0})
  unfolding watch_clients parse_wg_output
  read_wireguard_status clients ready output = with_clients ready output clients
