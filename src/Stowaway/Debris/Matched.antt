-- ===== src/Stowaway/Debris/Matched.antt =====
-- A route that a bridge was given is recognised as that bridge's.
use gefyra.Prelude.{
  All, leb, ◌&&◌, show-digits, ◌≡◌, refl, ap, arith, ℕ, Bool, true, false, List, [], ◌∷◌, ◌++◌,
  some, Text, text_eq_refl, any, ◌==◌, ==_iff, split_on-append, split_on_lacking, Lacks, show,
}
use gefyra.Prelude.Dict.{Dict}
use gefyra.Result.{ok}
use gefyra.Stowaway.Routes.Edits.{route_key, route_value, split_on-route_value}
use gefyra.Stowaway.Debris.{
  ListedBridge, RouteParts, before_last, has_port, parts_of, corresponds, is_used,
}
use gefyra.Stowaway.Debris.Sorted.{route_used}

any_lacking : (c : ℕ) (s : Text) → Lacks c s → any (λ x. x == c) s ≡ false
any_lacking c [] h = refl
any_lacking c (d ∷ s) h = ground (arith, h.0, any_lacking c s h.1)

any_last : (c : ℕ) (s t : Text) → any (λ x. x == c) (s ++ (c ∷ t)) ≡ true
any_last c [] t = ground (arith, (==_iff c c).1 refl)
any_last c (d ∷ s) t = ground (arith, any_last c s t)

-- What stands before the last separator.
before_last-append : (c : ℕ) (s t : Text) → Lacks c t → before_last c (s ++ (c ∷ t)) ≡ s
unfolding before_last
before_last-append c [] t h = rw (any_lacking c t h, (==_iff c c).1 refl)
before_last-append c (d ∷ s) t h =
    rw (any_last c s t) (ap (λ (r : Text). d ∷ r) (before_last-append c s t h))

-- The key and the value of a route are read as what they were made of.
parts_of-route :
    (peer suffix ip destination_port : Text) (port : ℕ)
    → Lacks b'-' suffix
    → Lacks b':' ip
    → Lacks b':' destination_port
    → Lacks b',' (ip ++ (b':' ∷ destination_port))
    → parts_of (route_key peer suffix) (route_value (ip ++ (b':' ∷ destination_port)) port)
      ≡ ok (record { peer = peer; ip = ip; port = show port })
unfolding parts_of
parts_of-route peer suffix ip destination_port port hs hi hd hv = rw (
  split_on-route_value (ip ++ (b':' ∷ destination_port)) port hv,
  split_on-append b':' ip destination_port hi,
  split_on_lacking b':' destination_port hd,
  before_last-append b'-' peer suffix hs,
)

digits-Lacks : (s : Text) → All (λ c. (leb 48 c && leb c 57) ≡ true) s → Lacks b':' s
digits-Lacks [] h = tt
digits-Lacks (c ∷ s) h = (ground (arith, h.0), digits-Lacks s h.1)

-- The endpoint of a bridge's port: the address of the proxy service and its port.
abbrev pub endpoint_of : Text → ℕ → Text
endpoint_of host port = host ++ (b':' ∷ show port)

-- A bridge of a peer with an endpoint at a port.
abbrev pub bridge_at : Text → Text → Text → Text → ℕ → Dict Text → ListedBridge
bridge_at peer ip target host port others = record {
  client = peer;
  destination_ip = ip;
  cluster_endpoint = some ((target, endpoint_of host port) ∷ others);
}

has_port-own :
    (target host : Text) (port : ℕ) (others : Dict Text)
    → Lacks b':' host
    → has_port (show port) ((target, endpoint_of host port) ∷ others) ≡ ok true
unfolding has_port
has_port-own target host port others h = rw (
  split_on-append b':' host (show port) h,
  split_on_lacking b':' (show port) (digits-Lacks (show port) (show-digits port)),
  text_eq_refl (show port),
)

is_used-append :
    (route : RouteParts) (before after : List ListedBridge) (b : ListedBridge)
    → All (λ x. (found : Bool) × (corresponds route x ≡ ok found)) before
    → corresponds route b ≡ ok true
    → is_used route (before ++ (b ∷ after)) ≡ ok true
unfolding is_used
is_used-append route [] after b h own = rw own
is_used-append route (x ∷ before) after b ((true, e), h) own = rw e
is_used-append route (x ∷ before) after b ((false, e), h) own =
    rw e (is_used-append route before after b h own)

corresponds-own :
    (peer ip target host : Text) (port : ℕ) (others : Dict Text)
    → Lacks b':' host
    → corresponds
        (record { peer = peer; ip = ip; port = show port })
        (bridge_at peer ip target host port others)
      ≡ ok true
unfolding corresponds
corresponds-own peer ip target host port others h =
    rw (text_eq_refl peer, text_eq_refl ip, has_port-own target host port others h)

-- The route that was made for a destination of a peer counts as used if a bridge of the peer with
-- that destination has the route's port in its first endpoint, wherever the bridge stands, given
-- that asking the bridges before it raises nothing, that the key's random part has no dash, the
-- parts of the destination and the endpoint's host no colon, and the destination no comma.
pub route_used-own :
    (peer suffix ip destination_port target host : Text) (port : ℕ) (others : Dict Text)
    (before after : List ListedBridge)
    → Lacks b'-' suffix
    → Lacks b':' ip
    → Lacks b':' destination_port
    → Lacks b',' (ip ++ (b':' ∷ destination_port))
    → Lacks b':' host
    → All
        (λ x.
          (found : Bool) × (corresponds (record { peer = peer; ip = ip; port = show port }) x
            ≡ ok found))
        before
    → route_used
        (before ++ (bridge_at peer ip target host port others ∷ after))
        (route_key peer suffix)
        (route_value (ip ++ (b':' ∷ destination_port)) port)
      ≡ ok true
route_used-own peer suffix ip destination_port target host port others before after hs hi hd hv hh
      h =
    rw (parts_of-route peer suffix ip destination_port port hs hi hd hv) (
      is_used-append (record { peer = peer; ip = ip; port = show port }) before after
        (bridge_at peer ip target host port others) h
        (corresponds-own peer ip target host port others hh))
