-- ===== src/Stowaway/Debris/Used.antt =====
-- When a bridge uses a route (`reconcile_proxyroutes` in
-- operator/gefyra/connection/stowaway/handler.py).
use gefyra.Prelude.{
  ◌≡◌, sym, ap, ◌∙◌, ◌⊎◌, inl, inr, true, false, List, [], ◌∷◌, some, Text, text_eq, text_eq_iff,
  split_on, All, Occurs, Occurs-here, Occurs-cons, Bool-cases, Option-cases,
}
use gefyra.Prelude.Dict.{Dict}
use gefyra.Result.{ok, second, >>=-eq-ok, ok-injective}
use gefyra.Stowaway.Debris.{ListedBridge, RouteParts, has_port, corresponds, is_used}

-- What follows the first colon of an endpoint, up to the next one, is the port.
abbrev pub HasPort : Text → Dict Text → Type 0
HasPort port [] = ⊥
HasPort port ((target, endpoint) ∷ rest) =
    (second (split_on b':' endpoint) ≡ ok port) ⊎ HasPort port rest

-- The bridge is of the route's peer and destination address, and one of its endpoints has the
-- route's port.
pub record Uses (route : RouteParts) (b : ListedBridge) : Type 0 where
  pub same_peer : b.client ≡ route.peer
  pub same_ip : b.destination_ip ≡ route.ip
  pub endpoints : Dict Text
  pub is_set : b.cluster_endpoint ≡ some endpoints
  pub has : HasPort route.port endpoints

some_same : {A : Type 0} {a b : A} → some a ≡ some b → a ≡ b
some_same e = cc e

has_port-HasPort : (port : Text) (eps : Dict Text) → has_port port eps ≡ ok true → HasPort port eps
unfolding has_port
has_port-HasPort port [] e = cc (ok-injective e)
has_port-HasPort port ((t, endpoint) ∷ rest) e =
    let (p, e1, f1) = >>=-eq-ok (second (split_on b':' endpoint)) _ e in
    elim (Bool-cases (text_eq p port)) [
      | inl same ↦ inl (e1 ∙ ap ok ((text_eq_iff p port).0 same))
      | inr other ↦ inr (has_port-HasPort port rest (rw other at f1))
    ]

has_port-lacks : (port : Text) (eps : Dict Text) → has_port port eps ≡ ok false → ¬ HasPort port eps
unfolding has_port
has_port-lacks port [] e h = h
has_port-lacks port ((t, endpoint) ∷ rest) e h =
    let (p, e1, f1) = >>=-eq-ok (second (split_on b':' endpoint)) _ e in
    elim (Bool-cases (text_eq p port)) [
      | inl same ↦ cc (ok-injective (rw same at f1))
      | inr other ↦ elim h [
        | inl here ↦ cc (other, (text_eq_iff p port).1 (ok-injective (sym e1 ∙ here)))
        | inr later ↦ has_port-lacks port rest (rw other at f1) later
      ]
    ]

-- What the test on a bridge has found.
corresponds-Uses :
    (route : RouteParts) (b : ListedBridge) → corresponds route b ≡ ok true → Uses route b
unfolding corresponds
corresponds-Uses route b e = elim (Bool-cases (text_eq b.client route.peer)) [
  | inr other ↦ cc (ok-injective (rw other at e))
  | inl peer ↦ elim (Bool-cases (text_eq b.destination_ip route.ip)) [
    | inr other ↦ cc (ok-injective (rw (peer, other) at e))
    | inl ip ↦ elim (Option-cases b.cluster_endpoint) [
      | inl unset ↦ cc (rw (peer, ip, unset) at e)
      | inr (eps, is_set) ↦ record {
        same_peer = (text_eq_iff b.client route.peer).0 peer;
        same_ip = (text_eq_iff b.destination_ip route.ip).0 ip;
        endpoints = eps;
        is_set = is_set;
        has = has_port-HasPort route.port eps (rw (peer, ip, is_set) at e);
      }
    ]
  ]
]

corresponds-not-Uses :
    (route : RouteParts) (b : ListedBridge) → corresponds route b ≡ ok false → ¬ Uses route b
unfolding corresponds
corresponds-not-Uses route b e h =
    has_port-lacks route.port h.endpoints
      (rw
        (
          (text_eq_iff b.client route.peer).1 h.same_peer,
          (text_eq_iff b.destination_ip route.ip).1 h.same_ip,
          h.is_set,
        )
        at e)
      h.has

-- A bridge uses the route, or none does.
pub is_used-Uses :
    (route : RouteParts) (bs : List ListedBridge)
    → is_used route bs ≡ ok true
    → (b : ListedBridge) × Occurs b bs × Uses route b
unfolding is_used
is_used-Uses route [] e = cc (ok-injective e)
is_used-Uses route (b ∷ bs) e =
    let (found, e1, f1) = >>=-eq-ok (corresponds route b) _ e in
    elim (Bool-cases found) [
      | inl here ↦ (b, Occurs-here b bs, corresponds-Uses route b (e1 ∙ ap ok here))
      | inr other ↦
          let (c, later, uses) = is_used-Uses route bs (rw other at f1) in
          (c, Occurs-cons c b bs later, uses)
    ]

pub is_used-not-Uses :
    (route : RouteParts) (bs : List ListedBridge)
    → is_used route bs ≡ ok false
    → All (λ (b : ListedBridge). ¬ Uses route b) bs
unfolding is_used
is_used-not-Uses route [] e = tt
is_used-not-Uses route (b ∷ bs) e =
    let (found, e1, f1) = >>=-eq-ok (corresponds route b) _ e in
    elim (Bool-cases found) [
      | inl here ↦ cc (ok-injective (rw here at f1))
      | inr other ↦ (
        corresponds-not-Uses route b (e1 ∙ ap ok other),
        is_used-not-Uses route bs (rw other at f1),
      )
    ]
