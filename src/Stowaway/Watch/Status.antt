-- ===== src/Stowaway/Watch/Status.antt =====
-- The status of the clients after a run of the watcher.
use gefyra.Prelude.{
  ◌∙◌, ◌++◌, ◌≢◌, ap, codes, text_eq, text_eq_iff, text_eq_refl, Bool-cases, inl, inr, sym,
  split_on, strip, ◌≡◌, refl, Bool, true, false, List, [], ◌∷◌, Option, none, some, Text, All,
  Occurs, Occurs-here, Occurs-cons,
}
use gefyra.Prelude.Dict.{Dict, lookup}
use gefyra.Result.{Result, ok, err}
use gefyra.Stowaway.Status.{WgValue, text, parse_wg_output}
use gefyra.Stowaway.Watch.{
  WatchedClient, Patch, set_wireguard, Patched, patch_of, has_handshake, find_peer, is_key,
  is_stored, read_wireguard_status,
}
use gefyra.Stowaway.Watch.Written.{IsOwn, watch_clients-KeepsOwn}
use gefyra.Stowaway.Watch.Reached.{watch_clients-Occurs}

-- Each of a list occurs in it.
Occurs-all_cons :
    (d : WatchedClient) (cs ds : List WatchedClient)
    → All (λ c. Occurs c cs) ds
    → All (λ c. Occurs c (d ∷ cs)) ds
Occurs-all_cons d cs [] h = tt
Occurs-all_cons d cs (e ∷ ds) h = (Occurs-cons e d cs h.0, Occurs-all_cons d cs ds h.1)

all-Occurs : (cs : List WatchedClient) → All (λ c. Occurs c cs) cs
all-Occurs [] = tt
all-Occurs (c ∷ cs) = (Occurs-here c cs, Occurs-all_cons c cs cs (all-Occurs cs))

-- Whatever the patches come to: each status that a run of the watcher writes is that of a peer in
-- the output, and written for a listed client that is ACTIVE, whose public key is the peer's, and
-- which had a status before, with an entry for WireGuard unless the peer has had a handshake.
pub read_wireguard_status-IsOwn :
    (outcome : List Patched → Patched → Result (Unit {0})) (clients : List WatchedClient)
    (ready : Result Bool) (output : Text)
    → All
        (IsOwn clients (parse_wg_output output).peers)
        (read_wireguard_status outcome (ok clients) ready (ok (some output)) []).0
unfolding read_wireguard_status
read_wireguard_status-IsOwn outcome [] ready output = tt
read_wireguard_status-IsOwn outcome (c ∷ cs) (err e) output = tt
read_wireguard_status-IsOwn outcome (c ∷ cs) (ok false) output = tt
read_wireguard_status-IsOwn outcome (c ∷ cs) (ok true) [] = tt
read_wireguard_status-IsOwn outcome (c ∷ cs) (ok true) (o ∷ output) =
    watch_clients-KeepsOwn (c ∷ cs) (parse_wg_output (o ∷ output)).peers outcome (c ∷ cs)
      (all-Occurs (c ∷ cs)) [] tt

nothing_found : (key : Result Text) → find_peer key (parse_wg_output []).peers ≡ ok none
unfolding parse_wg_output find_peer strip split_on text_eq
nothing_found key = refl

none-ne-some : {A : Type 0} (p : Dict WgValue) → ok none ≡ ok (some p) → A
none-ne-some p e = cc e

-- The peer has the key, and no peer that is listed before it has it.
pub record IsFirst (key : Result Text) (peers : List (Dict WgValue)) (p : Dict WgValue)
    : Type 0 where
  pub wanted : Text
  pub before : List (Dict WgValue)
  pub after : List (Dict WgValue)
  pub is_read : key ≡ ok wanted
  pub whole : peers ≡ before ++ (p ∷ after)
  pub own : lookup (codes "public_key") p ≡ some (text wanted)
  pub others :
      All
        (λ (q : Dict WgValue).
          (v : WgValue) × (lookup (codes "public_key") q ≡ some v) × (v ≢ text wanted))
        before

key_of_other : (v : WgValue) (k : Text) → v ≢ text k → is_key v k ≡ false
key_of_other (text a) k n = elim (Bool-cases (text_eq a k)) [
  | inl same ↦ absurd (n (ap text ((text_eq_iff a k).0 same)))
  | inr other ↦ other
]
key_of_other v k n = refl

find_peer-first :
    (k : Text) (before after : List (Dict WgValue)) (p : Dict WgValue)
    → lookup (codes "public_key") p ≡ some (text k)
    → All
        (λ (q : Dict WgValue).
          (v : WgValue) × (lookup (codes "public_key") q ≡ some v) × (v ≢ text k))
        before
    → find_peer (ok k) (before ++ (p ∷ after)) ≡ ok (some p)
unfolding find_peer
find_peer-first k [] after p own h = rw (own, text_eq_refl k) refl
find_peer-first k (q ∷ before) after p own ((v, there, other), h) =
    rw (there, key_of_other v k other) (find_peer-first k before after p own h)

find_peer-IsFirst :
    (key : Result Text) (peers : List (Dict WgValue)) (p : Dict WgValue)
    → IsFirst key peers p
    → find_peer key peers ≡ ok (some p)
find_peer-IsFirst key peers p h =
    ap (λ (r : Result Text). find_peer r peers) h.is_read
    ∙ ap (λ (l : List (Dict WgValue)). find_peer (ok h.wanted) l) h.whole
    ∙ find_peer-first h.wanted h.before h.after p h.own h.others

-- If Stowaway is ready, a listed client is ACTIVE, a peer in the output has its public key and the
-- peers before it have other keys, the client has a status, in which the entry for WireGuard
-- differs from the peer's or, where the peer has had a handshake, is missing, and the patches of
-- this client succeed, then a run of the watcher writes the peer's status to it, whatever happens
-- to the other clients.
pub read_wireguard_status-Occurs :
    (outcome : List Patched → Patched → Result (Unit {0})) (clients : List WatchedClient)
    (output : Text) (c : WatchedClient) (p : Dict WgValue) (before : Option (Dict WgValue))
    (w : List Patched)
    → Occurs c clients
    → c.is_active ≡ ok true
    → IsFirst c.public_key (parse_wg_output output).peers p
    → c.status ≡ some before
    → is_stored p before ≡ false
    → (before ≡ none → has_handshake p ≡ true)
    → ((v : List Patched) (patch : Patch) → outcome v (patch_of c.name patch) ≡ ok tt)
    → Occurs
        (patch_of c.name (set_wireguard p))
        (read_wireguard_status outcome (ok clients) (ok true) (ok (some output)) w).0
unfolding read_wireguard_status
read_wireguard_status-Occurs outcome [] output c p before w ([], rest, e) a f s n h fine = cc e
read_wireguard_status-Occurs outcome [] output c p before w (x ∷ first, rest, e) a f s n h fine =
    cc e
read_wireguard_status-Occurs outcome (d ∷ cs) [] c p before w here a f s n h fine = none-ne-some p (
    sym (nothing_found c.public_key)
    ∙ find_peer-IsFirst c.public_key (parse_wg_output []).peers p f)
read_wireguard_status-Occurs outcome (d ∷ cs) (o ∷ output) c p before w here a f s n h fine =
    watch_clients-Occurs outcome (parse_wg_output (o ∷ output)).peers c p before a
      (find_peer-IsFirst c.public_key (parse_wg_output (o ∷ output)).peers p f) s n h fine (d ∷ cs)
      w here
