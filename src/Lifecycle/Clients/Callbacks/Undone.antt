-- ===== src/Lifecycle/Clients/Callbacks/Undone.antt =====
-- Disconnecting a client after it was connected.
use gefyra.Prelude.{
  ◌≡◌, ◌≢◌, refl, sym, ap, ◌∙◌, inl, inr, Bool, true, false, List, [], ◌∷◌, Option, none, some,
  Text, text_eq, text_eq_refl, has_text, Bool-cases, ◌==◌, text_eq_iff,
}
use gefyra.Result.{Result, ok, err, api_exception}
use gefyra.Lifecycle.Machine.{and_then}
use gefyra.Stowaway.ConfigMaps.{ConfigMapApi}
use gefyra.Stowaway.Peers.{
  translate_peer_name, edit_peer_configmap, peer_exists, add_peer, remove_peer,
}
use gefyra.Stowaway.Peers.Edits.{peer_exists-Holds}
use gefyra.Stowaway.Peers.Found.{HoldsUnique, add_peer_lem, add_peer_state}
use gefyra.Stowaway.Peers.Refined.{
  adding, removing, nothing_ran, then_added, then_removed, peer_exists-Ran, in_set, all_in_set,
}
use gefyra.Lifecycle.Clients.Callbacks.{
  give, write_config, Client, World, Call, added, removed, can_add_client, disable_connection,
  on_unless_500, clear_if, call, made,
}

-- A name that was not in a set is added to it and removed.
removed_again :
    (p q : Text) (peers : List Text) (subnet : Option Text) (r c : Result (Unit {0}))
    → has_text (translate_peer_name p) peers ≡ false
    → all_in_set
        (adding p subnet r ∷ removing p c ∷ [])
        (λ u. has_text u peers)
        (translate_peer_name q)
      ≡ has_text (translate_peer_name q) peers
unfolding all_in_set in_set
removed_again p q peers subnet r c new =
    elim (Bool-cases (text_eq (translate_peer_name p) (translate_peer_name q))) [
      | inl same ↦
          rw same (sym (ap (λ (u : Text). has_text u peers) (sym ((text_eq_iff _ _).0 same)) ∙ new))
      | inr other ↦ rw other refl
    ]

module _ (api : ConfigMapApi) (client : Client)
    (outcome : World api → Call → Result (Unit {0})) where
  open client use {name, restart, cleanup}

  abbrev W : Type 0
  W = World api

  -- What goes on after the peers were changed leaves them as they are.
  cleared_peers :
      (x : W) (r : Result (Unit {0})) → (made api outcome x (write_config none) r).0.peers ≡ x.peers
  cleared_peers x (ok u) = refl
  cleared_peers x (err e) = refl

  after_added :
      (x : W) (r : Result (Unit {0})) → (and_then (x, r) (λ u. give api true)).0.peers ≡ x.peers
  after_added x (ok u) = refl
  after_added x (err e) = refl

  after_removed :
      (x : W) (r : Result Bool)
      → (and_then
          (on_unless_500 api outcome (and_then (x, r) (λ b. give api true)))
          (clear_if api outcome)).0.peers
        ≡ x.peers
  unfolding call
  after_removed x (ok b) = cleared_peers x (outcome x (write_config none))
  after_removed x (err (api_exception status)) = elim (Bool-cases (status == 500)) [
    | inl server ↦ rw server refl
    | inr other ↦ rw other (cleared_peers x (outcome x (write_config none)))
  ]
  after_removed x (err e) = refl

  added_peers :
      (w : W) (subnet : Option Text)
      → peer_exists api name w.peers ≡ ok false
      → client.parameter ≡ ok subnet
      → (can_add_client api client w).0.peers ≡ (add_peer api restart name subnet w.peers).0
  unfolding can_add_client
  added_peers w subnet missing given =
      rw (missing, given) (after_added (added api client subnet w).0 (added api client subnet w).1)

  removed_peers :
      (w : W)
      → peer_exists api name w.peers ≡ ok true
      → (disable_connection api client outcome w).0.peers ≡ (remove_peer api cleanup name w.peers).0
  unfolding disable_connection
  removed_peers w there = rw there (after_removed (removed api client w).0 (removed api client w).1)

  -- If a client that is not a peer of Stowaway is connected and disconnected again, then it is a
  -- peer in between, and afterwards every name that is not empty is found exactly if it was found
  -- before, whatever restarting Stowaway and writing the client come to, given that the parameter
  -- is read, that both edits of the peers succeed, and that no peer was listed twice and the
  -- client's name is not empty.
  pub disable_connection-can_add_client :
      (w : W) (peers : List Text) (subnet : Option Text) (s t : api.Store) (q : Text)
      → name ≢ []
      → q ≢ []
      → HoldsUnique api w.peers peers
      → has_text (translate_peer_name name) peers ≡ false
      → client.parameter ≡ ok subnet
      → edit_peer_configmap api (some name) none subnet w.peers ≡ ok s
      → edit_peer_configmap api none (some name) none s ≡ ok t
      → let connected = (can_add_client api client w).0 in
        (peer_exists api name connected.peers ≡ ok true)
        × (peer_exists api q (disable_connection api client outcome connected).0.peers
            ≡ peer_exists api q w.peers)
  disable_connection-can_add_client w peers subnet s t q n m h new given e f =
      let missing = peer_exists-Holds api w.peers peers name h.holds ∙ ap ok new in
      let there =
        ap (λ (x : api.Store). peer_exists api name x) (added_peers w subnet missing given)
        ∙ (add_peer_lem api restart w.peers s peers name name subnet n h e).0
        ∙ rw (text_eq_refl (translate_peer_name name)) refl in
      (
        there,
        ap (λ (x : api.Store). peer_exists api q x)
              (removed_peers (can_add_client api client w).0 there
                ∙ ap (λ (x : api.Store). (remove_peer api cleanup name x).0)
                    (added_peers w subnet missing given))
            ∙ peer_exists-Ran api peers q m h (
                then_added name subnet restart n e (
                  then_removed name cleanup n
                    (ap (λ (x : api.Store). edit_peer_configmap api none (some name) none x)
                        (add_peer_state api restart w.peers s name subnet e)
                      ∙ f)
                    nothing_ran))
            ∙ ap ok (removed_again name q peers subnet restart cleanup new)
            ∙ sym (peer_exists-Holds api w.peers peers q h.holds),
      )
