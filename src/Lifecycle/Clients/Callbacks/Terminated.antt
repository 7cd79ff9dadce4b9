-- ===== src/Lifecycle/Clients/Callbacks/Terminated.antt =====
-- The end of a client.
use gefyra.Prelude.{
  ◌≡◌, ◌≢◌, refl, sym, ap, ◌∙◌, inl, inr, Bool, true, false, List, [], ◌∷◌, ◌++◌, map, none, some,
  Text, text_eq_refl, has_text, Bool-cases,
}
use mathlib.Core.List.{reverse}
use gefyra.Result.{Result, ok, err}
use gefyra.Lifecycle.Machine.{and_then, caught, done, ◌>=>◌}
use gefyra.Stowaway.ConfigMaps.{ConfigMapApi}
use gefyra.Stowaway.Peers.{translate_peer_name, edit_peer_configmap, peer_exists, remove_peer}
use gefyra.Stowaway.Peers.Edits.{peer_exists-Holds}
use gefyra.Stowaway.Peers.Found.{HoldsUnique, remove_peer_lem}
use gefyra.Lifecycle.Clients.Callbacks.{
  Client, World, Call, delete_bridge, delete_binding, delete_account, ListedBridge, recorded, call,
  is_own, delete_bridges, cleanup_all_bridges, delete_service_account_objects, account_name,
  on_terminate, remove_peer_if, exists, is_missing,
}
use gefyra.Lifecycle.Clients.Callbacks.Cleaned.{own_bridges, delete_bridges-calls}

module _ (api : ConfigMapApi) (client : Client)
    (outcome : World api → Call → Result (Unit {0})) where
  open client use {name, cleanup}

  abbrev W : Type 0
  W = World api

  abbrev Run : Type 0
  Run = W × Result (Unit {0})

  caught-ok : (r : Run) → (caught (λ e. true) done r).1 ≡ ok tt
  caught-ok (w, ok u) = refl
  caught-ok (w, err e) = refl

  caught-world : (r : Run) → (caught (λ e. true) done r).0 ≡ r.0
  caught-world (w, ok u) = refl
  caught-world (w, err e) = refl

  -- Every call succeeds, and what is read is there.
  pub record EndsWell (w : W) (peers : List Text) (t : api.Store) (bs : List ListedBridge)
      : Type 0 where
    pub named : name ≢ []
    pub holds : HoldsUnique api w.peers peers
    pub edited : edit_peer_configmap api none (some name) none w.peers ≡ ok t
    pub cleaned : cleanup ≡ ok tt
    pub accounted : client.account ≡ ok tt
    pub listed : client.bridges ≡ ok bs
    pub fine : (x : W) (c : Call) → outcome x c ≡ ok tt

  module _ (w : W) (peers : List Text) (t : api.Store) (bs : List ListedBridge)
      (h : EndsWell w peers t bs) where
    call-fine : (x : W) (c : Call) → call api outcome c x ≡ (recorded api x c, ok tt)
    unfolding call
    call-fine x c = rw (h.fine x c) refl

    delete_bridges-fine :
        (ds : List ListedBridge) (x : W) → (delete_bridges api client outcome ds x).1 ≡ ok tt
    unfolding delete_bridges
    delete_bridges-fine [] x = refl
    delete_bridges-fine (d ∷ ds) x = elim (Bool-cases (is_own api client d)) [
      | inl own ↦
          rw (own, call-fine x (delete_bridge d.name))
            (delete_bridges-fine ds (recorded api x (delete_bridge d.name)))
      | inr other ↦ rw other (delete_bridges-fine ds x)
    ]

    removed-fine : remove_peer api cleanup name w.peers ≡ (t, ok true)
    unfolding remove_peer
    removed-fine = rw (h.edited, h.cleaned) refl

    gone_after : peer_exists api name t ≡ ok false
    gone_after =
        ap (λ (x : api.Store × Result Bool). peer_exists api name x.0) (sym removed-fine)
        ∙ (remove_peer_lem api cleanup w.peers t peers name name h.named h.named h.holds h.edited).0
        ∙ rw (text_eq_refl (translate_peer_name name)) refl

    -- The world without the peer.
    unpeered :
        (x : W) × ((exists api client >=> remove_peer_if api client outcome) w ≡ (x, ok tt))
        × (x.calls ≡ w.calls)
        × (peer_exists api name x.peers ≡ ok false)
    unpeered =
        let found = peer_exists-Holds api w.peers peers name h.holds.holds in
        elim (Bool-cases (has_text (translate_peer_name name) peers)) [
          | inl here ↦
              (record w { peers = t }, rw (found ∙ ap ok here, removed-fine) refl, refl, gone_after)
          | inr gone ↦ (w, rw (found ∙ ap ok gone) refl, refl, found ∙ ap ok gone)
        ]

    unaccounted :
        (x : W)
        → delete_service_account_objects api client outcome x ≡ (
          recorded api
              (recorded api x (delete_binding (account_name api client)))
              (delete_account (account_name api client)),
          ok tt,
        )
    unfolding delete_service_account_objects
    unaccounted x =
        ap
          (λ (r : Result (Unit {0})). caught is_missing done (
            and_then
              (and_then {A = Unit {0}} (x, r)
                (λ _. call api outcome (delete_binding (account_name api client))))
              (λ _. call api outcome (delete_account (account_name api client)))))
          h.accounted
        ∙ rw (call-fine x (delete_binding (account_name api client))) (
            rw
              (call-fine (recorded api x (delete_binding (account_name api client)))
                (delete_account (account_name api client)))
              refl)

    terminate-ok : (on_terminate api client outcome w).1 ≡ ok tt
    unfolding on_terminate
    terminate-ok = caught-ok _

    ended :
        (x y : W)
        → (exists api client >=> remove_peer_if api client outcome) w ≡ (x, ok tt)
        → delete_service_account_objects api client outcome x ≡ (y, ok tt)
        → (on_terminate api client outcome w).0 ≡ (delete_bridges api client outcome bs y).0
    unfolding on_terminate cleanup_all_bridges
    ended x y e f =
        let delete = delete_service_account_objects api client outcome in
        let clean = cleanup_all_bridges api client outcome in
        ap
          (λ (r : Run).
            (caught (λ x. true) done (and_then (and_then r (λ _. delete)) (λ _. clean))).0)
          e
        ∙ ap (λ (r : Run). (caught (λ x. true) done (and_then r (λ _. clean))).0) f
        ∙ caught-world (clean y)
        ∙ ap
            (λ (r : Result (List ListedBridge)).
              (and_then {A = List ListedBridge} (y, r) (delete_bridges api client outcome)).0)
            h.listed

    -- If every call succeeds and what is read is there, then ending a client returns without an
    -- exception, the client is no peer of Stowaway any more, whether it was one before or not, and
    -- the calls that were made are those that delete the binding, the account, and each listed
    -- bridge of this client, in this order and no others, given that no peer was listed twice and
    -- the client's name is not empty.
    pub on_terminate_lem :
        let after = on_terminate api client outcome w in
        (after.1 ≡ ok tt)
        × (peer_exists api name after.0.peers ≡ ok false)
        × (after.0.calls
            ≡ reverse (map delete_bridge (own_bridges api client outcome bs))
              ++ (delete_account (account_name api client)
                  ∷ delete_binding (account_name api client)
                  ∷ w.calls))
    on_terminate_lem =
        let (x, e, same, gone) = unpeered in
        let account = account_name api client in
        let y = recorded api (recorded api x (delete_binding account)) (delete_account account) in
        let left =
          ended x y e (unaccounted x)
          ∙ delete_bridges-calls api client outcome bs y _ (
              ap (λ (r : Result (Unit {0})). ((delete_bridges api client outcome bs y).0, r))
                (delete_bridges-fine bs y)) in
        (
          terminate-ok,
          ap (λ (v : W). peer_exists api name v.peers) left ∙ gone,
          ap (λ (v : W). v.calls) left
              ∙ ap
                  (λ (l : List Call).
                    reverse (map delete_bridge (own_bridges api client outcome bs))
                    ++ (delete_account account ∷ delete_binding account ∷ l))
                  same,
        )
