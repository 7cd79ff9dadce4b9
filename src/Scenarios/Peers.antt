-- ===== src/Scenarios/Peers.antt =====
-- Peers of Stowaway in a store that never fails.
use gefyra.Prelude.{
  List, ◌≡◌, ◌≢◌, refl, [], ◌∷◌, none, some, Text, codes, text_eq, ◌||◌, ◌&&◌, not, has_text, false,
  split_on,
}
use gefyra.Prelude.Dict.{lookup}
use gefyra.Result.{ok}
use gefyra.Stowaway.ConfigMaps.{Data, plain_api}
use gefyra.Stowaway.Peers.{
  translate_peer_name, edit_peer_configmap, peer_exists, add_peer, remove_peer, peers_key, is_plain,
}
use gefyra.Stowaway.Peers.Edits.{with_peer, without_peer}
use gefyra.Stowaway.Peers.Refined.{
  adding, removing, Ran, nothing_ran, then_added, then_removed, all_in_set, peer_exists-Ran,
}
use gefyra.Stowaway.Peers.Found.{HoldsUnique, add_peer_lem, remove_peer_lem}

abbrev pub peers : List Text
peers = codes "a" ∷ []

abbrev pub store : Data
store = some ((peers_key, codes "a") ∷ [])

pub store-HoldsUnique : HoldsUnique plain_api store peers
unfolding gefyra.Stowaway.Peers.peers_of lookup text_eq split_on
store-HoldsUnique = record {
  holds = record { data_ = store; reads = refl; splits = refl };
  unique = (refl, tt);
}

abbrev pub added_store : Data
added_store = some ((peers_key, codes "b,a") ∷ [])

pub add_run : edit_peer_configmap plain_api (some (codes "b")) none none store ≡ ok added_store
unfolding edit_peer_configmap gefyra.Stowaway.Peers.peers_of lookup text_eq split_on
    translate_peer_name gefyra.Prelude.Dict.update gefyra.Prelude.Dict.insert
    gefyra.Prelude.join_with
add_run = refl

pub b-ne-nil : ◌≢◌ {A = Text} (codes "b") []
b-ne-nil e = cc

pub a-ne-nil : ◌≢◌ {A = Text} (codes "a") []
a-ne-nil e = cc

add_peer_lem_example :
    let after = (add_peer plain_api (ok tt) (codes "b") none store).0 in
    (peer_exists plain_api (codes "b") after
      ≡ ok (
          text_eq (translate_peer_name (codes "b")) (translate_peer_name (codes "b"))
          || has_text (translate_peer_name (codes "b")) peers))
    × HoldsUnique plain_api after (with_peer (translate_peer_name (codes "b")) peers)
add_peer_lem_example =
    add_peer_lem plain_api (ok tt) store added_store peers (codes "b") (codes "b") none b-ne-nil
      store-HoldsUnique add_run

abbrev bare_store : Data
bare_store = some ((peers_key, []) ∷ [])

remove_run : edit_peer_configmap plain_api none (some (codes "a")) none store ≡ ok bare_store
unfolding edit_peer_configmap gefyra.Stowaway.Peers.peers_of lookup text_eq split_on
    translate_peer_name gefyra.Prelude.Dict.insert gefyra.Prelude.Dict.remove
    gefyra.Prelude.join_with gefyra.Stowaway.Peers.remove_first
remove_run = refl

remove_peer_lem_example :
    let after = (remove_peer plain_api (ok tt) (codes "a") store).0 in
    (peer_exists plain_api (codes "a") after
      ≡ ok (
          not (text_eq (translate_peer_name (codes "a")) (translate_peer_name (codes "a")))
          && has_text (translate_peer_name (codes "a")) peers))
    × HoldsUnique plain_api after (without_peer (translate_peer_name (codes "a")) peers)
remove_peer_lem_example =
    remove_peer_lem plain_api (ok tt) store bare_store peers (codes "a") (codes "a") a-ne-nil
      a-ne-nil store-HoldsUnique remove_run

abbrev last_store : Data
last_store = some ((peers_key, codes "b") ∷ [])

both-Ran :
    Ran plain_api store
      (adding (codes "b") none (ok tt) ∷ removing (codes "a") (ok tt) ∷ [])
      last_store
unfolding edit_peer_configmap gefyra.Stowaway.Peers.peers_of lookup text_eq split_on add_peer
    remove_peer translate_peer_name gefyra.Prelude.Dict.update gefyra.Prelude.Dict.insert
    gefyra.Prelude.Dict.remove gefyra.Prelude.join_with gefyra.Stowaway.Peers.remove_first
both-Ran =
    then_added {r = added_store} (codes "b") none (ok tt) b-ne-nil refl
      (then_removed {r = last_store} (codes "a") (ok tt) a-ne-nil refl nothing_ran)

peer_exists-Ran_example :
    peer_exists plain_api (codes "b") last_store
    ≡ ok (
        all_in_set
          (adding (codes "b") none (ok tt) ∷ removing (codes "a") (ok tt) ∷ [])
          (λ u. has_text u peers)
          (translate_peer_name (codes "b")))
peer_exists-Ran_example =
    peer_exists-Ran plain_api peers (codes "b") b-ne-nil store-HoldsUnique both-Ran
