-- ===== src/Scenarios/Connecting.antt =====
-- The callbacks of a client, in a cluster whose calls succeed.
use gefyra.Prelude.{
  ◌≡◌, refl, ◌⊎◌, Bool, true, false, List, [], ◌∷◌, ◌++◌, map, Option, none, some, Text, codes,
}
use gefyra.Prelude.Dict.{Dict}
use mathlib.Core.List.{reverse}
use gefyra.Result.{Result, ok, err, api_exception}
use gefyra.Stowaway.ConfigMaps.{plain_api}
use gefyra.Stowaway.Peers.{edit_peer_configmap, peer_exists}
use gefyra.Stowaway.Peers.Found.{HoldsUnique}
use gefyra.Stowaway.Wireguard.{get_wireguard_connection_details}
use gefyra.Lifecycle.Clients.{wait}
use gefyra.Lifecycle.Clients.Callbacks.{
  Client, World, ListedBridge, Call, queue, write_account, write_config, create_account,
  create_binding, delete_binding, delete_account, delete_bridge, recorded, call, account_name,
  create_service_account_objects, create_service_account, get_serviceaccount_data, on_create,
  enable_connection, get_peer_config, can_add_client, disable_connection, delete_bridges,
  cleanup_all_bridges, on_terminate,
}
use gefyra.Lifecycle.Clients.Callbacks.Connected.{IsEnabled, enable_connection_lem}
use gefyra.Lifecycle.Clients.Callbacks.Undone.{disable_connection-can_add_client}
use gefyra.Lifecycle.Clients.Callbacks.Cleaned.{own_bridges}
use gefyra.Lifecycle.Clients.Callbacks.Accounts.{IsToken, create_account_retried, on_create_lem}
use gefyra.Lifecycle.Clients.Callbacks.Terminated.{EndsWell, on_terminate_lem}
use gefyra.Scenarios.Peers.{
  peers, store, store-HoldsUnique, added_store, add_run, b-ne-nil, a-ne-nil,
}

abbrev address : Text
address = codes "Interface.Address"

abbrev answers : Text → Result Text
answers pod = ok (codes "[Interface]\nAddress = 192.168.99.2")

abbrev token : Dict Text
token = (codes "token", codes "t") ∷ []

-- The client, which was not connected before, with one bridge of its own.
abbrev bridges : List ListedBridge
bridges =
    record { name = codes "mine"; client = some (codes "b") }
    ∷ record { name = codes "theirs"; client = some (codes "a") }
    ∷ []

abbrev newcomer : Client
newcomer = record {
  name = codes "b";
  unmanaged_accounts = false;
  parameter = ok none;
  restart = ok tt;
  cleanup = ok tt;
  pod = ok (some (codes "stowaway"));
  conf = answers;
  pubkey = λ pod. ok (codes "k");
  bridges = ok bridges;
  role = ok tt;
  account = ok tt;
  token = ok (some token);
  new_token = none;
}

abbrev W : Type 0
W = World plain_api

abbrev fresh : W
fresh = record { peers = store; calls = [] }

abbrev joined : W
joined = record { peers = added_store; calls = [] }

abbrev fine : W → Call → Result (Unit {0})
fine w c = ok tt

-- The binding cannot be made, and an account is made once.

abbrev without_binding : W → Call → Result (Unit {0})
without_binding w (create_binding a) = err (api_exception 403)
without_binding w (create_account a) = elim w.calls [
  | [] ↦ ok tt
  | c ∷ cs ↦ err (api_exception 409)
]
without_binding w c = ok tt

create_account_retried_example :
    let first = create_service_account_objects plain_api newcomer without_binding fresh in
    let account = account_name plain_api newcomer in
    (first ≡ (recorded plain_api fresh (create_account account), err (api_exception 403)))
    × (create_service_account_objects plain_api newcomer without_binding first.0
        ≡ (recorded plain_api fresh (create_account account), ok tt))
create_account_retried_example =
    create_account_retried plain_api newcomer without_binding fresh 403 refl refl refl refl refl

abbrev account : Text
account = account_name plain_api newcomer

abbrev given_account : W
given_account =
    recorded plain_api
      (recorded plain_api
        (recorded plain_api (recorded plain_api fresh (create_account account))
          (create_binding account))
        (write_account account token))
      (queue wait)

create_run : on_create plain_api newcomer fine fresh ≡ (given_account, ok tt)
unfolding on_create create_service_account create_service_account_objects get_serviceaccount_data
    call
create_run = refl

on_create_lem_example :
    ((newcomer.unmanaged_accounts ≡ true) × (given_account ≡ recorded plain_api fresh (queue wait)))
    ⊎ ((newcomer.unmanaged_accounts ≡ false)
        × ((u : W) × (d : Dict Text) × IsToken plain_api newcomer fine d
            × (given_account
                ≡ recorded plain_api
                    (recorded plain_api u (write_account account d))
                    (queue wait))))
on_create_lem_example = on_create_lem plain_api newcomer fine fresh given_account create_run

abbrev details : Dict Text
details = (address, codes "192.168.99.2") ∷ (codes "Interface.PublicKey", codes "k") ∷ []

abbrev enabled : W
enabled = recorded plain_api joined (write_config (some details))

enable_run : enable_connection plain_api newcomer fine joined ≡ (enabled, ok tt)
unfolding enable_connection get_peer_config call peer_exists get_wireguard_connection_details
    gefyra.Stowaway.Peers.peers_of gefyra.Prelude.Dict.lookup gefyra.Prelude.text_eq
    gefyra.Prelude.split_on gefyra.Stowaway.Peers.translate_peer_name gefyra.Prelude.Dict.insert
    gefyra.Prelude.strip gefyra.Prelude.contains_text gefyra.Prelude.starts_with
    gefyra.Prelude.split_once
enable_run = refl

enable_connection_lem_example :
    (d : Dict Text) × (peer_exists plain_api (codes "b") added_store ≡ ok true)
    × (get_wireguard_connection_details newcomer.pod newcomer.conf newcomer.pubkey ≡ ok d)
    × IsEnabled plain_api newcomer fine d joined enabled
enable_connection_lem_example =
    enable_connection_lem plain_api newcomer fine joined enabled enable_run

remove_run : edit_peer_configmap plain_api none (some (codes "b")) none added_store ≡ ok store
unfolding edit_peer_configmap gefyra.Stowaway.Peers.peers_of gefyra.Prelude.Dict.lookup
    gefyra.Prelude.text_eq gefyra.Prelude.split_on gefyra.Stowaway.Peers.translate_peer_name
    gefyra.Prelude.Dict.insert gefyra.Prelude.Dict.remove gefyra.Prelude.join_with
    gefyra.Stowaway.Peers.remove_first
remove_run = refl

disable_connection-can_add_client_example :
    let connected = (can_add_client plain_api newcomer fresh).0 in
    (peer_exists plain_api (codes "b") connected.peers ≡ ok true)
    × (peer_exists plain_api
          (codes "a")
          (disable_connection plain_api newcomer fine connected).0.peers
        ≡ peer_exists plain_api (codes "a") store)
unfolding gefyra.Prelude.text_eq gefyra.Stowaway.Peers.translate_peer_name
disable_connection-can_add_client_example =
    disable_connection-can_add_client plain_api newcomer fine fresh peers none added_store store
      (codes "a") b-ne-nil a-ne-nil store-HoldsUnique refl refl add_run remove_run

abbrev cleaned : W
cleaned = recorded plain_api fresh (delete_bridge (codes "mine"))

clean_run : cleanup_all_bridges plain_api newcomer fine fresh ≡ (cleaned, ok tt)
unfolding cleanup_all_bridges delete_bridges call gefyra.Prelude.text_eq
clean_run = refl

abbrev all_peers : List Text
all_peers = codes "b" ∷ codes "a" ∷ []

joined-HoldsUnique : HoldsUnique plain_api added_store all_peers
unfolding gefyra.Stowaway.Peers.peers_of gefyra.Prelude.Dict.lookup gefyra.Prelude.text_eq
    gefyra.Prelude.split_on
joined-HoldsUnique = record {
  holds = record { data_ = added_store; reads = refl; splits = refl };
  unique = (refl, (refl, tt));
}

joined-EndsWell : EndsWell plain_api newcomer fine joined all_peers store bridges
joined-EndsWell = record {
  named = b-ne-nil;
  holds = joined-HoldsUnique;
  edited = remove_run;
  cleaned = refl;
  accounted = refl;
  listed = refl;
  fine = λ x c. refl;
}

on_terminate_lem_example :
    let after = on_terminate plain_api newcomer fine joined in
    (after.1 ≡ ok tt)
    × (peer_exists plain_api (codes "b") after.0.peers ≡ ok false)
    × (after.0.calls
        ≡ reverse (map delete_bridge (own_bridges plain_api newcomer fine bridges))
          ++ (delete_account account ∷ delete_binding account ∷ []))
on_terminate_lem_example =
    on_terminate_lem plain_api newcomer fine joined all_peers store bridges joined-EndsWell
