-- ===== src/Lifecycle/Clients/Callbacks.antt =====
-- What the transitions of a client call (operator/gefyra/clientstate.py, with the service accounts
-- of operator/gefyra/resources/serviceaccounts.py). An event that a callback sends is queued by the
-- engine and runs when the callback is through; the texts of kopf's events are left out. What is
-- read in a run does not change in it, but the peers of Stowaway do.
pub mod Connected
pub mod Undone
pub mod Cleaned
pub mod Accounts
pub mod Terminated
use gefyra.Prelude.{
  ℕ, Bool, true, false, List, [], ◌∷◌, ◌++◌, Option, none, some, Text, codes, text_eq, ◌==◌,
  if◌then◌else◌,
}
use gefyra.Prelude.Dict.{Dict, lookup, has_key}
use gefyra.Result.{
  Result, ok, err, Error, api_exception, temporary_error, permanent_error, runtime_error, key_error,
  read_error, ◌>>=◌,
}
use gefyra.Lifecycle.Machine.{Action, ◌>=>◌, ◌>&&>◌, done, raise, catching}
use gefyra.Lifecycle.Clients.{Event, wait}
use gefyra.Stowaway.ConfigMaps.{ConfigMapApi}
use gefyra.Stowaway.Peers.{peer_exists, add_peer, remove_peer}
use gefyra.Stowaway.Wireguard.{get_wireguard_connection_details}

-- What a callback does besides the peers, each with what it writes.
pub data Call : Type 0 where
  queue : Event → Call
  -- the patches of serviceAccountName with serviceAccountData, and of providerConfig
  write_account : Text → Dict Text → Call
  write_config : Option (Dict Text) → Call
  delete_bridge : Text → Call
  create_role : Text → Call
  create_account create_binding create_token : Text → Call
  delete_binding delete_account : Text → Call

-- A GefyraBridge as it is listed, with its client.
pub record ListedBridge : Type 0 where
  pub name : Text
  pub client : Option Text

-- The client, the operator's configuration, and what is read in a run. `restart` and `cleanup` are
-- what restarting Stowaway comes to when a peer is added and removed.
pub record Client : Type 0 where
  pub name : Text
  pub unmanaged_accounts : Bool
  pub parameter : Result (Option Text)
  pub restart : Result (Unit {0})
  pub cleanup : Result (Unit {0})
  pub pod : Result (Option Text)
  pub conf : Text → Result Text
  pub pubkey : Text → Result Text
  pub bridges : Result (List ListedBridge)
  pub role : Result (Unit {0})
  pub account : Result (Unit {0})
  -- the data of the token's secret, and of the secret that is created
  pub token : Result (Option (Dict Text))
  pub new_token : Option (Dict Text)

abbrev pub is_missing : Error → Bool
is_missing (api_exception status) = status == 404
is_missing e = false

abbrev pub is_conflict : Error → Bool
is_conflict (api_exception status) = status == 409
is_conflict e = false

-- `except (tarfile.ReadError, KeyError, ApiException)`
abbrev pub is_unreadable : Error → Bool
is_unreadable read_error = true
is_unreadable key_error = true
is_unreadable (api_exception status) = true
is_unreadable e = false

abbrev pub is_api : Error → Bool
is_api (api_exception status) = true
is_api e = false

module _ (api : ConfigMapApi) where
  -- The ConfigMap of the peers, and the calls that were made and succeeded, the last one first.
  pub record World : Type 0 where
    pub peers : api.Store
    pub calls : List Call

  abbrev pub Act {ℓ} : Type ℓ → Type ℓ
  Act A = Action World A

  abbrev pub give {ℓ} : {A : Type ℓ} → A → Act A
  give a w = (w, ok a)

  abbrev pub lift {ℓ} : {A : Type ℓ} → Result A → Act A
  lift r w = (w, r)

  abbrev pub recorded : World → Call → World
  recorded w c = record w { calls = c ∷ w.calls }

  -- `self.wait()`
  abbrev pub send : Event → Act (Unit {0})
  send e w = (recorded w (queue e), ok tt)

  module _ (outcome : World → Call → Result (Unit {0})) where
    -- A call that fails leaves nothing behind.
    abbrev pub made : World → Call → Result (Unit {0}) → World × Result (Unit {0})
    made w c (ok u) = (recorded w c, ok tt)
    made w c (err e) = (w, err e)

    unfoldable pub call : Call → Act (Unit {0})
    call c w = made w c (outcome w c)

    -- `except ApiException`: 500 is tried again, any other one is passed over.
    abbrev pub unless_500 : World × Result (Unit {0}) → World × Result (Unit {0})
    unless_500 (w, err (api_exception status)) =
        if status == 500 then (w, err temporary_error) else (w, ok tt)
    unless_500 r = r

    abbrev pub on_unless_500 : World × Result Bool → World × Result Bool
    on_unless_500 (w, err (api_exception status)) =
        if status == 500 then (w, err temporary_error) else (w, ok true)
    on_unless_500 r = r

    abbrev pub clear_if : Bool → Act (Unit {0})
    clear_if false = done
    clear_if true = call (write_config none)

  module _ (client : Client) where
    open client use {name, role, account, token, new_token}

    abbrev pub is_own : ListedBridge → Bool
    is_own b = elim b.client [ none ↦ false | some c ↦ text_eq c name ]

    abbrev with_peers {ℓ} : {A : Type ℓ} → World → api.Store × Result A → World × Result A
    with_peers w (s, r) = (record w { peers = s }, r)

    abbrev exists : Act Bool
    exists w = (w, peer_exists api name w.peers)

    abbrev pub removed : Act Bool
    removed w = with_peers w (remove_peer api client.cleanup name w.peers)

    abbrev pub added : Option Text → Act (Unit {0})
    added subnet w = with_peers w (add_peer api client.restart name subnet w.peers)

    -- `can_add_client`
    abbrev pub add_unless : Bool → Act Bool
    add_unless true = give true
    add_unless false = lift client.parameter >=> λ subnet. added subnet >=> λ u. give true

    unfoldable pub can_add_client : Act Bool
    can_add_client = exists >=> add_unless

    -- `get_peer_config`
    abbrev pub details_if : Bool → Act (Dict Text)
    details_if true = lift (get_wireguard_connection_details client.pod client.conf client.pubkey)
    details_if false = raise runtime_error

    unfoldable pub get_peer_config : Act (Dict Text)
    get_peer_config = exists >=> details_if

    -- `f"gefyra-client-{name}"`
    abbrev pub account_name : Text
    account_name = codes "gefyra-client-" ++ name

    module _ (outcome : World → Call → Result (Unit {0})) where
      -- The event with `conn_data["Interface.Address"]`.
      abbrev address_there : Dict Text → Result (Unit {0})
      address_there d = if has_key (codes "Interface.Address") d then ok tt else err key_error

      abbrev pub write_details : Dict Text → Act (Unit {0})
      write_details d w =
          unless_500 outcome ((call outcome (write_config (some d)) >&&> lift (address_there d)) w)

      -- `enable_connection`
      unfoldable pub enable_connection : Act (Unit {0})
      unfolding get_peer_config call
      enable_connection =
          catching is_unreadable (raise temporary_error) get_peer_config >=> write_details

      -- The `try` of `disable_connection`, with whether the method goes on.
      abbrev pub remove_if : Bool → Act Bool
      remove_if false = give false
      remove_if true = removed >=> λ b. give true

      -- `disable_connection`
      unfoldable pub disable_connection : Act (Unit {0})
      unfolding call
      disable_connection =
          (λ w. on_unless_500 outcome ((exists >=> remove_if) w)) >=> clear_if outcome

      -- The loop of `cleanup_all_bridges`.
      unfoldable pub delete_bridges : List ListedBridge → Act (Unit {0})
      unfolding call
      delete_bridges [] = done
      delete_bridges (b ∷ bs) =
          let rest = delete_bridges bs in
          let delete = (call outcome (delete_bridge b.name) >&&> rest) in
          if is_own b then delete else rest

      -- `cleanup_all_bridges`
      unfoldable pub cleanup_all_bridges : Act (Unit {0})
      unfolding delete_bridges
      cleanup_all_bridges = lift client.bridges >=> delete_bridges

      -- `on_disable`
      unfoldable pub on_disable : Act (Unit {0})
      unfolding cleanup_all_bridges
      on_disable = cleanup_all_bridges >&&> send wait

      abbrev pub read_role : Act (Unit {0})
      read_role = catching is_missing (call outcome (create_role name)) (lift role)

      -- `handle_create_gefyraclient_serviceaccount`; a role that is created allows the client of this
      -- name to be deleted
      unfoldable pub create_service_account_objects : Act (Unit {0})
      unfolding call
      create_service_account_objects =
          read_role
          >&&> catching is_conflict done (
              call outcome (create_account account_name)
              >&&> call outcome (create_binding account_name))

      -- `handle_delete_gefyraclient_serviceaccount`
      unfoldable pub delete_service_account_objects : Act (Unit {0})
      unfolding call
      delete_service_account_objects = catching is_missing done (
          lift account
          >&&> call outcome (delete_binding account_name)
          >&&> call outcome (delete_account account_name))

      abbrev pub data_or_retry : Option (Dict Text) → Act (Dict Text)
      data_or_retry none = raise temporary_error
      data_or_retry (some d) = give d

      abbrev pub created_token : Act (Option (Dict Text))
      created_token =
          catching is_api (raise permanent_error)
            (call outcome (create_token account_name) >=> λ u. give new_token)

      -- `get_serviceaccount_data`
      unfoldable pub get_serviceaccount_data : Act (Dict Text)
      unfolding call
      get_serviceaccount_data =
          catching is_api (raise permanent_error) (catching is_missing created_token (lift token))
          >=> data_or_retry

      -- `create_service_account`
      unfoldable pub create_service_account : Act (Unit {0})
      unfolding create_service_account_objects get_serviceaccount_data call
      create_service_account =
          create_service_account_objects
          >&&> (get_serviceaccount_data >=> λ d.
              call outcome (write_account account_name d) >&&> send wait)

      -- `on_create`
      unfoldable pub on_create : Act (Unit {0})
      unfolding create_service_account
      on_create = if client.unmanaged_accounts then send wait else create_service_account

      abbrev pub remove_peer_if : Bool → Act (Unit {0})
      remove_peer_if false = done
      remove_peer_if true = removed >=> λ b. done

      -- `on_terminate`; whatever goes wrong is logged only
      unfoldable pub on_terminate : Act (Unit {0})
      unfolding delete_service_account_objects cleanup_all_bridges
      on_terminate =
          catching (λ e. true) done
            (exists >=> remove_peer_if >&&> delete_service_account_objects >&&> cleanup_all_bridges)
