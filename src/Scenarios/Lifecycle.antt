-- ===== src/Scenarios/Lifecycle.antt =====
-- Clients with an engine whose callbacks do nothing.
use gefyra.Prelude.{◌≡◌, refl, ◌⊎◌, none, some}
use gefyra.Result.{ok, err, transition_not_allowed}
use gefyra.Lifecycle.Machine.{done, Runs, stay, step, plain_engine}
use gefyra.Lifecycle.Clients
use gefyra.Lifecycle.Clients.{
  State, next, same_state, ClientApi, client_created, client_connection_changed, client_deleted,
  client_reconcile,
}
use gefyra.Lifecycle.Clients.Paths.{client_deleted_lem}

abbrev client_api : ClientApi (plain_engine next)
client_api = record {
  now = λ s. 10;
  sunset = λ s. some 7;
  age_limit = λ s. none;
  active_since = λ s. none;
  post_event = done;
  clear_status = done;
  delete_object = done;
  post_event-keeps = λ s. refl;
  clear_status-keeps = λ s. refl;
  delete_object-keeps = λ s. refl;
}

enable_step : next Clients.enable Clients.waiting ≡ some Clients.enabling
unfolding next
enable_step = refl

activate_step : next Clients.activate Clients.enabling ≡ some Clients.active
unfolding next
activate_step = refl

abbrev connecting : Runs next Clients.waiting Clients.active
connecting = step Clients.enable enable_step (step Clients.activate activate_step stay)

client_deleted_lem_example :
    ((Clients.enabling ≡ Clients.enabling ⊎ Clients.enabling ≡ Clients.disabling)
      → client_deleted (plain_engine next) client_api Clients.enabling
        ≡ (Clients.enabling, err transition_not_allowed))
    × ((v : State)
        → client_deleted (plain_engine next) client_api Clients.enabling ≡ (v, ok tt)
        → v ≡ Clients.terminating)
client_deleted_lem_example = client_deleted_lem (plain_engine next) client_api Clients.enabling
