-- ===== src/Lifecycle/Bridges/Callbacks.antt =====
-- What the transitions of a bridge call (operator/gefyra/bridgestate.py). An event that a callback
-- sends is queued by the engine and runs when the callback is through.
use gefyra.Prelude.{Bool, List, ◌∷◌}
use gefyra.Result.{Result, ok, err, Error, bridge_install_exception, temporary_error}
use gefyra.Lifecycle.Machine.{Action, ◌>=>◌, ◌>&&>◌, raise, catching, Engine}
use gefyra.Lifecycle.BridgeStates.{Event, set_installed, establish, impair, terminate, next}
use gefyra.Lifecycle.Bridges.{
  false, true, BridgeApi, handle_proxyroute_setup, handle_proxyroute_teardown,
}

abbrev is_install_failure : Error → Bool
is_install_failure bridge_install_exception = true
is_install_failure e = false

module _ (machine : Engine next) (api : BridgeApi machine) where
  open machine use {World}

  -- The world with the events that were sent, the last one first.
  pub record Queued : Type 0 where
    pub world : World
    pub sent : List Event

  abbrev pub send : Event → Action Queued (Unit {0})
  send e q = (record q { sent = e ∷ q.sent }, ok tt)

  abbrev pub placed {ℓ} : {A : Type ℓ} → Queued → World × Result A → Queued × Result A
  placed q (w, r) = (record q { world = w }, r)

  abbrev pub inside {ℓ} : {A : Type ℓ} → Action World A → Action Queued A
  inside act q = placed q (act q.world)

  -- The bridge provider's `install` and `ready`.
  module _ (provider_install : Action World (Unit {0})) (provider_ready : Action World Bool) where
    abbrev installed_or_wait : Bool → Action Queued (Unit {0})
    installed_or_wait true = send set_installed
    installed_or_wait false = inside api.post_event >&&> raise temporary_error

    -- `_wait_for_provider`
    unfoldable pub wait_for_provider : Action Queued (Unit {0})
    wait_for_provider = inside provider_ready >=> installed_or_wait

    -- `_install_provider`
    unfoldable pub install_provider : Action Queued (Unit {0})
    unfolding wait_for_provider
    install_provider =
        catching is_install_failure (send impair) (inside provider_install >&&> wait_for_provider)

  -- The `except` of `on_activate`, and the end of its `try`.
  abbrev pub establish_or_impair : Queued × Result (Unit {0}) → Queued × Result (Unit {0})
  establish_or_impair (q, ok u) = send establish q
  establish_or_impair (q, err e) = send impair q

  -- `on_activate`, after its event is posted
  unfoldable pub activated : Action Queued (Unit {0})
  activated q = establish_or_impair (inside (handle_proxyroute_setup machine api api.destination) q)

  -- `on_activate`
  unfoldable pub on_activate : Action Queued (Unit {0})
  unfolding activated
  on_activate = inside api.post_event >&&> activated

  -- `on_restore`
  unfoldable pub on_restore : Action Queued (Unit {0})
  on_restore = send set_installed

  -- `on_remove`
  unfoldable pub on_remove : Action Queued (Unit {0})
  on_remove = inside api.post_event >&&> send terminate

  -- `on_terminate`
  unfoldable pub on_terminate : Action Queued (Unit {0})
  on_terminate = inside (handle_proxyroute_teardown machine api api.destination)
