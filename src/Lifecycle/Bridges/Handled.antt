-- ===== src/Lifecycle/Bridges/Handled.antt =====
-- What the handlers of a bridge come to (operator/gefyra/handler/bridges.py).
use gefyra.Prelude.{◌≡◌, refl, ◌⊎◌, inl, inr, Bool, false, Bool-cases}
use gefyra.Result.{Result, ok, err, Error}
use gefyra.Lifecycle.Machine.{Action, ◌>&&>◌, done, when, steps, catching, caught, Engine}
use gefyra.Lifecycle.BridgeStates.{installing, installed, install, activate, terminate, next}
use gefyra.Lifecycle.Bridges.{
  any_error, BridgeApi, is, intact_from, reconcile_steps, bridge_reconcile, bridge_delete,
}

module _ {World : Type 0} where
  caught-quiet : (r : World × Result (Unit {0})) → (caught any_error done r).1 ≡ ok tt
  caught-quiet (w, ok a) = refl
  caught-quiet (w, err e) = refl

  when-quiet :
      (test : World → Bool) (act : Action World (Unit {0})) (w : World)
      → (act w).1 ≡ ok tt
      → (when test act w).1 ≡ ok tt
  when-quiet test act w h = elim (Bool-cases (test w)) [
    | inl holds ↦ rw holds h
    | inr fails ↦ rw fails refl
  ]

module _ (machine : Engine next) (api : BridgeApi machine) where
  open machine use {World, state, send, send-first}
  open api use {port_mappings, was_active}

  -- The handlers that reconcile and delete a bridge return without an exception, whatever the
  -- providers and the state machine raise.
  pub reconcile_delete_quiet :
      (w : World)
      → ((bridge_reconcile machine api w).1 ≡ ok tt) × ((bridge_delete machine api w).1 ≡ ok tt)
  unfolding bridge_reconcile bridge_delete
  reconcile_delete_quiet w = (
    when-quiet was_active (catching any_error done (steps (reconcile_steps machine api))) w
        (caught-quiet (steps (reconcile_steps machine api) w)),
    caught-quiet (send terminate w),
  )

  -- Looking for the routes of the bridge found one that is missing, or raised.
  abbrev pub IsLost : World → World → Type 0
  IsLost w u =
      (intact_from machine api port_mappings w ≡ (u, ok false))
      ⊎ ((x : Error) × (intact_from machine api port_mappings w ≡ (u, err x)))

  -- The steps that follow.
  abbrev later : Action World (Unit {0})
  later =
      when (is machine installing) (send install)
      >&&> (when (is machine installed) (send activate) >&&> done)
