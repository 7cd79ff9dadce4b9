-- ===== src/Lifecycle/BridgeMounts/Callbacks.antt =====
-- What the transitions of a bridge mount call (operator/gefyra/bridge_mount_state.py), over the
-- provider of the mount as an interface. An event that a callback sends is queued by the engine and
-- runs when the callback is through; the texts of kopf's events are left out.
pub mod Installed
pub mod Ended
use gefyra.Prelude.{Bool, true, false, List, [], ◌∷◌, Text, if◌then◌else◌}
use gefyra.Result.{Result, ok, err, Error, mount_install_exception, value_error, temporary_error}
use gefyra.Cluster.{LivePod}
use gefyra.Lifecycle.Machine.{Action, ◌>=>◌, ◌>&&>◌, done, raise, catching}
use gefyra.Lifecycle.MountStates.{Event, arrange, activate, impair}
use gefyra.Mount.Calls.{Call, Trace, Step}
use gefyra.Mount.Prepare.{Prepared, prepare}
use gefyra.Mount.Install.{Mounted, install}
use gefyra.Mount.Removal.{Removed, uninstall}
use gefyra.Mount.Ready.{Watched, shadow_ready, prepared, ready}

-- AbstractGefyraBridgeMountProvider, as far as the callbacks use it
-- (operator/gefyra/bridge_mount/abstract.py), with `_duplicated_pods_ready`.
pub record MountProvider : Type 0 where
  pub prepare : Step
  pub install : Step
  pub uninstall : Step
  pub shadow_ready : Action Trace Bool
  pub prepared : Action Trace Bool
  pub ready : Action Trace Bool

-- The provider for Carrier2, from what it reads in each operation.
abbrev pub carrier2mount :
    {Raw : Type 0} (outcome : Trace → Call → Result (Unit {0}))
    → Prepared
    → Text
    → Mounted Raw
    → Result (List LivePod)
    → Removed
    → Watched
    → MountProvider
carrier2mount outcome new uuid mounted pods removed watched = record {
  prepare = prepare new outcome uuid;
  install = install mounted outcome pods;
  uninstall = uninstall removed outcome;
  shadow_ready = shadow_ready watched outcome;
  prepared = prepared watched outcome;
  ready = ready watched outcome;
}

-- A bridge that was deleted, with the provider's calls that were made before.
pub record Deletion : Type 0 where
  pub bridge : Text
  pub before : Trace

-- The calls of the provider, the events that were sent and the bridges that were deleted, each the
-- last one first.
pub record World : Type 0 where
  pub trace : Trace
  pub sent : List Event
  pub deleted : List Deletion

abbrev pub send : Event → Action World (Unit {0})
send e w = (record w { sent = e ∷ w.sent }, ok tt)

abbrev pub deletion : World → Text → Deletion
deletion w b = record { bridge = b; before = w.trace }

abbrev pub traced {ℓ} : {A : Type ℓ} → World → Trace × Result A → World × Result A
traced w (trace, r) = (record w { trace = trace }, r)

abbrev pub provided {ℓ} : {A : Type ℓ} → Action Trace A → Action World A
provided act w = traced w (act w.trace)

-- `except (BridgeMountInstallException, ValueError)`
abbrev pub is_refused : Error → Bool
is_refused mount_install_exception = true
is_refused value_error = true
is_refused e = false

abbrev pub any_error : Error → Bool
any_error e = true

module _ (provider : MountProvider) where
  -- `on_mark_missing`
  unfoldable pub on_mark_missing : Action World (Unit {0})
  on_mark_missing = catching any_error done (provided provider.uninstall)

  -- `on_restore`
  unfoldable pub on_restore : Action World (Unit {0})
  on_restore = send arrange

  -- `on_arrange`
  unfoldable pub on_arrange : Action World (Unit {0})
  on_arrange = catching is_refused (send impair) (provided provider.prepare)

  -- `_bridge_mount_prepared`, with whether the mount is PREPARING
  unfoldable pub bridge_mount_prepared : Bool → Action World Bool
  bridge_mount_prepared preparing =
      (if preparing then provided provider.shadow_ready else provided provider.prepared)
      >=> λ there. if there then (λ w. (w, ok true)) else raise temporary_error

  -- The `except` and the `else` of `on_install`.
  abbrev pub activate_or_impair : World × Result (Unit {0}) → World × Result (Unit {0})
  activate_or_impair (w, ok u) = send activate w
  activate_or_impair (w, err e) = send impair w

  -- `on_install`
  unfoldable pub on_install : Action World (Unit {0})
  on_install w = activate_or_impair (provided provider.install w)

  -- `_bridge_mount_finished`
  unfoldable pub bridge_mount_finished : Action World Bool
  bridge_mount_finished = provided provider.ready

  -- The names of the bridges as they are listed, and what deleting one comes to.
  module _ (bridges : Result (List Text)) (delete : World → Text → Result (Unit {0})) where
    abbrev forgotten : Text → World → Result (Unit {0}) → World × Result (Unit {0})
    forgotten b w (ok u) = (record w { deleted = deletion w b ∷ w.deleted }, ok tt)
    forgotten b w (err e) = (w, err e)

    -- The loop of `cleanup_all_bridges`.
    unfoldable pub delete_each : List Text → Action World (Unit {0})
    delete_each [] = done
    delete_each (b ∷ bs) = (λ w. forgotten b w (delete w b)) >&&> delete_each bs

    -- `cleanup_all_bridges`
    unfoldable pub cleanup_all_bridges : Action World (Unit {0})
    unfolding delete_each
    cleanup_all_bridges = (λ w. (w, bridges)) >=> delete_each

    -- `on_terminate`
    unfoldable pub on_terminate : Action World (Unit {0})
    unfolding cleanup_all_bridges
    on_terminate =
        catching any_error done (provided provider.uninstall)
        >&&> catching any_error done cleanup_all_bridges
