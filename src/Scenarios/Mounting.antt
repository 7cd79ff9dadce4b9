-- ===== src/Scenarios/Mounting.antt =====
-- Bridge mounts with an engine whose callbacks do nothing.
use gefyra.Prelude.{◌≡◌, refl, true, false, none, some}
use gefyra.Result.{ok}
use gefyra.Lifecycle.Machine.{done, Runs, stay, step, plain_engine}
use gefyra.Lifecycle.MountStates
use gefyra.Lifecycle.MountStates.{State, next, same_state}
use gefyra.Lifecycle.BridgeMounts.{MountApi, bridge_mount_created, bridgemount_deleted}
use gefyra.Lifecycle.BridgeMounts.Outcomes.{
  bridge_mount_created-active, bridgemount_deleted-terminated,
}

abbrev mount_api : MountApi (plain_engine next)
mount_api = record {
  now = λ s. 10;
  sunset = λ s. none;
  was_active = λ s. false;
  missing_since = λ s. none;
  own_grace_period = λ s. none;
  default_grace_period = 300;
  prepared = λ s. (s, ok true);
  ready = λ s. (s, ok true);
  target_there = λ s. (s, ok true);
  post_event = done;
  delete_object = done;
}

created_run :
    bridge_mount_created (plain_engine next) mount_api MountStates.requested
    ≡ (MountStates.active, ok tt)
unfolding bridge_mount_created gefyra.Lifecycle.BridgeMounts.start_up next
created_run = refl

bridge_mount_created-active_example : MountStates.active ≡ MountStates.active
bridge_mount_created-active_example =
    bridge_mount_created-active (plain_engine next) mount_api MountStates.requested
      MountStates.active refl created_run

deleted_run :
    bridgemount_deleted (plain_engine next) mount_api MountStates.missing
    ≡ (MountStates.terminated, ok tt)
unfolding bridgemount_deleted next
deleted_run = refl

recover_step : next MountStates.recover MountStates.missing ≡ some MountStates.preparing
unfolding next
recover_step = refl

install_step : next MountStates.install MountStates.preparing ≡ some MountStates.installing
unfolding next
install_step = refl

activate_step : next MountStates.activate MountStates.installing ≡ some MountStates.active
unfolding next
activate_step = refl

abbrev recovering : Runs next MountStates.missing MountStates.active
recovering =
    step MountStates.recover recover_step
      (step MountStates.install install_step (step MountStates.activate activate_step stay))

-- A mount that was active and has lost its target.
abbrev lost_api : MountApi (plain_engine next)
lost_api = record mount_api { was_active = λ s. true; target_there = λ s. (s, ok false) }

bridgemount_deleted-terminated_example : MountStates.terminated ≡ MountStates.terminated
bridgemount_deleted-terminated_example =
    bridgemount_deleted-terminated (plain_engine next) mount_api MountStates.missing
      MountStates.terminated deleted_run
