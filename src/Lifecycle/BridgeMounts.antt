-- ===== src/Lifecycle/BridgeMounts.antt =====
-- Bridge mounts: the handlers (operator/gefyra/handler/bridge_mounts.py) and what they ask of the
-- state machine besides its events (operator/gefyra/bridge_mount_state.py). Times are natural numbers of seconds. What the provider
-- of a mount and the Kubernetes API do is the record `MountApi`.
pub mod Outcomes
pub mod Lost
pub mod Callbacks
use gefyra.Prelude.{
  ◌≡◌, ℕ, ◌+◌, Bool, true, false, not, ◌||◌, ◌&&◌, ◌==◌, leb, List, [], ◌∷◌, Option, none, some,
  if◌then◌else◌,
}
use gefyra.Result.{
  Result, ok, err, Error, api_exception, mount_target_exception, temporary_error,
  transition_not_allowed,
}
use gefyra.Lifecycle.Machine.{Action, ◌>=>◌, ◌>&&>◌, done, raise, steps, when, catching, Engine}
use gefyra.Lifecycle.MountStates.{
  State, requested, preparing, installing, active, restoring, error, missing, terminated, Event,
  arrange, install, activate, restore, impair, mark_missing, recover, terminate, next, same_state,
}

abbrev is_refused : Error → Bool
is_refused transition_not_allowed = true
is_refused _ = false

abbrev is_target_error : Error → Bool
is_target_error mount_target_exception = true
is_target_error _ = false

abbrev is_gone : Error → Bool
is_gone (api_exception status) = status == 404
is_gone _ = false

abbrev is_api_error : Error → Bool
is_api_error (api_exception status) = true
is_api_error _ = false

abbrev any_error : Error → Bool
any_error e = true

module _ (machine : Engine next) where
  open machine use {World, state, send}

  -- What a handler reads of the mount and asks of its provider, besides its events.
  pub record MountApi : Type 0 where
    pub now : World → ℕ
    pub sunset : World → Option ℕ
    pub was_active : World → Bool
    pub missing_since : World → Option ℕ
    pub own_grace_period : World → Option ℕ
    pub default_grace_period : ℕ
    pub prepared : Action World Bool
    pub ready : Action World Bool
    pub target_there : Action World Bool
    pub post_event : Action World (Unit {0})
    pub delete_object : Action World (Unit {0})

  abbrev pub is : State → World → Bool
  is s w = same_state (state w) s

  module _ (api : MountApi) where
    open api use {
      now, sunset, was_active, missing_since, own_grace_period, default_grace_period, prepared,
      ready, target_there, post_event, delete_object,
    }

    abbrev pub give {ℓ} : {A : Type ℓ} → A → Action World A
    give a w = (w, ok a)

    abbrev pub reached : Option ℕ → ℕ → Bool
    reached none time = false
    reached (some end) time = leb end time

    abbrev pub told_so : Action World Bool
    told_so = post_event >=> λ _. give true

    -- `should_terminate`
    unfoldable pub should_terminate : Action World Bool
    should_terminate w =
        let told = told_so w in if reached (sunset w) (now w) then told else (w, ok false)

    -- `target_exists`
    unfoldable pub target_exists : Action World Bool
    target_exists = catching any_error (give false) target_there

    abbrev or_default : Option ℕ → ℕ
    or_default none = default_grace_period
    or_default (some period) = period

    abbrev expired_since : Option ℕ → ℕ → ℕ → Bool
    expired_since none period time = false
    expired_since (some since) period time = leb (since + period) time

    -- `missing_grace_period_expired`
    unfoldable pub missing_grace_period_expired : World → Bool
    missing_grace_period_expired w =
        expired_since (missing_since w) (or_default (own_grace_period w)) (now w)

    abbrev pub then_ready : Bool → Action World Bool
    then_ready false = give false
    then_ready true = ready

    abbrev pub report : Action World Bool
    report = post_event >=> λ _. give false

    -- `is_intact`
    unfoldable pub is_intact : Action World Bool
    is_intact =
        catching any_error report (catching is_target_error (give false) (prepared >=> then_ready))

    abbrev pub activate_or_install : Bool → Action World (Unit {0})
    activate_or_install true = send activate
    activate_or_install false = send install

    abbrev pub finish : Bool → Action World (Unit {0})
    finish false = raise temporary_error
    finish true = ready >=> activate_or_install

    abbrev pub retry_later : Action World (Unit {0}) → Action World (Unit {0})
    retry_later = catching is_refused (raise temporary_error)

    -- The body of the `try` of `bridge_mount_created`, up to its last test.
    abbrev pub start_up_steps : List (Action World (Unit {0}))
    start_up_steps =
        when (is requested) (send arrange)
        ∷ when (is preparing) (send install)
        ∷ when (is installing) (prepared >=> finish)
        ∷ when (is error) (send restore)
        ∷ when (is restoring) (send restore)
        ∷ []

    unfoldable pub start_up : Action World (Unit {0})
    start_up = steps start_up_steps

    -- `bridge_mount_created`
    unfoldable pub bridge_mount_created : Action World (Unit {0})
    bridge_mount_created w =
        let run =
          retry_later (start_up >&&> when (λ w. not (is active w)) (raise temporary_error)) w in
        if was_active w then (w, ok tt) else run

    -- `bridgemount_deleted`
    unfoldable pub bridgemount_deleted : Action World (Unit {0})
    bridgemount_deleted = when (λ w. not (is terminated w)) (send terminate)

    -- `_try_delete_cr`, whose result nothing reads
    unfoldable pub try_delete_cr : Action World (Unit {0})
    try_delete_cr = catching is_api_error done (catching is_gone done delete_object)

    abbrev pub end_if : Bool → Action World (Unit {0})
    end_if expired = elim expired [ true ↦ send terminate >&&> try_delete_cr | false ↦ done ]

    abbrev pub recover_or_wait : Bool → Action World (Unit {0})
    recover_or_wait true = send recover
    recover_or_wait false = λ w. end_if (missing_grace_period_expired w) w

    abbrev pub install_if : Bool → Action World (Unit {0})
    install_if true = send install
    install_if false = done

    abbrev pub restore_unless : Bool → Action World (Unit {0})
    restore_unless true = done
    restore_unless false = send restore

    -- What is done about a mount whose target exists.
    abbrev pub repair_steps : List (Action World (Unit {0}))
    repair_steps =
        when (is requested) (send arrange)
        ∷ when (is error) (send restore)
        ∷ when (is restoring) (send restore)
        ∷ when (λ w. is preparing w || is installing w) (prepared >=> install_if)
        ∷ when (is active) (is_intact >=> restore_unless)
        ∷ []

    unfoldable pub repair : Action World (Unit {0})
    repair = steps repair_steps

    abbrev pub repair_or_mark : Bool → Action World (Unit {0})
    repair_or_mark true = repair
    repair_or_mark false = send mark_missing

    -- The body of the `try` of `bridge_mount_reconcile`.
    abbrev pub watch : Action World (Unit {0})
    watch w =
        let lost = (target_exists >=> recover_or_wait) w in
        let held = (target_exists >=> repair_or_mark) w in if is missing w then lost else held

    abbrev pub end_or_watch : Bool → Action World (Unit {0})
    end_or_watch true = send terminate >&&> try_delete_cr
    end_or_watch false = retry_later watch

    -- `bridge_mount_reconcile`
    unfoldable pub bridge_mount_reconcile : Action World (Unit {0})
    bridge_mount_reconcile w =
        let delete = try_delete_cr w in
        let go = (should_terminate >=> end_or_watch) w in
        if not (was_active w) then (w, ok tt) else if is terminated w then delete else go
