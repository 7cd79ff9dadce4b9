-- ===== src/Lifecycle/Clients.antt =====
-- Clients: the state machine (operator/gefyra/clientstate.py) and the handlers
-- (operator/gefyra/handler/clients.py). The lock of the handlers makes them run one at a time. Times
-- and ages are natural numbers in one unit. What the Kubernetes API does to an object is an action of
-- the record `ClientApi`.
pub mod Paths
pub mod Callbacks
use gefyra.Prelude.{
  ◌≡◌, ℕ, ◌+◌, Bool, true, false, not, ◌||◌, ◌&&◌, ◌==◌, leb, ltb, List, [], ◌∷◌, Option, none,
  some, if◌then◌else◌,
}
use gefyra.Result.{Result, ok, err, Error, api_exception, temporary_error, transition_not_allowed}
use gefyra.Lifecycle.Machine.{Action, ◌>=>◌, ◌>&&>◌, done, raise, when, Engine}

pub data State : Type 0 where
  requested creating waiting enabling active disabling error terminating : State

pub data Event : Type 0 where
  create wait enable activate disable impair terminate : Event

-- The transitions that the class declares, without their conditions and actions.
unfoldable pub next : Event → State → Option State
next create requested = some creating
next create creating = some creating
next create error = some creating
next create waiting = none
next create enabling = none
next create active = none
next create disabling = none
next create terminating = none
next wait creating = some waiting
next wait waiting = some waiting
next wait error = some waiting
next wait disabling = some waiting
next wait requested = none
next wait enabling = none
next wait active = none
next wait terminating = none
next enable waiting = some enabling
next enable error = some enabling
next enable requested = none
next enable creating = none
next enable enabling = none
next enable active = none
next enable disabling = none
next enable terminating = none
next activate enabling = some active
next activate error = some active
next activate active = some active
next activate requested = none
next activate creating = none
next activate waiting = none
next activate disabling = none
next activate terminating = none
next disable active = some disabling
next disable error = some disabling
next disable requested = none
next disable creating = none
next disable waiting = none
next disable enabling = none
next disable disabling = none
next disable terminating = none
next impair requested = some error
next impair creating = some error
next impair waiting = some error
next impair active = some error
next impair error = some error
next impair enabling = none
next impair disabling = none
next impair terminating = none
next terminate requested = some terminating
next terminate creating = some terminating
next terminate waiting = some terminating
next terminate active = some terminating
next terminate error = some terminating
next terminate terminating = some terminating
next terminate enabling = none
next terminate disabling = none

abbrev pub index : State → ℕ
index requested = 0
index creating = 1
index waiting = 2
index enabling = 3
index active = 4
index disabling = 5
index error = 6
index terminating = 7

-- `client.<state>.is_active`
abbrev pub same_state : State → State → Bool
same_state s t = index s == index t

-- `STOWAWAY_MAX_CONNECTION_AGE`, where 0 counts as no limit
abbrev pub max_connection_age : Option ℕ → Option ℕ
max_connection_age none = none
max_connection_age (some age) = if age == 0 then none else some age

module _ (machine : Engine next) where
  open machine use {World, state, send}

  -- What a handler reads of the client and does to it, besides its events.
  pub record ClientApi : Type 0 where
    pub now : World → ℕ
    pub sunset : World → Option ℕ
    pub age_limit : World → Option ℕ
    pub active_since : World → Option ℕ
    pub post_event : Action World (Unit {0})
    pub clear_status : Action World (Unit {0})
    pub delete_object : Action World (Unit {0})
    pub post_event-keeps : (w : World) → state (post_event w).0 ≡ state w
    pub clear_status-keeps : (w : World) → state (clear_status w).0 ≡ state w
    pub delete_object-keeps : (w : World) → state (delete_object w).0 ≡ state w

  abbrev pub is : State → World → Bool
  is s w = same_state (state w) s

  module _ (api : ClientApi) where
    open api use {now, sunset, age_limit, active_since, post_event, clear_status, delete_object}

    abbrev pub reached : Option ℕ → ℕ → Bool
    reached none time = false
    reached (some end) time = leb end time

    abbrev pub told_so : Action World Bool
    told_so = post_event >=> λ _. λ v. (v, ok true)

    -- `should_terminate`
    unfoldable pub should_terminate : Action World Bool
    should_terminate w =
        let told = told_so w in if reached (sunset w) (now w) then told else (w, ok false)

    abbrev exceeded : Option ℕ → Option ℕ → ℕ → Bool
    exceeded none since time = false
    exceeded (some age) none time = false
    exceeded (some age) (some since) time = ltb (since + age) time

    -- `should_disable`
    unfoldable pub should_disable : World → Bool
    should_disable w =
        is active w && exceeded (max_connection_age (age_limit w)) (active_since w) (now w)

    -- `client_created`
    unfoldable pub client_created : Action World (Unit {0})
    client_created = when (λ w. is requested w || is creating w) (send create)

    abbrev pub handled : World × Result (Unit {0}) → World × Result (Unit {0})
    handled (w, err transition_not_allowed) = send impair w
    handled (w, err (api_exception status)) =
        if status == 500 then (w, err temporary_error) else (w, ok tt)
    handled r = r

    -- The body of the `try`.
    abbrev pub attempt : Action World (Unit {0})
    attempt = when (is waiting) (send enable) >&&> when (is enabling) (send activate)

    -- The branch of `client_connection_changed` for parameters that are given.
    unfoldable pub connect : Action World (Unit {0})
    connect w = handled (attempt w)

    -- The branch for parameters that are removed.
    unfoldable pub disconnect : Action World (Unit {0})
    disconnect =
        when (λ w. is active w || is error w) (send disable)
        >&&> when (is disabling) (send wait)
        >&&> clear_status

    unfoldable pub client_connection_changed : Bool → Action World (Unit {0})
    unfolding connect disconnect
    client_connection_changed new = if new then connect else disconnect

    -- `client_deleted`
    unfoldable pub client_deleted : Action World (Unit {0})
    client_deleted = send terminate

    -- `except k8s.client.ApiException: pass`
    abbrev pub passed_over : World × Result (Unit {0}) → World × Result (Unit {0})
    passed_over (w, err (api_exception status)) = (w, ok tt)
    passed_over r = r

    abbrev pub delete_quietly : Action World (Unit {0})
    delete_quietly w = passed_over (delete_object w)

    abbrev pub terminate_if : Bool → Action World (Unit {0})
    terminate_if false = done
    terminate_if true = send terminate >&&> delete_quietly

    -- `client_reconcile`
    unfoldable pub client_reconcile : Action World (Unit {0})
    unfolding should_terminate should_disable
    client_reconcile =
        should_terminate >=> (λ ends. terminate_if ends >&&> when should_disable (send disable))
