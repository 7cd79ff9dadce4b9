-- ===== src/Lifecycle/Clients/Paths.antt =====
-- Which ways a client can go, by its transitions and by the handlers.
use gefyra.Prelude.{
  ◌≡◌, refl, ap, ◌∙◌, ◌⊎◌, inl, inr, arith, Bool, true, not, ◌||◌, ◌&&◌, List, [], ◌∷◌, Option,
  none, some, all, Bool-cases,
}
use gefyra.Result.{ok, err, transition_not_allowed}
use gefyra.Lifecycle.Machine.{Engine, Runs, stay, step, passes}
use gefyra.Lifecycle.Clients.{
  State, requested, creating, waiting, enabling, active, disabling, error, terminating, Event,
  create, wait, enable, activate, disable, impair, terminate, next, same_state, ClientApi,
  client_deleted,
}

abbrev pub gate : State → Bool
gate s = same_state s enabling || same_state s error

abbrev pub idle : State → Bool
idle s = not (gate s) && not (same_state s active)

abbrev states : List State
states = requested ∷ creating ∷ waiting ∷ enabling ∷ active ∷ disabling ∷ error ∷ terminating ∷ []

abbrev events : List Event
events = create ∷ wait ∷ enable ∷ activate ∷ disable ∷ impair ∷ terminate ∷ []

-- What a test finds for all states, or for all events, holds for each.
for_state : (p : State → Bool) → all p states ≡ true → (s : State) → p s ≡ true
for_state p h requested = ground (arith, h)
for_state p h creating = ground (arith, h)
for_state p h waiting = ground (arith, h)
for_state p h enabling = ground (arith, h)
for_state p h active = ground (arith, h)
for_state p h disabling = ground (arith, h)
for_state p h error = ground (arith, h)
for_state p h terminating = ground (arith, h)

for_event : (p : Event → Bool) → all p events ≡ true → (e : Event) → p e ≡ true
for_event p h create = ground (arith, h)
for_event p h wait = ground (arith, h)
for_event p h enable = ground (arith, h)
for_event p h activate = ground (arith, h)
for_event p h disable = ground (arith, h)
for_event p h impair = ground (arith, h)
for_event p h terminate = ground (arith, h)

abbrev leads : (State → Bool) → Option State → Bool
leads test none = true
leads test (some t) = test t

idle_steps :
    all (λ e. all (λ s. not (idle s) || leads (λ t. idle t || gate t) (next e s)) states) events
    ≡ true
unfolding next
idle_steps = refl

end_steps : all (λ e. leads (λ t. same_state t terminating) (next e terminating)) events ≡ true
unfolding next
end_steps = refl

idle-next :
    (e : Event) (s t : State) → idle s ≡ true → next e s ≡ some t → (idle t || gate t) ≡ true
idle-next e s t h n =
    let table =
      for_state (λ s. not (idle s) || leads (λ t. idle t || gate t) (next e s))
        (for_event (λ e. all (λ s. not (idle s) || leads (λ t. idle t || gate t) (next e s)) states)
          idle_steps e)
        s in
    rw (h, n) at table

-- Along the transitions, a client that is neither ACTIVE nor ENABLING nor in ERROR becomes ACTIVE
-- only by way of one of the latter two.
pub passes-gate : (s : State) (r : Runs next s active) → idle s ≡ true → passes next gate r ≡ true
unfolding passes
passes-gate active stay h = cc
passes-gate s (step {t = t} e n r) h = elim (Bool-cases (gate t)) [
  | inl there ↦ rw there
  | inr elsewhere ↦ rw elsewhere (passes-gate t r (ground (arith, idle-next e s t h n, elsewhere)))
]

same_terminating : (t : State) → same_state t terminating ≡ true → t ≡ terminating
same_terminating requested h = cc
same_terminating creating h = cc
same_terminating waiting h = cc
same_terminating enabling h = cc
same_terminating active h = cc
same_terminating disabling h = cc
same_terminating error h = cc
same_terminating terminating h = refl

next_terminating : (e : Event) (t : State) → next e terminating ≡ some t → t ≡ terminating
next_terminating e t n = same_terminating t (
    rw n at
      (for_event (λ e. leads (λ t. same_state t terminating) (next e terminating)) end_steps e))

pub Runs-terminating : (s t : State) → s ≡ terminating → Runs next s t → t ≡ terminating
Runs-terminating s t h stay = h
Runs-terminating s t h (step {t = m} e n r) =
    Runs-terminating m t (next_terminating e m (rw h at n)) r

terminate_steps : all (λ s. leads (λ t. same_state t terminating) (next terminate s)) states ≡ true
unfolding next
terminate_steps = refl

next_terminate : (s t : State) → next terminate s ≡ some t → t ≡ terminating
next_terminate s t n = same_terminating t (
    rw n at
      (for_state (λ s. leads (λ t. same_state t terminating) (next terminate s)) terminate_steps s))

refused_enabling : next terminate enabling ≡ none
unfolding next
refused_enabling = refl

refused_disabling : next terminate disabling ≡ none
unfolding next
refused_disabling = refl

module _ (machine : Engine next) (api : ClientApi machine) where
  open machine use {World, state, send, send-none, send-first}
  open api use {
    clear_status, post_event, delete_object, clear_status-keeps, post_event-keeps,
    delete_object-keeps,
  }

  -- An event that succeeds in ending the client leaves it in its last state.
  pub send_terminate : (w v : World) → send terminate w ≡ (v, ok tt) → state v ≡ terminating
  send_terminate w v e =
      let (t, n, r) = send-first terminate w v e in
      Runs-terminating t (state v) (next_terminate (state w) t n) r

  -- The handler of a deleted client raises TransitionNotAllowed and changes nothing while the
  -- client is ENABLING or DISABLING; and if it returns, the client is TERMINATING.
  pub client_deleted_lem :
      (w : World)
      → ((state w ≡ enabling ⊎ state w ≡ disabling)
          → client_deleted machine api w ≡ (w, err transition_not_allowed))
        × ((v : World) → client_deleted machine api w ≡ (v, ok tt) → state v ≡ terminating)
  unfolding client_deleted
  client_deleted_lem w = (
    λ h. elim h [
      | inl e ↦ send-none terminate w (ap (next terminate) e ∙ refused_enabling)
      | inr e ↦ send-none terminate w (ap (next terminate) e ∙ refused_disabling)
    ],
    λ v e. send_terminate w v e,
  )
