-- ===== src/Lifecycle/MountStates/Paths.antt =====
-- Which ways a bridge mount can go, by its transitions.
use gefyra.Prelude.{
  ◌≡◌, refl, arith, Bool, true, not, ◌||◌, List, [], ◌∷◌, Option, none, some, all, Bool-cases, inl,
  inr,
}
use gefyra.Lifecycle.Machine.{Runs, stay, step, passes}
use gefyra.Lifecycle.MountStates.{
  State, requested, preparing, installing, active, restoring, error, missing, terminated, Event,
  arrange, install, activate, restore, impair, mark_missing, recover, terminate, next, same_state,
}

abbrev states : List State
states = requested ∷ preparing ∷ installing ∷ active ∷ restoring ∷ error ∷ missing ∷ terminated ∷ []

abbrev events : List Event
events = arrange ∷ install ∷ activate ∷ restore ∷ impair ∷ mark_missing ∷ recover ∷ terminate ∷ []

-- What a test finds for all states, or for all events, holds for each.
for_state : (p : State → Bool) → all p states ≡ true → (s : State) → p s ≡ true
for_state p h requested = ground (arith, h)
for_state p h preparing = ground (arith, h)
for_state p h installing = ground (arith, h)
for_state p h active = ground (arith, h)
for_state p h restoring = ground (arith, h)
for_state p h error = ground (arith, h)
for_state p h missing = ground (arith, h)
for_state p h terminated = ground (arith, h)

for_event : (p : Event → Bool) → all p events ≡ true → (e : Event) → p e ≡ true
for_event p h arrange = ground (arith, h)
for_event p h install = ground (arith, h)
for_event p h activate = ground (arith, h)
for_event p h restore = ground (arith, h)
for_event p h impair = ground (arith, h)
for_event p h mark_missing = ground (arith, h)
for_event p h recover = ground (arith, h)
for_event p h terminate = ground (arith, h)

abbrev leads : (State → Bool) → Option State → Bool
leads test none = true
leads test (some t) = test t

abbrev pub is_installing : State → Bool
is_installing s = same_state s installing

abbrev pub is_preparing : State → Bool
is_preparing s = same_state s preparing

-- The states from which a mount has still to be installed.
abbrev pub is_outside : State → Bool
is_outside s = not (is_installing s || same_state s active)

outside_steps :
    all
      (λ e.
        all
          (λ s. not (is_outside s) || leads (λ t. is_outside t || is_installing t) (next e s))
          states)
      events
    ≡ true
unfolding next
outside_steps = refl

is_outside-next :
    (e : Event) (s t : State)
    → is_outside s ≡ true
    → next e s ≡ some t
    → (is_outside t || is_installing t) ≡ true
is_outside-next e s t h n =
    let table =
      for_state (λ s. not (is_outside s) || leads (λ t. is_outside t || is_installing t) (next e s))
        (for_event
          (λ e.
            all (λ s. not (is_outside s) || leads (λ t. is_outside t || is_installing t) (next e s))
              states)
          outside_steps e)
        s in
    rw (h, n) at table

-- Along the transitions, a mount that is neither INSTALLING nor ACTIVE becomes ACTIVE only by way
-- of INSTALLING.
pub passes-is_installing :
    (s : State) (r : Runs next s active) → is_outside s ≡ true → passes next is_installing r ≡ true
unfolding passes
passes-is_installing active stay h = cc
passes-is_installing s (step {t = t} e n r) h = elim (Bool-cases (is_installing t)) [
  | inl there ↦ rw there
  | inr elsewhere ↦
      rw elsewhere (passes-is_installing t r (ground (arith, is_outside-next e s t h n, elsewhere)))
]

-- A mount is missing or terminated.
abbrev pub is_lost : State → Bool
is_lost s = same_state s missing || same_state s terminated

lost_steps :
    all
      (λ e.
        all (λ s. not (is_lost s) || leads (λ t. is_lost t || is_preparing t) (next e s)) states)
      events
    ≡ true
unfolding next
lost_steps = refl

is_lost-next :
    (e : Event) (s t : State)
    → is_lost s ≡ true
    → next e s ≡ some t
    → (is_lost t || is_preparing t) ≡ true
is_lost-next e s t h n =
    let table =
      for_state (λ s. not (is_lost s) || leads (λ t. is_lost t || is_preparing t) (next e s))
        (for_event
          (λ e.
            all (λ s. not (is_lost s) || leads (λ t. is_lost t || is_preparing t) (next e s))
              states)
          lost_steps e)
        s in
    rw (h, n) at table

-- Along the transitions, a mount that is MISSING or TERMINATED stays so, or it comes back by way
-- of PREPARING.
pub passes-is_preparing :
    (s t : State) (r : Runs next s t)
    → is_lost s ≡ true
    → (is_lost t || passes next is_preparing r) ≡ true
unfolding passes
passes-is_preparing s t stay h = rw h
passes-is_preparing s t (step {t = m} e n r) h = elim (Bool-cases (is_preparing m)) [
  | inl there ↦ rw there (ground arith)
  | inr elsewhere ↦
      rw elsewhere (passes-is_preparing m t r (ground (arith, is_lost-next e s m h n, elsewhere)))
]

pub same_terminated : (t : State) → same_state t terminated ≡ true → t ≡ terminated
same_terminated requested h = cc
same_terminated preparing h = cc
same_terminated installing h = cc
same_terminated active h = cc
same_terminated restoring h = cc
same_terminated error h = cc
same_terminated missing h = cc
same_terminated terminated h = refl

end_steps : all (λ e. leads (λ t. same_state t terminated) (next e terminated)) events ≡ true
unfolding next
end_steps = refl

next_terminated : (e : Event) (t : State) → next e terminated ≡ some t → t ≡ terminated
next_terminated e t n = same_terminated t (
    rw n at (for_event (λ e. leads (λ t. same_state t terminated) (next e terminated)) end_steps e))

pub Runs-terminated : (s t : State) → s ≡ terminated → Runs next s t → t ≡ terminated
Runs-terminated s t h stay = h
Runs-terminated s t h (step {t = m} e n r) = Runs-terminated m t (next_terminated e m (rw h at n)) r

pub next_terminate : (s : State) → next terminate s ≡ some terminated
unfolding next
next_terminate requested = refl
next_terminate preparing = refl
next_terminate installing = refl
next_terminate active = refl
next_terminate restoring = refl
next_terminate error = refl
next_terminate missing = refl
next_terminate terminated = refl

pub same_active : (t : State) → same_state t active ≡ true → t ≡ active
same_active requested h = cc
same_active preparing h = cc
same_active installing h = cc
same_active active h = refl
same_active restoring h = cc
same_active error h = cc
same_active missing h = cc
same_active terminated h = cc
