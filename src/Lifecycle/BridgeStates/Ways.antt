-- ===== src/Lifecycle/BridgeStates/Ways.antt =====
-- Which ways a bridge can go, by its transitions.
use gefyra.Prelude.{
  ◌≡◌, refl, arith, Bool, true, not, ◌||◌, List, [], ◌∷◌, Option, none, some, all, Bool-cases, inl,
  inr,
}
use gefyra.Lifecycle.Machine.{Runs, stay, step, passes}
use gefyra.Lifecycle.BridgeStates.{
  State, requested, installing, installed, creating, active, restoring, error, terminating, Event,
  install, set_installed, activate, establish, restore, impair, terminate, next, same_state,
}

abbrev states : List State
states =
    requested ∷ installing ∷ installed ∷ creating ∷ active ∷ restoring ∷ error ∷ terminating ∷ []

abbrev events : List Event
events = install ∷ set_installed ∷ activate ∷ establish ∷ restore ∷ impair ∷ terminate ∷ []

for_state : (p : State → Bool) → all p states ≡ true → (s : State) → p s ≡ true
for_state p h requested = ground (arith, h)
for_state p h installing = ground (arith, h)
for_state p h installed = ground (arith, h)
for_state p h creating = ground (arith, h)
for_state p h active = ground (arith, h)
for_state p h restoring = ground (arith, h)
for_state p h error = ground (arith, h)
for_state p h terminating = ground (arith, h)

for_event : (p : Event → Bool) → all p events ≡ true → (e : Event) → p e ≡ true
for_event p h install = ground (arith, h)
for_event p h set_installed = ground (arith, h)
for_event p h activate = ground (arith, h)
for_event p h establish = ground (arith, h)
for_event p h restore = ground (arith, h)
for_event p h impair = ground (arith, h)
for_event p h terminate = ground (arith, h)

abbrev leads : (State → Bool) → Option State → Bool
leads test none = true
leads test (some t) = test t

-- The states from which a bridge can be established.
abbrev pub is_ahead : State → Bool
is_ahead s = same_state s creating || same_state s error

abbrev pub is_behind : State → Bool
is_behind s = not (is_ahead s || same_state s active)

abbrev goes_on : Event → State → Bool
goes_on e s = not (is_behind s) || leads (λ t. is_behind t || is_ahead t) (next e s)

behind_steps : all (λ e. all (goes_on e) states) events ≡ true
unfolding next
behind_steps = refl

is_behind-next :
    (e : Event) (s t : State)
    → is_behind s ≡ true
    → next e s ≡ some t
    → (is_behind t || is_ahead t) ≡ true
is_behind-next e s t h n =
    let table = for_state (goes_on e) (for_event (λ e. all (goes_on e) states) behind_steps e) s in
    rw (h, n) at table

-- Along the transitions, a bridge that is neither ACTIVE nor CREATING nor in ERROR becomes ACTIVE
-- only by way of one of the latter two.
pub passes-is_ahead :
    (s : State) (r : Runs next s active) → is_behind s ≡ true → passes next is_ahead r ≡ true
unfolding passes
passes-is_ahead active stay h = cc
passes-is_ahead s (step {t = t} e n r) h = elim (Bool-cases (is_ahead t)) [
  | inl there ↦ rw there
  | inr elsewhere ↦
      rw elsewhere (passes-is_ahead t r (ground (arith, is_behind-next e s t h n, elsewhere)))
]
