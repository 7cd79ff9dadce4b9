-- ===== src/Lifecycle/Machine.antt =====
-- What the state machines of the operator share. The engine that runs them, python-statemachine's
-- StateChart, is not part of the repository: it is the record `Engine`, whose fields say what its
-- documentation says of the settings that the three machines have in common.
use gefyra.Prelude.{
  List, [], ◌∷◌, Option-cases, ap, Bool-cases, ◌≡◌, refl, subst, inl, inr, Bool, true, false,
  Option, none, some, if◌then◌else◌,
}
use gefyra.Result.{Result, ok, err, Error, transition_not_allowed}

-- A coroutine of a handler: what it leaves behind, and what it returns or raises.
abbrev pub Action {ℓ} : Type 0 → Type ℓ → Type ℓ
Action World A = World → World × Result A

module _ {ℓ κ} {World : Type 0} {A : Type ℓ} {B : Type κ} where
  abbrev pub and_then : World × Result A → (A → Action World B) → World × Result B
  and_then (w, ok a) next = next a w
  and_then (w, err e) next = (w, err e)

  -- What a run that returns went through.
  pub and_then-eq-ok :
      {b : B} (v : World) (r : World × Result A) (next : A → Action World B)
      → and_then r next ≡ (v, ok b)
      → (u : World) × (a : A) × (r ≡ (u, ok a)) × (next a u ≡ (v, ok b))
  and_then-eq-ok v (u, ok a) next e = (u, a, refl, e)
  and_then-eq-ok v (u, err x) next e = cc (ap (λ (y : World × Result B). y.1) e)

  infixl 5 ◌>=>◌
  abbrev pub ◌>=>◌ : Action World A → (A → Action World B) → Action World B
  (act >=> next) w = and_then (act w) next

infixl 5 ◌>&&>◌
abbrev pub ◌>&&>◌ {ℓ} :
    {World : Type 0} {B : Type ℓ} → Action World (Unit {0}) → Action World B → Action World B
first >&&> second = first >=> λ _. second

abbrev pub done : {World : Type 0} → Action World (Unit {0})
done w = (w, ok tt)

-- Statements one after the other.
abbrev pub steps : {World : Type 0} → List (Action World (Unit {0})) → Action World (Unit {0})
steps [] = done
steps (act ∷ acts) = act >&&> steps acts

abbrev pub raise {ℓ} : {World : Type 0} {A : Type ℓ} → Error → Action World A
raise e w = (w, err e)

-- `if test: act`, on what is found when the test is reached
abbrev pub when :
    {World : Type 0} → (World → Bool) → Action World (Unit {0}) → Action World (Unit {0})
when test act w = let run = act w in if test w then run else (w, ok tt)

-- `except`, for the exceptions that pass a test
module _ {ℓ} {World : Type 0} {A : Type ℓ} (test : Error → Bool) (otherwise : Action World A) where
  abbrev pub caught : World × Result A → World × Result A
  caught (w, ok a) = (w, ok a)
  caught (w, err e) = let run = otherwise w in if test e then run else (w, err e)

  abbrev pub catching : Action World A → Action World A
  catching act w = caught (act w)

module _ {S E : Type 0} (next : E → S → Option S) where
  -- The states that a machine goes through, one transition after the other.
  pub data Runs : S → S → Type 0 where
    stay : {s : S} → Runs s s
    step : {s t u : S} (e : E) → next e s ≡ some t → Runs t u → Runs s u

  pub Runs-trans : {s t u : S} → Runs s t → Runs t u → Runs s u
  Runs-trans stay q = q
  Runs-trans (step e n r) q = step e n (Runs-trans r q)

  -- Whether a run comes, after its start, to a state that satisfies a test.
  unfoldable pub passes : (S → Bool) → {s t : S} → Runs s t → Bool
  passes test stay = false
  passes test (step {t = t} e n r) = let later = passes test r in if test t then true else later

  -- An event without a transition from the current state raises TransitionNotAllowed and changes
  -- nothing; whatever an event does otherwise, with the events that its callbacks send, follows the
  -- transitions; and one that succeeds took the transition from the current state first.
  pub record Engine : Type 1 where
    pub World : Type 0
    pub state : World → S
    pub send : E → Action World (Unit {0})
    pub send-Runs : (e : E) (w : World) → Runs (state w) (state (send e w).0)
    pub send-none :
        (e : E) (w : World) → next e (state w) ≡ none → send e w ≡ (w, err transition_not_allowed)
    pub send-first :
        (e : E) (w v : World)
        → send e w ≡ (v, ok tt)
        → (t : S) × (next e (state w) ≡ some t) × Runs t (state v)

module _ {S E : Type 0} (next : E → S → Option S) (machine : Engine next) where
  open machine use {World, state, send, send-Runs}

  -- A coroutine that moves the state along the transitions only, also where it raises.
  abbrev pub IsAlong {ℓ} : {A : Type ℓ} → Action World A → Type 0
  IsAlong act = (w : World) → Runs next (state w) (state (act w).0)

  pub done-IsAlong : IsAlong (done {World = World})
  done-IsAlong w = stay

  pub send-IsAlong : (e : E) → IsAlong (send e)
  send-IsAlong e w = send-Runs e w

  pub continued {ℓ κ} :
      {A : Type ℓ} {B : Type κ} {s : S} (r : World × Result A) (after : A → Action World B)
      → ((a : A) → IsAlong (after a))
      → Runs next s (state r.0)
      → Runs next s (state (and_then r after).0)
  continued (w, ok a) after k run = Runs-trans next run (k a w)
  continued (w, err e) after k run = run

  pub then-IsAlong {ℓ κ} :
      {A : Type ℓ} {B : Type κ} (act : Action World A) (after : A → Action World B)
      → IsAlong act
      → ((a : A) → IsAlong (after a))
      → IsAlong (act >=> after)
  then-IsAlong act after h k w = continued (act w) after k (h w)

  pub both-IsAlong :
      (first second : Action World (Unit {0}))
      → IsAlong first
      → IsAlong second
      → IsAlong (first >&&> second)
  both-IsAlong first second h k = then-IsAlong first (λ _. second) h (λ _. k)

  pub when-IsAlong :
      (test : World → Bool) (act : Action World (Unit {0})) → IsAlong act → IsAlong (when test act)
  when-IsAlong test act h w = elim (Bool-cases (test w)) [
    | inl holds ↦ rw holds (h w)
    | inr fails ↦ rw fails stay
  ]

-- The engine whose world is the state alone and whose callbacks do nothing.
module _ {S E : Type 0} (next : E → S → Option S) where
  abbrev moved : Option S → S → S × Result (Unit {0})
  moved none s = (s, err transition_not_allowed)
  moved (some t) s = (t, ok tt)

  pub plain_send-Runs : (e : E) (s : S) → Runs next s (moved (next e s) s).0
  plain_send-Runs e s = elim (Option-cases (next e s)) [
    | inl gone ↦ rw gone stay
    | inr (t, there) ↦ rw there (step e there stay)
  ]

  pub plain_send-first :
      (e : E) (s v : S)
      → moved (next e s) s ≡ (v, ok tt)
      → (t : S) × (next e s ≡ some t) × Runs next t v
  plain_send-first e s v h = elim (Option-cases (next e s)) [
    | inl gone ↦ cc (ap (λ (x : S × Result (Unit {0})). x.1) (rw gone at h))
    | inr (t, there) ↦ (
      t,
      there,
      subst (λ (x : S). Runs next t x) (ap (λ (x : S × Result (Unit {0})). x.0) (rw there at h))
          stay,
    )
  ]

  abbrev pub plain_engine : Engine next
  plain_engine = record {
    World = S;
    state = λ s. s;
    send = λ e s. moved (next e s) s;
    send-Runs = plain_send-Runs;
    send-none = λ e s h. rw h refl;
    send-first = plain_send-first;
  }
