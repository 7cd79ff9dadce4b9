-- ===== src/Mount/Calls/Steps.antt =====
-- Rules for what holds of the calls that have been made, before and after a step.
use gefyra.Prelude.{
  refl, ◌++◌, ap, ◌≡◌, Bool, true, false, ◌∷◌, if◌then◌else◌, Bool-cases, inl, inr,
}
use gefyra.Result.{Result, ok, err, Error}
use gefyra.Lifecycle.Machine.{◌>=>◌, ◌>&&>◌, done, raise, catching, caught, and_then}
use gefyra.Mount.Calls.{add_original, create_originals, [], Call, Trace, Step, call, read, recorded}

abbrev pub Fact : Type 1
Fact = Trace → Type 0

abbrev pub Always : Fact
Always trace = Unit

-- A call was made.
abbrev pub Has : Call → Trace → Type 0
Has c trace = (later earlier : Trace) × (trace ≡ later ++ (c ∷ earlier))

pub Has-here : (c : Call) (w : Trace) → Has c (c ∷ w)
Has-here c w = ([], w, refl)

pub Has-later : (c d : Call) (w : Trace) → Has c w → Has c (d ∷ w)
Has-later c d w (later, earlier, e) = (d ∷ later, earlier, ap (λ (x : Trace). d ∷ x) e)

-- What stays so whatever is called next.
abbrev pub Stays : Fact → Type 0
Stays P = (c : Call) (w : Trace) → P w → P (c ∷ w)

-- A call that stores an original configuration.
unfoldable pub is_store : Call → Bool
is_store (add_original k c) = true
is_store (create_originals k c) = true
is_store c = false

-- What stays so whatever is called next but such a call.
abbrev pub StaysUnlessStored : Fact → Type 0
StaysUnlessStored P = (c : Call) (w : Trace) → is_store c ≡ false → P w → P (c ∷ w)

module _ (outcome : Trace → Call → Result (Unit {0})) (Inv : Fact) where
  abbrev pub Ends : Fact → Trace × Result (Unit {0}) → Type 0
  Ends Q (w, ok u) = Inv w × Q w
  Ends Q (w, err e) = Inv w

  -- From a trace with the invariant and the first fact, a step comes to one with the invariant, and
  -- with the second fact if it returns.
  abbrev pub Triple : Fact → Step → Fact → Type 0
  Triple P act Q = (w : Trace) → Inv w → P w → Ends Q (act w)

  recorded-Triple :
      (Q : Fact) (c : Call) (w : Trace) (r : Result (Unit {0}))
      → Inv w
      → Inv (c ∷ w)
      → Q (c ∷ w)
      → Ends Q (recorded outcome w c r)
  recorded-Triple Q c w (ok u) h a q = (a, q)
  recorded-Triple Q c w (err e) h a q = h

  pub call-Triple :
      (P Q : Fact) (c : Call)
      → ((w : Trace) → Inv w → P w → Inv (c ∷ w))
      → ((w : Trace) → P w → Q (c ∷ w))
      → Triple P (call outcome c) Q
  unfolding call
  call-Triple P Q c a q w h p = recorded-Triple Q c w (outcome w c) h (a w h p) (q w p)

  pub continued-Triple :
      (P Q : Fact) (r : Trace × Result (Unit {0})) (next : Step)
      → Ends P r
      → Triple P next Q
      → Ends Q (and_then r (λ _. next))
  continued-Triple P Q (w, ok u) next h k = k w h.0 h.1
  continued-Triple P Q (w, err e) next h k = h

  pub then-Triple :
      (P Q R : Fact) (first second : Step)
      → Triple P first Q
      → Triple Q second R
      → Triple P (first >&&> second) R
  then-Triple P Q R first second h k w o p = continued-Triple Q R (first w) second (h w o p) k

  pub read-Triple {ℓ} :
      {A : Type ℓ} (P Q : Fact) (r : Result A) (next : A → Step)
      → ((a : A) → Triple P (next a) Q)
      → Triple P (read outcome r >=> next) Q
  read-Triple P Q (ok a) next h w o p = h a w o p
  read-Triple P Q (err e) next h w o p = o

  pub caught-Triple :
      (Q : Fact) (test : Error → Bool) (otherwise : Step) (r : Trace × Result (Unit {0}))
      → Triple Always otherwise Q
      → Ends Q r
      → Ends Q (caught test otherwise r)
  caught-Triple Q test otherwise (w, ok u) h k = k
  caught-Triple Q test otherwise (w, err e) h k = elim (Bool-cases (test e)) [
    | inl taken ↦ rw taken (h w k tt)
    | inr passed ↦ rw passed k
  ]

  pub catching-Triple :
      (P Q : Fact) (test : Error → Bool) (otherwise act : Step)
      → Triple Always otherwise Q
      → Triple P act Q
      → Triple P (catching test otherwise act) Q
  catching-Triple P Q test otherwise act h k w o p =
      caught-Triple Q test otherwise (act w) h (k w o p)

  pub raise-Triple : (P Q : Fact) (e : Error) → Triple P (raise e) Q
  raise-Triple P Q e w o p = o

  pub done-Triple : (P : Fact) → Triple P done P
  done-Triple P w o p = (o, p)

  pub if-Triple :
      (P Q : Fact) (b : Bool) (first second : Step)
      → Triple P first Q
      → Triple P second Q
      → Triple P (if b then first else second) Q
  if-Triple P Q true first second h k = h
  if-Triple P Q false first second h k = k
