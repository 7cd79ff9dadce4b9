-- ===== src/Prelude/Blanks.antt =====
-- What stripping a text and cutting it leave of it.
use Prim.Native.Nat.{ℕ}
use mathlib.Core.Path.{subst, ◌≡◌, refl, sym, ◌∙◌, ap}
use mathlib.Core.Bool.{not, Bool, true, false}
use mathlib.Core.Logic.{inl, inr}
use mathlib.Core.List.{
  List, [], ◌∷◌, ◌++◌, append-nil, reverse, reverse-reverse, reverse-cons, reverse-append,
}
use native.Mathlib.Omega.{arith}
use gefyra.Prelude.Tests.{◌==◌, Bool-cases}
use gefyra.Prelude.Lists.{all, All}
use gefyra.Prelude.Texts.{
  cut_cons, Text, Lacks, starts_with, contains_text, Cut, whole, parts, split_once,
}
use gefyra.Prelude.Decimal.{is_space, strip_left, strip}

-- A part of a text, with what stands before and after it.
abbrev pub IsWithin : Text → Text → Type 0
IsWithin w s = (a b : Text) × (s ≡ a ++ (w ++ b))

-- The text without the blanks at its end.
abbrev strip_right : Text → Text
strip_right s = reverse (strip_left (reverse s))

strip_left_snoc :
    (c : ℕ) (s : Text) → is_space c ≡ false → strip_left (s ++ (c ∷ [])) ≡ strip_left s ++ (c ∷ [])
unfolding strip_left
strip_left_snoc c [] h = ground (arith, h)
strip_left_snoc c (d ∷ s) h = elim (Bool-cases (is_space d)) [
  | inl blank ↦ rw blank (strip_left_snoc c s h)
  | inr other ↦ rw other refl
]

pub strip-cons : (c : ℕ) (s : Text) → is_space c ≡ false → strip (c ∷ s) ≡ c ∷ strip_right s
unfolding strip strip_left
strip-cons c s h =
    rw
      (
        h,
        reverse-cons c s,
        strip_left_snoc c (reverse s) h,
        reverse-append (strip_left (reverse s)) (c ∷ []),
      )
      refl

strip_left_idem : (s : Text) → strip_left (strip_left s) ≡ strip_left s
unfolding strip_left
strip_left_idem [] = refl
strip_left_idem (c ∷ s) = elim (Bool-cases (is_space c)) [
  | inl blank ↦ rw blank (strip_left_idem s)
  | inr other ↦ rw other (rw other refl)
]

strip_right_idem : (s : Text) → strip_right (strip_right s) ≡ strip_right s
strip_right_idem s = rw (reverse-reverse (strip_left (reverse s)), strip_left_idem (reverse s)) refl

strip-nil : strip (strip []) ≡ strip []
unfolding strip strip_left
strip-nil = refl

strip_blank : (c : ℕ) (s : Text) → is_space c ≡ true → strip (c ∷ s) ≡ strip s
unfolding strip strip_left
strip_blank c s h = rw h refl

-- Stripping twice is stripping once.
pub strip-strip : (s : Text) → strip (strip s) ≡ strip s
strip-strip [] = strip-nil
strip-strip (c ∷ s) = elim (Bool-cases (is_space c)) [
  | inl blank ↦ rw (strip_blank c s blank) (strip-strip s)
  | inr other ↦
      rw (strip-cons c s other, strip-cons c (strip_right s) other, strip_right_idem s) refl
]

strip_left-suffix : (s : Text) → (a : Text) × (s ≡ a ++ strip_left s)
unfolding strip_left
strip_left-suffix [] = ([], refl)
strip_left-suffix (c ∷ s) = elim (Bool-cases (is_space c)) [
  | inl blank ↦
      let rest = strip_left-suffix s in rw blank (c ∷ rest.0, ap (λ (t : Text). c ∷ t) rest.1)
  | inr other ↦ rw other ([], refl)
]

strip_right-prefix : (s : Text) → (b : Text) × (s ≡ strip_right s ++ b)
strip_right-prefix s =
    let rest = strip_left-suffix (reverse s) in
    (
      reverse rest.0,
      sym (reverse-reverse s)
          ∙ ap (λ (t : Text). reverse t) rest.1
          ∙ reverse-append rest.0 (strip_left (reverse s)),
    )

pub strip-IsWithin : (s : Text) → IsWithin (strip s) s
unfolding strip
strip-IsWithin s =
    let left = strip_left-suffix s in
    let right = strip_right-prefix (strip_left s) in
    (left.0, right.0, left.1 ∙ ap (λ (t : Text). left.0 ++ t) right.1)

All-infix {ℓ} : (P : ℕ → Type ℓ) (a w b : Text) → All P (a ++ (w ++ b)) → All P w
All-infix P [] [] b h = tt
All-infix P [] (c ∷ w) b h = (h.0, All-infix P [] w b h.1)
All-infix P (c ∷ a) w b h = All-infix P a w b h.1

pub All-IsWithin {ℓ} : (P : ℕ → Type ℓ) (w s : Text) → IsWithin w s → All P s → All P w
All-IsWithin P w s h a = All-infix P h.0 w h.1 (subst (λ (t : Text). All P t) h.2 a)

IsWithin-cons : (d : ℕ) (w s : Text) → IsWithin w s → IsWithin w (d ∷ s)
IsWithin-cons d w s h = (d ∷ h.0, h.1, ap (λ (t : Text). d ∷ t) h.2)

cut_cons-eq-parts :
    (d : ℕ) (t : Cut) (a b : Text) → cut_cons d t ≡ parts a b → (a' : Text) × (t ≡ parts a' b)
cut_cons-eq-parts d (whole a') a b e = cc
cut_cons-eq-parts d (parts a' b') a b e = (a', cc)

pub split_once-IsWithin : (c : ℕ) (s a b : Text) → split_once c s ≡ parts a b → IsWithin b s
unfolding split_once
split_once-IsWithin c [] a b = λ e. cc e
split_once-IsWithin c (d ∷ s) a b = elim (Bool-cases (d == c)) [
  | inl cut ↦ rw cut (λ e. (d ∷ [], [], ap (λ (t : Text). d ∷ t) (cc (e, append-nil b))))
  | inr other ↦ rw other (λ e.
      let before = cut_cons-eq-parts d (split_once c s) a b e in
      IsWithin-cons d b s (split_once-IsWithin c s before.0 b before.1))
]

starts_with-append_text : (p s t : Text) → starts_with p (s ++ t) ≡ false → starts_with p s ≡ false
unfolding starts_with
starts_with-append_text [] s t h = h
starts_with-append_text (p ∷ ps) [] t h = refl
starts_with-append_text (p ∷ ps) (c ∷ s) t h = ground (arith, starts_with-append_text ps s t, h)

contains_text-infix :
    (p a w b : Text) → contains_text p (a ++ (w ++ b)) ≡ false → contains_text p w ≡ false
unfolding contains_text starts_with
contains_text-infix [] [] [] [] h = h
contains_text-infix [] [] [] (d ∷ b) h = cc
contains_text-infix (c ∷ p) [] [] b h = refl
contains_text-infix p [] (d ∷ w) b h =
    ground (arith, contains_text-infix p [] w b, starts_with-append_text p (d ∷ w) b, h)
contains_text-infix p (d ∷ a) w b h = ground (arith, contains_text-infix p a w b, h)

-- What a text does not contain, its parts do not contain.
pub contains_text-IsWithin :
    (p w s : Text) → IsWithin w s → contains_text p s ≡ false → contains_text p w ≡ false
contains_text-IsWithin p w s h a =
    contains_text-infix p h.0 w h.1 (subst (λ (t : Text). contains_text p t ≡ false) h.2 a)

-- A text that does not have the first letter of another one does not add an occurrence of it.
pub contains_text-append_lacking :
    (c : ℕ) (p k s : Text) → Lacks c k → contains_text (c ∷ p) (k ++ s) ≡ contains_text (c ∷ p) s
unfolding contains_text starts_with
contains_text-append_lacking c p [] s h = refl
contains_text-append_lacking c p (d ∷ k) s h =
    ground (arith, contains_text-append_lacking c p k s h.1, h.0)

-- `Lacks` as a test.
abbrev pub lacks : ℕ → Text → Bool
lacks c = all (λ d. not (d == c))

pub lacks-Lacks : (c : ℕ) (w : Text) → lacks c w ≡ true → Lacks c w
lacks-Lacks c [] h = tt
lacks-Lacks c (d ∷ w) h = elim (Bool-cases (d == c)) [
  | inl same ↦ absurd (ground (arith, h, same))
  | inr other ↦ (other, lacks-Lacks c w (ground (arith, h, other)))
]

pub every_line-Lacks : (c : ℕ) (ws : List Text) → all (lacks c) ws ≡ true → All (Lacks c) ws
every_line-Lacks c [] h = tt
every_line-Lacks c (w ∷ ws) h = elim (Bool-cases (lacks c w)) [
  | inl free ↦ (lacks-Lacks c w free, every_line-Lacks c ws (ground (arith, h, free)))
  | inr other ↦ absurd (ground (arith, h, other))
]
