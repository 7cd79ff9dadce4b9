-- ===== src/Prelude/Texts.antt =====
-- Python's `str` as the list of its code points, and the methods of it that the program calls.
use Prim.Native.Nat.{ℕ}
use Prim.Native.Char.{code}
use Prim.Native.String.{String}
use mathlib.Core.Path.{◌≡◌, refl, ap, ◌∙◌}
use mathlib.Core.Logic.{◌↔◌}
use mathlib.Core.Bool.{Bool, true, false, ◌&&◌, ◌||◌}
use mathlib.Core.List.{List, [], ◌∷◌, ◌++◌}
use native.Mathlib.Omega.{arith}
use gefyra.Prelude.Tests.{◌==◌, ==_iff, if◌then◌else◌}
use gefyra.Prelude.Lists.{All, any}

abbrev pub Text : Type 0
Text = List ℕ

abbrev pub codes : String → Text
codes String.[] = []
codes (String.◌∷◌ c s) = code c ∷ codes s

-- `s == t`
unfoldable pub text_eq : Text → Text → Bool
text_eq [] [] = true
text_eq (c ∷ s) (d ∷ t) = c == d && text_eq s t
text_eq _ _ = false

pub text_eq_iff : (s t : Text) → (text_eq s t ≡ true) ↔ (s ≡ t)
unfolding text_eq
text_eq_iff [] [] = (λ _. refl, λ _. refl)
text_eq_iff [] (d ∷ t) = (λ h. cc, λ h. cc)
text_eq_iff (c ∷ s) [] = (λ h. cc, λ h. cc)
text_eq_iff (c ∷ s) (d ∷ t) =
    (λ h. ground (arith, text_eq_iff s t), λ h. ground (arith, text_eq_iff s t))

pub text_eq_refl : (s : Text) → text_eq s s ≡ true
text_eq_refl s = (text_eq_iff s s).1 refl

-- `s in texts` for a list of texts
abbrev pub has_text : Text → List Text → Bool
has_text s = any (λ t. text_eq t s)

-- `s.startswith(p)`
unfoldable pub starts_with : Text → Text → Bool
starts_with [] s = true
starts_with (p ∷ ps) [] = false
starts_with (p ∷ ps) (c ∷ s) = p == c && starts_with ps s

pub starts_with-append : (p s : Text) → starts_with p (p ++ s) ≡ true
unfolding starts_with
starts_with-append [] s = refl
starts_with-append (c ∷ p) s = ground (arith, starts_with-append p s)

-- `p in s`, the substring test
unfoldable pub contains_text : Text → Text → Bool
contains_text p [] = starts_with p []
contains_text p (c ∷ s) = starts_with p (c ∷ s) || contains_text p s

pub contains_text-append : (p s : Text) → contains_text p (p ++ s) ≡ true
unfolding contains_text starts_with
contains_text-append [] [] = refl
contains_text-append [] (c ∷ s) = refl
contains_text-append (c ∷ p) s = ground (arith, starts_with-append p s)

-- `s.split(c)`, for a separator of one character; the result is never empty
abbrev pub push_front : ℕ → List Text → List Text
push_front c [] = (c ∷ []) ∷ []
push_front c (w ∷ ws) = (c ∷ w) ∷ ws

unfoldable pub split_on : ℕ → Text → List Text
split_on c [] = [] ∷ []
split_on c (d ∷ s) = let rest = split_on c s in if d == c then [] ∷ rest else push_front d rest

-- `s.split(c, 1)` as the part before the first separator and, if there is one, the rest
pub data Cut : Type 0 where
  whole : Text → Cut
  parts : Text → Text → Cut

abbrev pub cut_cons : ℕ → Cut → Cut
cut_cons d (whole a) = whole (d ∷ a)
cut_cons d (parts a b) = parts (d ∷ a) b

unfoldable pub split_once : ℕ → Text → Cut
split_once c [] = whole []
split_once c (d ∷ s) = let rest = split_once c s in if d == c then parts [] s else cut_cons d rest

-- `c.join(texts)`
unfoldable pub join_with : ℕ → List Text → Text
join_with c [] = []
join_with c (w ∷ []) = w
join_with c (w ∷ v ∷ ws) = w ++ (c ∷ join_with c (v ∷ ws))

abbrev pub Lacks : ℕ → Text → Type 0
Lacks c = All (λ d. (d == c) ≡ false)

pub split_on_lacking : (c : ℕ) (w : Text) → Lacks c w → split_on c w ≡ w ∷ []
unfolding split_on
split_on_lacking c [] h = refl
split_on_lacking c (d ∷ w) h = rw (h.0, split_on_lacking c w h.1) refl

pub split_on-append :
    (c : ℕ) (w s : Text) → Lacks c w → split_on c (w ++ (c ∷ s)) ≡ w ∷ split_on c s
unfolding split_on
split_on-append c [] s h = rw ((==_iff c c).1 refl) refl
split_on-append c (d ∷ w) s h = rw (h.0, split_on-append c w s h.1) refl

-- Splitting undoes joining, when no part has the separator and there is a part.
pub split_on-join_with :
    (c : ℕ) (w : Text) (ws : List Text)
    → All (Lacks c) (w ∷ ws)
    → split_on c (join_with c (w ∷ ws)) ≡ w ∷ ws
unfolding join_with
split_on-join_with c w [] h = split_on_lacking c w h.0
split_on-join_with c w (v ∷ ws) h =
    split_on-append c w (join_with c (v ∷ ws)) h.0
    ∙ ap (λ (r : List Text). w ∷ r) (split_on-join_with c v ws h.1)

pub split_once-append : (c : ℕ) (w s : Text) → Lacks c w → split_once c (w ++ (c ∷ s)) ≡ parts w s
unfolding split_once
split_once-append c [] s h = rw ((==_iff c c).1 refl) refl
split_once-append c (d ∷ w) s h = rw (h.0, split_once-append c w s h.1) refl

pub split_once_lacking : (c : ℕ) (w : Text) → Lacks c w → split_once c w ≡ whole w
unfolding split_once
split_once_lacking c [] h = refl
split_once_lacking c (d ∷ w) h = rw (h.0, split_once_lacking c w h.1) refl

-- `s.rsplit(c, 1)` as the part before the last separator and, if there is one, the rest
abbrev rcut_cons : ℕ → ℕ → Text → Cut → Cut
rcut_cons c d s (parts a b) = parts (d ∷ a) b
rcut_cons c d s (whole a) = if d == c then parts [] s else whole (d ∷ s)

unfoldable pub rsplit_once : ℕ → Text → Cut
rsplit_once c [] = whole []
rsplit_once c (d ∷ s) = rcut_cons c d s (rsplit_once c s)

rsplit_once_lacking : (c : ℕ) (w : Text) → Lacks c w → rsplit_once c w ≡ whole w
unfolding rsplit_once
rsplit_once_lacking c [] h = refl
rsplit_once_lacking c (d ∷ w) h = rw (rsplit_once_lacking c w h.1, h.0) refl

pub rsplit_once-append : (c : ℕ) (w s : Text) → Lacks c s → rsplit_once c (w ++ (c ∷ s)) ≡ parts w s
unfolding rsplit_once
rsplit_once-append c [] s h = rw (rsplit_once_lacking c s h, (==_iff c c).1 refl) refl
rsplit_once-append c (d ∷ w) s h = rw (rsplit_once-append c w s h) refl
