-- ===== src/Prelude/Decimal.antt =====
-- `str(n)` of a number, and `int(s)` of a text of ASCII digits with a sign, blanks round it and
-- single underscores between the digits.
use Prim.Native.Nat.{ℕ, zero, suc, ◌+◌, ◌-◌, ◌*◌, ◌/◌, ◌%◌, ◌<◌}
use mathlib.Core.Path.{◌≡◌, refl, ◌∙◌, ap}
use mathlib.Core.Bool.{Bool, true, false, ◌&&◌, ◌||◌}
use mathlib.Core.Logic.{inl, inr}
use mathlib.Core.Option.{Option, none, some}
use mathlib.Core.List.{
  [], ◌∷◌, ◌++◌, append_assoc, append-nil, reverse, reverse-reverse, reverse-cons,
}
use native.Mathlib.Omega.{arith}
use gefyra.Prelude.Tests.{ltb, leb, ◌==◌, if◌then◌else◌, Bool-cases}
use gefyra.Prelude.Lists.{All, All-append}
use gefyra.Prelude.Texts.{Text}

-- The last digit of `n` after the digits of `n / 10`.
show_fuel : ℕ → ℕ → Text
show_fuel zero n = []
show_fuel (suc f) n =
    let rest = show_fuel f (n / 10) in
    if ltb n 10 then (48 + n) ∷ [] else rest ++ ((48 + n % 10) ∷ [])

-- `str(n)`
unfoldable pub show : ℕ → Text
unfolding show_fuel
show n = show_fuel (suc n) n

abbrev is_digit : ℕ → Bool
is_digit c = leb 48 c && leb c 57

-- Digits, with an underscore only between two of them; the flag says that a digit was just read.
unfoldable pub scan_digits : Bool → ℕ → Text → Option ℕ
scan_digits true n [] = some n
scan_digits false n [] = none
scan_digits after n (c ∷ s) =
    let digit = scan_digits true (n * 10 + (c - 48)) s in
    let underscore = scan_digits false n s in
    if is_digit c then digit else if (c == b'_') && after then underscore else none

-- The blanks that `str.strip` takes off.
abbrev pub is_space : ℕ → Bool
is_space c =
    (leb 9 c && leb c 13)
    || (leb 28 c && leb c 32)
    || (c == 133)
    || (c == 160)
    || (c == 5760)
    || (leb 8192 c && leb c 8202)
    || (c == 8232)
    || (c == 8233)
    || (c == 8239)
    || (c == 8287)
    || (c == 12288)

unfoldable pub strip_left : Text → Text
strip_left [] = []
strip_left (c ∷ s) = let rest = strip_left s in if is_space c then rest else c ∷ s

-- `s.strip()`
unfoldable pub strip : Text → Text
unfolding strip_left
strip s = reverse (strip_left (reverse (strip_left s)))

-- A signed result: minus the number if the flag is set.
pub record Signed : Type 0 where
  pub negative : Bool
  pub size : ℕ

abbrev with_sign : Bool → Option ℕ → Option Signed
with_sign neg none = none
with_sign neg (some n) = some (record { negative = neg; size = n })

abbrev read_signed : Text → Option Signed
read_signed [] = none
read_signed (c ∷ s) =
    if c == b'-'
    then with_sign true (scan_digits false 0 s)
    else if c == b'+'
    then with_sign false (scan_digits false 0 s)
    else with_sign false (scan_digits false 0 (c ∷ s))

-- `int(s)`; `none` is its ValueError
unfoldable pub int : Text → Option Signed
unfolding strip scan_digits
int s = read_signed (strip s)

abbrev IsDigit : ℕ → Type 0
IsDigit c = is_digit c ≡ true

show_fuel-digits : (f n : ℕ) → All IsDigit (show_fuel f n)
unfolding show_fuel
show_fuel-digits zero n = tt
show_fuel-digits (suc f) n = elim (Bool-cases (ltb n 10)) [
  | inl small ↦ rw small (ground arith, tt)
  | inr big ↦
      rw big (
        All-append IsDigit (show_fuel f (n / 10)) _ (show_fuel-digits f (n / 10))
          (ground arith, tt))
]

pub show-digits : (n : ℕ) → All IsDigit (show n)
unfolding show
show-digits n = show_fuel-digits (suc n) n

digit_test : (d : ℕ) → d < 10 → is_digit (48 + d) ≡ true
digit_test d h = ground arith

digit_value : (d : ℕ) → 48 + d - 48 ≡ d
digit_value d = omega arith

scan_digits_digit :
    (b : Bool) (n d : ℕ) (s : Text)
    → d < 10
    → scan_digits b n ((48 + d) ∷ s) ≡ scan_digits true (n * 10 + d) s
unfolding scan_digits
scan_digits_digit true n d s h = rw (digit_test d h, digit_value d) refl
scan_digits_digit false n d s h = rw (digit_test d h, digit_value d) refl

scan_digits-show_fuel :
    (f n : ℕ) (b : Bool) (rest : Text)
    → n < f
    → scan_digits b 0 (show_fuel f n ++ rest) ≡ scan_digits true n rest
unfolding show_fuel
scan_digits-show_fuel zero n b rest h = elim h [ ]
scan_digits-show_fuel (suc f) n b rest h = elim (Bool-cases (ltb n 10)) [
  | inl small ↦
      rw (small, scan_digits_digit b 0 n rest (ground arith))
        (ap (λ (k : ℕ). scan_digits true k rest) (omega arith))
  | inr big ↦
      rw (big, append_assoc)
        (scan_digits-show_fuel f (n / 10) b ((48 + n % 10) ∷ rest) (ground arith)
          ∙ scan_digits_digit true (n / 10) (n % 10) rest (omega arith)
          ∙ ap (λ (k : ℕ). scan_digits true k rest) (omega arith))
]

scan_digits-show : (n : ℕ) → scan_digits false 0 (show n) ≡ some n
unfolding show scan_digits
scan_digits-show n =
    rw (← append-nil (show_fuel (suc n) n)) (scan_digits-show_fuel (suc n) n false [] (omega arith))

abbrev IsInk : ℕ → Type 0
IsInk c = is_space c ≡ false

strip_left-IsInk : (s : Text) → All IsInk s → strip_left s ≡ s
unfolding strip_left
strip_left-IsInk [] h = refl
strip_left-IsInk (c ∷ s) h = rw h.0 refl

All-reverse : (s : Text) → All IsInk s → All IsInk (reverse s)
All-reverse [] h = tt
All-reverse (c ∷ s) h =
    rw reverse-cons (All-append IsInk (reverse s) (c ∷ []) (All-reverse s h.1) (h.0, tt))

digit-IsInk : (c : ℕ) → IsDigit c → IsInk c
digit-IsInk c h = ground arith

digits-IsInk : (s : Text) → All IsDigit s → All IsInk s
digits-IsInk [] h = tt
digits-IsInk (c ∷ s) h = (digit-IsInk c h.0, digits-IsInk s h.1)

strip_digits : (s : Text) → All IsDigit s → strip s ≡ s
unfolding strip
strip_digits s h =
    let ink = digits-IsInk s h in
    rw (strip_left-IsInk s ink, strip_left-IsInk (reverse s) (All-reverse s ink))
      (reverse-reverse s)

read_signed_digits :
    (s : Text) → All IsDigit s → read_signed s ≡ with_sign false (scan_digits false 0 s)
unfolding scan_digits
read_signed_digits [] h = refl
read_signed_digits (c ∷ s) h = ground (arith, h.0)

-- `int(str(n))` is `n`.
pub int-show : (n : ℕ) → int (show n) ≡ some (record { negative = false; size = n })
unfolding int
int-show n =
    rw (strip_digits (show n) (show-digits n), read_signed_digits (show n) (show-digits n))
      (ap (with_sign false) (scan_digits-show n))
