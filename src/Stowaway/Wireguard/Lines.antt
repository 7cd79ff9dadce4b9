-- ===== src/Stowaway/Wireguard/Lines.antt =====
-- Reading a file that is written line by line.
use gefyra.Prelude.{
  lacks-Lacks, starts_with, strip_left, ℕ, ◌≡◌, refl, sym, ap, ◌∙◌, Bool, true, false, not, ◌&&◌,
  List, [], ◌∷◌, ◌++◌, Text, codes, text_eq, strip, is_space, strip-cons, All-append, all, Lacks,
  contains_text, contains_text-append_lacking, split_on, split_on-append, split_once,
  split_once-append, parts, ◌==◌, append_assoc,
}
use gefyra.Prelude.Dict.{insert}
use gefyra.Stowaway.Wireguard.{Reading, full_key, read_line, read_lines}
use gefyra.Stowaway.Wireguard.Fields.{IsField}

abbrev is_key_letter : ℕ → Bool
is_key_letter c = not (is_space c) && not (c == b'=') && not (c == b'[') && not (c == b'\n')

-- A text of letters that stand in keys.
abbrev pub is_key : Text → Bool
is_key [] = false
is_key (c ∷ k) = all is_key_letter (c ∷ k)

-- `f"{k} = {v}"`
abbrev pub assignment : Text → Text → Text
assignment k v = k ++ (codes " = " ++ v)

all_false :
    (a b c d : Bool)
    → (not a && not b && not c && not d) ≡ true
    → (a ≡ false) × (b ≡ false) × (c ≡ false) × (d ≡ false)
all_false true b c d e = cc
all_false false true c d e = cc
all_false false false true d e = cc
all_false false false false true e = cc
all_false false false false false e = (refl, refl, refl, refl)

and-eq-true : (a b : Bool) → (a && b) ≡ true → (a ≡ true) × (b ≡ true)
and-eq-true true b e = (refl, e)
and-eq-true false b e = cc

letter-tests :
    (c : ℕ)
    → is_key_letter c ≡ true
    → (is_space c ≡ false) × ((c == b'=') ≡ false) × ((c == b'[') ≡ false) × ((c == b'\n') ≡ false)
letter-tests c h = all_false (is_space c) (c == b'=') (c == b'[') (c == b'\n') h

-- The reading after `f"{k} = {v}"`
abbrev pub put : Text → Text → Reading → Reading
put k v r = record r { data_ = insert (full_key r.prefix (k ++ (b' ' ∷ []))) v r.data_ }

-- The reading after the lines of a text.
abbrev pub read_text : Text → Reading → Reading
read_text t = read_lines (split_on b'\n' t)

letter-Lacks : (k : Text) → all is_key_letter k ≡ true → Lacks b'=' k × Lacks b'[' k × Lacks b'\n' k
letter-Lacks [] h = (tt, tt, tt)
letter-Lacks (c ∷ k) h =
    let both = and-eq-true (is_key_letter c) (all is_key_letter k) h in
    let tests = letter-tests c both.0 in
    let rest = letter-Lacks k both.1 in ((tests.1, rest.0), (tests.2, rest.1), (tests.3, rest.2))

head-not-space : (c : ℕ) (k : Text) → is_key (c ∷ k) ≡ true → is_space c ≡ false
head-not-space c k h = (letter-tests c (and-eq-true (is_key_letter c) (all is_key_letter k) h).0).0

key-Lacks : (k : Text) → is_key k ≡ true → Lacks b'=' k × Lacks b'[' k × Lacks b'\n' k
key-Lacks [] h = cc
key-Lacks (c ∷ k) h = letter-Lacks (c ∷ k) h

not-blank : (k s : Text) → is_key k ≡ true → text_eq (strip (k ++ s)) [] ≡ false
not-blank [] s h = cc
not-blank (c ∷ k) s h = rw (strip-cons c (k ++ s) (head-not-space c k h)) (unfold text_eq in refl)

no_heading :
    (p k v : Text)
    → is_key k ≡ true
    → contains_text (b'[' ∷ p) v ≡ false
    → contains_text (b'[' ∷ p) (assignment k v) ≡ false
no_heading p k v h f =
    contains_text-append_lacking b'[' p k (codes " = " ++ v) (key-Lacks k h).1
    ∙ contains_text-append_lacking b'[' p (codes " = ") v (refl, (refl, (refl, tt)))
    ∙ f

cut_at_equals :
    (k v : Text)
    → is_key k ≡ true
    → split_once b'=' (assignment k v) ≡ parts (k ++ (b' ' ∷ [])) (b' ' ∷ v)
cut_at_equals k v h =
    ap (split_once b'=') (sym (append_assoc k (b' ' ∷ []) (b'=' ∷ b' ' ∷ v)))
    ∙ split_once-append b'=' (k ++ (b' ' ∷ [])) (b' ' ∷ v)
        (All-append _ k _ (key-Lacks k h).0 (refl, tt))

blank_strip : (v : Text) → strip (b' ' ∷ v) ≡ strip v
unfolding strip strip_left
blank_strip v = refl

-- A line that assigns a field is read as it is.
read_line-assignment :
    (k v : Text) (r : Reading)
    → is_key k ≡ true
    → IsField v
    → read_line (assignment k v) r
      ≡ record r { data_ = insert (full_key r.prefix (k ++ (b' ' ∷ []))) v r.data_ }
unfolding read_line
read_line-assignment k v r h f =
    rw
      (
        not-blank k (codes " = " ++ v) h,
        no_heading _ k v h f.2,
        no_heading _ k v h f.3,
        cut_at_equals k v h,
      )
      (ap
        (λ (w : Text). record r { data_ = insert (full_key r.prefix (k ++ (b' ' ∷ []))) w r.data_ })
        (blank_strip v ∙ f.1))

-- The lines after the first one are read with what it gave.
next_line :
    (w rest : Text) (r : Reading)
    → Lacks b'\n' w
    → read_lines (split_on b'\n' (w ++ (b'\n' ∷ rest))) r
      ≡ read_lines (split_on b'\n' rest) (read_line w r)
unfolding read_lines
next_line w rest r h = ap (λ (ls : List Text). read_lines ls r) (split_on-append b'\n' w rest h)

pub assigned_line :
    (k v rest : Text) (r : Reading)
    → is_key k ≡ true
    → IsField v
    → read_text (k ++ (codes " = " ++ (v ++ (b'\n' ∷ rest)))) r ≡ read_text rest (put k v r)
assigned_line k v rest r h f =
    ap (λ (t : Text). read_lines (split_on b'\n' t) r)
      (sym (append_assoc k (codes " = " ++ v) (b'\n' ∷ rest)))
    ∙ next_line (assignment k v) rest r
        (All-append _ k _ (key-Lacks k h).2 (refl, (refl, (refl, f.0))))
    ∙ ap (λ (q : Reading). read_lines (split_on b'\n' rest) q) (read_line-assignment k v r h f)

pub interface_line :
    (rest : Text) (r : Reading)
    → read_lines (split_on b'\n' (codes "[Interface]\n" ++ rest)) r
      ≡ read_lines (split_on b'\n' rest) (record r { prefix = codes "Interface" })
unfolding read_line strip strip_left text_eq contains_text starts_with
interface_line rest r =
    next_line (codes "[Interface]") rest r (lacks-Lacks b'\n' (codes "[Interface]") refl)

pub peer_line :
    (rest : Text) (r : Reading)
    → read_lines (split_on b'\n' (codes "[Peer]\n" ++ rest)) r
      ≡ read_lines (split_on b'\n' rest) (record r { prefix = codes "Peer" })
unfolding read_line strip strip_left text_eq contains_text starts_with
peer_line rest r = next_line (codes "[Peer]") rest r (lacks-Lacks b'\n' (codes "[Peer]") refl)

-- What is read of an empty rest.
pub last_line : (r : Reading) → read_lines (split_on b'\n' []) r ≡ r
unfolding read_lines split_on read_line strip strip_left text_eq
last_line r = refl
