-- ===== src/Stowaway/Status.antt =====
-- The status that `wg` prints (`parse_wg_output` of operator/gefyra/connection/stowaway/utils.py).
-- The three regular expressions are written out as the alternatives that are tried, in their order;
-- the text of a float stands for its value.
pub mod Sections
use gefyra.Prelude.{
  ℕ, Bool, true, false, not, ◌&&◌, ◌||◌, List, [], ◌∷◌, ◌++◌, map, Option, none, some, Text, codes,
  text_eq, strip, is_space, starts_with, split_on, split_once, rsplit_once, Cut, whole, parts,
  cut_cons, strip_left, int, Signed, drop, length, any, leb, ◌==◌, if◌then◌else◌,
}
use mathlib.Core.List.{reverse}
use gefyra.Prelude.Dict.{Dict, insert}
use gefyra.Result.{Result, ok, err, value_error, or_raise, ◌>>=◌}

-- `int(s)` or `float(s)`
pub data Number : Type 0 where
  whole_number : Signed → Number
  decimal : Text → Number

pub record Amount : Type 0 where
  pub value : Number
  pub unit : Text

pub data WgValue : Type 0 where
  text : Text → WgValue
  addresses : List Text → WgValue
  transfer : Amount → Amount → WgValue
  seconds : Signed → WgValue
  endpoint : Text → Signed → WgValue
  port : Signed → WgValue

-- The ways to take one or more letters of a kind off a text, the shortest first.
abbrev grown : ℕ → Text × Text → Text × Text
grown c (taken, left) = (c ∷ taken, left)

unfoldable pub runs : (ℕ → Bool) → Text → List (Text × Text)
runs p [] = []
runs p (c ∷ s) = let rest = runs p s in if p c then (c ∷ [], s) ∷ map (grown c) rest else []

-- The alternatives of one part of an expression after those of another.
unfoldable pub alternatives {ℓ κ} : {A : Type ℓ} {B : Type κ} → List A → (A → List B) → List B
alternatives [] next = []
alternatives (a ∷ rest) next = next a ++ alternatives rest next

abbrev literal : Text → Text → List Text
literal word s = if starts_with word s then drop (length word) s ∷ [] else []

abbrev is_ascii_digit : ℕ → Bool
is_ascii_digit c = leb 48 c && leb c 57

abbrev is_digit_or_dot : ℕ → Bool
is_digit_or_dot c = is_ascii_digit c || (c == b'.')

abbrev is_in_line : ℕ → Bool
is_in_line c = not (c == b'\n')

-- `\s+`
abbrev blanks : Text → List (Text × Text)
blanks s = reverse (runs is_space s)

-- `([\d.]+)\s+(.+?)\s+word`: the two groups and what is left
unfoldable pub match_amount : Text → Text → List (Text × Text × Text)
unfolding runs alternatives
match_amount word s = alternatives (reverse (runs is_digit_or_dot s)) λ n.
    alternatives (blanks n.1) λ b.
      alternatives (runs is_in_line b.1)
        λ u. alternatives (blanks u.1) λ c. map (λ rest. (n.0, u.0, rest)) (literal word c.1)

-- The groups of `transfer_re`, in the order in which they are tried.
unfoldable pub match_transfer : Text → List ((Text × Text) × (Text × Text))
unfolding match_amount
match_transfer s = alternatives (match_amount (codes "received,") s) λ r.
    alternatives (blanks r.2)
      λ b. map (λ t. ((r.0, r.1), (t.0, t.1))) (match_amount (codes "sent") b.1)

-- `(\d+)\s+seconds`
unfoldable pub match_keepalive : Text → List Text
unfolding runs alternatives
match_keepalive s =
    alternatives (reverse (runs is_ascii_digit s))
      λ n. alternatives (blanks n.1) λ b. map (λ rest. n.0) (literal (codes "seconds") b.1)

abbrev is_float : List Text → Bool
is_float (a ∷ b ∷ []) = not (text_eq a [] && text_eq b [])
is_float _ = false

-- `float(s) if "." in s else int(s)`, of digits and dots
unfoldable pub number_of : Text → Result Number
number_of s =
    let float = if is_float (split_on b'.' s) then ok (decimal s) else err value_error in
    let whole_one = or_raise value_error (int s) >>= λ n. ok (whole_number n) in
    if any (λ c. c == b'.') s then float else whole_one

abbrev amount_of : Text × Text → Result Amount
amount_of (n, u) = number_of n >>= λ v. ok (record { value = v; unit = u })

abbrev transfer_of : Text → List ((Text × Text) × (Text × Text)) → Result WgValue
transfer_of s [] = ok (text s)
transfer_of s (m ∷ rest) =
    amount_of m.0 >>= λ received. amount_of m.1 >>= λ sent. ok (transfer received sent)

abbrev keepalive_of : Text → List Text → Result WgValue
keepalive_of s [] = ok (text s)
keepalive_of s (n ∷ rest) = or_raise value_error (int n) >>= λ v. ok (seconds v)

abbrev endpoint_with : Text → Text → Option Signed → WgValue
endpoint_with s host none = text s
endpoint_with s host (some p) = endpoint host p

abbrev endpoint_of : Text → Cut → WgValue
endpoint_of s (whole a) = text s
endpoint_of s (parts host p) = endpoint_with s host (int p)

abbrev port_of : Text → Option Signed → WgValue
port_of s none = text s
port_of s (some p) = port p

-- What is stored under a key; the ValueError is the one that makes the line be passed over.
unfoldable pub value_of : Text → Text → Result WgValue
unfolding match_transfer match_keepalive number_of
value_of k s =
    if text_eq k (codes "allowed_ips")
    then ok (addresses (map strip (split_on b',' s)))
    else if text_eq k (codes "transfer")
    then transfer_of s (match_transfer s)
    else if text_eq k (codes "persistent_keepalive")
    then keepalive_of s (match_keepalive s)
    else if text_eq k (codes "endpoint")
    then ok (endpoint_of s (rsplit_once b':' s))
    else if text_eq k (codes "listening_port")
    then ok (port_of s (int s))
    else ok (text s)

abbrev pub starts_blank : Text → Bool
starts_blank [] = false
starts_blank (c ∷ s) = is_space c

-- `re.split(r":\s+", line, maxsplit=1)`
unfoldable pub cut_field : Text → Cut
cut_field [] = whole []
cut_field (c ∷ s) =
    let later = cut_field s in
    if c == b':' && starts_blank s then parts [] (strip_left s) else cut_cons c later

-- `current_context`
pub data Context : Type 0 where
  nowhere in_interface in_peer : Context

-- `wg_data`, with the peers from the last one to the first, and the context
pub record WgData : Type 0 where
  pub interface : Dict WgValue
  pub peers_seen : List (Dict WgValue)
  pub context : Context

-- An assignment in the current context, which for a peer is the last one.
abbrev pub assign_in : Context → Text → WgValue → WgData → WgData
assign_in nowhere k v d = d
assign_in in_interface k v d = record d { interface = insert k v d.interface }
assign_in in_peer k v d = record d {
  peers_seen = elim d.peers_seen [ [] ↦ [] | p ∷ ps ↦ insert k v p ∷ ps ];
}

abbrev underscored : ℕ → ℕ
underscored c = if c == b' ' then b'_' else c

-- `key.strip().replace(" ", "_")`
abbrev pub clean_key : Text → Text
clean_key k = map underscored (strip k)

abbrev pub store_value : Text → Result WgValue → WgData → WgData
store_value k (ok v) d = assign_in d.context k v d
store_value k (err e) d = d

unfoldable pub store_field : Cut → WgData → WgData
unfolding value_of
store_field (whole a) d = d
store_field (parts k v) d = store_value (clean_key k) (value_of (clean_key k) v) d

-- `line.split(":", 1)[1].strip()`, of a line that has a colon
abbrev pub after_colon : Cut → Text
after_colon (whole a) = strip a
after_colon (parts a b) = strip b

abbrev pub enter_interface : Text → WgData → WgData
enter_interface name d = record d {
  interface = insert (codes "name") (text name) d.interface;
  context = in_interface;
}

abbrev pub enter_peer : Text → WgData → WgData
enter_peer public_key d = record d {
  peers_seen = ((codes "public_key", text public_key) ∷ []) ∷ d.peers_seen;
  context = in_peer;
}

-- What the loop does with a line.
unfoldable pub parse_line : Text → WgData → WgData
unfolding store_field cut_field
parse_line line d =
    let s = strip line in
    if text_eq s []
    then d
    else if starts_with (codes "interface:") s
    then enter_interface (after_colon (split_once b':' s)) d
    else if starts_with (codes "peer:") s
    then enter_peer (after_colon (split_once b':' s)) d
    else store_field (cut_field s) d

unfoldable pub parse_lines : List Text → WgData → WgData
parse_lines [] d = d
parse_lines (line ∷ lines) d = parse_lines lines (parse_line line d)

-- The result, a peer per section in the order of the output.
pub record WgStatus : Type 0 where
  pub interface : Dict WgValue
  pub peers : List (Dict WgValue)

abbrev pub status_of : WgData → WgStatus
status_of d = record { interface = d.interface; peers = reverse d.peers_seen }

abbrev pub nothing_seen : WgData
nothing_seen = record { interface = []; peers_seen = []; context = nowhere }

-- `parse_wg_output`
unfoldable pub parse_wg_output : Text → WgStatus
unfolding parse_lines parse_line
parse_wg_output output = status_of (parse_lines (split_on b'\n' (strip output)) nothing_seen)
