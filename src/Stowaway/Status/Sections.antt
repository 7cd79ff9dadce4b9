-- ===== src/Stowaway/Status/Sections.antt =====
-- The sections of an output of `wg`, read as the parser reads them.
use gefyra.Prelude.{
  ◌≡◌, refl, ap, ◌∙◌, false, List, [], ◌∷◌, ◌++◌, map, Text, codes, text_eq, strip, strip_left,
  starts_with, split_on, split_on-join_with, join_with, split_once, parts, All, Lacks,
}
use mathlib.Core.List.{reverse, reverse_aux, reverse-reverse}
use gefyra.Prelude.Dict.{Dict, insert}
use gefyra.Result.{Result, ok, err}
use gefyra.Stowaway.Status.{
  WgValue, text, value_of, cut_field, Context, in_interface, in_peer, WgData, clean_key,
  store_value, store_field, enter_interface, enter_peer, parse_line, parse_lines, status_of,
  nothing_seen, parse_wg_output,
}

-- A line with a key and a value.
pub record FieldLine : Type 0 where
  pub line : Text
  pub key : Text
  pub value : Text

-- Stripped, it is `f"{key}: {value}"` with a value that is not blank, and no heading.
abbrev pub IsFieldLine : FieldLine → Type 0
IsFieldLine f =
    (strip f.line ≡ f.key ++ (codes ": " ++ f.value))
    × Lacks b':' f.key
    × (strip_left f.value ≡ f.value)
    × (text_eq (strip f.line) [] ≡ false)
    × (starts_with (codes "interface:") (strip f.line) ≡ false)
    × (starts_with (codes "peer:") (strip f.line) ≡ false)

-- A section: its heading, which ends in the name or the key, and its fields.
pub record Section : Type 0 where
  pub heading : Text
  pub name : Text
  pub fields : List FieldLine

abbrev pub IsSection : Text → Section → Type 0
IsSection word s = (strip s.heading ≡ word ++ (b':' ∷ s.name)) × All IsFieldLine s.fields

abbrev with_value : Text → Result WgValue → Dict WgValue → Dict WgValue
with_value k (ok v) d = insert k v d
with_value k (err e) d = d

-- A dictionary with the fields, where one whose value cannot be read is left out.
unfoldable pub with_fields : List FieldLine → Dict WgValue → Dict WgValue
with_fields [] d = d
with_fields (f ∷ fs) d =
    with_fields fs (with_value (clean_key f.key) (value_of (clean_key f.key) f.value) d)

abbrev lines_of_section : Section → List Text
lines_of_section s = s.heading ∷ map (λ (f : FieldLine). f.line) s.fields

-- The lines of the peers, each with an empty line before it.
abbrev pub lines_of_peers : List Section → List Text
lines_of_peers [] = []
lines_of_peers (p ∷ ps) = [] ∷ (lines_of_section p ++ lines_of_peers ps)

abbrev pub lines_of : Section → List Section → List Text
lines_of interface peers = lines_of_section interface ++ lines_of_peers peers

unfoldable pub interface_shown : Section → Dict WgValue
unfolding with_fields
interface_shown s = with_fields s.fields ((codes "name", text (strip s.name)) ∷ [])

unfoldable pub peer_shown : Section → Dict WgValue
unfolding with_fields
peer_shown s = with_fields s.fields ((codes "public_key", text (strip s.name)) ∷ [])

cut_field-key :
    (k v : Text) → Lacks b':' k → strip_left v ≡ v → cut_field (k ++ (codes ": " ++ v)) ≡ parts k v
unfolding cut_field strip_left
cut_field-key [] v h e = ap (parts []) e
cut_field-key (c ∷ k) v h e = rw (h.0, cut_field-key k v h.1 e) refl

parse_line-field :
    (f : FieldLine) (d : WgData)
    → IsFieldLine f
    → parse_line f.line d ≡ store_value (clean_key f.key) (value_of (clean_key f.key) f.value) d
unfolding parse_line store_field
parse_line-field f d h =
    rw (h.3, h.4, h.5)
      (ap (λ c. store_field c d) (ap cut_field h.0 ∙ cut_field-key f.key f.value h.1 h.2))

abbrev seen : Dict WgValue → List (Dict WgValue) → Context → WgData
seen i ps c = record { interface = i; peers_seen = ps; context = c }

store_in_interface :
    (k : Text) (r : Result WgValue) (i : Dict WgValue) (ps : List (Dict WgValue))
    → store_value k r (seen i ps in_interface) ≡ seen (with_value k r i) ps in_interface
store_in_interface k (ok v) i ps = refl
store_in_interface k (err e) i ps = refl

store_in_peer :
    (k : Text) (r : Result WgValue) (i p : Dict WgValue) (ps : List (Dict WgValue))
    → store_value k r (seen i (p ∷ ps) in_peer) ≡ seen i (with_value k r p ∷ ps) in_peer
store_in_peer k (ok v) i p ps = refl
store_in_peer k (err e) i p ps = refl

abbrev lines_of_fields : List FieldLine → List Text
lines_of_fields = map (λ (f : FieldLine). f.line)

fields_in_interface :
    (fs : List FieldLine) (rest : List Text) (i : Dict WgValue) (ps : List (Dict WgValue))
    → All IsFieldLine fs
    → parse_lines (lines_of_fields fs ++ rest) (seen i ps in_interface)
      ≡ parse_lines rest (seen (with_fields fs i) ps in_interface)
unfolding parse_lines with_fields
fields_in_interface [] rest i ps h = refl
fields_in_interface (f ∷ fs) rest i ps h =
    ap (parse_lines (lines_of_fields fs ++ rest))
      (parse_line-field f (seen i ps in_interface) h.0 ∙ store_in_interface _ _ i ps)
    ∙ fields_in_interface fs rest _ ps h.1

fields_in_peer :
    (fs : List FieldLine) (rest : List Text) (i p : Dict WgValue) (ps : List (Dict WgValue))
    → All IsFieldLine fs
    → parse_lines (lines_of_fields fs ++ rest) (seen i (p ∷ ps) in_peer)
      ≡ parse_lines rest (seen i (with_fields fs p ∷ ps) in_peer)
unfolding parse_lines with_fields
fields_in_peer [] rest i p ps h = refl
fields_in_peer (f ∷ fs) rest i p ps h =
    ap (parse_lines (lines_of_fields fs ++ rest))
      (parse_line-field f (seen i (p ∷ ps) in_peer) h.0 ∙ store_in_peer _ _ i p ps)
    ∙ fields_in_peer fs rest i _ ps h.1

parse_line-interface :
    (line name : Text) (d : WgData)
    → strip line ≡ codes "interface" ++ (b':' ∷ name)
    → parse_line line d ≡ enter_interface (strip name) d
unfolding parse_line text_eq starts_with split_once
parse_line-interface line name d e = rw e refl

parse_line-peer :
    (line name : Text) (d : WgData)
    → strip line ≡ codes "peer" ++ (b':' ∷ name)
    → parse_line line d ≡ enter_peer (strip name) d
unfolding parse_line text_eq starts_with split_once
parse_line-peer line name d e = rw e refl

parse_line-nil : (d : WgData) → parse_line [] d ≡ d
unfolding parse_line strip text_eq
parse_line-nil d = refl

peers_read :
    (sections : List Section) (i : Dict WgValue) (ps : List (Dict WgValue)) (c : Context)
    → All (IsSection (codes "peer")) sections
    → status_of (parse_lines (lines_of_peers sections) (seen i ps c))
      ≡ record { interface = i; peers = reverse (reverse_aux (map peer_shown sections) ps) }
unfolding parse_lines peer_shown
peers_read [] i ps c h = refl
peers_read (s ∷ sections) i ps c h =
    ap
      (λ (d : WgData).
        status_of (parse_lines (lines_of_fields s.fields ++ lines_of_peers sections) d))
      (ap (parse_line s.heading) (parse_line-nil (seen i ps c))
        ∙ parse_line-peer s.heading s.name _ h.0.0)
    ∙ ap status_of (fields_in_peer s.fields _ i _ ps h.0.1)
    ∙ peers_read sections i _ in_peer h.1

-- If the output, stripped, consists of the lines of a section of the interface and of sections of
-- peers, each of these after an empty line, then the parser gives the interface with its name and
-- a dictionary for each peer, in their order, with its public key, and in each the value of every
-- field under its key with underscores, but those whose value cannot be read, given that the keys
-- have no colon, the values are not blank, no line of a field starts like a heading, and no line
-- has a line break.
pub parse_wg_output-lines :
    (output : Text) (interface : Section) (peers : List Section)
    → strip output ≡ join_with b'\n' (lines_of interface peers)
    → All (Lacks b'\n') (lines_of interface peers)
    → IsSection (codes "interface") interface
    → All (IsSection (codes "peer")) peers
    → parse_wg_output output
      ≡ record { interface = interface_shown interface; peers = map peer_shown peers }
unfolding parse_wg_output parse_lines interface_shown insert
parse_wg_output-lines output interface peers e l hi hp =
    let rest = lines_of_fields interface.fields ++ lines_of_peers peers in
    ap (λ (t : Text). status_of (parse_lines (split_on b'\n' t) nothing_seen)) e
    ∙ ap (λ (ls : List Text). status_of (parse_lines ls nothing_seen))
        (split_on-join_with b'\n' interface.heading rest l)
    ∙ ap (λ (d : WgData). status_of (parse_lines rest d))
        (parse_line-interface interface.heading interface.name nothing_seen hi.0)
    ∙ ap status_of (fields_in_interface interface.fields (lines_of_peers peers) _ [] hi.1)
    ∙ peers_read peers _ [] in_interface hp
    ∙ ap
        (λ (ps : List (Dict WgValue)). record { interface = interface_shown interface; peers = ps })
        (reverse-reverse (map peer_shown peers))
