-- ===== src/Stowaway/Wireguard/Fields.antt =====
-- The values that are read from a WireGuard file, and the lines that are made of them.
use gefyra.Prelude.{
  ◌≡◌, refl, subst, inl, inr, false, List, [], ◌∷◌, some, Text, codes, text_eq, strip, strip-strip,
  strip-IsWithin, All, Lacks, All-IsWithin, contains_text-IsWithin, split_once-IsWithin,
  contains_text, split_once, Cut, whole, parts, Bool-cases,
}
use gefyra.Prelude.Dict.{Dict, lookup, insert}
use gefyra.Stowaway.Wireguard.{Reading, full_key, assign, read_line, read_lines}

-- A text in one line, without blanks round it and without the heading of a section.
abbrev pub IsField : Text → Type 0
IsField v =
    Lacks b'\n' v
    × (strip v ≡ v)
    × (contains_text (codes "[Interface]") v ≡ false)
    × (contains_text (codes "[Peer]") v ≡ false)

abbrev pub HasFields : Dict Text → Type 0
HasFields [] = Unit
HasFields ((k, v) ∷ d) = IsField v × HasFields d

insert-HasFields : (k v : Text) (d : Dict Text) → IsField v → HasFields d → HasFields (insert k v d)
unfolding insert
insert-HasFields k v [] f h = (f, tt)
insert-HasFields k v ((j, w) ∷ d) f h = elim (Bool-cases (text_eq j k)) [
  | inl same ↦ rw same (f, h.1)
  | inr other ↦ rw other (h.0, insert-HasFields k v d f h.1)
]

pub lookup-IsField :
    (k : Text) (d : Dict Text) (v : Text) → HasFields d → lookup k d ≡ some v → IsField v
unfolding lookup
lookup-IsField k [] v h = λ e. cc e
lookup-IsField k ((j, w) ∷ d) v h = elim (Bool-cases (text_eq j k)) [
  | inl same ↦ rw same (λ e. subst IsField (cc e) h.0)
  | inr other ↦ rw other (λ e. lookup-IsField k d v h.1 e)
]

-- What is assigned from a line that is no heading.
assign-HasFields :
    (line : Text) (r : Reading) (t : Cut)
    → split_once b'=' line ≡ t
    → Lacks b'\n' line
    → contains_text (codes "[Interface]") line ≡ false
    → contains_text (codes "[Peer]") line ≡ false
    → HasFields r.data_
    → HasFields (assign r t).data_
assign-HasFields line r (whole a) e l hi hp h = h
assign-HasFields line r (parts k v) e l hi hp h =
    let from = split_once-IsWithin b'=' line k v e in
    let inner = strip-IsWithin v in
    insert-HasFields (full_key r.prefix k) (strip v) r.data_
      (
        All-IsWithin _ (strip v) v inner (All-IsWithin _ v line from l),
        strip-strip v,
        contains_text-IsWithin _ (strip v) v inner (contains_text-IsWithin _ v line from hi),
        contains_text-IsWithin _ (strip v) v inner (contains_text-IsWithin _ v line from hp),
      )
      h

read_line-HasFields :
    (line : Text) (r : Reading)
    → Lacks b'\n' line
    → HasFields r.data_
    → HasFields (read_line line r).data_
unfolding read_line
read_line-HasFields line r l h = elim (Bool-cases (text_eq (strip line) [])) [
  | inl blank ↦ rw blank h
  | inr full ↦ rw full (elim (Bool-cases (contains_text (codes "[Interface]") line)) [
    | inl heading ↦ rw heading h
    | inr other ↦ rw other (elim (Bool-cases (contains_text (codes "[Peer]") line)) [
      | inl peer ↦ rw peer h
      | inr neither ↦
          rw neither (assign-HasFields line r (split_once b'=' line) refl l other neither h)
    ])
  ])
]

pub read_lines-HasFields :
    (lines : List Text) (r : Reading)
    → All (Lacks b'\n') lines
    → HasFields r.data_
    → HasFields (read_lines lines r).data_
unfolding read_lines
read_lines-HasFields [] r l h = h
read_lines-HasFields (line ∷ lines) r l h =
    read_lines-HasFields lines (read_line line r) l.1 (read_line-HasFields line r l.0 h)
