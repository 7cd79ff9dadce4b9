-- ===== src/Stowaway/Peers/Found.antt =====
-- Which peers are found after a peer is added or removed.
use gefyra.Prelude.{
  ◌≡◌, ◌≢◌, refl, ap, ◌∙◌, ◌&&◌, ◌||◌, not, List, [], ◌∷◌, Option, none, some, Text, text_eq,
  text_eq_iff, has_text, split_on, join_with, Lacks, All, Bool-cases, inl, inr, split_on-join_with,
}
use gefyra.Result.{Result, ok}
use gefyra.Stowaway.ConfigMaps.{ConfigMapApi}
use gefyra.Stowaway.Peers.{
  translate_peer_name, remove_first, edit_peer_configmap, peer_exists, add_peer, remove_peer,
}
use gefyra.Stowaway.Peers.Names.{
  translate_peer_name-ne-nil, has_text-split_on-join_with, IsUnique, remove_first-Lacks,
  has_text-remove_first, remove_first-IsUnique,
}
use gefyra.Stowaway.Peers.Edits.{
  Holds, peers_of-Lacks, peer_exists-Holds, with_peer, edit_add-Holds, without_peer,
  edit_remove-Holds,
}

pub has_text-with_peer :
    (a u : Text) (ps : List Text) → has_text u (with_peer a ps) ≡ (text_eq a u || has_text u ps)
has_text-with_peer a u ps = elim (Bool-cases (has_text a ps)) [
  | inl old ↦ elim (Bool-cases (text_eq a u)) [
    | inl same ↦ rw (old, same) (rw ((text_eq_iff a u).0 same) at old)
    | inr other ↦ rw (old, other)
  ]
  | inr new ↦ rw new
]

with_peer-IsUnique : (a : Text) (ps : List Text) → IsUnique ps → IsUnique (with_peer a ps)
with_peer-IsUnique a ps h = elim (Bool-cases (has_text a ps)) [
  | inl old ↦ rw old h
  | inr new ↦ rw new (new, h)
]

pub has_text-without_peer :
    (a u : Text) (ps : List Text)
    → u ≢ []
    → All (Lacks b',') ps
    → IsUnique ps
    → has_text u (without_peer a ps) ≡ (not (text_eq a u) && has_text u ps)
has_text-without_peer a u ps n l h = elim (Bool-cases (has_text a ps)) [
  | inl old ↦ rw old (
      has_text-split_on-join_with u (remove_first a ps) n (remove_first-Lacks a ps l)
      ∙ has_text-remove_first a u ps h)
  | inr new ↦ elim (Bool-cases (text_eq a u)) [
    | inl same ↦ rw (new, same) (rw ((text_eq_iff a u).0 same) at new)
    | inr other ↦ rw (new, other)
  ]
]

split_on-join_with-IsUnique :
    (ps : List Text)
    → All (Lacks b',') ps
    → IsUnique ps
    → IsUnique (split_on b',' (join_with b',' ps))
split_on-join_with-IsUnique [] l h = unfold split_on join_with in (refl, tt)
split_on-join_with-IsUnique (p ∷ ps) l h = rw (split_on-join_with b',' p ps l) h

without_peer-IsUnique :
    (a : Text) (ps : List Text) → All (Lacks b',') ps → IsUnique ps → IsUnique (without_peer a ps)
without_peer-IsUnique a ps l h = elim (Bool-cases (has_text a ps)) [
  | inl old ↦ rw old (
      split_on-join_with-IsUnique (remove_first a ps) (remove_first-Lacks a ps l)
        (remove_first-IsUnique a ps h))
  | inr new ↦ rw new h
]

pub translated_ne : (q : Text) → q ≢ [] → translate_peer_name q ≢ []
translated_ne [] n = absurd (n refl)
translated_ne (d ∷ q) n = translate_peer_name-ne-nil d q

module _ (api : ConfigMapApi) where
  open api use {Store}

  pub add_peer_state :
      (restart : Result (Unit {0})) (s t : Store) (p : Text) (subnet : Option Text)
      → edit_peer_configmap api (some p) none subnet s ≡ ok t
      → (add_peer api restart p subnet s).0 ≡ t
  unfolding add_peer
  add_peer_state restart s t p subnet e = rw e

  remove_peer_state :
      (cleanup : Result (Unit {0})) (s t : Store) (p : Text)
      → edit_peer_configmap api none (some p) none s ≡ ok t
      → (remove_peer api cleanup p s).0 ≡ t
  unfolding remove_peer
  remove_peer_state cleanup s t p e = rw e

  -- The peers of a store are known, and none is there twice.
  pub record HoldsUnique (s : Store) (peers : List Text) : Type 0 where
    pub holds : Holds api s peers
    pub unique : IsUnique peers

  -- If the edit that adds a peer succeeds, then whatever becomes of the restart, a peer is found
  -- afterwards exactly if it was before or has the translated name of the one that is added, and
  -- no peer is listed twice, given that none was before and the added name is not empty.
  pub add_peer_lem :
      (restart : Result (Unit {0})) (s t : Store) (peers : List Text) (p q : Text)
      (subnet : Option Text)
      → p ≢ []
      → HoldsUnique s peers
      → edit_peer_configmap api (some p) none subnet s ≡ ok t
      → let after = (add_peer api restart p subnet s).0 in
        (peer_exists api q after
          ≡ ok (
              text_eq (translate_peer_name p) (translate_peer_name q)
              || has_text (translate_peer_name q) peers))
        × HoldsUnique after (with_peer (translate_peer_name p) peers)
  add_peer_lem restart s t peers [] q subnet n h e = absurd (n refl)
  add_peer_lem restart s t peers (c ∷ p) q subnet n h e =
      let held = edit_add-Holds api s t peers c p subnet h.holds e in
      rw (add_peer_state restart s t (c ∷ p) subnet e) (
        peer_exists-Holds api t _ q held
            ∙ ap ok
                (has_text-with_peer (translate_peer_name (c ∷ p)) (translate_peer_name q) peers),
        record {
          holds = held;
          unique = with_peer-IsUnique (translate_peer_name (c ∷ p)) peers h.unique;
        },
      )

  -- If the edit that removes a peer succeeds, then whatever becomes of the files and the restart,
  -- a peer is found afterwards exactly if it was before and has another translated name than the
  -- one that is removed, and no peer is listed twice, given that none was before and both names
  -- are not empty.
  pub remove_peer_lem :
      (cleanup : Result (Unit {0})) (s t : Store) (peers : List Text) (p q : Text)
      → p ≢ []
      → q ≢ []
      → HoldsUnique s peers
      → edit_peer_configmap api none (some p) none s ≡ ok t
      → let after = (remove_peer api cleanup p s).0 in
        (peer_exists api q after
          ≡ ok (
              not (text_eq (translate_peer_name p) (translate_peer_name q))
              && has_text (translate_peer_name q) peers))
        × HoldsUnique after (without_peer (translate_peer_name p) peers)
  remove_peer_lem cleanup s t peers [] q n m h e = absurd (n refl)
  remove_peer_lem cleanup s t peers (c ∷ p) q n m h e =
      let held = edit_remove-Holds api s t peers c p h.holds e in
      let lacks = peers_of-Lacks h.holds.data_ peers h.holds.splits in
      rw (remove_peer_state cleanup s t (c ∷ p) e) (
        peer_exists-Holds api t _ q held
            ∙ ap ok (
                has_text-without_peer (translate_peer_name (c ∷ p)) (translate_peer_name q) peers
                  (translated_ne q m) lacks h.unique),
        record {
          holds = held;
          unique = without_peer-IsUnique (translate_peer_name (c ∷ p)) peers lacks h.unique;
        },
      )
