-- ===== src/Stowaway/Peers/Edits.antt =====
-- What adding and removing a peer do to the peers that are found.
use gefyra.Prelude.{
  ℕ, ◌≡◌, refl, ap, ◌∙◌, subst, false, List, [], ◌∷◌, Option, none, some, Text, text_eq,
  if◌then◌else◌, has_text, split_on, join_with, Lacks, All, Bool-cases, inl, inr,
  split_on-join_with,
}
use gefyra.Prelude.Dict.{Dict, lookup, insert, remove, update, lookup-insert, lookup-insert_self}
use gefyra.Result.{key_error, ok, ok-injective, >>=-eq-ok}
use gefyra.Stowaway.ConfigMaps.{ConfigMapApi, Data, merge}
use gefyra.Stowaway.Peers.{
  or_raise, translate_peer_name, peers_key, subnet_key, remove_first, peers_of, given, with_subnet,
  or_empty_data, add_to_peers, remove_from_peers, edit_peer_configmap, peer_exists,
}
use gefyra.Stowaway.Peers.Names.{translate_peer_name-Lacks, split_on-Lacks}

subnet-ne-peers : (a : Text) → text_eq (subnet_key a) peers_key ≡ false
unfolding text_eq
subnet-ne-peers a = refl

peers-ne-subnet : (a : Text) → text_eq peers_key (subnet_key a) ≡ false
unfolding text_eq
peers-ne-subnet a = refl

-- The peers after a patch that sets them.
peers_of-merge :
    (d : Dict Text) (a text : Text) (subnet : Option Text)
    → peers_of (merge (some d) (with_subnet a subnet ((peers_key, text) ∷ [])))
      ≡ ok (split_on b',' text)
unfolding peers_of update insert
peers_of-merge d a text none = rw (lookup-insert_self peers_key text d)
peers_of-merge d a text (some s) =
    rw (peers-ne-subnet a, lookup-insert, subnet-ne-peers a, lookup-insert_self peers_key text d)

peers_of-removal :
    (d : Dict Text) (a text : Text)
    → peers_of (some (insert peers_key text d)) ≡ ok (split_on b',' text)
unfolding peers_of
peers_of-removal d a text = rw (lookup-insert_self peers_key text d)

-- The peers that a data has are the parts of a text.
pub peers_of-Lacks : (d : Data) (peers : List Text) → peers_of d ≡ ok peers → All (Lacks b',') peers
unfolding peers_of
peers_of-Lacks none peers e = cc
peers_of-Lacks (some d) peers e =
    let (text, _, f) = >>=-eq-ok (or_raise key_error (lookup peers_key d)) _ e in
    subst (All (Lacks b',')) (ok-injective f) (split_on-Lacks b',' text)

merge_splits :
    (o : Data) (peers : List Text) (a text : Text) (subnet : Option Text)
    → peers_of o ≡ ok peers
    → peers_of (merge o (with_subnet a subnet ((peers_key, text) ∷ []))) ≡ ok (split_on b',' text)
merge_splits none peers a text subnet e = unfold peers_of in cc e
merge_splits (some d) peers a text subnet e = peers_of-merge d a text subnet

-- The peers after adding one.
abbrev pub with_peer : Text → List Text → List Text
with_peer a peers = if has_text a peers then peers else a ∷ peers

-- The peers after removing one.
abbrev pub without_peer : Text → List Text → List Text
without_peer a peers =
    if has_text a peers then split_on b',' (join_with b',' (remove_first a peers)) else peers

module _ (api : ConfigMapApi) where
  open api use {Store, read, patch, replace, read-patch, read-replace}

  -- The peers that a store holds.
  pub record Holds (s : Store) (peers : List Text) : Type 0 where
    pub data_ : Data
    pub reads : read s ≡ ok data_
    pub splits : peers_of data_ ≡ ok peers

  pub peer_exists-Holds :
      (s : Store) (peers : List Text) (q : Text)
      → Holds s peers
      → peer_exists api q s ≡ ok (has_text (translate_peer_name q) peers)
  unfolding peer_exists
  peer_exists-Holds s peers q h = rw (h.reads, h.splits)

  add_to_peers-Holds :
      (s : Store) (peers : List Text) (a : Text) (subnet : Option Text) (r : List Text × Store)
      → Lacks b',' a
      → Holds s peers
      → add_to_peers api (some a) subnet peers s ≡ ok r
      → Holds r.1 (with_peer a peers)
  unfolding add_to_peers
  add_to_peers-Holds s peers a subnet r lacks h e = elim (Bool-cases (has_text a peers)) [
    | inl old ↦ rw old (
        subst (λ (x : Store). Holds x peers)
          (ap (λ (x : List Text × Store). x.1) (ok-injective (rw old at e))) h)
    | inr new ↦ rw new (
        let entries = with_subnet a (given subnet) ((peers_key, join_with b',' (a ∷ peers)) ∷ []) in
        let (t, e1, e2) = >>=-eq-ok (patch entries s) _ (rw new at e) in
        subst (λ (x : Store). Holds x (a ∷ peers))
          (ap (λ (x : List Text × Store). x.1) (ok-injective e2))
          (record {
            data_ = merge h.data_ entries;
            reads = read-patch s t entries h.data_ h.reads e1;
            splits =
                merge_splits h.data_ peers a (join_with b',' (a ∷ peers)) (given subnet) h.splits
                ∙ ap ok (
                    split_on-join_with b',' a peers (lacks, peers_of-Lacks h.data_ peers h.splits));
          }))
  ]

  pub edit_add-Holds :
      (s t : Store) (peers : List Text) (c : ℕ) (p : Text) (subnet : Option Text)
      → Holds s peers
      → edit_peer_configmap api (some (c ∷ p)) none subnet s ≡ ok t
      → Holds t (with_peer (translate_peer_name (c ∷ p)) peers)
  unfolding edit_peer_configmap
  edit_add-Holds s t peers c p subnet h e =
      let chain = rw (h.reads, h.splits) at e in
      let (r, e1, e2) =
        >>=-eq-ok (add_to_peers api (some (translate_peer_name (c ∷ p))) subnet peers s) _ chain in
      subst (λ (x : Store). Holds x (with_peer (translate_peer_name (c ∷ p)) peers))
        (ok-injective e2)
        (add_to_peers-Holds s peers (translate_peer_name (c ∷ p)) subnet r
          (translate_peer_name-Lacks (c ∷ p)) h e1)

  remove_from_peers-Holds :
      (s t : Store) (peers : List Text) (a : Text) (h : Holds s peers)
      → remove_from_peers api (some a) h.data_ peers s ≡ ok t
      → Holds t (without_peer a peers)
  unfolding remove_from_peers
  remove_from_peers-Holds s t peers a h e = elim (Bool-cases (has_text a peers)) [
    | inl old ↦ rw old (record {
      data_ = some (
          insert peers_key (join_with b',' (remove_first a peers))
            (remove (subnet_key a) (or_empty_data h.data_)));
      reads = read-replace s t _ (rw old at e);
      splits =
          peers_of-removal (remove (subnet_key a) (or_empty_data h.data_)) a
            (join_with b',' (remove_first a peers));
    })
    | inr new ↦ rw new (subst (λ (x : Store). Holds x peers) (ok-injective (rw new at e)) h)
  ]

  pub edit_remove-Holds :
      (s t : Store) (peers : List Text) (c : ℕ) (p : Text)
      → Holds s peers
      → edit_peer_configmap api none (some (c ∷ p)) none s ≡ ok t
      → Holds t (without_peer (translate_peer_name (c ∷ p)) peers)
  unfolding edit_peer_configmap
  edit_remove-Holds s t peers c p h e =
      remove_from_peers-Holds s t peers (translate_peer_name (c ∷ p)) h
        (rw (h.reads, h.splits, add_to_peers) at e)
