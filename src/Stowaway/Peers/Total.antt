-- ===== src/Stowaway/Peers/Total.antt =====
-- That the edits of the peers succeed where the Kubernetes API does.
use gefyra.Prelude.{
  ◌≡◌, refl, List, [], ◌∷◌, join_with, Option, none, some, Text, has_text, Bool-cases, inl, inr,
}
use gefyra.Prelude.Dict.{Dict, insert, remove}
use gefyra.Result.{ok}
use gefyra.Stowaway.ConfigMaps.{ConfigMapApi, Data}
use gefyra.Stowaway.Peers.{
  or_empty_data, subnet_key, remove_first, peers_key, translated, given, with_subnet, add_to_peers,
  remove_from_peers, edit_peer_configmap,
}
use gefyra.Stowaway.Peers.Edits.{Holds}

module _ (api : ConfigMapApi) where
  open api use {Store, patch, replace}

  -- Every call that writes succeeds.
  pub record Writes : Type 0 where
    pub patches : (d : Dict Text) (s : Store) → (t : Store) × (patch d s ≡ ok t)
    pub replaces : (d : Data) (s : Store) → (t : Store) × (replace d s ≡ ok t)

  add_to_peers_total :
      (writes : Writes) (add subnet : Option Text) (peers : List Text) (s : Store)
      → (r : List Text × Store) × (add_to_peers api add subnet peers s ≡ ok r)
  unfolding add_to_peers
  add_to_peers_total writes none subnet peers s = ((peers, s), refl)
  add_to_peers_total writes (some add) subnet peers s = elim (Bool-cases (has_text add peers)) [
    | inl old ↦ ((peers, s), rw old)
    | inr new ↦
        let entries =
          with_subnet add (given subnet) ((peers_key, join_with b',' (add ∷ peers)) ∷ []) in
        let (t, e) = writes.patches entries s in ((add ∷ peers, t), rw (new, e))
  ]

  remove_from_peers_total :
      (writes : Writes) (gone : Option Text) (data_ : Data) (peers : List Text) (s : Store)
      → (t : Store) × (remove_from_peers api gone data_ peers s ≡ ok t)
  unfolding remove_from_peers
  remove_from_peers_total writes none data_ peers s = (s, refl)
  remove_from_peers_total writes (some gone) data_ peers s =
      elim (Bool-cases (has_text gone peers)) [
        | inl there ↦
            let left =
              insert peers_key (join_with b',' (remove_first gone peers))
                (remove (subnet_key gone) (or_empty_data data_)) in
            let (t, e) = writes.replaces (some left) s in (t, rw (there, e))
        | inr absent ↦ (s, rw absent)
      ]

  -- If the peers are read from the store and every call that writes to it succeeds, then the edit
  -- of the peers succeeds, whatever is added and removed.
  pub edit_peer_configmap_total :
      (writes : Writes) (add gone subnet : Option Text) (s : Store) (peers : List Text)
      → Holds api s peers
      → (t : Store) × (edit_peer_configmap api add gone subnet s ≡ ok t)
  unfolding edit_peer_configmap
  edit_peer_configmap_total writes add gone subnet s peers h =
      let (r, e) = add_to_peers_total writes (translated add) subnet peers s in
      let (t, f) = remove_from_peers_total writes (translated gone) h.data_ r.0 r.1 in
      (t, rw (h.reads, h.splits, e, f))
