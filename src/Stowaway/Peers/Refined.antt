-- ===== src/Stowaway/Peers/Refined.antt =====
-- The peers as a set of translated names, of which the ConfigMap is one representation.
use gefyra.Prelude.{
  ◌≡◌, ◌≢◌, ap, ◌∙◌, Bool, not, ◌&&◌, ◌||◌, List, [], ◌∷◌, Option, none, some, Text, text_eq,
  has_text,
}
use gefyra.Result.{Result, ok}
use gefyra.Stowaway.ConfigMaps.{ConfigMapApi}
use gefyra.Stowaway.Peers.{
  translate_peer_name, edit_peer_configmap, peer_exists, add_peer, remove_peer,
}
use gefyra.Stowaway.Peers.Edits.{peers_of-Lacks, peer_exists-Holds}
use gefyra.Stowaway.Peers.Found.{
  HoldsUnique, add_peer_lem, remove_peer_lem, has_text-with_peer, has_text-without_peer,
  translated_ne,
}

-- An operation, with what the restart of the pod comes to.
pub data Op : Type 0 where
  adding : Text → Option Text → Result (Unit {0}) → Op
  removing : Text → Result (Unit {0}) → Op

abbrev PeerSet : Type 0
PeerSet = Text → Bool

-- What an operation does to the set.
unfoldable pub in_set : Op → PeerSet → PeerSet
in_set (adding p subnet restart) set u = text_eq (translate_peer_name p) u || set u
in_set (removing p cleanup) set u = not (text_eq (translate_peer_name p) u) && set u

unfoldable pub all_in_set : List Op → PeerSet → PeerSet
all_in_set [] set = set
all_in_set (op ∷ ops) set = all_in_set ops (in_set op set)

-- Sets that have the same names but the empty one.
abbrev Agree : PeerSet → PeerSet → Type 0
Agree f g = (u : Text) → u ≢ [] → f u ≡ g u

in_set-Agree : (op : Op) (f g : PeerSet) → Agree f g → Agree (in_set op f) (in_set op g)
unfolding in_set
in_set-Agree (adding p subnet restart) f g h u n =
    ap (λ b. text_eq (translate_peer_name p) u || b) (h u n)
in_set-Agree (removing p cleanup) f g h u n =
    ap (λ b. not (text_eq (translate_peer_name p) u) && b) (h u n)

all_in_set-Agree :
    (ops : List Op) (f g : PeerSet) → Agree f g → Agree (all_in_set ops f) (all_in_set ops g)
unfolding all_in_set
all_in_set-Agree [] f g h = h
all_in_set-Agree (op ∷ ops) f g h = all_in_set-Agree ops _ _ (in_set-Agree op f g h)

module _ (api : ConfigMapApi) where
  open api use {Store}

  -- The operations one after the other, of names that are not empty, where each edit succeeds.
  pub data Ran : Store → List Op → Store → Type 0 where
    nothing_ran : {s : Store} → Ran s [] s
    then_added :
        {s r t : Store} {ops : List Op} (p : Text) (subnet : Option Text)
        (restart : Result (Unit {0}))
        → p ≢ []
        → edit_peer_configmap api (some p) none subnet s ≡ ok r
        → Ran (add_peer api restart p subnet s).0 ops t
        → Ran s (adding p subnet restart ∷ ops) t
    then_removed :
        {s r t : Store} {ops : List Op} (p : Text) (cleanup : Result (Unit {0}))
        → p ≢ []
        → edit_peer_configmap api none (some p) none s ≡ ok r
        → Ran (remove_peer api cleanup p s).0 ops t
        → Ran s (removing p cleanup ∷ ops) t

  -- The ConfigMap of the peers implements a set of translated names: after any sequence of adding
  -- and removing peers in which every edit succeeds, whatever the restarts of the pod come to, a
  -- peer is found exactly if its translated name is in the set to which the same operations lead
  -- from the names that were listed at the start, given that no name was listed twice then and
  -- that no name is empty.
  pub peer_exists-Ran :
      {s t : Store} {ops : List Op} (peers : List Text) (q : Text)
      → q ≢ []
      → HoldsUnique api s peers
      → Ran s ops t
      → peer_exists api q t ≡ ok (all_in_set ops (λ u. has_text u peers) (translate_peer_name q))
  unfolding all_in_set in_set
  peer_exists-Ran {s} peers q n h nothing_ran = peer_exists-Holds api s peers q h.holds
  peer_exists-Ran {s} {t} peers q n h (then_added {r = r} {ops = ops} p subnet restart m e ran) =
      peer_exists-Ran _ q n (add_peer_lem api restart s r peers p p subnet m h e).1 ran
      ∙ ap ok (
          all_in_set-Agree ops _ _ (λ u v. has_text-with_peer (translate_peer_name p) u peers)
            (translate_peer_name q) (translated_ne q n))
  peer_exists-Ran {s} {t} peers q n h (then_removed {r = r} {ops = ops} p cleanup m e ran) =
      peer_exists-Ran _ q n (remove_peer_lem api cleanup s r peers p p m m h e).1 ran
      ∙ ap ok (
          all_in_set-Agree ops _ _
            (λ u v.
              has_text-without_peer (translate_peer_name p) u peers v
                (peers_of-Lacks h.holds.data_ peers h.holds.splits) h.unique)
            (translate_peer_name q) (translated_ne q n))
