-- ===== src/Stowaway/Peers.antt =====
-- The peers of Stowaway, kept in its ConfigMap (operator/gefyra/connection/stowaway/__init__.py).
pub mod Names
pub mod Edits
pub mod Found
pub mod Refined
pub mod Total
use gefyra.Prelude.{
  ℕ, Bool, true, false, ◌&&◌, ◌||◌, not, List, [], ◌∷◌, ◌++◌, Option, none, some, Text, codes,
  text_eq, leb, if◌then◌else◌, has_text, split_on, join_with,
}
use gefyra.Prelude.Dict.{Dict, lookup, insert, remove}
use gefyra.Result.{
  or_raise, Result, ok, err, Error, api_exception, runtime_error, key_error, type_error, ◌>>=◌,
  ◌>>◌,
}
use gefyra.Stowaway.ConfigMaps.{ConfigMapApi, Data}

-- `string.printable[:62]`: the digits and the ASCII letters
abbrev pub is_plain : ℕ → Bool
is_plain c = (leb 48 c && leb c 57) || ((leb 65 c && leb c 90) || (leb 97 c && leb c 122))

-- `_translate_peer_name`: each other character becomes three zeros
unfoldable pub translate_peer_name : Text → Text
translate_peer_name [] = []
translate_peer_name (c ∷ s) =
    let rest = translate_peer_name s in if is_plain c then c ∷ rest else b'0' ∷ b'0' ∷ b'0' ∷ rest

abbrev pub peers_key : Text
peers_key = codes "PEERS"

abbrev pub subnet_key : Text → Text
subnet_key peer = codes "SERVER_ALLOWEDIPS_PEER_" ++ peer

-- `list.remove`: the first occurrence
unfoldable pub remove_first : Text → List Text → List Text
remove_first w [] = []
remove_first w (v ∷ vs) = if text_eq v w then vs else v ∷ remove_first w vs

-- `configmap.data["PEERS"].split(",")`
unfoldable pub peers_of : Data → Result (List Text)
peers_of none = err type_error
peers_of (some data_) = do
  text ← or_raise key_error (lookup peers_key data_)
  ok (split_on b',' text)

-- A text that counts as given: not None and not empty.
abbrev pub given : Option Text → Option Text
given none = none
given (some []) = none
given (some (c ∷ s)) = some (c ∷ s)

abbrev pub translated : Option Text → Option Text
translated o = elim (given o) [ none ↦ none | some p ↦ some (translate_peer_name p) ]

abbrev with_subnet : Text → Option Text → Dict Text → Dict Text
with_subnet add none d = d
with_subnet add (some subnet) d = insert (subnet_key add) subnet d

abbrev or_empty_data : Data → Dict Text
or_empty_data none = []
or_empty_data (some d) = d

module _ (api : ConfigMapApi) where
  open api use {Store, read, patch, replace}

  -- `if add and add not in peers`
  unfoldable pub add_to_peers :
      Option Text → Option Text → List Text → Store → Result (List Text × Store)
  add_to_peers none subnet peers s = ok (peers, s)
  add_to_peers (some add) subnet peers s = if has_text add peers then ok (peers, s) else (do
    t ← patch (with_subnet add (given subnet) ((peers_key, join_with b',' (add ∷ peers)) ∷ [])) s
    ok (add ∷ peers, t))

  -- `if remove and remove in peers`, on the data that was read
  unfoldable pub remove_from_peers : Option Text → Data → List Text → Store → Result Store
  remove_from_peers none data_ peers s = ok s
  remove_from_peers (some gone) data_ peers s =
      if has_text gone peers
      then replace
          (some (
            insert peers_key (join_with b',' (remove_first gone peers))
              (remove (subnet_key gone) (or_empty_data data_))))
          s
      else ok s

  -- `_edit_peer_configmap`
  unfoldable pub edit_peer_configmap :
      Option Text → Option Text → Option Text → Store → Result Store
  unfolding add_to_peers remove_from_peers
  edit_peer_configmap add gone subnet s = read s >>= λ data_. peers_of data_ >>= λ peers.
      add_to_peers (translated add) subnet peers s >>= λ r.
      remove_from_peers (translated gone) data_ r.0 r.1

  abbrev contains_peer : Text → Result (List Text) → Result Bool
  contains_peer peer (ok peers) = ok (has_text (translate_peer_name peer) peers)
  contains_peer peer (err e) = err e

  -- An ApiException while reading counts as absence.
  abbrev looked_up : Text → Result Data → Result Bool
  looked_up peer (ok data_) = contains_peer peer (peers_of data_)
  looked_up peer (err (api_exception status)) = ok false
  looked_up peer (err e) = err e

  -- `peer_exists`
  unfoldable pub peer_exists : Text → Store → Result Bool
  peer_exists peer s = looked_up peer (read s)

  -- `except ApiException` around a call that returns nothing
  abbrev caught {ℓ} : {A : Type ℓ} → A → Result A → Result A
  caught a (ok b) = ok b
  caught a (err (api_exception status)) = ok a
  caught a (err e) = err e

  abbrev after_edit {ℓ} : {A : Type ℓ} → A → Result A → Store → Result Store → Store × Result A
  after_edit fallback rest s (ok t) = (t, caught fallback rest)
  after_edit fallback rest s (err e) = (s, caught fallback (err e))

  -- `add_peer`; `restart` is what restarting the pod and waiting come to
  unfoldable pub add_peer :
      Result (Unit {0}) → Text → Option Text → Store → Store × Result (Unit {0})
  unfolding edit_peer_configmap
  add_peer restart peer subnet s =
      after_edit tt restart s (edit_peer_configmap (some peer) none subnet s)

  -- `remove_peer`; `cleanup` is what clearing the peer's files and restarting the pod come to
  unfoldable pub remove_peer : Result (Unit {0}) → Text → Store → Store × Result Bool
  unfolding edit_peer_configmap
  remove_peer cleanup peer s =
      after_edit false (do cleanup; ok true) s (edit_peer_configmap none (some peer) none s)
