-- ===== src/Stowaway/Routes/Undo.antt =====
-- Removing the route of a destination that was added.
use gefyra.Prelude.{
  ℕ, ◌≡◌, ◌≢◌, refl, ap, ap₂, sym, ◌∙◌, subst, false, [], ◌∷◌, Option, none, some, Text, text_eq,
  text_eq_iff, text_eq_refl, split_on, int-show, show, Signed, Lacks, Bool-cases, inl, inr,
}
use gefyra.Prelude.Dict.{IsDict, lookup, remove, lookup-remove}
use gefyra.Result.{ok, second, ok-injective, >>=-eq-ok}
use gefyra.Carrier.Config.Routes.{at_port}
use gefyra.Stowaway.ConfigMaps.{ConfigMapApi, Data}
use gefyra.Stowaway.Routes.{
  or_no_routes, destination_of, find_route, add_route, remove_route, delete_route,
}
use gefyra.Stowaway.Routes.Listed.{IsAbsent, find_route_lem}
use gefyra.Stowaway.Routes.Edits.{
  route_value, route_key, split_on-route_value, patched, lookup-patched, patched-IsDict,
  add_route-IsAdded,
}

some-injective : {A : Type 0} {a b : A} → some a ≡ some b → a ≡ b
some-injective e = cc

-- The search finds the route that was added, since no other has its destination.
find_route-added :
    (key add : Text) (port : ℕ) (data_ : Data) (found : Option (Text × Text))
    → Lacks b',' add
    → IsDict (or_no_routes data_)
    → IsAbsent add (or_no_routes data_)
    → find_route add (or_no_routes (patched data_ key (route_value add port))) none ≡ ok found
    → found ≡ some (key, show port)
find_route-added key add port data_ found lacks dict absent e =
    let value = route_value add port in
    let routes = or_no_routes (patched data_ key value) in
    let here : lookup key routes ≡ some value =
      lookup-patched data_ key value key dict ∙ rw (text_eq_refl key) refl in
    let split = split_on-route_value add port lacks in
    let absurd_absent : text_eq (destination_of value) add ≡ false → found ≡ some (key, show port) =
      λ wrong. cc (rw split at wrong, text_eq_refl add) in
    elim (find_route_lem add routes none found (patched-IsDict data_ key value dict) e) [
      | inl (_, none_of) ↦ absurd_absent (none_of key value here)
      | inr ((k, p), is, (v, there, d, q)) ↦ elim (Bool-cases (text_eq key k)) [
        | inl same ↦
            let k-key : key ≡ k = (text_eq_iff key k).0 same in
            let at_key : lookup key routes ≡ some v =
              subst (λ (x : Text). lookup x routes ≡ some v) (sym k-key) there in
            let v-value : some value ≡ some v = sym here ∙ at_key in
            is
            ∙ ap some (
                ap₂ (λ (x y : Text). (x, y)) (sym k-key)
                  (ok-injective (
                    sym (
                      rw split at (
                        subst (λ (x : Text). second (split_on b',' x) ≡ ok p)
                          (sym (some-injective v-value)) q)))))
        | inr other ↦
            let old : lookup k (or_no_routes data_) ≡ some v =
              sym (lookup-patched data_ key value k dict ∙ rw other refl) ∙ there in
            cc (absent k v old, (text_eq_iff (destination_of v) add).1 d)
      ]
    ]

restored :
    (key value : Text) (data_ : Data)
    → IsDict (or_no_routes data_)
    → lookup key (or_no_routes data_) ≡ none
    → (j : Text)
    → lookup j (remove key (or_no_routes (patched data_ key value))) ≡ lookup j (or_no_routes data_)
restored key value data_ dict fresh j =
    lookup-remove key j (or_no_routes (patched data_ key value))
    ∙ elim (Bool-cases (text_eq key j)) [
      | inl same ↦ rw same (
          sym (
            subst (λ (x : Text). lookup x (or_no_routes data_) ≡ none) ((text_eq_iff key j).0 same)
              fresh))
      | inr other ↦ rw other (lookup-patched data_ key value j dict ∙ rw other refl)
    ]

module _ (api : ConfigMapApi) where
  open api use {Store, read, replace, read-replace}

  delete_route-restores :
      (key add : Text) (port : ℕ) (t u : Store) (data_ : Data) (m : Signed)
      → key ≢ []
      → delete_route api (some (key, show port)) (or_no_routes data_) t ≡ ok (m, u)
      → (m ≡ at_port port) × (read u ≡ ok (some (remove key (or_no_routes data_))))
  delete_route-restores [] add port t u data_ m h e = absurd (h refl)
  delete_route-restores (c ∷ key) add port t u data_ m h e =
      let (w, e1, e2) = >>=-eq-ok (replace (some (remove (c ∷ key) (or_no_routes data_))) t) _ e in
      let both : ok (at_port port, w) ≡ ok (m, u) = rw (int-show port) at e2 in
      (
        sym (ap (λ (x : Signed × Store). x.0) (ok-injective both)),
        subst (λ (x : Store). read x ≡ ok (some (remove (c ∷ key) (or_no_routes data_))))
            (ap (λ (x : Signed × Store). x.1) (ok-injective both)) (read-replace t w _ e1),
      )

  route_key-ne-nil : (peer suffix : Text) → route_key peer suffix ≢ []
  route_key-ne-nil [] suffix e = cc
  route_key-ne-nil (c ∷ peer) suffix e = cc

  -- If a route is added under a key that is not there, for a destination without a comma that no
  -- listed route has, and then the route of that destination is removed, both with success, then
  -- the second returns the port that the first returned, and every key has what it had before; the
  -- routes are a dictionary.
  pub remove_route-add_route :
      (peer suffix add : Text) (s t u : Store) (data_ : Data) (n m : Signed)
      → read s ≡ ok data_
      → IsDict (or_no_routes data_)
      → lookup (route_key peer suffix) (or_no_routes data_) ≡ none
      → Lacks b',' add
      → IsAbsent add (or_no_routes data_)
      → add_route api peer suffix add s ≡ ok (n, t)
      → remove_route api add t ≡ ok (m, u)
      → (m ≡ n)
        × ((after : Data) × (read u ≡ ok after)
            × ((j : Text) → lookup j (or_no_routes after) ≡ lookup j (or_no_routes data_)))
  unfolding remove_route
  remove_route-add_route peer suffix add s t u data_ n m r dict fresh lacks absent e f =
      let added = add_route-IsAdded api peer suffix add s t data_ n r e in
      let key = route_key peer suffix in
      let after = patched data_ key (route_value add added.port) in
      let (found, e1, e2) =
        >>=-eq-ok (find_route add (or_no_routes after) none) _ (rw added.reads at f) in
      let is = find_route-added key add added.port data_ found lacks dict absent e1 in
      let (port, left) =
        delete_route-restores key add added.port t u after m (route_key-ne-nil peer suffix)
          (rw is at e2) in
      (
        port ∙ sym added.is_port,
        (_, left, λ j. restored key (route_value add added.port) data_ dict fresh j),
      )
