-- ===== src/Stowaway/Debris/Kept.antt =====
-- Which routes the removal keeps.
use gefyra.Prelude.{
  All, Occurs, ◌⊎◌, ◌≢◌, ◌≡◌, refl, ap, sym, ◌∙◌, subst, true, List, [], ◌∷◌, none, some, Text,
  ◌==◌, ==_iff, length, Bool-cases, inl, inr,
}
use gefyra.Prelude.Dict.{Dict, IsDict, lookup}
use gefyra.Result.{Result, ok, ok-injective, >>=-eq-ok}
use gefyra.Stowaway.ConfigMaps.{ConfigMapApi, Data}
use gefyra.Stowaway.Routes.{or_no_routes}
use gefyra.Stowaway.Debris.Used.{Uses, is_used-Uses, is_used-not-Uses}
use gefyra.Stowaway.Debris.{
  ListedBridge, RouteParts, parts_of, sort_routes, commit, sweep, reconcile_proxyroutes,
}
use gefyra.Stowaway.Debris.Sorted.{IsDecided, lookup-sort_routes, length-sort_routes}

-- A bridge uses the route, and it is left as it was, or none does, and it is gone.
abbrev pub IsCleaned : List ListedBridge → Dict Text → Text → Text → Type 0
IsCleaned bridges kept k v =
    (route : RouteParts) × (parts_of k v ≡ ok route)
    × ((((b : ListedBridge) × Occurs b bridges × Uses route b) × (lookup k kept ≡ some v))
        ⊎ (All (λ (b : ListedBridge). ¬ Uses route b) bridges × (lookup k kept ≡ none)))

cleaned :
    (bridges : List ListedBridge) (kept : Dict Text) (k v : Text)
    → IsDecided bridges kept (k, v)
    → IsCleaned bridges kept k v
cleaned bridges kept k v (used, decided, left) =
    let (route, e1, f1) = >>=-eq-ok (parts_of k v) _ decided in
    elim (Bool-cases used) [
      | inl yes_ ↦ (route, e1, inl (is_used-Uses route bridges (f1 ∙ ap ok yes_), rw yes_ at left))
      | inr no_ ↦ (route, e1, inr (is_used-not-Uses route bridges (f1 ∙ ap ok no_), rw no_ at left))
    ]

module _ (api : ConfigMapApi) (notify : Result (Unit {0})) where
  open api use {Store, read, replace, read-replace}

  -- What a store holds after a run that decided on each route.
  abbrev pub IsSwept : List ListedBridge → Dict Text → Store → Type 0
  IsSwept bridges routes t =
      (after : Data) × (read t ≡ ok after)
      × ((k v : Text) → lookup k routes ≡ some v → IsCleaned bridges (or_no_routes after) k v)

  commit-IsSwept :
      (bridges : List ListedBridge) (routes : Dict Text) (sorted : Dict Text × List Text)
      (s t : Store) (data_ : Data) (services : List Text)
      → read s ≡ ok data_
      → or_no_routes data_ ≡ routes
      → IsDict routes
      → sort_routes bridges routes ≡ ok sorted
      → commit api notify routes s sorted ≡ ok (services, t)
      → IsSwept bridges routes t
  commit-IsSwept bridges routes sorted s t data_ services r o h e f =
      elim (Bool-cases (length sorted.0 == length routes)) [
        | inl full ↦
            let kept : sorted.0 ≡ routes =
              (length-sort_routes bridges routes sorted e).1
                ((==_iff (length sorted.0) (length routes)).0 full) in
            let same : s ≡ t = ap (λ (x : List Text × Store). x.1) (ok-injective (rw full at f)) in
            (
              data_,
              subst (λ (x : Store). read x ≡ ok data_) same r,
              λ k v here.
                  subst (λ (d : Dict Text). IsCleaned bridges d k v) (kept ∙ sym o)
                    (cleaned bridges sorted.0 k v
                      (lookup-sort_routes bridges routes sorted k v e h here)),
            )
        | inr fewer ↦
            let (u, e1, f1) = >>=-eq-ok (replace (some sorted.0) s) _ (rw fewer at f) in
            let (told, e2, f2) = >>=-eq-ok notify _ f1 in
            let same : u ≡ t = ap (λ (x : List Text × Store). x.1) (ok-injective f2) in
            (
              some sorted.0,
              subst (λ (x : Store). read x ≡ ok (some sorted.0)) same
                  (read-replace s u (some sorted.0) e1),
              λ k v here.
                  cleaned bridges sorted.0 k v
                    (lookup-sort_routes bridges routes sorted k v e h here),
            )
      ]

  lookup_none : (k v : Text) → lookup k [] ≢ some v
  unfolding lookup
  lookup_none k v e = cc

  sweep-IsSwept :
      (bridges : List ListedBridge) (routes : Dict Text) (s t : Store) (data_ : Data)
      (services : List Text)
      → read s ≡ ok data_
      → or_no_routes data_ ≡ routes
      → IsDict routes
      → sweep api notify bridges routes s ≡ ok (services, t)
      → IsSwept bridges routes t
  sweep-IsSwept bridges [] s t data_ services r o h f = (
    data_,
    subst (λ (x : Store). read x ≡ ok data_) (ap (λ (x : List Text × Store). x.1) (ok-injective f))
        r,
    λ k v here. absurd (lookup_none k v here),
  )
  sweep-IsSwept bridges (p ∷ routes) s t data_ services r o h f =
      let (sorted, e1, f1) = >>=-eq-ok (sort_routes bridges (p ∷ routes)) _ f in
      commit-IsSwept bridges (p ∷ routes) sorted s t data_ services r o h e1 f1

  -- If Stowaway is ready, there is a bridge, and the removal of unused routes succeeds, then each
  -- route that was listed has its peer, destination address and port, and afterwards it has its
  -- value, and a listed bridge is of that peer and that address and has an endpoint with that
  -- port, or it is gone, and no listed bridge is so; the routes are a dictionary.
  pub reconcile_proxyroutes_lem :
      (b : ListedBridge) (bridges : List ListedBridge) (s t : Store) (data_ : Data)
      (services : List Text)
      → read s ≡ ok data_
      → IsDict (or_no_routes data_)
      → reconcile_proxyroutes api (ok true) notify (ok (b ∷ bridges)) s ≡ ok (services, t)
      → IsSwept (b ∷ bridges) (or_no_routes data_) t
  unfolding reconcile_proxyroutes
  reconcile_proxyroutes_lem b bridges s t data_ services r h f =
      sweep-IsSwept (b ∷ bridges) (or_no_routes data_) s t data_ services r refl h (rw r at f)
