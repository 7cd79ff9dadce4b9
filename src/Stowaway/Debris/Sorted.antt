-- ===== src/Stowaway/Debris/Sorted.antt =====
-- What the loop over the routes has collected.
use gefyra.Prelude.{
  ◌≡◌, ◌≤◌, suc, refl, ap, ap₂, sym, ◌∙◌, subst, arith, Bool, true, false, List, [], ◌∷◌, none,
  some, Text, text_eq, text_eq_iff, text_eq_refl, if◌then◌else◌, length, Bool-cases, inl, inr,
}
use gefyra.Prelude.Dict.{Dict, IsDict, lookup}
use gefyra.Result.{Result, ok, ok-injective, >>=-eq-ok, ◌>>=◌}
use gefyra.Stowaway.Debris.{ListedBridge, parts_of, is_used, sort_in, sort_routes}

-- Whether a route is used, with the errors of finding out.
abbrev pub route_used : List ListedBridge → Text → Text → Result Bool
route_used bridges key value = parts_of key value >>= λ route. is_used route bridges

module _ (bridges : List ListedBridge) where
  -- One round of the loop over the routes.
  record IsSorted (key value : Text) (routes : Dict Text) (sorted : Dict Text × List Text)
      : Type 0 where
    used : Bool
    port : Text
    rest : Dict Text × List Text
    is_used : route_used bridges key value ≡ ok used
    later : sort_routes bridges routes ≡ ok rest
    written : sorted ≡ sort_in key value port used rest

  sort_routes-IsSorted :
      (key value : Text) (routes : Dict Text) (sorted : Dict Text × List Text)
      → sort_routes bridges ((key, value) ∷ routes) ≡ ok sorted
      → IsSorted key value routes sorted
  unfolding sort_routes
  sort_routes-IsSorted key value routes sorted e =
      let (route, e1, f1) = >>=-eq-ok (parts_of key value) _ e in
      let (used, e2, f2) = >>=-eq-ok (is_used route bridges) _ f1 in
      let (rest, e3, f3) = >>=-eq-ok (sort_routes bridges routes) _ f2 in
      record {
        used = used;
        port = route.port;
        rest = rest;
        is_used = rw e1 e2;
        later = e3;
        written = sym (ok-injective f3);
      }

  lookup-sort_in :
      (key value port k : Text) (used : Bool) (rest : Dict Text × List Text)
      → lookup key rest.0 ≡ none
      → lookup k (sort_in key value port used rest).0
        ≡ (if text_eq key k then (if used then some value else none) else lookup k rest.0)
  unfolding lookup
  lookup-sort_in key value port k true rest gone = refl
  lookup-sort_in key value port k false rest gone = elim (Bool-cases (text_eq key k)) [
    | inl same ↦
        rw same (subst (λ (x : Text). lookup x rest.0 ≡ none) ((text_eq_iff key k).0 same) gone)
    | inr other ↦ rw other
  ]

  lookup-sort_routes-none :
      (routes : Dict Text) (sorted : Dict Text × List Text) (k : Text)
      → sort_routes bridges routes ≡ ok sorted
      → IsDict routes
      → lookup k routes ≡ none
      → lookup k sorted.0 ≡ none
  unfolding sort_routes lookup
  lookup-sort_routes-none [] sorted k e h gone = rw (← ok-injective e) refl
  lookup-sort_routes-none ((key, value) ∷ routes) sorted k e h gone =
      let r = sort_routes-IsSorted key value routes sorted e in
      elim (Bool-cases (text_eq key k)) [
        | inl same ↦ cc (rw same at gone)
        | inr other ↦ rw r.written (
            lookup-sort_in key value r.port k r.used r.rest
              (lookup-sort_routes-none routes r.rest key r.later h.1 h.0)
            ∙ rw other (lookup-sort_routes-none routes r.rest k r.later h.1 (rw other at gone)))
      ]

  -- What is found out about a route, and what is left of it.
  abbrev pub IsDecided : Dict Text → Text × Text → Type 0
  IsDecided kept route =
      (used : Bool) × (route_used bridges route.0 route.1 ≡ ok used)
      × (lookup route.0 kept ≡ (if used then some route.1 else none))

  pub lookup-sort_routes :
      (routes : Dict Text) (sorted : Dict Text × List Text) (k v : Text)
      → sort_routes bridges routes ≡ ok sorted
      → IsDict routes
      → lookup k routes ≡ some v
      → IsDecided sorted.0 (k, v)
  unfolding lookup
  lookup-sort_routes [] sorted k v e h here = cc here
  lookup-sort_routes ((key, value) ∷ routes) sorted k v e h here =
      let r = sort_routes-IsSorted key value routes sorted e in
      let gone = lookup-sort_routes-none routes r.rest key r.later h.1 h.0 in
      elim (Bool-cases (text_eq key k)) [
        | inl same ↦
            let values : some value ≡ some v = rw same at here in
            let value-v : value ≡ v = cc in
            subst (IsDecided sorted.0)
              (ap₂ (λ (x y : Text). (x, y)) ((text_eq_iff key k).0 same) value-v)
              (
                r.used,
                r.is_used,
                rw r.written (
                    lookup-sort_in key value r.port key r.used r.rest gone
                    ∙ rw (text_eq_refl key) refl),
              )
        | inr other ↦
            let (used, found, left) =
              lookup-sort_routes routes r.rest k v r.later h.1 (rw other at here) in
            (
              used,
              found,
              rw r.written (lookup-sort_in key value r.port k r.used r.rest gone ∙ rw other left),
            )
      ]

  length-sort_in :
      (key value port : Text) (used : Bool) (rest : Dict Text × List Text) (routes : Dict Text)
      → length rest.0 ≤ length routes
      → (length rest.0 ≡ length routes → rest.0 ≡ routes)
      → (length (sort_in key value port used rest).0 ≤ suc (length routes))
        × (length (sort_in key value port used rest).0 ≡ suc (length routes)
            → (sort_in key value port used rest).0 ≡ (key, value) ∷ routes)
  length-sort_in key value port true rest routes h k =
      (omega (arith, h), λ e. ap (λ (d : Dict Text). (key, value) ∷ d) (k (omega (arith, e))))
  length-sort_in key value port false rest routes h k =
      (omega (arith, h), λ e. absurd (omega (arith, e, h)))

  pub length-sort_routes :
      (routes : Dict Text) (sorted : Dict Text × List Text)
      → sort_routes bridges routes ≡ ok sorted
      → (length sorted.0 ≤ length routes) × (length sorted.0 ≡ length routes → sorted.0 ≡ routes)
  unfolding sort_routes
  length-sort_routes [] sorted e = rw (← ok-injective e) (omega arith, λ _. refl)
  length-sort_routes ((key, value) ∷ routes) sorted e =
      let r = sort_routes-IsSorted key value routes sorted e in
      let (low, same) = length-sort_routes routes r.rest r.later in
      rw r.written (length-sort_in key value r.port r.used r.rest routes low same)
