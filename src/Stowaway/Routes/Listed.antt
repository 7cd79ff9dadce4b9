-- ===== src/Stowaway/Routes/Listed.antt =====
-- Routes as a dictionary lists them: the ports that are taken, and the route of a destination.
use gefyra.Prelude.{
  ◌⊎◌, suc, ℕ, ◌≡◌, ap, sym, subst, false, List, [], ◌∷◌, Option, none, some, arith, Text, text_eq,
  text_eq_iff, text_eq_refl, split_on, Signed, Bool-cases, inl, inr, length,
}
use gefyra.Prelude.Dict.{Dict, IsDict, lookup, text_eq_missing}
use gefyra.Result.{ok, second, ok-injective, >>=-eq-ok}
use gefyra.Carrier.Config.{denotes}
use gefyra.Stowaway.Routes.{route_port, taken_ports, is_taken, destination_of, find_route}

taken_ports-cons :
    (k v : Text) (routes : Dict Text) (taken : List Signed)
    → taken_ports ((k, v) ∷ routes) ≡ ok taken
    → (port : Signed) × (rest : List Signed) × (route_port v ≡ ok port)
      × (taken_ports routes ≡ ok rest)
      × (taken ≡ port ∷ rest)
unfolding taken_ports
taken_ports-cons k v routes taken e =
    let (port, e1, f1) = >>=-eq-ok (route_port v) _ e in
    let (rest, e2, f2) = >>=-eq-ok (taken_ports routes) _ f1 in
    (port, rest, e1, e2, sym (ok-injective f2))

pub length-taken_ports :
    (routes : Dict Text) (taken : List Signed)
    → taken_ports routes ≡ ok taken
    → length taken ≡ length routes
unfolding taken_ports
length-taken_ports [] taken e = rw (← ok-injective e)
length-taken_ports ((k, v) ∷ routes) taken e =
    let (port, rest, _, e2, written) = taken_ports-cons k v routes taken e in
    rw written (ap suc (length-taken_ports routes rest e2))

-- The port of a route that is listed is taken.
pub lookup-taken_ports :
    (routes : Dict Text) (taken : List Signed) (k v : Text) (n : Signed) (port : ℕ)
    → taken_ports routes ≡ ok taken
    → lookup k routes ≡ some v
    → route_port v ≡ ok n
    → is_taken port taken ≡ false
    → denotes n port ≡ false
unfolding lookup
lookup-taken_ports [] taken k v n port e here r free = cc
lookup-taken_ports ((j, w) ∷ routes) taken k v n port e here r free =
    let (m, rest, e1, e2, written) = taken_ports-cons j w routes taken e in
    let split = rw written at free in
    elim (Bool-cases (text_eq j k)) [
      | inl same ↦ let v-w : some w ≡ some v = rw same at here in ground arith
      | inr other ↦ lookup-taken_ports routes rest k v n port e2 (rw other at here) r (ground arith)
    ]

-- What the search for a destination returns.
abbrev pub IsRouteOf : Text → Dict Text → Text × Text → Type 0
IsRouteOf gone routes found =
    (v : Text) × (lookup found.0 routes ≡ some v)
    × (destination_of v ≡ gone)
    × (second (split_on b',' v) ≡ ok found.1)

abbrev pub IsAbsent : Text → Dict Text → Type 0
IsAbsent gone routes =
    (k v : Text) → lookup k routes ≡ some v → text_eq (destination_of v) gone ≡ false

lift_route :
    (gone k v : Text) (routes : Dict Text) (found : Text × Text)
    → lookup k routes ≡ none
    → IsRouteOf gone routes found
    → IsRouteOf gone ((k, v) ∷ routes) found
unfolding lookup
lift_route gone k v routes found fresh (w, here, d, p) =
    let other = text_eq_missing k found.0 routes w fresh here in (w, rw other here, d, p)

lookup_first : (k v : Text) (routes : Dict Text) → lookup k ((k, v) ∷ routes) ≡ some v
unfolding lookup
lookup_first k v routes = rw (text_eq_refl k)

pub IsAbsent-cons :
    (gone k v : Text) (routes : Dict Text)
    → text_eq (destination_of v) gone ≡ false
    → IsAbsent gone routes
    → IsAbsent gone ((k, v) ∷ routes)
unfolding lookup
IsAbsent-cons gone k v routes other absent j w here = elim (Bool-cases (text_eq k j)) [
  | inl same ↦
      let e : some v ≡ some w = rw same at here in
      let v-w : v ≡ w = cc in
      subst (λ (x : Text). text_eq (destination_of x) gone ≡ false) v-w other
  | inr away ↦ absent j w (rw away at here)
]

-- The search finds a route of the destination if there is one, and otherwise what it started with.
pub find_route_lem :
    (gone : Text) (routes : Dict Text) (start found : Option (Text × Text))
    → IsDict routes
    → find_route gone routes start ≡ ok found
    → ((found ≡ start) × IsAbsent gone routes)
      ⊎ ((f : Text × Text) × (found ≡ some f) × IsRouteOf gone routes f)
unfolding find_route
find_route_lem gone [] start found h e = inl (sym (ok-injective e), unfold lookup in λ k v x. cc)
find_route_lem gone ((k, v) ∷ routes) start found h e =
    elim (Bool-cases (text_eq (destination_of v) gone)) [
      | inl same ↦
          let (port, p, rest) =
            >>=-eq-ok (second (split_on b',' v)) (λ port. find_route gone routes (some (k, port)))
              (rw same at e) in
          elim (find_route_lem gone routes (some (k, port)) found h.1 rest) [
            | inl (f, _) ↦ inr (
              (k, port),
              f,
              (v, lookup_first k v routes, (text_eq_iff (destination_of v) gone).0 same, p),
            )
            | inr (f, e', r) ↦ inr (f, e', lift_route gone k v routes f h.0 r)
          ]
      | inr other ↦ elim (find_route_lem gone routes start found h.1 (rw other at e)) [
        | inl (f, absent) ↦ inl (f, IsAbsent-cons gone k v routes other absent)
        | inr (f, e', r) ↦ inr (f, e', lift_route gone k v routes f h.0 r)
      ]
    ]
