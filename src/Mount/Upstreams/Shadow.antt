-- ===== src/Mount/Upstreams/Shadow.antt =====
-- The upstreams that a port selects (operator/gefyra/bridge_mount/utils.py).
use gefyra.Prelude.{
  ℕ, suc, ◌<◌, ◌≡◌, refl, ap, false, List, [], ◌∷◌, none, some, arith, Text, ◌==◌, if◌then◌else◌,
  length, All, map, Bool-cases, inl, inr, ==_iff,
}
use gefyra.Cluster.{Service, ServicePort}
use gefyra.Mount.Upstreams.{address, upstreams_from, get_upstreams_for_svc}

-- How many ports of a service have a number.
abbrev pub count_port : ℕ → List ServicePort → ℕ
count_port rport [] = 0
count_port rport (p ∷ ps) =
    let rest = count_port rport ps in if p.port == rport then suc rest else rest

upstreams_from-wanted :
    (name namespace : Text) (rport : ℕ) (ps : List ServicePort)
    → 0 < rport
    → All (λ a. a ≡ address name namespace rport) (upstreams_from name namespace (some rport) ps)
      × (length (upstreams_from name namespace (some rport) ps) ≡ count_port rport ps)
unfolding upstreams_from
upstreams_from-wanted name namespace rport [] h = (tt, refl)
upstreams_from-wanted name namespace rport (p ∷ ps) h =
    let positive : (rport == 0) ≡ false = ground arith in
    let (addresses, count) = upstreams_from-wanted name namespace rport ps h in
    elim (Bool-cases (p.port == rport)) [
      | inl same ↦
          rw (positive, same)
            ((ap (address name namespace) ((==_iff p.port rport).0 same), addresses), ap suc count)
      | inr other ↦ rw (positive, other) (addresses, count)
    ]

upstreams_from-all :
    (name namespace : Text) (ps : List ServicePort)
    → upstreams_from name namespace none ps
      ≡ map (λ (p : ServicePort). address name namespace p.port) ps
unfolding upstreams_from
upstreams_from-all name namespace [] = refl
upstreams_from-all name namespace (p ∷ ps) =
    ap (λ (r : List Text). address name namespace p.port ∷ r) (upstreams_from-all name namespace ps)

-- For a port that is not 0, the upstreams are the service's address at that port, once for each of
-- the service's ports with that number; without a port they are the addresses of all its ports in
-- order.
pub get_upstreams_for_svc_lem :
    (svc : Service) (rport : ℕ)
    → 0 < rport
    → All (λ a. a ≡ address svc.name svc.namespace rport) (get_upstreams_for_svc svc (some rport))
      × (length (get_upstreams_for_svc svc (some rport)) ≡ count_port rport svc.ports)
      × (get_upstreams_for_svc svc none
          ≡ map (λ (p : ServicePort). address svc.name svc.namespace p.port) svc.ports)
unfolding get_upstreams_for_svc
get_upstreams_for_svc_lem svc rport h =
    let (addresses, count) = upstreams_from-wanted svc.name svc.namespace rport svc.ports h in
    (addresses, count, upstreams_from-all svc.name svc.namespace svc.ports)
