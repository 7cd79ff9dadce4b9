-- ===== src/Carrier/Probes/Answered.antt =====
-- Which ports Carrier2 answers probes on.
use gefyra.Prelude.{
  ℕ, ◌≡◌, ap, Bool, true, false, ◌&&◌, ◌||◌, not, List, [], ◌∷◌, Option, none, some, arith, Text,
  ◌==◌, ==_iff, if◌then◌else◌, any, Bool-cases, Option-cases, subst, inl, inr,
}
use gefyra.Result.{ok, ok-injective, >>=-eq-ok}
use gefyra.Cluster.{HttpGet, Probe}
use gefyra.Carrier.Config.{CarrierProbe}
use gefyra.Carrier.Probes.{has_port, add_port_to, is_http, is_https, probe_ports, carrier_probe}

-- Whether a probe asks on a port, with a scheme that passes a test.
abbrev asks_by : (Option Text → Bool) → ℕ → Option HttpGet → Bool
asks_by test port none = false
asks_by test port (some g) = g.port == port && test g.scheme

abbrev pub asks : (Option Text → Bool) → ℕ → List Probe → Bool
asks test port = any (λ (p : Probe). asks_by test port p.http_get)

-- No port twice.
abbrev pub IsDistinct : List ℕ → Type 0
IsDistinct [] = Unit
IsDistinct (p ∷ ps) = (has_port p ps ≡ false) × IsDistinct ps

abbrev added : (Option Text → Bool) → List ℕ → HttpGet → List ℕ → List ℕ
added test up g ports =
    if not (has_port g.port up) && test g.scheme then add_port_to g.port ports else ports

probe_ports-cons :
    (test : Option Text → Bool) (up : List ℕ) (p : Probe) (ps : List Probe) (ports : List ℕ)
    → probe_ports test up (p ∷ ps) ≡ ok ports
    → (g : HttpGet) × (rest : List ℕ) × (p.http_get ≡ some g)
      × (probe_ports test up ps ≡ ok rest)
      × (ports ≡ added test up g rest)
unfolding probe_ports
probe_ports-cons test up p ps ports e = elim (Option-cases p.http_get) [
  | inl gone ↦ cc (rw gone at e)
  | inr (g, here) ↦
      let (rest, later, written) =
        >>=-eq-ok (probe_ports test up ps) (λ r. ok (added test up g r)) (rw here at e) in
      (g, rest, here, later, cc written)
]

has_port-add_port_to :
    (q port : ℕ) (ports : List ℕ)
    → has_port port (add_port_to q ports) ≡ (q == port || has_port port ports)
has_port-add_port_to q port ports = elim (Bool-cases (has_port q ports)) [
  | inl old ↦ elim (Bool-cases (q == port)) [
    | inl same ↦ rw (old, same) (rw ((==_iff q port).0 same) at old)
    | inr other ↦ rw (old, other)
  ]
  | inr new ↦ rw new
]

IsDistinct-add_port_to :
    (q : ℕ) (ports : List ℕ) → IsDistinct ports → IsDistinct (add_port_to q ports)
IsDistinct-add_port_to q ports d = elim (Bool-cases (has_port q ports)) [
  | inl old ↦ rw old d
  | inr new ↦ rw new (new, d)
]

pub probe_ports-IsDistinct :
    (test : Option Text → Bool) (up : List ℕ) (probes : List Probe) (ports : List ℕ)
    → probe_ports test up probes ≡ ok ports
    → IsDistinct ports
unfolding probe_ports
probe_ports-IsDistinct test up [] ports e = subst IsDistinct (ok-injective e) tt
probe_ports-IsDistinct test up (p ∷ ps) ports e =
    let (g, rest, here, later, written) = probe_ports-cons test up p ps ports e in
    let d = probe_ports-IsDistinct test up ps rest later in
    rw written (elim (Bool-cases (not (has_port g.port up) && test g.scheme)) [
      | inl goes ↦ rw goes (IsDistinct-add_port_to g.port rest d)
      | inr stays ↦ rw stays d
    ])

same_port : (q port : ℕ) (up : List ℕ) → (q == port) ≡ true → has_port q up ≡ has_port port up
same_port q port up h = ap (λ (k : ℕ). has_port k up) ((==_iff q port).0 h)

pub probe_ports-has_port :
    (test : Option Text → Bool) (up : List ℕ) (probes : List Probe) (ports : List ℕ) (port : ℕ)
    → probe_ports test up probes ≡ ok ports
    → has_port port ports ≡ (not (has_port port up) && asks test port probes)
unfolding probe_ports
probe_ports-has_port test up [] ports port e = rw (← ok-injective e) (ground arith)
probe_ports-has_port test up (p ∷ ps) ports port e =
    let (g, rest, here, later, written) = probe_ports-cons test up p ps ports e in
    let ih = probe_ports-has_port test up ps rest port later in
    rw (written, here)
      (elim (Bool-cases (g.port == port)) [
        | inl same ↦
            ground (arith, ih, same_port g.port port up same, has_port-add_port_to g.port port rest)
        | inr other ↦ ground (arith, ih, has_port-add_port_to g.port port rest)
      ])

-- If the probe ports are computed, then a port is answered by HTTP (by HTTPS) exactly if it is no
-- upstream port and a probe asks on it with that scheme, and no port is listed twice.
pub carrier_probe_lem :
    (up : List ℕ) (probes : List Probe) (c : CarrierProbe) (port : ℕ)
    → carrier_probe up probes ≡ ok c
    → (has_port port c.http_get ≡ (not (has_port port up) && asks is_http port probes))
      × (has_port port c.https_get ≡ (not (has_port port up) && asks is_https port probes))
      × IsDistinct c.http_get
      × IsDistinct c.https_get
unfolding carrier_probe
carrier_probe_lem up probes c port e =
    let (http, h, e') = >>=-eq-ok (probe_ports is_http up probes) _ e in
    let (https, k, e'') = >>=-eq-ok (probe_ports is_https up probes) _ e' in
    rw (← ok-injective e'') (
      probe_ports-has_port is_http up probes http port h,
      probe_ports-has_port is_https up probes https port k,
      probe_ports-IsDistinct is_http up probes http h,
      probe_ports-IsDistinct is_https up probes https k,
    )
