-- ===== src/Carrier/Probes.antt =====
-- The probes that Carrier2 answers (operator/gefyra/bridge/carrier2/__init__.py,
-- operator/gefyra/bridge_mount/utils.py and operator/gefyra/bridge_mount/carrier2mount/__init__.py).
-- A Python set of ports is a list without repetitions, in an order that
-- nothing depends on.
pub mod Answered
use gefyra.Prelude.{
  ℕ, Bool, true, false, ◌&&◌, ◌||◌, not, List, [], ◌∷◌, ◌++◌, Option, none, some, Text, codes,
  text_eq, ◌==◌, if◌then◌else◌, any,
}
use gefyra.Result.{Result, ok, err, attribute_error, ◌>>=◌}
use gefyra.Cluster.{Container, HttpGet, Probe}
use gefyra.Carrier.Config.{CarrierProbe}
use gefyra.Mount.Names.{lower}

abbrev probe_list : Option Probe → List Probe
probe_list none = []
probe_list (some p) = p ∷ []

unfoldable pub get_all_probes : Container → List Probe
get_all_probes c =
    probe_list c.startup_probe ++ (probe_list c.readiness_probe ++ probe_list c.liveness_probe)

-- `port in ports`
abbrev pub has_port : ℕ → List ℕ → Bool
has_port port = any (λ p. p == port)

-- `not scheme or scheme.lower() == "http"`
unfoldable pub is_http : Option Text → Bool
is_http none = true
is_http (some []) = true
is_http (some (c ∷ s)) = text_eq (lower (c ∷ s)) (codes "http")

-- `scheme and scheme.lower() == "https"`
unfoldable pub is_https : Option Text → Bool
is_https none = false
is_https (some []) = false
is_https (some (c ∷ s)) = text_eq (lower (c ∷ s)) (codes "https")

-- `set.add`
abbrev add_port_to : ℕ → List ℕ → List ℕ
add_port_to port ports = if has_port port ports then ports else port ∷ ports

-- The set of the ports of the probes that pass a test of the scheme and are not upstream ports. A
-- probe with no `http_get` is an AttributeError.
abbrev with_get : Option HttpGet → (HttpGet → Result (List ℕ)) → Result (List ℕ)
with_get none f = err attribute_error
with_get (some g) f = f g

unfoldable pub probe_ports : (Option Text → Bool) → List ℕ → List Probe → Result (List ℕ)
probe_ports test upstream_ports [] = ok []
probe_ports test upstream_ports (p ∷ ps) =
    let rest = probe_ports test upstream_ports ps in
    with_get p.http_get (λ g. rest >>= λ ports. ok (
      if not (has_port g.port upstream_ports) && test g.scheme
      then add_port_to g.port ports
      else ports))

-- `CarrierProbe(httpGet=…, httpsGet=…)`
unfoldable pub carrier_probe : List ℕ → List Probe → Result CarrierProbe
carrier_probe upstream_ports probes = do
  http ← probe_ports is_http upstream_ports probes
  https ← probe_ports is_https upstream_ports probes
  ok (record { http_get = http; https_get = https })

-- `_check_probe_compatibility`; an absent probe is never asked about, since `get_all_probes` leaves
-- it out
unfoldable pub check_probe_compatibility : Option Probe → Bool
check_probe_compatibility none = true
check_probe_compatibility (some p) = if p.exec then false else not p.tcp_socket
