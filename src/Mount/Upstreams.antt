-- ===== src/Mount/Upstreams.antt =====
-- Upstreams of a service and ports of a workload (operator/gefyra/bridge_mount/utils.py).
pub mod Shadow
use gefyra.Prelude.{
  ℕ, suc, Bool, true, false, ◌||◌, List, [], ◌∷◌, ◌++◌, Option, none, some, Text, codes, text_eq,
  ◌==◌, if◌then◌else◌, show,
}
use gefyra.Result.{Result, ok, err, type_error, ◌>>=◌}
use gefyra.Cluster.{Container, Service, ServicePort, Workload, deployment, stateful_set, pod}

-- `not rport or (rport and port == rport)`, where 0 counts as no port
abbrev pub wanted : Option ℕ → ℕ → Bool
wanted none port = true
wanted (some rport) port = rport == 0 || port == rport

-- `f"{name}.{namespace}.svc.cluster.local:{port}"`
abbrev pub address : Text → Text → ℕ → Text
address name namespace port =
    name ++ (codes "." ++ (namespace ++ (codes ".svc.cluster.local:" ++ show port)))

unfoldable pub upstreams_from : Text → Text → Option ℕ → List ServicePort → List Text
upstreams_from name namespace rport [] = []
upstreams_from name namespace rport (p ∷ ps) =
    let rest = upstreams_from name namespace rport ps in
    if wanted rport p.port then address name namespace p.port ∷ rest else rest

unfoldable pub get_upstreams_for_svc : Service → Option ℕ → List Text
unfolding upstreams_from
get_upstreams_for_svc svc rport = upstreams_from svc.name svc.namespace rport svc.ports

-- `enumerate(container.ports)`, from the index on
unfoldable pub service_ports : ℕ → List ℕ → List ServicePort
service_ports idx [] = []
service_ports idx (port ∷ rest) =
    record { name = show port ++ (codes "-" ++ show idx); port = port; target_port = port }
    ∷ service_ports (suc idx) rest

-- Iterating over `None` is a TypeError.
abbrev pub or_type_error {ℓ} : {A : Type ℓ} → Option A → Result A
or_type_error none = err type_error
or_type_error (some a) = ok a

unfoldable pub ports_for_containers : List Container → Text → Result (List ServicePort)
unfolding service_ports
ports_for_containers [] name = ok []
ports_for_containers (c ∷ cs) name =
    let rest = ports_for_containers cs name in
    if text_eq c.name name
    then (do ports ← or_type_error c.ports; later ← rest; ok (service_ports 0 ports ++ later))
    else rest

abbrev pub containers_of : Workload → List Container
containers_of (deployment w) = w.containers
containers_of (stateful_set w) = w.containers
containers_of (pod w) = w.containers

unfoldable pub get_ports_for_workload : Workload → Text → Result (List ServicePort)
unfolding ports_for_containers
get_ports_for_workload workload = ports_for_containers (containers_of workload)
