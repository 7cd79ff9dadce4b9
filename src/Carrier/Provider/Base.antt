-- ===== src/Carrier/Provider/Base.antt =====
-- The configuration of a mount before its bridges: one proxy for each port, none of them bridged.
use gefyra.Prelude.{
  subst, map-append, ap₂, ℕ, ◌≡◌, refl, ap, sym, ◌∙◌, true, List, [], ◌∷◌, ◌++◌, map, Option, none,
  some, arith, Text, text_eq, if◌then◌else◌, Bool-cases, inl, inr, All, All-append,
}
use gefyra.Prelude.Dict.{lookup}
use gefyra.Result.{Result, ok, ok-injective, >>=-eq-ok}
use gefyra.Cluster.{Container, Probe, Service}
use gefyra.Carrier.Config.{Carrier2Proxy, Carrier2Config, new_proxy, new_config}
use gefyra.Carrier.Config.Routes.{route, ports}
use gefyra.Carrier.Probes.{get_all_probes, carrier_probe}
use gefyra.Mount.Upstreams.{or_type_error}
use gefyra.Mount.Tls.{SecretRef, Params, get_tls_from_provider_parameters}
use gefyra.Carrier.Provider.{
  upstream_ports, set_container_probes, set_probes, tls_for, cluster_upstream, tls_of_mount,
  proxies_for_ports, proxies_for_containers, base_carrier_config,
}

abbrev pub IsBare : Carrier2Proxy → Type 0
IsBare p = p.bridges ≡ []

pub route-bare :
    (port : ℕ) (m : Text) (ps : List Carrier2Proxy) → All IsBare ps → route port m ps ≡ none
unfolding route lookup
route-bare port m [] h = refl
route-bare port m (p ∷ ps) h = ground (arith, h.0, route-bare port m ps h.1)

set_container_probes-proxy :
    (probes : List Probe) (c c' : Carrier2Config)
    → set_container_probes probes c ≡ ok c'
    → c'.proxy ≡ c.proxy
unfolding set_container_probes
set_container_probes-proxy [] c c' e = cc (ok-injective e)
set_container_probes-proxy (p ∷ ps) c c' e =
    let (probes, _, e') = >>=-eq-ok (carrier_probe (upstream_ports c.proxy) (p ∷ ps)) _ e in
    ap (λ (x : Carrier2Config). x.proxy) (sym (ok-injective e'))

-- Setting the probes leaves the proxies alone.
pub set_probes-proxy :
    (name : Text) (cs : List Container) (c c' : Carrier2Config)
    → set_probes name cs c ≡ ok c'
    → c'.proxy ≡ c.proxy
unfolding set_probes
set_probes-proxy name [] c c' e = cc (ok-injective e)
set_probes-proxy name (x ∷ cs) c c' e = elim (Bool-cases (text_eq x.name name)) [
  | inl own ↦
      let (d, step, rest) =
        >>=-eq-ok (set_container_probes (get_all_probes x) c) (set_probes name cs) (rw own at e) in
      set_probes-proxy name cs d c' rest ∙ set_container_probes-proxy (get_all_probes x) c d step
  | inr other ↦ set_probes-proxy name cs c c' (rw other at e)
]

-- What a step on a proxy leaves alone.
abbrev SameRoutes : Carrier2Proxy → Carrier2Proxy → Type 0
SameRoutes q p = (q.bridges ≡ p.bridges) × (q.port ≡ p.port)

-- The ports of the containers with a name.
abbrev port_list_of : Option (List ℕ) → List ℕ
port_list_of none = []
port_list_of (some l) = l

abbrev pub named_ports : Text → List Container → List ℕ
named_ports name [] = []
named_ports name (c ∷ cs) =
    let rest = named_ports name cs in
    if text_eq c.name name then port_list_of c.ports ++ rest else rest

or_type_error-some : (o : Option (List ℕ)) (l : List ℕ) → or_type_error o ≡ ok l → o ≡ some l
or_type_error-some none l e = cc
or_type_error-some (some l') l e = ap some (ok-injective e)

-- One bare proxy for each port of a list, in order.
abbrev pub IsBase : List ℕ → List Carrier2Proxy → Type 0
IsBase port_list ps = All IsBare ps × (ports ps ≡ map some port_list)

joined :
    (name : Text) (c : Container) (cs : List Container) (port_list : List ℕ)
    (qs rest : List Carrier2Proxy)
    → text_eq c.name name ≡ true
    → c.ports ≡ some port_list
    → IsBase port_list qs
    → IsBase (named_ports name cs) rest
    → IsBase (named_ports name (c ∷ cs)) (qs ++ rest)
joined name c cs port_list qs rest own here (bare, same) (bare', same') =
    rw (own, here)
      (
        All-append IsBare qs rest bare bare',
        map-append _ qs rest
            ∙ ap₂ ◌++◌ same same'
            ∙ sym (map-append some port_list (named_ports name cs)),
      )

module _ (svc : Result Service) (read_secret : SecretRef → Result Text)
    (parameter : Option Params) where
  cluster_upstream-SameRoutes :
      (p q : Carrier2Proxy) (rport : ℕ)
      → cluster_upstream svc read_secret parameter p rport ≡ ok q
      → SameRoutes q p
  unfolding cluster_upstream
  cluster_upstream-SameRoutes p q rport e =
      let (service, _, e') = >>=-eq-ok svc _ e in
      (
        ap (λ (x : Carrier2Proxy). x.bridges) (sym (ok-injective e')),
        ap (λ (x : Carrier2Proxy). x.port) (sym (ok-injective e')),
      )

  tls_for-SameRoutes :
      (o : Option Params) (p q : Carrier2Proxy) (rport : ℕ)
      → tls_for svc read_secret parameter o rport p ≡ ok q
      → SameRoutes q p
  tls_for-SameRoutes none p q rport e = (
    ap (λ (x : Carrier2Proxy). x.bridges) (sym (ok-injective e)),
    ap (λ (x : Carrier2Proxy). x.port) (sym (ok-injective e)),
  )
  tls_for-SameRoutes (some params) p q rport e =
      let (tls, _, e') =
        >>=-eq-ok (get_tls_from_provider_parameters read_secret params rport) _ e in
      (
        ap (λ (x : Carrier2Proxy). x.bridges) (sym (ok-injective e')),
        ap (λ (x : Carrier2Proxy). x.port) (sym (ok-injective e')),
      )

  pub proxies_for_ports-bare :
      (port_list : List ℕ) (ps : List Carrier2Proxy)
      → proxies_for_ports svc read_secret parameter port_list ≡ ok ps
      → IsBase port_list ps
  unfolding proxies_for_ports
  proxies_for_ports-bare [] ps e = rw (← ok-injective e) (tt, refl)
  proxies_for_ports-bare (port ∷ rest) ps e =
      let (up, e1, f1) =
        >>=-eq-ok (cluster_upstream svc read_secret parameter (new_proxy port) port) _ e in
      let (p, e2, f2) = >>=-eq-ok (tls_of_mount svc read_secret parameter up port) _ f1 in
      let (qs, e3, f3) = >>=-eq-ok (proxies_for_ports svc read_secret parameter rest) _ f2 in
      let a = cluster_upstream-SameRoutes (new_proxy port) up port e1 in
      let b = tls_for-SameRoutes parameter up p port (unfold tls_of_mount in e2) in
      let (bare, same) = proxies_for_ports-bare rest qs e3 in
      rw (← ok-injective f3) ((b.0 ∙ a.0, bare), ap₂ ◌∷◌ (b.1 ∙ a.1) same)

  pub proxies_for_containers-bare :
      (name : Text) (cs : List Container) (ps : List Carrier2Proxy)
      → proxies_for_containers svc read_secret parameter name cs ≡ ok ps
      → IsBase (named_ports name cs) ps
  unfolding proxies_for_containers
  proxies_for_containers-bare name [] ps e = rw (← ok-injective e) (tt, refl)
  proxies_for_containers-bare name (c ∷ cs) ps e = elim (Bool-cases (text_eq c.name name)) [
    | inl own ↦
        let (port_list, e1, f1) = >>=-eq-ok (or_type_error c.ports) _ (rw own at e) in
        let (qs, e2, f2) = >>=-eq-ok (proxies_for_ports svc read_secret parameter port_list) _ f1 in
        let (rest, e3, f3) =
          >>=-eq-ok (proxies_for_containers svc read_secret parameter name cs) _ f2 in
        subst (IsBase (named_ports name (c ∷ cs))) (ok-injective f3) (
          joined name c cs port_list qs rest own (or_type_error-some c.ports port_list e1)
            (proxies_for_ports-bare port_list qs e2) (proxies_for_containers-bare name cs rest e3))
    | inr other ↦ rw other (proxies_for_containers-bare name cs ps (rw other at e))
  ]

  -- If the base configuration is built, then it has one proxy without bridges for each port of the
  -- containers with the mount's container name, in order.
  pub base_carrier_config-bare :
      (name : Text) (cs : List Container) (config : Carrier2Config)
      → base_carrier_config svc read_secret parameter name cs ≡ ok config
      → IsBase (named_ports name cs) config.proxy
  unfolding base_carrier_config
  base_carrier_config-bare name cs config e =
      let (ps, e1, f1) = >>=-eq-ok (proxies_for_containers svc read_secret parameter name cs) _ e in
      rw (set_probes-proxy name cs (record new_config { proxy = ps }) config f1)
        (proxies_for_containers-bare name cs ps e1)
