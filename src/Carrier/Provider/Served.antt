-- ===== src/Carrier/Provider/Served.antt =====
-- What is committed to a pod when a bridge is added or removed, and what `proxy_route_exists` finds.
use gefyra.Prelude.{
  subst, Option-cases, ℕ, ◌≡◌, ◌≢◌, refl, ap, sym, ◌∙◌, true, false, List, [], ◌∷◌, ◌++◌, map,
  Option, none, some, arith, Text, text_eq, text_eq_refl, Bool-cases, inl, inr, All, any, int,
  Signed,
}
use gefyra.Prelude.Dict.{Dict, lookup}
use gefyra.Result.{Result, ok, ok-injective, >>=-eq-ok}
use gefyra.Cluster.{Container, Service}
use gefyra.Carrier.Config.{
  Carrier2Proxy, Carrier2Config, CarrierBridge, CarrierRule, Bridge, serves, add_bridges,
  add_bridge_rules_for_mount,
}
use gefyra.Carrier.Config.Routes.{at_port, route, ports}
use gefyra.Carrier.Config.Rounds.{targets, IsRouted}
use gefyra.Carrier.Config.Mounts.{
  add_bridges_total, ports-add_bridges, removed-IsElsewhere, other-IsElsewhere, none-IsBystander,
  add_bridges_added, route-add_bridges_ne,
}
use gefyra.Mount.Tls.{SecretRef, Params}
use gefyra.Carrier.Provider.{
  base_carrier_config, update_carrier_config_add, update_carrier_config_remove, find_proxy,
  has_endpoint, destination, is_filled, exists_at, proxy_route_exists,
}
use gefyra.Carrier.Provider.Base.{named_ports, route-bare, base_carrier_config-bare}

-- The route of a port is that of the proxy which is found for it.
route-find_proxy :
    (port : ℕ) (name : Text) (ps : List Carrier2Proxy) (rule : CarrierBridge)
    → route port name ps ≡ some rule
    → (p : Carrier2Proxy) × (find_proxy (at_port port) ps ≡ some p)
      × (lookup name p.bridges ≡ some rule)
unfolding route find_proxy
route-find_proxy port name [] rule e = cc
route-find_proxy port name (p ∷ ps) rule e = elim (Bool-cases (serves (at_port port) p)) [
  | inl own ↦ (p, rw own, rw own at e)
  | inr other ↦
      let (q, found, here) = route-find_proxy port name ps rule (rw other at e) in
      (q, rw other found, here)
]

abbrev bridge_in : Text → Option Carrier2Proxy → Option CarrierBridge
bridge_in name none = none
bridge_in name (some p) = lookup name p.bridges

find_proxy-route :
    (port : ℕ) (name : Text) (ps : List Carrier2Proxy) (p : Carrier2Proxy)
    → find_proxy (at_port port) ps ≡ some p
    → route port name ps ≡ lookup name p.bridges
unfolding route find_proxy
find_proxy-route port name [] p e = cc
find_proxy-route port name (q ∷ ps) p e = elim (Bool-cases (serves (at_port port) q)) [
  | inl own ↦ rw own (ap (λ (x : Option Carrier2Proxy). bridge_in name x) (rw own at e))
  | inr other ↦ rw other (find_proxy-route port name ps p (rw other at e))
]

lookup-has_endpoint :
    (name : Text) (d : Dict CarrierBridge) (rule : CarrierBridge)
    → lookup name d ≡ some rule
    → has_endpoint rule.endpoint d ≡ true
unfolding lookup has_endpoint
lookup-has_endpoint name [] rule e = cc
lookup-has_endpoint name ((k, r) ∷ d) rule e =
    ground (arith, lookup-has_endpoint name d rule, text_eq_refl rule.endpoint)

find_proxy-filled :
    (n : Signed) (ps : List Carrier2Proxy) (p : Carrier2Proxy)
    → find_proxy n ps ≡ some p
    → is_filled p.bridges ≡ true
    → any (λ (q : Carrier2Proxy). is_filled q.bridges) ps ≡ true
unfolding find_proxy
find_proxy-filled n [] p e f = cc
find_proxy-filled n (q ∷ ps) p e f = ground (arith, find_proxy-filled n ps p)

lookup-is_filled :
    (name : Text) (d : Dict CarrierBridge) (rule : CarrierBridge)
    → lookup name d ≡ some rule
    → is_filled d ≡ true
unfolding lookup
lookup-is_filled name [] rule e = cc
lookup-is_filled name (x ∷ d) rule e = refl

exists_at-named :
    (name endpoint : Text) (p : Carrier2Proxy) (rule : CarrierBridge)
    → lookup name p.bridges ≡ some rule
    → rule.endpoint ≡ endpoint
    → exists_at (some name) endpoint (some p) ≡ true
exists_at-named [] endpoint p rule there here =
    rw (← here) (lookup-has_endpoint [] p.bridges rule there)
exists_at-named (c ∷ name) endpoint p rule there here =
    rw (there, ← here) (lookup-has_endpoint (c ∷ name) p.bridges rule there)

exists_at-missing :
    (name endpoint : Text) (p : Carrier2Proxy)
    → name ≢ []
    → lookup name p.bridges ≡ none
    → exists_at (some name) endpoint (some p) ≡ false
exists_at-missing [] endpoint p named gone = absurd (named refl)
exists_at-missing (c ∷ name) endpoint p named gone = rw gone

-- A bridge that is routed at a port is found there by its name and its endpoint.
pub proxy_route_exists-routed :
    (ps : List Carrier2Proxy) (text host port' name : Text) (port : ℕ) (rule : CarrierBridge)
    → int text ≡ some (at_port port)
    → route port name ps ≡ some rule
    → rule.endpoint ≡ destination host port'
    → proxy_route_exists text host port' (some name) ps ≡ ok true
unfolding proxy_route_exists
proxy_route_exists-routed ps text host port' name port rule read routed here =
    let (p, found, there) = route-find_proxy port name ps rule routed in
    let filled =
      find_proxy-filled (at_port port) ps p found (lookup-is_filled name p.bridges rule there) in
    rw (filled, read, found)
      (ap ok (exists_at-named name (destination host port') p rule there here))

-- A bridge that is not routed at a port is not found there by its name.
pub proxy_route_exists-unrouted :
    (ps : List Carrier2Proxy) (text host port' name : Text) (port : ℕ)
    → int text ≡ some (at_port port)
    → name ≢ []
    → route port name ps ≡ none
    → proxy_route_exists text host port' (some name) ps ≡ ok false
unfolding proxy_route_exists
proxy_route_exists-unrouted ps text host port' name port read named gone =
    elim (Bool-cases (any (λ (p : Carrier2Proxy). is_filled p.bridges) ps)) [
      | inl filled ↦ elim (Option-cases (find_proxy (at_port port) ps)) [
        | inl missing ↦ rw (filled, read, missing)
        | inr (p, found) ↦
            rw (filled, read, found)
              (ap ok (
                exists_at-missing name (destination host port') p named
                  (sym (find_proxy-route port name ps p found) ∙ gone)))
      ]
      | inr empty ↦ rw empty
    ]

module _ {Raw : Type 0} (svc : Result Service) (read_secret : SecretRef → Result Text)
    (parameter : Option Params) (validate : Dict Raw → Result CarrierRule) (name : Text)
    (containers : List Container) where
  -- If the update that adds a bridge succeeds, then the committed configuration has one proxy for
  -- each port of the mount's container, and at every port that one of the bridge's mappings
  -- targets it routes the bridge by the bridge's own endpoint and rules, given that its name is
  -- not empty and no later bridge of the mount has it.
  pub update_carrier_config_add_lem :
      (before : List (Bridge Raw)) (b : Bridge Raw) (after : List (Bridge Raw))
      (config : Carrier2Config) (port : ℕ)
      → b.name ≢ []
      → All (λ (c : Bridge Raw). text_eq c.name b.name ≡ false) after
      → update_carrier_config_add svc read_secret parameter validate b.name name containers
          (before ++ (b ∷ after))
        ≡ ok config
      → targets port b.port_mappings ≡ true
      → (ports config.proxy ≡ map some (named_ports name containers))
        × ((rule : CarrierBridge) × IsRouted validate b port rule config.proxy)
  unfolding update_carrier_config_add add_bridge_rules_for_mount
  update_carrier_config_add_lem before b after config port named later e t =
      let (base, e1, f1) =
        >>=-eq-ok (base_carrier_config svc read_secret parameter name containers) _ e in
      let (qs, e2, f2) = >>=-eq-ok (add_bridges validate (some b.name) none _ base.proxy) _ f1 in
      let (bare, same) =
        base_carrier_config-bare svc read_secret parameter name containers base e1 in
      let proxies : qs ≡ config.proxy = ap (λ (x : Carrier2Config). x.proxy) (ok-injective f2) in
      subst
        (λ (ps : List Carrier2Proxy).
          (ports ps ≡ map some (named_ports name containers))
          × ((rule : CarrierBridge) × IsRouted validate b port rule ps))
        proxies
        (
          ports-add_bridges validate (some b.name) none _ base.proxy qs e2 ∙ same,
          add_bridges_added validate none before b after base.proxy qs port named refl
              (other-IsElsewhere validate b.name after later) e2 t,
        )

  -- If the update that removes a bridge succeeds, then no proxy of the committed configuration
  -- routes the bridge, and proxy_route_exists does not find it by its name, which is not empty, at
  -- any port.
  pub update_carrier_config_remove_lem :
      (bridge_name : Text) (bs : List (Bridge Raw)) (config : Carrier2Config)
      (text host port' : Text) (port : ℕ)
      → bridge_name ≢ []
      → update_carrier_config_remove svc read_secret parameter validate bridge_name name containers
          bs
        ≡ ok config
      → int text ≡ some (at_port port)
      → (route port bridge_name config.proxy ≡ none)
        × (proxy_route_exists text host port' (some bridge_name) config.proxy ≡ ok false)
  unfolding update_carrier_config_remove add_bridge_rules_for_mount
  update_carrier_config_remove_lem bridge_name bs config text host port' port named e read =
      let (base, e1, f1) =
        >>=-eq-ok (base_carrier_config svc read_secret parameter name containers) _ e in
      let (qs, e2, f2) =
        >>=-eq-ok (add_bridges validate none (some bridge_name) bs base.proxy) _ f1 in
      let (bare, same) =
        base_carrier_config-bare svc read_secret parameter name containers base e1 in
      let gone : route port bridge_name config.proxy ≡ none =
        ap (λ (x : Carrier2Config). route port bridge_name x.proxy) (sym (ok-injective f2))
        ∙ route-add_bridges_ne validate none (some bridge_name) bs base.proxy qs port bridge_name
            (removed-IsElsewhere validate bridge_name bs) e2
        ∙ route-bare port bridge_name base.proxy bare in
      (
        gone,
        proxy_route_exists-unrouted config.proxy text host port' bridge_name port read named gone,
      )

  -- Once the base configuration is built, the update that removes a bridge succeeds, whatever the
  -- other bridges of the mount are, and keeps the ports of the proxies.
  pub update_carrier_config_remove_total :
      (bridge_name : Text) (bs : List (Bridge Raw)) (base : Carrier2Config)
      → base_carrier_config svc read_secret parameter name containers ≡ ok base
      → (config : Carrier2Config) × (update_carrier_config_remove svc read_secret parameter validate
            bridge_name name containers bs
          ≡ ok config)
        × (ports config.proxy ≡ ports base.proxy)
  unfolding update_carrier_config_remove add_bridge_rules_for_mount
  update_carrier_config_remove_total bridge_name bs base e =
      let (qs, e', same) =
        add_bridges_total validate none (some bridge_name) bs base.proxy
          (none-IsBystander validate bs) in
      (record base { proxy = qs }, rw (e, e'), same)
