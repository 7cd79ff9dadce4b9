-- ===== src/Carrier/Config/Rounds.antt =====
-- What the rounds of one bridge do to the routes.
use gefyra.Prelude.{
  ℕ, ◌≡◌, refl, sym, ◌∙◌, Bool, true, false, List, [], ◌∷◌, some, arith, Text, text_eq,
  text_eq_refl, Signed, any, Bool-cases, inl, inr,
}
use gefyra.Prelude.Dict.{Dict}
use gefyra.Result.{Result, ok, err, Result-cases, >>=-eq-ok}
use gefyra.Carrier.Config.{
  Carrier2Proxy, CarrierBridge, CarrierRule, Bridge, serves, denotes, show_signed, put_bridge,
  update_proxy, target_port, convert_bridge_to_rule, route_port, add_port, add_ports,
}
use gefyra.Carrier.Config.Routes.{at_port, route, ports, ports-update_proxy, route-update_proxy}

-- Whether a port mapping targets a port.
abbrev target_is : ℕ → Result Signed → Bool
target_is port (ok n) = denotes n port
target_is port (err e) = false

abbrev pub targets : ℕ → List Text → Bool
targets port = any (λ mapping. target_is port (target_port mapping))

show_signed-denotes :
    (n : Signed) (port : ℕ) → denotes n port ≡ true → show_signed n ≡ show_signed (at_port port)
unfolding denotes show_signed
show_signed-denotes n port h = ground arith

module _ {Raw : Type 0} (validate : Dict Raw → Result CarrierRule) (b : Bridge Raw) where
  -- The rule of a bridge depends on the port and not on how it is written.
  convert-denotes :
      (n : Signed) (port : ℕ)
      → denotes n port ≡ true
      → convert_bridge_to_rule validate b n ≡ convert_bridge_to_rule validate b (at_port port)
  unfolding convert_bridge_to_rule
  convert-denotes n port h = rw (show_signed-denotes n port h)

  -- A round that succeeds is one update by the rule of the bridge.
  pub data IsRound (mapping : Text) (ps qs : List Carrier2Proxy) : Type 0 where
    round :
        (n : Signed) (rule : CarrierBridge)
        → target_port mapping ≡ ok n
        → convert_bridge_to_rule validate b n ≡ ok rule
        → any (serves n) ps ≡ true
        → qs ≡ update_proxy n (put_bridge b.name rule) ps
        → IsRound mapping ps qs

  route_port-IsRound :
      (mapping : Text) (ps qs : List Carrier2Proxy) (n : Signed)
      → target_port mapping ≡ ok n
      → route_port validate b ps n ≡ ok qs
      → IsRound mapping ps qs
  unfolding route_port
  route_port-IsRound mapping ps qs n t h = elim (Bool-cases (any (serves n) ps)) [
    | inl found ↦
        let (rule, converted, written) =
          >>=-eq-ok (convert_bridge_to_rule validate b n)
            (λ rule. ok (update_proxy n (put_bridge b.name rule) ps)) (rw found at h) in
        round n rule t converted found (cc written)
    | inr missing ↦ cc (rw missing at h)
  ]

  add_port-IsRound :
      (mapping : Text) (ps qs : List Carrier2Proxy)
      → add_port validate b mapping ps ≡ ok qs
      → IsRound mapping ps qs
  unfolding add_port
  add_port-IsRound mapping ps qs h =
      let (n, t, r) = >>=-eq-ok (target_port mapping) (route_port validate b ps) h in
      route_port-IsRound mapping ps qs n t r

  ports-IsRound :
      {mapping : Text} {ps qs : List Carrier2Proxy} → IsRound mapping ps qs → ports qs ≡ ports ps
  ports-IsRound {ps = ps} (round n rule t c f e) = rw e (ports-update_proxy n b.name rule ps)

  route-IsRound_ne :
      {mapping : Text} {ps qs : List Carrier2Proxy} (port : ℕ) (m : Text)
      → text_eq b.name m ≡ false
      → IsRound mapping ps qs
      → route port m qs ≡ route port m ps
  route-IsRound_ne {ps = ps} port m ne (round n rule t c f e) =
      rw e (ground (arith, route-update_proxy n b.name rule ps port m))

  -- The bridge is routed at a port by its own rule.
  abbrev pub IsRouted : ℕ → CarrierBridge → List Carrier2Proxy → Type 0
  IsRouted port rule ps =
      (convert_bridge_to_rule validate b (at_port port) ≡ ok rule)
      × (route port b.name ps ≡ some rule)

  -- A round for a port routes the bridge there.
  round_routes :
      {mapping : Text} {ps qs : List Carrier2Proxy} (port : ℕ)
      → target_is port (target_port mapping) ≡ true
      → IsRound mapping ps qs
      → (rule : CarrierBridge) × IsRouted port rule qs
  round_routes {ps = ps} port targeted (round n rule t c f e) =
      let d : denotes n port ≡ true = rw t at targeted in
      (
        rule,
        (
          sym (convert-denotes n port d) ∙ c,
          rw e (
              ground (arith, route-update_proxy n b.name rule ps port b.name, text_eq_refl b.name)),
        ),
      )

  -- A later round keeps the route, since it can only write the same rule there.
  round_keeps :
      {mapping : Text} {ps qs : List Carrier2Proxy} (port : ℕ) (rule : CarrierBridge)
      → IsRouted port rule ps
      → IsRound mapping ps qs
      → IsRouted port rule qs
  round_keeps {ps = ps} port rule (converted, routed) (round n rule' t c f e) = (
    converted,
    rw e (elim (Bool-cases (denotes n port)) [
      | inl d ↦
          let same : ok rule' ≡ ok rule = sym c ∙ convert-denotes n port d ∙ converted in
          ground (arith, route-update_proxy n b.name rule' ps port b.name, text_eq_refl b.name)
      | inr d ↦ ground (arith, route-update_proxy n b.name rule' ps port b.name)
    ]),
  )

  pub ports-add_ports :
      (mappings : List Text) (ps : List Carrier2Proxy)
      → ports (add_ports validate b mappings ps).0 ≡ ports ps
  unfolding add_ports
  ports-add_ports [] ps = refl
  ports-add_ports (mapping ∷ rest) ps = elim (Result-cases (add_port validate b mapping ps)) [
    | inl (qs, e) ↦
        rw (e, add_ports)
          (ports-add_ports rest qs ∙ ports-IsRound (add_port-IsRound mapping ps qs e))
    | inr (x, e) ↦ rw (e, add_ports) refl
  ]

  pub route-add_ports_ne :
      (mappings : List Text) (ps : List Carrier2Proxy) (port : ℕ) (m : Text)
      → text_eq b.name m ≡ false
      → route port m (add_ports validate b mappings ps).0 ≡ route port m ps
  unfolding add_ports
  route-add_ports_ne [] ps port m ne = refl
  route-add_ports_ne (mapping ∷ rest) ps port m ne =
      elim (Result-cases (add_port validate b mapping ps)) [
        | inl (qs, e) ↦
            rw (e, add_ports)
              (route-add_ports_ne rest qs port m ne
                ∙ route-IsRound_ne port m ne (add_port-IsRound mapping ps qs e))
        | inr (x, e) ↦ rw (e, add_ports) refl
      ]

  add_ports_keeps :
      (mappings : List Text) (ps : List Carrier2Proxy) (port : ℕ) (rule : CarrierBridge)
      → IsRouted port rule ps
      → IsRouted port rule (add_ports validate b mappings ps).0
  unfolding add_ports
  add_ports_keeps [] ps port rule r = r
  add_ports_keeps (mapping ∷ rest) ps port rule r =
      elim (Result-cases (add_port validate b mapping ps)) [
        | inl (qs, e) ↦
            rw (e, add_ports)
              (add_ports_keeps rest qs port rule
                (round_keeps port rule r (add_port-IsRound mapping ps qs e)))
        | inr (x, e) ↦ rw (e, add_ports) r
      ]

  -- If no round raises, the bridge is routed at each port that a mapping targets.
  pub add_ports_routes :
      (mappings : List Text) (ps : List Carrier2Proxy) (port : ℕ)
      → (add_ports validate b mappings ps).1 ≡ true
      → targets port mappings ≡ true
      → (rule : CarrierBridge) × IsRouted port rule (add_ports validate b mappings ps).0
  unfolding add_ports
  add_ports_routes [] ps port done t = cc
  add_ports_routes (mapping ∷ rest) ps port done t =
      elim (Result-cases (add_port validate b mapping ps)) [
        | inl (qs, e) ↦
            let done' : (add_ports validate b rest qs).1 ≡ true = rw (e, add_ports) at done in
            let step = add_port-IsRound mapping ps qs e in
            rw (e, add_ports)
              (elim (Bool-cases (target_is port (target_port mapping))) [
                | inl here ↦
                    let (rule, routed) = round_routes port here step in
                    (rule, add_ports_keeps rest qs port rule routed)
                | inr there ↦ add_ports_routes rest qs port done' (rw there at t)
              ])
        | inr (x, e) ↦ cc (rw (e, add_ports) at done)
      ]
