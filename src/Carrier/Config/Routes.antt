-- ===== src/Carrier/Config/Routes.antt =====
-- What the proxies of a configuration route, port by port and bridge by bridge.
use gefyra.Prelude.{
  ℕ, ◌≡◌, refl, false, ◌&&◌, List, [], ◌∷◌, map, Option, none, some, arith, Text, text_eq,
  if◌then◌else◌, Signed, any,
}
use gefyra.Prelude.Dict.{Dict, lookup, lookup-insert}
use gefyra.Carrier.Config.{
  Carrier2Proxy, CarrierBridge, serves, denotes, put_rule, put_bridge, update_proxy,
}

abbrev pub at_port : ℕ → Signed
at_port port = record { negative = false; size = port }

-- The bridge of a name at the proxy that serves a port: the first such proxy.
unfoldable pub route : ℕ → Text → List Carrier2Proxy → Option CarrierBridge
route port name [] = none
route port name (p ∷ ps) =
    if serves (at_port port) p then lookup name p.bridges else route port name ps

lookup-put_rule :
    (name m : Text) (rule : CarrierBridge) (d : Dict CarrierBridge)
    → lookup m (put_rule name rule d) ≡ (if text_eq name m then some rule else lookup m d)
unfolding lookup
lookup-put_rule name m rule [] = refl
lookup-put_rule name m rule (e ∷ d) = lookup-insert name m rule (e ∷ d)

-- The ports of the proxies, in order.
abbrev pub ports : List Carrier2Proxy → List (Option ℕ)
ports = map (λ (p : Carrier2Proxy). p.port)

pub ports-update_proxy :
    (n : Signed) (name : Text) (rule : CarrierBridge) (ps : List Carrier2Proxy)
    → ports (update_proxy n (put_bridge name rule) ps) ≡ ports ps
unfolding update_proxy put_bridge
ports-update_proxy n name rule [] = refl
ports-update_proxy n name rule (p ∷ ps) = ground (arith, ports-update_proxy n name rule ps)

-- An update of the proxy at a port shows at that port and name, and nowhere else.
pub route-update_proxy :
    (n : Signed) (name : Text) (rule : CarrierBridge) (ps : List Carrier2Proxy) (port : ℕ)
    (m : Text)
    → route port m (update_proxy n (put_bridge name rule) ps) ≡ (
        if (any (serves n) ps && denotes n port) && text_eq name m
        then some rule
        else route port m ps)
unfolding route update_proxy put_bridge serves
route-update_proxy n name rule [] port m = refl
route-update_proxy n name rule (p ∷ ps) port m =
    ground (arith, lookup-put_rule name m rule p.bridges, route-update_proxy n name rule ps port m)

pub any-update_proxy :
    (n : Signed) (name : Text) (rule : CarrierBridge) (ps : List Carrier2Proxy) (m : Signed)
    → any (serves m) (update_proxy n (put_bridge name rule) ps) ≡ any (serves m) ps
unfolding update_proxy put_bridge serves
any-update_proxy n name rule [] m = refl
any-update_proxy n name rule (p ∷ ps) m = ground (arith, any-update_proxy n name rule ps m)
