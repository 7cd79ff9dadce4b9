-- ===== src/Carrier/Config.antt =====
-- The Carrier2 configuration and the bridge rules in it (operator/gefyra/bridge/carrier2/config.py).
-- The resources that the Kubernetes API lists are arguments, and pydantic's check of a rule is the
-- parameter `validate`.
pub mod Routes
pub mod Rounds
pub mod Mounts
use gefyra.Prelude.{
  ℕ, ◌≡◌, Bool, true, false, ◌&&◌, ◌||◌, not, List, [], ◌∷◌, Option, none, some, Text, codes,
  text_eq, ◌==◌, if◌then◌else◌, split_on, int, show, Signed, any,
}
use gefyra.Prelude.Dict.{Dict, lookup, insert, has_key}
use gefyra.Result.{
  or_raise, second, Result, ok, err, Error, bridge_install_exception, key_error, index_error,
  value_error, ◌>>=◌,
}

pub data CarrierMatchType : Type 0 where
  exact_lookup prefix_lookup regex_lookup : CarrierMatchType

pub record CarrierHeaderMatch : Type 0 where
  pub name : Text
  pub value : Text
  pub type : CarrierMatchType

pub record CarrierPathMatch : Type 0 where
  pub path : Text
  pub type : CarrierMatchType

pub data CarrierMatch : Type 0 where
  match_header : CarrierHeaderMatch → CarrierMatch
  match_path : CarrierPathMatch → CarrierMatch

pub record CarrierRule : Type 0 where
  pub match : List CarrierMatch

pub record CarrierBridge : Type 0 where
  pub endpoint : Text
  pub rules : List CarrierRule

pub record CarrierProbe : Type 0 where
  pub http_get : List ℕ
  pub https_get : List ℕ

pub record CarrierTls : Type 0 where
  pub certificate : Text
  pub key : Text
  pub sni : Option Text

pub record Carrier2Proxy : Type 0 where
  pub port : Option ℕ
  pub tls : Option CarrierTls
  pub cluster_upstream : Option (List Text)
  pub bridges : Dict CarrierBridge

pub record Carrier2Config : Type 0 where
  pub version : ℕ
  pub threads : ℕ
  pub error_log : Text
  pub pid_file : Text
  pub upgrade_sock : Text
  pub upstream_keepalive_pool_size : ℕ
  pub probes : Option CarrierProbe
  pub proxy : List Carrier2Proxy

-- `Carrier2Proxy(port=port)`, with the defaults of the other fields
abbrev pub new_proxy : ℕ → Carrier2Proxy
new_proxy port = record { port = some port; tls = none; cluster_upstream = none; bridges = [] }

-- `Carrier2Config()`
abbrev pub new_config : Carrier2Config
new_config = record {
  version = 1;
  threads = 4;
  error_log = codes "/tmp/carrier.log";
  pid_file = codes "/tmp/carrier2.pid";
  upgrade_sock = codes "/tmp/carrier2.sock";
  upstream_keepalive_pool_size = 100;
  probes = none;
  proxy = [];
}

-- A GefyraBridge resource: the entries that are read, and `none` for one that is missing. A rule is
-- a dictionary of values that only pydantic looks into.
pub record Bridge (Raw : Type 0) : Type 0 where
  pub name : Text
  pub port_mappings : List Text
  pub cluster_endpoint : Option (Dict Text)
  pub rules : Option (List (Dict Raw))

-- An integer is equal to a port.
unfoldable pub denotes : Signed → ℕ → Bool
denotes n port = n.size == port && (not n.negative || n.size == 0)

-- `d.port == rport`
unfoldable pub serves : Signed → Carrier2Proxy → Bool
unfolding denotes
serves n p = elim p.port [ none ↦ false | some port ↦ denotes n port ]

-- `str(n)`
unfoldable pub show_signed : Signed → Text
show_signed n = if n.negative && not (n.size == 0) then b'-' ∷ show n.size else show n.size

-- `int(port.split(":")[1])`
unfoldable pub target_port : Text → Result Signed
target_port mapping = do part ← second (split_on b':' mapping); or_raise value_error (int part)

-- `bridges.update({name: rule})`, or a new dictionary where there is none yet
abbrev put_rule : Text → CarrierBridge → Dict CarrierBridge → Dict CarrierBridge
put_rule name rule [] = (name, rule) ∷ []
put_rule name rule (entry ∷ bridges) = insert name rule (entry ∷ bridges)

unfoldable pub put_bridge : Text → CarrierBridge → Carrier2Proxy → Carrier2Proxy
put_bridge name rule p = record p { bridges = put_rule name rule p.bridges }

-- Assigns to the first proxy that serves the port.
unfoldable pub update_proxy :
    Signed → (Carrier2Proxy → Carrier2Proxy) → List Carrier2Proxy → List Carrier2Proxy
update_proxy n f [] = []
update_proxy n f (p ∷ ps) = if serves n p then f p ∷ ps else p ∷ update_proxy n f ps

module _ {Raw : Type 0} (validate : Dict Raw → Result CarrierRule) where
  -- `_get_rules_for_bridge`, its loop
  unfoldable pub get_rules : List (Dict Raw) → Result (List CarrierRule)
  get_rules [] = ok []
  get_rules (rule ∷ rest) =
      let later = get_rules rest in
      if has_key (codes "match") rule
      then (do r ← validate rule; rs ← later; ok (r ∷ rs))
      else later

  unfoldable pub get_rules_for_bridge : Bridge Raw → Result (List CarrierRule)
  unfolding get_rules
  get_rules_for_bridge bridge = do rules ← or_raise key_error bridge.rules; get_rules rules

  unfoldable pub convert_bridge_to_rule : Bridge Raw → Signed → Result CarrierBridge
  unfolding get_rules_for_bridge
  convert_bridge_to_rule bridge n = do
    endpoints ← or_raise key_error bridge.cluster_endpoint
    endpoint ← or_raise key_error (lookup (show_signed n) endpoints)
    rules ← get_rules_for_bridge bridge
    ok (record { endpoint = endpoint; rules = rules })

  -- What a round of the loop over the port mappings does once it has the port.
  unfoldable pub route_port : Bridge Raw → List Carrier2Proxy → Signed → Result (List Carrier2Proxy)
  route_port bridge proxies n =
      if any (serves n) proxies
      then (do
        rule ← convert_bridge_to_rule bridge n
        ok (update_proxy n (put_bridge bridge.name rule) proxies))
      else err bridge_install_exception

  -- One round of the loop over the port mappings, the body of the `try`.
  unfoldable pub add_port : Bridge Raw → Text → List Carrier2Proxy → Result (List Carrier2Proxy)
  unfolding target_port route_port
  add_port bridge mapping proxies = do n ← target_port mapping; route_port bridge proxies n

  -- The loop with what it has written when a round raises, and whether none did.
  unfoldable pub add_ports : Bridge Raw → List Text → List Carrier2Proxy → List Carrier2Proxy × Bool
  add_ports bridge [] proxies = (proxies, true)
  add_ports bridge (mapping ∷ rest) proxies = elim (add_port bridge mapping proxies) [
    | ok proxies' ↦ add_ports bridge rest proxies'
    | err e ↦ (proxies, false)
  ]

  -- `current_bridge_add and bridge_name == current_bridge_add`
  abbrev is_added : Option Text → Text → Bool
  is_added none name = false
  is_added (some []) name = false
  is_added (some add) name = text_eq name add

  -- `bridge_name == current_bridge_rm`
  abbrev is_removed : Option Text → Text → Bool
  is_removed none name = false
  is_removed (some rm) name = text_eq name rm

  -- The loop of `add_bridge_rules_for_mount` over the bridges of the mount.
  unfoldable pub add_bridges :
      Option Text
      → Option Text
      → List (Bridge Raw)
      → List Carrier2Proxy
      → Result (List Carrier2Proxy)
  add_bridges add rm [] proxies = ok proxies
  add_bridges add rm (bridge ∷ rest) proxies =
      let (proxies', done) = add_ports bridge bridge.port_mappings proxies in
      let skipped = add_bridges add rm rest proxies in
      let next = add_bridges add rm rest proxies' in
      if is_removed rm bridge.name
      then skipped
      else if done || not (is_added add bridge.name)
      then next
      else err bridge_install_exception

  -- `add_bridge_rules_for_mount`, on the bridges that the API lists for the mount
  unfoldable pub add_bridge_rules_for_mount :
      List (Bridge Raw) → Option Text → Option Text → Carrier2Config → Result Carrier2Config
  add_bridge_rules_for_mount bridges add rm config = do
    proxies ← add_bridges add rm bridges config.proxy
    ok (record config { proxy = proxies })
