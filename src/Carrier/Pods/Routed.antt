-- ===== src/Carrier/Pods/Routed.antt =====
-- What adding or removing a bridge has done in the pods of a mount when it returns.
use gefyra.Prelude.{
  ℕ, ◌≡◌, ◌≢◌, refl, sym, ap, ◌∙◌, subst, Bool, true, false, List, [], ◌∷◌, ◌++◌, map, none, some,
  text_eq, All, Occurs, int-show, show,
}
use gefyra.Result.{Result, ok}
use gefyra.Cluster.{LivePod}
use gefyra.Lifecycle.Machine.{◌>=>◌, ◌>&&>◌, and_then-eq-ok}
use gefyra.Carrier.Config.{Bridge, Carrier2Config, CarrierBridge}
use gefyra.Carrier.Config.Routes.{ports, route}
use gefyra.Carrier.Config.Rounds.{targets, IsRouted}
use gefyra.Carrier.Provider.{update_carrier_config_add, update_carrier_config_remove}
use gefyra.Carrier.Provider.Base.{named_ports}
use gefyra.Carrier.Provider.Served.{update_carrier_config_add_lem, update_carrier_config_remove_lem}
use gefyra.Carrier.Pods.{
  Commit, World, Served, update_pod, gather, update_pods, ready, config_with, added_config,
  removed_config, add_proxy_route, remove_proxy_route, set_updated, true_or_refuse, read,
}
use gefyra.Carrier.Pods.Gathered.{commit_of, IsUpdated, gather-IsUpdated}

module _ {Raw : Type 0} (served : Served Raw)
    (outcome : List Commit → Commit → Result (Unit {0})) where
  open served use {svc, read_secret, parameter, validate}

  update_pods-IsUpdated :
      (f : LivePod → Result Carrier2Config) (ps : List LivePod) (w v : World)
      → served.pods ≡ ok ps
      → update_pods served outcome f w ≡ (v, ok tt)
      → All (IsUpdated served outcome f v) ps
  unfolding update_pods
  update_pods-IsUpdated f ps w v r e =
      let run = read served outcome served.pods >=> λ (qs : List LivePod).
      gather served outcome (update_pod served outcome f) qs in
      let (u, b, e1, f1) =
        and_then-eq-ok v (ready served outcome w)
          (λ (x : Bool). true_or_refuse served outcome x >&&> run) e in
      let (u', b', e2, f2) = and_then-eq-ok v (true_or_refuse served outcome b u) (λ _. run) f1 in
      gather-IsUpdated served outcome f ps u' v (rw r at f2)

  config_with-added :
      (p : LivePod) (bridges : List (Bridge Raw))
      → served.bridges ≡ ok bridges
      → added_config served outcome p
        ≡ update_carrier_config_add svc read_secret parameter validate served.bridge_name
            served.container p.containers bridges
  unfolding config_with update_carrier_config_add
  config_with-added p bridges r = rw r refl

  config_with-removed :
      (p : LivePod) (bridges : List (Bridge Raw))
      → served.bridges ≡ ok bridges
      → removed_config served outcome p
        ≡ update_carrier_config_remove svc read_secret parameter validate served.bridge_name
            served.container p.containers bridges
  unfolding config_with update_carrier_config_remove
  config_with-removed p bridges r = rw r refl

  -- A pod got a configuration with one proxy for each port of the mount's container, which routes the
  -- bridge at a port.
  pub record IsServed (b : Bridge Raw) (port : ℕ) (v : World) (p : LivePod) : Type 0 where
    pub config : Carrier2Config
    pub committed : Occurs (commit_of served outcome p config) v.commits
    pub one_each : ports config.proxy ≡ map some (named_ports served.container p.containers)
    pub rule : CarrierBridge
    pub routed : IsRouted validate b port rule config.proxy

  IsUpdated-IsServed :
      (before after : List (Bridge Raw)) (b : Bridge Raw) (port : ℕ) (v : World) (p : LivePod)
      → served.bridges ≡ ok (before ++ (b ∷ after))
      → served.bridge_name ≡ b.name
      → b.name ≢ []
      → All (λ (c : Bridge Raw). text_eq c.name b.name ≡ false) after
      → targets port b.port_mappings ≡ true
      → IsUpdated served outcome (added_config served outcome) v p
      → IsServed b port v p
  IsUpdated-IsServed before after b port v p r name named later t h =
      let (one_each, (rule, routed)) =
        update_carrier_config_add_lem svc read_secret parameter validate served.container
          p.containers before b after h.config port named later
          (rw name at (sym (config_with-added p (before ++ (b ∷ after)) r) ∙ h.built)) t in
      record {
        config = h.config;
        committed = h.committed;
        one_each = one_each;
        rule = rule;
        routed = routed;
      }

  All-map :
      {P Q : LivePod → Type 0}
      → ((p : LivePod) → P p → Q p)
      → (ps : List LivePod) → All P ps
      → All Q ps
  All-map f [] h = tt
  All-map f (p ∷ ps) h = (f p h.0, All-map f ps h.1)

  moved :
      (p : LivePod) (u v : World)
      → u.commits ≡ v.commits
      → IsUpdated served outcome (added_config served outcome) u p
      → IsUpdated served outcome (added_config served outcome) v p
  moved p u v same h = record {
    config = h.config;
    built = h.built;
    committed =
        subst (λ (cs : List Commit). Occurs (commit_of served outcome p h.config) cs) same
          h.committed;
  }

  -- If adding a bridge returns for a provider that has not updated its pods, then every pod of the
  -- mount got a configuration with one proxy for each port of the mount's container, which routes
  -- the bridge by its own endpoint and rules at a port that one of its mappings targets, and
  -- adding the bridge again changes nothing, given that the bridge is listed under its name, which
  -- is not empty and which no later bridge has.
  pub add_proxy_route_lem :
      (before after : List (Bridge Raw)) (b : Bridge Raw) (port : ℕ) (ps : List LivePod)
      (w v : World)
      → served.bridges ≡ ok (before ++ (b ∷ after))
      → served.bridge_name ≡ b.name
      → b.name ≢ []
      → All (λ (c : Bridge Raw). text_eq c.name b.name ≡ false) after
      → targets port b.port_mappings ≡ true
      → served.pods ≡ ok ps
      → w.updated ≡ false
      → add_proxy_route served outcome w ≡ (v, ok tt)
      → All (IsServed b port v) ps × (add_proxy_route served outcome v ≡ (v, ok tt))
  unfolding add_proxy_route
  add_proxy_route_lem before after b port ps w v r name named later t pods fresh e =
      let (u, a, e1, f1) =
        and_then-eq-ok v (update_pods served outcome (added_config served outcome) w)
          (λ _. set_updated served outcome) (rw fresh at e) in
      let marked : v.updated ≡ true =
        sym (ap (λ (x : World × Result (Unit {0})). (x.0).updated) f1) in
      let same : u.commits ≡ v.commits = ap (λ (x : World × Result (Unit {0})). (x.0).commits) f1 in
      (
        All-map
            (λ p h.
              IsUpdated-IsServed before after b port v p r name named later t (moved p u v same h))
            ps (update_pods-IsUpdated (added_config served outcome) ps w u pods e1),
        rw marked refl,
      )

  -- If removing a bridge returns, then every pod of the mount got a configuration in which no
  -- proxy routes the bridge at any port, given that its name is not empty.
  pub remove_proxy_route_lem :
      (bridges : List (Bridge Raw)) (ps : List LivePod) (w v : World)
      → served.bridges ≡ ok bridges
      → served.bridge_name ≢ []
      → served.pods ≡ ok ps
      → remove_proxy_route served outcome w ≡ (v, ok tt)
      → All
          (λ (p : LivePod).
            (config : Carrier2Config) × Occurs (commit_of served outcome p config) v.commits
            × ((port : ℕ) → route port served.bridge_name config.proxy ≡ none))
          ps
  unfolding remove_proxy_route
  remove_proxy_route_lem bridges ps w v r named pods e =
      All-map
        (λ p h. (
          h.config,
          h.committed,
          λ port.
              (update_carrier_config_remove_lem svc read_secret parameter validate served.container
                p.containers served.bridge_name bridges h.config (show port) [] [] port named
                (sym (config_with-removed p bridges r) ∙ h.built) (int-show port)).0,
        ))
        ps (update_pods-IsUpdated (removed_config served outcome) ps w v pods e)
