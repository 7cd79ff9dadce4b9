-- ===== src/Mount/Ready/Upstreams.antt =====
-- That the pods of a mount have their upstream set (`_upstream_set` of
-- operator/gefyra/bridge_mount/carrier2mount/__init__.py).
use gefyra.Prelude.{
  ◌≡◌, refl, ap, ◌∙◌, Bool, true, false, List, [], ◌∷◌, Option, none, some, Text, text_eq,
  text_eq_iff, any, All, Occurs, Occurs-here, Occurs-cons, Bool-cases, inl, inr, if◌then◌else◌,
}
use gefyra.Result.{Result, ok, ok-injective}
use gefyra.Cluster.{Container, LivePod}
use gefyra.Lifecycle.Machine.{Action, ◌>=>◌, and_then-eq-ok}
use gefyra.Carrier.Config.{Carrier2Config, Carrier2Proxy}
use gefyra.Mount.Upstreams.{or_type_error}
use gefyra.Mount.Calls.{Call, Trace, read}
use gefyra.Mount.Ready.{
  Watched, returning, has_upstream, check_container, check_containers, check_pods, upstream_set_on,
  upstream_set,
}

module _ (mount : Watched) (outcome : Trace → Call → Result (Unit {0})) where
  abbrev Test : Type 0
  Test = Action Trace Bool

  -- The configuration that the pod has is read, and one of its proxies has an upstream.
  pub record HasUpstream (p : LivePod) : Type 0 where
    pub config : Carrier2Config
    pub is_config : mount.read_config p.name ≡ ok config
    pub proxy : Carrier2Proxy
    pub listed : Occurs proxy config.proxy
    pub first : Text
    pub later : List Text
    pub is_set : proxy.cluster_upstream ≡ some (first ∷ later)

  -- Each container of the pod with the mount's name has the upstream.
  abbrev pub AreSet : LivePod → Type 0
  AreSet p = All (λ (c : Container). c.name ≡ mount.container → HasUpstream p) p.containers

  upstream_given :
      (proxy : Carrier2Proxy)
      → has_upstream proxy ≡ true
      → (u : Text) × (us : List Text) × (proxy.cluster_upstream ≡ some (u ∷ us))
  upstream_given proxy e = given proxy.cluster_upstream refl
    where
      given :
          (o : Option (List Text))
          → proxy.cluster_upstream ≡ o
          → (u : Text) × (us : List Text) × (proxy.cluster_upstream ≡ some (u ∷ us))
      given none o = cc (rw o at e)
      given (some []) o = cc (rw o at e)
      given (some (u ∷ us)) o = (u, us, o)

  any_given :
      (ps : List Carrier2Proxy)
      → any has_upstream ps ≡ true
      → (proxy : Carrier2Proxy) × Occurs proxy ps × (has_upstream proxy ≡ true)
  any_given [] e = cc e
  any_given (p ∷ ps) e = elim (Bool-cases (has_upstream p)) [
    | inl here ↦ (p, Occurs-here p ps, here)
    | inr other ↦
        let (q, there, given) = any_given ps (rw other at e) in (q, Occurs-cons q p ps there, given)
  ]

  pub returned-true :
      (b : Bool) (w v : Trace) → returning mount outcome b w ≡ (v, ok true) → b ≡ true
  returned-true b w v e = ok-injective (ap (λ (x : Trace × Result Bool). x.1) e)

  -- A test that returns true otherwise than by its `else`.
  unless-false :
      (b : Bool) (act : Test) (w v : Trace)
      → (if b then act else returning mount outcome false) w ≡ (v, ok true)
      → (b ≡ true) × (act w ≡ (v, ok true))
  unless-false true act w v e = (refl, e)
  unless-false false act w v e = cc (returned-true false w v e)

  pub also-true :
      (a b : Test) (w v : Trace)
      → (a >=> λ x. if x then b else returning mount outcome false) w ≡ (v, ok true)
      → (u : Trace) × (a w ≡ (u, ok true)) × (b u ≡ (v, ok true))
  also-true a b w v e =
      let (u, x, e1, f1) =
        and_then-eq-ok v (a w) (λ x. if x then b else returning mount outcome false) e in
      let (holds, later) = unless-false x b u v f1 in
      (u, e1 ∙ ap (λ (y : Bool). (u, ok y)) holds, later)

  check_container-HasUpstream :
      (p : LivePod) (c : Container) (w v : Trace)
      → check_container mount outcome p.name c w ≡ (v, ok true)
      → HasUpstream p
  unfolding check_container
  check_container-HasUpstream p c w v e =
      let (u, ports, e1, f1) = and_then-eq-ok v (read outcome (or_type_error c.ports) w) _ e in
      let (x, config, e2, f2) = and_then-eq-ok v (read outcome (mount.read_config p.name) u) _ f1 in
      let (some_up, _) = unless-false (any has_upstream config.proxy) _ x v f2 in
      let (proxy, listed, has) = any_given config.proxy some_up in
      let (first, later, is_set) = upstream_given proxy has in
      record {
        config = config;
        is_config = ap (λ (y : Trace × Result Carrier2Config). y.1) e2;
        proxy = proxy;
        listed = listed;
        first = first;
        later = later;
        is_set = is_set;
      }

  check_containers-set :
      (p : LivePod) (cs : List Container) (w v : Trace)
      → check_containers mount outcome p.name cs w ≡ (v, ok true)
      → All (λ (c : Container). c.name ≡ mount.container → HasUpstream p) cs
  unfolding check_containers
  check_containers-set p [] w v e = tt
  check_containers-set p (c ∷ cs) w v e = elim (Bool-cases (text_eq c.name mount.container)) [
    | inl same ↦
        let (u, here, later) =
          also-true (check_container mount outcome p.name c)
            (check_containers mount outcome p.name cs) w v (rw same at e) in
        ((λ _. check_container-HasUpstream p c w u here), check_containers-set p cs u v later)
    | inr other ↦ (
      (λ same. cc (other, (text_eq_iff c.name mount.container).1 same)),
      check_containers-set p cs w v (rw other at e),
    )
  ]

  check_pods-set :
      (ps : List LivePod) (w v : Trace)
      → check_pods mount outcome ps w ≡ (v, ok true)
      → All AreSet ps
  unfolding check_pods
  check_pods-set [] w v e = tt
  check_pods-set (p ∷ ps) w v e =
      let (u, here, later) =
        also-true (check_containers mount outcome p.name p.containers) (check_pods mount outcome ps)
          w v e in
      (check_containers-set p p.containers w u here, check_pods-set ps u v later)

  -- The pods that are read, of which there is one, and each has its upstream set.
  pub record AreRouted (ps : List LivePod) : Type 0 where
    pub first : LivePod
    pub later : List LivePod
    pub whole : ps ≡ first ∷ later
    pub are_set : All AreSet ps

  routed :
      (ps : List LivePod) (w v : Trace)
      → upstream_set_on mount outcome ps w ≡ (v, ok true)
      → AreRouted ps
  routed [] w v e = cc (returned-true false w v e)
  routed (p ∷ ps) w v e = record {
    first = p;
    later = ps;
    whole = refl;
    are_set = check_pods-set (p ∷ ps) w v e;
  }

  pub upstream_set-AreRouted :
      (ps : List LivePod) (w v : Trace)
      → mount.original_pods ≡ ok ps
      → upstream_set mount outcome w ≡ (v, ok true)
      → AreRouted ps
  unfolding upstream_set
  upstream_set-AreRouted ps w v is_read e = routed ps w v (rw is_read at e)
