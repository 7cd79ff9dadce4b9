-- ===== src/Mount/Ready/Healthy.antt =====
-- What a mount that is ready has.
use gefyra.Prelude.{
  Occurs, [], ◌∷◌, ◌≡◌, ap, ap₂, ◌∙◌, sym, subst, Bool, true, false, List, ◌≢◌, if◌then◌else◌,
  Bool-cases, inl, inr, All,
}
use gefyra.Result.{Result, ok, >>=-eq-ok, ok-injective, ◌>>=◌}
use gefyra.Cluster.{Container, LivePod}
use gefyra.Mount.Health.Meaning.{IsHealthy, pod_ready_and_healthy-IsHealthy, containers_have-All}
use gefyra.Mount.Ready.Upstreams.{returned-true, also-true, AreRouted, upstream_set-AreRouted}
use gefyra.Lifecycle.Machine.{Action, ◌>=>◌, and_then-eq-ok}
use gefyra.Mount.Health.{
  pod_ready_and_healthy, original_pods_ready, duplicated_pods_ready, carrier_installed,
}
use gefyra.Mount.Health.Quantified.{async_all-All, async_any-Among, carrier_installed-All}
use gefyra.Mount.Calls.{Call, Trace, read}
use gefyra.Mount.Ready.{
  Watched, shadow_ready, carrier_there, originals_ready, upstream_set, conditions, concluded, ready,
  reported, returning,
}

All-map :
    {P Q : LivePod → Type 0} (ps : List LivePod) → ((p : LivePod) → P p → Q p) → All P ps → All Q ps
All-map [] f h = tt
All-map (p ∷ ps) f h = (f p h.0, All-map ps f h.1)

module _ (mount : Watched) (outcome : Trace → Call → Result (Unit {0})) where
  abbrev Test : Type 0
  Test = Action Trace Bool

  abbrev valued : Trace × Result Bool → Result Bool
  valued r = r.1

  read-true :
      {A : Type 0} (r : Result A) (next : A → Result Bool) (w v : Trace)
      → read outcome (r >>= next) w ≡ (v, ok true)
      → (a : A) × (r ≡ ok a) × (next a ≡ ok true) × (w ≡ v)
  read-true r next w v e =
      let (a, e1, f1) = >>=-eq-ok r next (ap (λ (x : Trace × Result Bool). x.1) e) in
      (a, e1, f1, ap (λ (x : Trace × Result Bool). x.0) e)

  -- Reporting that the mount is not ready never returns true.
  reported-false : (w v : Trace) → reported mount outcome w ≢ (v, ok true)
  reported-false w v e =
      let (u1, x1, e1, f1) = and_then-eq-ok v (shadow_ready mount outcome w) _ e in
      let (u2, x2, e2, f2) = and_then-eq-ok v (carrier_there mount outcome u1) _ f1 in
      let (u3, x3, e3, f3) = and_then-eq-ok v (originals_ready mount outcome u2) _ f2 in
      let (u4, x4, e4, f4) = and_then-eq-ok v (upstream_set mount outcome u3) _ f3 in
      cc (returned-true mount outcome false u4 v f4)

  concluded-true :
      (x : Bool) (u v : Trace) → concluded mount outcome x u ≡ (v, ok true) → (x ≡ true) × (u ≡ v)
  concluded-true x u v e =
      let answer = if x then returning mount outcome true else reported mount outcome in
      let (u1, shadow, e1, f1) =
        and_then-eq-ok v (read outcome mount.gefyra_pods u)
          (λ (a : List LivePod). read outcome mount.original_pods >=> λ (b : List LivePod). answer)
          e in
      let (u2, original, e2, f2) =
        and_then-eq-ok v (read outcome mount.original_pods u1) (λ (b : List LivePod). answer) f1 in
      elim (Bool-cases x) [
        | inl holds ↦ (
          holds,
          ap (λ (z : Trace × Result (List LivePod)). z.0) e1
              ∙ ap (λ (z : Trace × Result (List LivePod)). z.0) e2
              ∙ ap (λ (z : Trace × Result Bool). z.0) (rw holds at f2),
        )
        | inr fails ↦ absurd (reported-false u2 v (rw fails at f2))
      ]

  -- The pods of the shadow and of the workload are read; one of the shadow's is healthy; there is one
  -- of the workload, and each of them is healthy, runs Carrier2 in the containers of the mount's name,
  -- and has an upstream set in the configuration for these.
  pub record IsReady : Type 0 where
    pub shadow : List LivePod
    pub original : List LivePod
    pub is_shadow : mount.gefyra_pods ≡ ok shadow
    pub is_original : mount.original_pods ≡ ok original
    pub serving : LivePod
    pub is_serving : Occurs serving shadow
    pub serves : IsHealthy mount.container serving
    pub healthy : All (IsHealthy mount.container) original
    pub carried :
        All
          (λ (p : LivePod).
            All
              (λ (c : Container). c.name ≡ mount.container → c.image ≡ mount.carrier_image)
              p.containers)
          original
    pub upstream : AreRouted mount outcome original

  built : (w v : Trace) → conditions mount outcome w ≡ (v, ok true) → IsReady
  unfolding conditions shadow_ready carrier_there originals_ready original_pods_ready
      duplicated_pods_ready
  built w v e =
      let (u1, e1, f1) = also-true mount outcome (shadow_ready mount outcome) _ w v e in
      let (u2, e2, f2) = also-true mount outcome (carrier_there mount outcome) _ u1 v f1 in
      let (u3, e3, f3) = also-true mount outcome (originals_ready mount outcome) _ u2 v f2 in
      let (shadow, is_shadow, any_healthy, s1) = read-true mount.gefyra_pods _ w u1 e1 in
      let (ps, is_ps, there, s2) = read-true mount.original_pods _ u1 u2 e2 in
      let (original, is_original, healthy, s3) = read-true mount.original_pods _ u2 u3 e3 in
      let found = async_any-Among (pod_ready_and_healthy mount.container) shadow any_healthy in
      let same : ps ≡ original = ok-injective (sym is_ps ∙ is_original) in
      record {
        shadow = shadow;
        original = original;
        is_shadow = is_shadow;
        is_original = is_original;
        serving = found.element;
        is_serving = (found.before, found.after, found.whole);
        serves = pod_ready_and_healthy-IsHealthy mount.container found.element found.holds;
        healthy =
            All-map original (pod_ready_and_healthy-IsHealthy mount.container)
              (async_all-All (pod_ready_and_healthy mount.container) original healthy);
        carried =
            All-map original
              (λ (p : LivePod).
                containers_have-All mount.container mount.carrier_image p.containers)
              (carrier_installed-All mount.container mount.carrier_image original (
                subst
                  (λ (x : List LivePod).
                    carrier_installed mount.container mount.carrier_image x ≡ true)
                  same (ok-injective there)));
        upstream = upstream_set-AreRouted mount outcome original u3 v is_original f3;
      }

  -- If a mount is ready, then the pods of its shadow and of its workload were read; one pod of the
  -- shadow and each pod of the workload are healthy, that is, the pod is Running and the first
  -- status with the name of the mount's container is ready, started, and running since a time that
  -- is given; each container of that name in the workload's pods has Carrier2's image; there is
  -- such a pod; and for each of these containers the configuration of its pod was read and has a
  -- proxy with at least one upstream.
  pub ready-IsReady : (w v : Trace) → ready mount outcome w ≡ (v, ok true) → IsReady
  unfolding ready shadow_ready carrier_there originals_ready original_pods_ready
      duplicated_pods_ready
  ready-IsReady w v e =
      let (u, x, e1, f1) =
        and_then-eq-ok v (conditions mount outcome w) (concluded mount outcome) e in
      let (holds, same) = concluded-true x u v f1 in
      built w v (
        subst (λ (y : Trace × Bool). conditions mount outcome w ≡ (y.0, ok y.1))
          (ap₂ (λ (a : Trace) (b : Bool). (a, b)) same holds) e1)
