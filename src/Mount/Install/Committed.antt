-- ===== src/Mount/Install/Committed.antt =====
-- What installing a mount has done when it returns.
use gefyra.Prelude.{
  ◌≡◌, refl, ap, subst, ◌⊎◌, inl, inr, true, false, List, [], ◌∷◌, Text, codes, text_eq, Bool-cases,
  All,
}
use gefyra.Result.{Result-cases, Result, ok, err}
use gefyra.Cluster.{LivePod}
use gefyra.Lifecycle.Machine.{◌>&&>◌, and_then-eq-ok}
use gefyra.Carrier.Config.{Carrier2Config}
use gefyra.Mount.Calls.{Call, await_restart, commit, Trace, Step, call}
use gefyra.Mount.Install.{
  Target, Mounted, find_target, config_for, store_pod_original_config, patch_target, in_time,
  replace_image, configure, install_pod, install_pods, install, has_many_owners,
}
use gefyra.Mount.Calls.Steps.{Has, Has-later, Stays, Fact, Always, Ends, Triple}
use gefyra.Mount.Install.Ensured.{
  configure-ensures, Patched, Patched-Stays, await-ensures, patch-ensures, install_pods-ensures,
}

module _ {Raw : Type 0} (mount : Mounted Raw) (outcome : Trace → Call → Result (Unit {0})) where
  -- The container of the mount was found in the pod, it runs Carrier2 or was patched to, and the
  -- configuration that is built for the pod was committed.
  pub record IsInstalled (p : LivePod) (w : Trace) : Type 0 where
    pub target : Target
    pub found : find_target mount.carrier_image mount.container p.containers ≡ ok target
    pub config : Carrier2Config
    pub built : config_for mount target ≡ ok config
    pub patched : Patched mount outcome p.name target w
    pub committed : Has (commit p.name config) w

  IsInstalled-Stays : (p : LivePod) → Stays (IsInstalled p)
  IsInstalled-Stays p c w h = record {
    target = h.target;
    found = h.found;
    config = h.config;
    built = h.built;
    patched = Patched-Stays mount outcome p.name h.target c w h.patched;
    committed = Has-later (commit p.name h.config) c w h.committed;
  }

  ended :
      (Inv Q : Fact) (act : Step) (w v : Trace)
      → Triple outcome Inv Always act Q
      → act w ≡ (v, ok tt)
      → Inv w
      → Inv v × Q v
  ended Inv Q act w v h e o = subst (Ends outcome Inv Q) e (h w o tt)

  configure-built :
      (pod : Text) (t : Target) (w v : Trace)
      → configure mount outcome pod t w ≡ (v, ok tt)
      → (config : Carrier2Config) × (config_for mount t ≡ ok config)
  unfolding configure
  configure-built pod t w v e = elim (Result-cases (config_for mount t)) [
    | inl built ↦ built
    | inr (x, failed) ↦ cc (ap (λ (y : Trace × Result (Unit {0})). y.1) (rw failed at e))
  ]

  replace_image-Patched :
      (pod : Text) (t : Target) (w v : Trace)
      → replace_image mount outcome pod t w ≡ (v, ok tt)
      → Patched mount outcome pod t v
  unfolding replace_image
  replace_image-Patched pod t w v e =
      let store = store_pod_original_config mount outcome t.container pod in
      let patch = patch_target mount outcome pod t in
      let wait = in_time mount outcome (call outcome (await_restart pod)) in
      let (u, a, e1, f1) = and_then-eq-ok v ((store >&&> patch) w) (λ _. wait) e in
      let (s, b, e2, f2) = and_then-eq-ok u (store w) (λ _. patch) e1 in
      let (_, patched) =
        ended Always (Patched mount outcome pod t) patch s u
          (patch-ensures mount outcome Always (λ c x u y. tt) pod t) f2 tt in
      (ended (Patched mount outcome pod t) Always wait u v
        (await-ensures mount outcome (Patched mount outcome pod t)
          (λ c x _ h. Patched-Stays mount outcome pod t c x h) pod)
        f1 patched).0

  install_pod-IsInstalled :
      (p : LivePod) (w v : Trace) → install_pod mount outcome p w ≡ (v, ok tt) → IsInstalled p v
  unfolding install_pod
  install_pod-IsInstalled p w v e =
      elim (Result-cases (find_target mount.carrier_image mount.container p.containers)) [
        | inr (x, failed) ↦ cc (ap (λ (y : Trace × Result (Unit {0})). y.1) (rw failed at e))
        | inl (t, found) ↦
            let (u, a, e1, f1) =
              and_then-eq-ok v (replace_image mount outcome p.name t w)
                (λ _. configure mount outcome p.name t) (rw found at e) in
            let (config, built) = configure-built p.name t u v f1 in
            let (patched, committed) =
              ended (Patched mount outcome p.name t) (Has (commit p.name config))
                (configure mount outcome p.name t) u v
                (configure-ensures mount outcome (Patched mount outcome p.name t)
                  (λ c x _ h. Patched-Stays mount outcome p.name t c x h) p.name t config built)
                f1 (replace_image-Patched p.name t w u e1) in
            record {
              target = t;
              found = found;
              config = config;
              built = built;
              patched = patched;
              committed = committed;
            }
      ]

  install_pods-IsInstalled :
      (ps : List LivePod) (w v : Trace)
      → install_pods mount outcome ps w ≡ (v, ok tt)
      → All (λ (p : LivePod). (text_eq p.phase (codes "Terminating") ≡ true) ⊎ IsInstalled p v) ps
  unfolding install_pods
  install_pods-IsInstalled [] w v e = tt
  install_pods-IsInstalled (p ∷ ps) w v e =
      elim (Bool-cases (text_eq p.phase (codes "Terminating"))) [
        | inl ending ↦ (inl ending, install_pods-IsInstalled ps w v (rw ending at e))
        | inr running ↦
            let (u, a, e1, f1) =
              and_then-eq-ok v (install_pod mount outcome p w) _ (rw running at e) in
            let here = install_pod-IsInstalled p w u e1 in
            let (still, _) =
              ended (IsInstalled p) Always (install_pods mount outcome ps) u v
                (install_pods-ensures mount outcome (IsInstalled p) (IsInstalled-Stays p) ps) f1
                here in
            (inr still, install_pods-IsInstalled ps u v f1)
      ]

  -- If installing a mount returns, then the pods were read, they are not owned by more than one
  -- controller, and each of them is terminating, or the mount's container was found in it, runs
  -- Carrier2 or was patched to, and the configuration with the mount's bridges that is built for
  -- the pod was committed to it.
  pub install-IsInstalled :
      (pods : Result (List LivePod)) (w v : Trace)
      → install mount outcome pods w ≡ (v, ok tt)
      → (ps : List LivePod) × (pods ≡ ok ps)
        × (has_many_owners ps ≡ false)
        × All (λ (p : LivePod). (text_eq p.phase (codes "Terminating") ≡ true) ⊎ IsInstalled p v) ps
  unfolding install
  install-IsInstalled (err x) w v e = cc (ap (λ (y : Trace × Result (Unit {0})). y.1) e)
  install-IsInstalled (ok ps) w v e = elim (Bool-cases (has_many_owners ps)) [
    | inl many ↦ cc (ap (λ (y : Trace × Result (Unit {0})). y.1) (rw many at e))
    | inr few ↦ (ps, refl, few, install_pods-IsInstalled ps w v (rw few at e))
  ]
