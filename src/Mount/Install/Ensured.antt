-- ===== src/Mount/Install/Ensured.antt =====
-- What the steps of installing a mount leave, whatever holds of the calls before and stays so.
use gefyra.Prelude.{
  refl, false, ℕ, ◌≡◌, ◌⊎◌, inl, inr, true, List, [], ◌∷◌, Text, codes, text_eq, Bool-cases,
}
use gefyra.Result.{Result, ok, err, Error, temporary_error, bridge_install_exception}
use gefyra.Cluster.{Container, LivePod}
use gefyra.Lifecycle.Machine.{◌>&&>◌, done, raise}
use gefyra.Carrier.Config.{Carrier2Config}
use gefyra.Mount.Tls.{Which, certificate, key, tls_param_from_key_secret}
use gefyra.Mount.Calls.{
  Call, add_original, create_originals, patch_pod, await_restart, inject_file, commit, Trace, Step,
  original_of, call, is_missing, is_api_exception, is_runtime_error,
}
use gefyra.Mount.Install.{
  Target, original_key, Mounted, find_target, config_for, store_pod_original_config, patch_target,
  inject_one, inject_files, in_time, replace_image, configure, install_pod, install_pods,
}
use gefyra.Mount.Calls.Steps.{
  Has, Has-here, Has-later, Stays, StaysUnlessStored, is_store, Fact, Always, Ends, Triple,
  call-Triple, then-Triple, read-Triple, catching-Triple, raise-Triple, done-Triple, if-Triple,
}

module _ {Raw : Type 0} (mount : Mounted Raw) (outcome : Trace → Call → Result (Unit {0})) where
  -- The pod's container runs Carrier2 already, or it was patched.
  abbrev pub Patched : Text → Target → Fact
  Patched pod t w =
      (text_eq (t.container).image mount.carrier_image ≡ true) ⊎ Has (patch_pod pod t.patched) w

  pub Patched-Stays : (pod : Text) (t : Target) → Stays (Patched pod t)
  Patched-Stays pod t c w (inl h) = inl h
  Patched-Stays pod t c w (inr h) = inr (Has-later (patch_pod pod t.patched) c w h)

  module _ (Inv : Fact) (stays : StaysUnlessStored Inv) where
    abbrev pub Ensures : Step → Fact → Type 0
    Ensures act Q = Triple outcome Inv Always act Q

    pub both-ensure :
        (Q : Fact) (a b : Step) → Ensures a Always → Ensures b Q → Ensures (a >&&> b) Q
    both-ensure Q a b h k = then-Triple outcome Inv Always Always Q a b h k

    pub call-ensures :
        (Q : Fact) (c : Call)
        → is_store c ≡ false
        → ((w : Trace) → Q (c ∷ w))
        → Ensures (call outcome c) Q
    call-ensures Q c u h = call-Triple outcome Inv Always Q c (λ w o p. stays c w u o) (λ w p. h w)

    pub raise-ensures : (Q : Fact) (e : Error) → Ensures (raise e) Q
    raise-ensures Q e = raise-Triple outcome Inv Always Q e

    pub done-ensures : Ensures done Always
    done-ensures = done-Triple outcome Inv Always

    pub in_time-ensures :
        (Q : Fact) (act : Step) → Ensures act Q → Ensures (in_time mount outcome act) Q
    in_time-ensures Q act h =
        catching-Triple outcome Inv Always Q (is_runtime_error) (raise bridge_install_exception) act
          (raise-ensures Q bridge_install_exception) h

    pub inject_one-ensures :
        (pod : Text) (which : Which) (port : ℕ)
        → Ensures (inject_one mount outcome pod which port) Always
    unfolding is_store
    inject_one-ensures pod which port =
        if-Triple outcome Inv Always Always (tls_param_from_key_secret which mount.params port)
          (call outcome (inject_file pod mount.container which port)) done
          (call-ensures Always (inject_file pod mount.container which port) refl (λ w. tt))
          done-ensures

    pub inject_files-ensures :
        (pod : Text) (ports : List ℕ) → Ensures (inject_files mount outcome pod ports) Always
    unfolding inject_files is_store
    inject_files-ensures pod [] = done-ensures
    inject_files-ensures pod (port ∷ ports) =
        both-ensure Always _ _
          (both-ensure Always _ _ (inject_one-ensures pod certificate port)
            (inject_one-ensures pod key port))
          (inject_files-ensures pod ports)

    pub finish-ensures :
        (pod : Text) (ports : List ℕ) (config : Carrier2Config)
        → Ensures
            (inject_files mount outcome pod ports
              >&&> in_time mount outcome (call outcome (commit pod config)))
            (Has (commit pod config))
    unfolding is_store
    finish-ensures pod ports config =
        both-ensure (Has (commit pod config)) _ _ (inject_files-ensures pod ports) (
          in_time-ensures (Has (commit pod config)) _ (
            call-ensures (Has (commit pod config)) (commit pod config) refl
              (Has-here (commit pod config))))

    pub await-ensures :
        (pod : Text) → Ensures (in_time mount outcome (call outcome (await_restart pod))) Always
    unfolding is_store
    await-ensures pod =
        in_time-ensures Always _ (call-ensures Always (await_restart pod) refl (λ w. tt))

    weakened :
        (Q : Fact) (r : Trace × Result (Unit {0}))
        → Ends outcome Inv Q r
        → Ends outcome Inv Always r
    weakened Q (w, ok u) h = (h.0, tt)
    weakened Q (w, err e) h = h

    pub weaken : (Q : Fact) (act : Step) → Ensures act Q → Ensures act Always
    weaken Q act h w o p = weakened Q (act w) (h w o p)

    pub patch-ensures :
        (pod : Text) (t : Target) → Ensures (patch_target mount outcome pod t) (Patched pod t)
    unfolding patch_target is_store
    patch-ensures pod t = elim (Bool-cases (text_eq (t.container).image mount.carrier_image)) [
      | inl runs ↦ rw runs (λ w o p. (o, inl runs))
      | inr other ↦ rw other (
          catching-Triple outcome Inv Always (Patched pod t) (is_api_exception)
            (raise temporary_error) (call outcome (patch_pod pod t.patched))
            (raise-ensures (Patched pod t) temporary_error)
            (call-ensures (Patched pod t) (patch_pod pod t.patched) refl
              (λ w. inr (Has-here (patch_pod pod t.patched) w))))
    ]

    pub configure-ensures :
        (pod : Text) (t : Target) (config : Carrier2Config)
        → config_for mount t ≡ ok config
        → Ensures (configure mount outcome pod t) (Has (commit pod config))
    unfolding configure is_store
    configure-ensures pod t config e = rw e (finish-ensures pod t.ports config)

    pub configured-ensures :
        (pod : Text) (t : Target) → Ensures (configure mount outcome pod t) Always
    unfolding configure is_store
    configured-ensures pod t =
        read-Triple outcome Inv Always Always (config_for mount t) _
          (λ config. weaken (Has (commit pod config)) _ (finish-ensures pod t.ports config))

    -- What follows the storing of the original configuration.
    pub after_store-ensures :
        (pod : Text) (t : Target)
        → Ensures
            (patch_target mount outcome pod t
              >&&> in_time mount outcome (call outcome (await_restart pod)))
            Always
    after_store-ensures pod t =
        both-ensure Always _ _ (weaken (Patched pod t) _ (patch-ensures pod t)) (await-ensures pod)

  module _ (Inv : Fact) (stays : Stays Inv) where
    abbrev unless_stored : StaysUnlessStored Inv
    unless_stored c w _ h = stays c w h

    abbrev both :
        (a b : Step)
        → Ensures Inv unless_stored a Always
        → Ensures Inv unless_stored b Always
        → Ensures Inv unless_stored (a >&&> b) Always
    both = both-ensure Inv unless_stored Always

    store-ensures :
        (c : Container) (pod : Text)
        → Ensures Inv unless_stored (store_pod_original_config mount outcome c pod) Always
    unfolding store_pod_original_config
    store-ensures c pod =
        let name = original_key mount.namespace pod in
        catching-Triple outcome Inv Always Always is_missing
          (call outcome (create_originals name (original_of c)))
          (call outcome (add_original name (original_of c)))
          (call-Triple outcome Inv Always Always (create_originals name (original_of c))
            (λ w o p. stays _ w o) (λ w p. tt))
          (call-Triple outcome Inv Always Always (add_original name (original_of c))
            (λ w o p. stays _ w o) (λ w p. tt))

    pub replace_image-ensures :
        (pod : Text) (t : Target)
        → Ensures Inv unless_stored (replace_image mount outcome pod t) Always
    unfolding replace_image
    replace_image-ensures pod t =
        both _ _
          (both _ _ (store-ensures t.container pod)
            (weaken Inv unless_stored (Patched pod t) _ (patch-ensures Inv unless_stored pod t)))
          (await-ensures Inv unless_stored pod)

    pub install_pod-ensures :
        (p : LivePod) → Ensures Inv unless_stored (install_pod mount outcome p) Always
    unfolding install_pod
    install_pod-ensures p =
        read-Triple outcome Inv Always Always
          (find_target mount.carrier_image mount.container p.containers) _
          (λ t.
            both _ _ (replace_image-ensures p.name t)
              (configured-ensures Inv unless_stored p.name t))

    pub install_pods-ensures :
        (ps : List LivePod) → Ensures Inv unless_stored (install_pods mount outcome ps) Always
    unfolding install_pods
    install_pods-ensures [] = done-ensures Inv unless_stored
    install_pods-ensures (p ∷ ps) =
        if-Triple outcome Inv Always Always (text_eq p.phase (codes "Terminating"))
          (install_pods mount outcome ps)
          (install_pod mount outcome p >&&> install_pods mount outcome ps) (install_pods-ensures ps)
          (both _ _ (install_pod-ensures p) (install_pods-ensures ps))
