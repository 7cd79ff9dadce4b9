-- ===== src/Mount/Install/Order/Held.antt =====
-- That installing a mount keeps the order of its calls.
use gefyra.Prelude.{
  ℕ, ◌≡◌, refl, true, List, [], ◌∷◌, arith, Text, codes, text_eq, text_eq_refl, any,
}
use gefyra.Result.{Result, ok, err, temporary_error, bridge_install_exception}
use gefyra.Cluster.{Container, LivePod}
use gefyra.Lifecycle.Machine.{◌>&&>◌, done, raise}
use gefyra.Carrier.Config.{Carrier2Config}
use gefyra.Mount.Tls.{Which, certificate, key, tls_param_from_key_secret}
use gefyra.Mount.Calls.{
  Call, add_original, create_originals, patch_pod, await_restart, inject_file, commit, Trace, Step,
  original_of, call, is_missing, is_api_exception, is_runtime_error,
}
use gefyra.Mount.Install.{
  configure, replace_image, Target, original_key, Mounted, find_target, config_for,
  store_pod_original_config, patch_target, inject_one, inject_files, in_time, install_pod,
  install_pods, install, has_many_owners,
}
use gefyra.Mount.Install.Order.{stores, awaits, allowed, IsOrdered}
use gefyra.Mount.Calls.Steps.{
  Fact, Always, Ends, Triple, call-Triple, then-Triple, read-Triple, catching-Triple, raise-Triple,
  done-Triple, if-Triple,
}

module _ {Raw : Type 0} (mount : Mounted Raw) (outcome : Trace → Call → Result (Unit {0})) where
  abbrev Ordered : Fact
  Ordered = IsOrdered mount.namespace

  abbrev Stored : Text → Fact
  Stored pod trace = any (stores (original_key mount.namespace pod)) trace ≡ true

  abbrev Awaited : Text → Fact
  Awaited pod trace = any (awaits pod) trace ≡ true

  store-Triple :
      (c : Container) (pod : Text)
      → Triple outcome Ordered Always (store_pod_original_config mount outcome c pod) (Stored pod)
  unfolding store_pod_original_config stores allowed
  store-Triple c pod =
      let name = original_key mount.namespace pod in
      catching-Triple outcome Ordered Always (Stored pod) (is_missing)
        (call outcome (create_originals name (original_of c)))
        (call outcome (add_original name (original_of c)))
        (call-Triple outcome Ordered Always (Stored pod) (create_originals name (original_of c))
          (λ w o _. (refl, o)) (λ w _. rw (text_eq_refl name) refl))
        (call-Triple outcome Ordered Always (Stored pod) (add_original name (original_of c))
          (λ w o _. (refl, o)) (λ w _. rw (text_eq_refl name) refl))

  patch-Triple :
      (pod : Text) (t : Target)
      → Triple outcome Ordered (Stored pod) (patch_target mount outcome pod t) Always
  unfolding patch_target allowed
  patch-Triple pod t =
      if-Triple outcome Ordered (Stored pod) Always
        (text_eq (t.container).image mount.carrier_image) done _ (λ w o p. (o, tt))
        (catching-Triple outcome Ordered (Stored pod) Always (is_api_exception)
          (raise temporary_error) (call outcome (patch_pod pod t.patched))
          (raise-Triple outcome Ordered Always Always temporary_error)
          (call-Triple outcome Ordered (Stored pod) Always (patch_pod pod t.patched)
            (λ w o p. (p, o)) (λ w p. tt)))

  in_time-Triple :
      (P Q : Fact) (act : Step)
      → Triple outcome Ordered P act Q
      → Triple outcome Ordered P (in_time mount outcome act) Q
  in_time-Triple P Q act h =
      catching-Triple outcome Ordered P Q (is_runtime_error) (raise bridge_install_exception) act
        (raise-Triple outcome Ordered Always Q bridge_install_exception) h

  still : (pod : Text) (c : Call) (w : Trace) → Awaited pod w → Awaited pod (c ∷ w)
  still pod c w p = ground arith

  -- A call that needs a restart that was awaited, and leaves it so.
  inject_one-Triple :
      (pod : Text) (which : Which) (port : ℕ)
      → Triple outcome Ordered (Awaited pod) (inject_one mount outcome pod which port) (Awaited pod)
  unfolding allowed
  inject_one-Triple pod which port =
      if-Triple outcome Ordered (Awaited pod) (Awaited pod)
        (tls_param_from_key_secret which mount.params port)
        (call outcome (inject_file pod mount.container which port)) done
        (call-Triple outcome Ordered (Awaited pod) (Awaited pod)
          (inject_file pod mount.container which port) (λ w o p. (p, o))
          (λ w p. still pod (inject_file pod mount.container which port) w p))
        (done-Triple outcome Ordered (Awaited pod))

  inject_files-Triple :
      (pod : Text) (ports : List ℕ)
      → Triple outcome Ordered (Awaited pod) (inject_files mount outcome pod ports) (Awaited pod)
  unfolding inject_files
  inject_files-Triple pod [] = done-Triple outcome Ordered (Awaited pod)
  inject_files-Triple pod (port ∷ ports) =
      let A = Awaited pod in
      then-Triple outcome Ordered A A A
        (inject_one mount outcome pod certificate port >&&> inject_one mount outcome pod key port)
        (inject_files mount outcome pod ports)
        (then-Triple outcome Ordered A A A (inject_one mount outcome pod certificate port)
          (inject_one mount outcome pod key port) (inject_one-Triple pod certificate port)
          (inject_one-Triple pod key port))
        (inject_files-Triple pod ports)

  finish-Triple :
      (pod : Text) (ports : List ℕ) (config : Carrier2Config)
      → Triple outcome Ordered
          (Awaited pod)
          (inject_files mount outcome pod ports
            >&&> in_time mount outcome (call outcome (commit pod config)))
          Always
  unfolding allowed
  finish-Triple pod ports config =
      then-Triple outcome Ordered (Awaited pod) (Awaited pod) Always
        (inject_files mount outcome pod ports)
        (in_time mount outcome (call outcome (commit pod config))) (inject_files-Triple pod ports)
        (in_time-Triple (Awaited pod) Always (call outcome (commit pod config)) (
          call-Triple outcome Ordered (Awaited pod) Always (commit pod config) (λ w o p. (p, o))
            (λ w p. tt)))

  await-Triple :
      (pod : Text)
      → Triple outcome Ordered Always
          (in_time mount outcome (call outcome (await_restart pod)))
          (Awaited pod)
  unfolding allowed awaits
  await-Triple pod = in_time-Triple Always (Awaited pod) (call outcome (await_restart pod)) (
      call-Triple outcome Ordered Always (Awaited pod) (await_restart pod) (λ w o p. (refl, o))
        (λ w p. rw (text_eq_refl pod) refl))

  install_pod-Triple :
      (p : LivePod) → Triple outcome Ordered Always (install_pod mount outcome p) Always
  unfolding install_pod replace_image configure
  install_pod-Triple p =
      read-Triple outcome Ordered Always Always
        (find_target mount.carrier_image mount.container p.containers) _
        (λ target.
          then-Triple outcome Ordered Always (Awaited p.name) Always _ _
            (then-Triple outcome Ordered Always Always (Awaited p.name) _ _
              (then-Triple outcome Ordered Always (Stored p.name) Always _ _
                (store-Triple target.container p.name) (patch-Triple p.name target))
              (await-Triple p.name))
            (read-Triple outcome Ordered (Awaited p.name) Always (config_for mount target) _
              (λ config. finish-Triple p.name target.ports config)))

  install_pods-Triple :
      (ps : List LivePod) → Triple outcome Ordered Always (install_pods mount outcome ps) Always
  unfolding install_pods
  install_pods-Triple [] = done-Triple outcome Ordered Always
  install_pods-Triple (p ∷ ps) =
      if-Triple outcome Ordered Always Always (text_eq p.phase (codes "Terminating"))
        (install_pods mount outcome ps)
        (install_pod mount outcome p >&&> install_pods mount outcome ps) (install_pods-Triple ps)
        (then-Triple outcome Ordered Always Always Always (install_pod mount outcome p)
          (install_pods mount outcome ps) (install_pod-Triple p) (install_pods-Triple ps))

  ended :
      (r : Trace × Result (Unit {0}))
      → Ends outcome Ordered Always r
      → IsOrdered mount.namespace r.0
  ended (w, ok u) h = h.0
  ended (w, err e) h = h

  -- Whatever the calls come to, and whether installing returns or raises: where the calls before
  -- were ordered, no pod is patched before its original configuration was stored, and no file is
  -- injected into a pod and no configuration is committed to it before its restart was awaited.
  pub install-IsOrdered :
      (pods : Result (List LivePod)) (w : Trace)
      → IsOrdered mount.namespace w
      → IsOrdered mount.namespace (install mount outcome pods w).0
  unfolding install
  install-IsOrdered pods w h = ended (install mount outcome pods w) (
      read-Triple outcome Ordered Always Always pods _
        (λ found.
          if-Triple outcome Ordered Always Always (has_many_owners found) (raise temporary_error)
            (install_pods mount outcome found)
            (raise-Triple outcome Ordered Always Always temporary_error)
            (install_pods-Triple found))
        w h tt)
