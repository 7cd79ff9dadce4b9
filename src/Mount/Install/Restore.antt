-- ===== src/Mount/Install/Restore.antt =====
-- Restoring a pod after Carrier2 was installed into it.
use gefyra.Prelude.{
  ◌≢◌, ◌≢◌, text_eq_refl, ◌≡◌, refl, sym, ap, ◌∙◌, subst, true, false, List, [], ◌∷◌, ◌++◌, Option,
  none, some, Text, text_eq, inl, inr, All,
}
use gefyra.Prelude.Dict.{Dict, lookup, insert, lookup-insert_self}
use gefyra.Result.{Error, Result, Result-cases, ok, err}
use gefyra.Cluster.{Container, LivePod}
use gefyra.Lifecycle.Machine.{◌>&&>◌, and_then-eq-ok}
use gefyra.Mount.Calls.{
  OriginalConfig, original_of, Call, add_original, create_originals, patch_pod, await_restart,
  Trace, Step, call, is_missing,
}
use gefyra.Mount.Calls.Steps.{Fact, Always, Ends, Triple, is_store, call-Triple, catching-Triple}
use gefyra.Mount.Install.{
  Error, Mounted, Target, original_key, find_target, with_image, store_pod_original_config,
  patch_target, replace_image, configure, in_time, install_pod,
}
use gefyra.Mount.Install.Scan.{IsTarget, find_target-IsTarget}
use gefyra.Mount.Install.Ensured.{after_store-ensures, configured-ensures}
use gefyra.Mount.Removal.{original_in, Removed, with_original, patch_pod_with_original_config}

abbrev or_new : Option (Dict OriginalConfig) → Dict OriginalConfig
or_new none = []
or_new (some d) = d

-- The data of the restore ConfigMap after the calls, from none at the start.
unfoldable pub originals : Trace → Option (Dict OriginalConfig)
originals [] = none
originals (add_original k o ∷ w) = some (insert k o (or_new (originals w)))
originals (create_originals k o ∷ w) = some ((k, o) ∷ [])
originals (c ∷ w) = originals w

module _ {Raw : Type 0} (mount : Mounted Raw) (outcome : Trace → Call → Result (Unit {0})) where
  -- The restore ConfigMap has an original under a key.
  abbrev Holds : Text → OriginalConfig → Fact
  Holds name o w = lookup name (or_new (originals w)) ≡ some o

  Holds-Stays :
      (name : Text) (o : OriginalConfig) (c : Call) (w : Trace)
      → is_store c ≡ false
      → Holds name o w
      → Holds name o (c ∷ w)
  unfolding originals is_store
  Holds-Stays name o (add_original k x) w u h = cc
  Holds-Stays name o (create_originals k x) w u h = cc
  Holds-Stays name o c w u h = h

  store-Holds :
      (c : Container) (pod : Text)
      → Triple outcome Always Always
          (store_pod_original_config mount outcome c pod)
          (Holds (original_key mount.namespace pod) (original_of c))
  unfolding store_pod_original_config originals lookup
  store-Holds c pod =
      let name = original_key mount.namespace pod in
      let Q = Holds name (original_of c) in
      catching-Triple outcome Always Always Q is_missing
        (call outcome (create_originals name (original_of c)))
        (call outcome (add_original name (original_of c)))
        (call-Triple outcome Always Always Q (create_originals name (original_of c)) (λ w o p. tt)
          (λ w p. rw (text_eq_refl name) refl))
        (call-Triple outcome Always Always Q (add_original name (original_of c)) (λ w o p. tt)
          (λ w p. lookup-insert_self name (original_of c) (or_new (originals w))))

  ended :
      (Inv Q : Fact) (act : Step) (w v : Trace)
      → Triple outcome Inv Always act Q
      → act w ≡ (v, ok tt)
      → Inv w
      → Inv v × Q v
  ended Inv Q act w v h e o = subst (Ends outcome Inv Q) e (h w o tt)

  with_original-split :
      (image name : Text) (before after : List Container) (c : Container)
      → text_eq c.name name ≡ true
      → All (λ (d : Container). text_eq d.name name ≡ false) before
      → with_original name (original_of c) (before ++ (with_image image c ∷ after))
        ≡ ok (before ++ (c ∷ after))
  unfolding with_original
  with_original-split image name [] after c own h = rw own refl
  with_original-split image name (d ∷ before) after c own h =
      rw (h.0, with_original-split image name before after c own h.1) refl

  install_pod-Holds :
      (p : LivePod) (t : Target) (w v : Trace)
      → find_target mount.carrier_image mount.container p.containers ≡ ok t
      → install_pod mount outcome p w ≡ (v, ok tt)
      → Holds (original_key mount.namespace p.name) (original_of t.container) v
  unfolding install_pod replace_image
  install_pod-Holds p t w v found e =
      let o = original_of t.container in
      let name = original_key mount.namespace p.name in
      let store = store_pod_original_config mount outcome t.container p.name in
      let patch = patch_target mount outcome p.name t in
      let wait = in_time mount outcome (call outcome (await_restart p.name)) in
      let finish = configure mount outcome p.name t in
      let (x, a, e1, f1) =
        and_then-eq-ok v ((store >&&> patch >&&> wait) w) (λ _. finish) (rw found at e) in
      let (y, b, e2, f2) = and_then-eq-ok x ((store >&&> patch) w) (λ _. wait) e1 in
      let (z, c, e3, f3) = and_then-eq-ok y (store w) (λ _. patch) e2 in
      let (_, held) =
        ended Always (Holds name o) store w z (store-Holds t.container p.name) e3 tt in
      let (held', _) =
        ended (Holds name o) Always (patch >&&> wait) z x
          (after_store-ensures mount outcome (Holds name o) (Holds-Stays name o) p.name t)
          (rw f3 f2) held in
      (ended (Holds name o) Always finish x v
        (configured-ensures mount outcome (Holds name o) (Holds-Stays name o) p.name t) f1 held').0

  not_installed :
      (p : LivePod) (w v : Trace) (x : Error)
      → find_target mount.carrier_image mount.container p.containers ≡ err x
      → install_pod mount outcome p w ≢ (v, ok tt)
  unfolding install_pod
  not_installed p w v x failed e = cc (ap (λ (y : Trace × Result (Unit {0})). y.1) (rw failed at e))

  original_in-held :
      (name : Text) (o : OriginalConfig) (d : Option (Dict OriginalConfig))
      → lookup name (or_new d) ≡ some o
      → original_in name d ≡ ok o
  unfolding lookup
  original_in-held name o none h = cc
  original_in-held name o (some d) h = rw h refl

  restored :
      (p : LivePod) (t : Target)
      → IsTarget mount.carrier_image mount.container p.containers t
      → with_original mount.container (original_of t.container) t.patched ≡ ok p.containers
  restored p t is =
      let (before, c, after) = is.found in
      rw (is.container, is.patched)
        (with_original-split mount.carrier_image mount.container before after c is.split.named
            is.split.first
          ∙ ap ok (sym is.split.whole))

  -- If installing into a pod returns, then the mount's container was found in it, and restoring
  -- the pod afterwards, from the restore ConfigMap as it then is and from the containers that were
  -- patched, patches the pod with the containers that it had when the installation started, given
  -- that the patch succeeds.
  pub restore-install_pod :
      (p : LivePod) (w v x : Trace) (removed : Removed)
      (outcome' : Trace → Call → Result (Unit {0}))
      → install_pod mount outcome p w ≡ (v, ok tt)
      → removed.namespace ≡ mount.namespace
      → removed.container ≡ mount.container
      → removed.originals ≡ ok (originals v)
      → ((t : Target)
          → find_target mount.carrier_image mount.container p.containers ≡ ok t
          → removed.pod_containers p.name ≡ ok t.patched)
      → outcome' x (patch_pod p.name p.containers) ≡ ok tt
      → patch_pod_with_original_config removed outcome' p.name x
        ≡ (patch_pod p.name p.containers ∷ x, ok tt)
  unfolding patch_pod_with_original_config call
  restore-install_pod p w v x removed outcome' e ns name data_ pods fine =
      elim (Result-cases (find_target mount.carrier_image mount.container p.containers)) [
        | inr (y, failed) ↦ absurd (not_installed p w v y failed e)
        | inl (t, found) ↦
            let is =
              find_target-IsTarget mount.carrier_image mount.container p.containers t found in
            let key = original_key mount.namespace p.name in
            let o = original_of t.container in
            let held = original_in-held key o (originals v) (install_pod-Holds p t w v found e) in
            rw (pods t found, data_, ns, name, held, restored p t is, fine) refl
      ]
