-- ===== src/Lifecycle/BridgeMounts/Callbacks/Installed.antt =====
-- Preparing and installing a mount, with the event that follows.
use gefyra.Prelude.{
  ◌≡◌, refl, ap, ◌∙◌, ◌⊎◌, inl, inr, true, false, List, ◌∷◌, Text, codes, text_eq, All,
}
use gefyra.Result.{Result, ok, err, Error, mount_install_exception}
use gefyra.Cluster.{LivePod}
use gefyra.Lifecycle.Machine.{caught}
use gefyra.Lifecycle.MountStates.{activate, impair}
use gefyra.Mount.Calls.{Call, Trace}
use gefyra.Mount.Prepare.{Prepared, prepare}
use gefyra.Mount.Prepare.Made.{IsMade, prepare_lem}
use gefyra.Mount.Install.{Mounted, install, has_many_owners}
use gefyra.Mount.Install.Committed.{IsInstalled, install-IsInstalled}
use gefyra.Mount.Removal.{Removed}
use gefyra.Mount.Ready.{Watched}
use gefyra.Lifecycle.BridgeMounts.Callbacks.{
  MountProvider, World, traced, send, is_refused, activate_or_impair, carrier2mount, on_arrange,
  on_install,
}

module _ {Raw : Type 0} (outcome : Trace → Call → Result (Unit {0})) (new : Prepared) (uuid : Text)
    (mounted : Mounted Raw) (pods : Result (List LivePod)) (removed : Removed)
    (watched : Watched) where
  abbrev provider : MountProvider
  provider = carrier2mount outcome new uuid mounted pods removed watched

  -- The pods were read and have one owner, and each that is not terminating has Carrier2.
  abbrev pub AreInstalled : Trace → Type 0
  AreInstalled v =
      (ps : List LivePod) × (pods ≡ ok ps)
      × (has_many_owners ps ≡ false)
      × All
          (λ (p : LivePod).
            (text_eq p.phase (codes "Terminating") ≡ true) ⊎ IsInstalled mounted outcome p v)
          ps

  -- What follows the installation.
  abbrev pub IsFollowed : World → World → Type 0
  IsFollowed w v =
      ((v.sent ≡ activate ∷ w.sent) × AreInstalled v.trace)
      ⊎ ((v.sent ≡ impair ∷ w.sent)
          × ((x : Error) × (install mounted outcome pods w.trace ≡ (v.trace, err x))))

  followed :
      (w : World) (r : Trace × Result (Unit {0}))
      → install mounted outcome pods w.trace ≡ r
      → let after = activate_or_impair provider (traced w r) in
        (after.1 ≡ ok tt) × (after.0.deleted ≡ w.deleted) × IsFollowed w after.0
  followed w (v, ok u) e =
      (refl, refl, inl (refl, install-IsInstalled mounted outcome pods w.trace v e))
  followed w (v, err x) e = (refl, refl, inr (refl, (x, e)))

  -- Whatever the cluster comes to, the callback that installs a mount with Carrier2 returns and
  -- sends one event: to activate the mount, and then the pods were read, have at most one owner,
  -- and each of them is terminating or has the mount's container running Carrier2 or patched to,
  -- with the configuration that is built for it committed; or to impair it, and then the
  -- installation raised.
  pub on_install_lem :
      (w : World)
      → let after = on_install provider w in
        (after.1 ≡ ok tt) × (after.0.deleted ≡ w.deleted) × IsFollowed w after.0
  unfolding on_install
  on_install_lem w = followed w (install mounted outcome pods w.trace) refl

  -- What follows the preparation.
  abbrev pub IsArranged : World → World → Type 0
  IsArranged w v =
      ((v.sent ≡ w.sent) × IsMade new outcome uuid v.trace)
      ⊎ ((v.sent ≡ impair ∷ w.sent)
          × (prepare new outcome uuid w.trace ≡ (v.trace, err mount_install_exception)))

  arranged :
      (w : World) (v : Trace) (r : Result (Unit {0}))
      → prepare new outcome uuid w.trace ≡ (v, r)
      → (r ≡ err mount_install_exception) ⊎ ((r ≡ ok tt) × IsMade new outcome uuid v)
      → let after = caught is_refused (send impair) (traced w (v, r)) in
        (after.1 ≡ ok tt) × (after.0.deleted ≡ w.deleted) × IsArranged w after.0
  arranged w v r e (inl raised) =
      rw raised (refl, refl, inr (refl, e ∙ ap (λ (x : Result (Unit {0})). (v, x)) raised))
  arranged w v r e (inr (fine, made)) = rw fine (refl, refl, inl (refl, made))

  -- Whatever the cluster comes to, the callback that prepares a mount with Carrier2 returns, and
  -- either no event is sent, the target was read as a workload, and first the shadow and then, in
  -- the last call, its service was written, each created or, if the creation was refused with 409,
  -- patched; or the event that impairs the mount is sent, and preparing raised a
  -- BridgeMountInstallException.
  pub on_arrange_lem :
      (w : World)
      → let after = on_arrange provider w in
        (after.1 ≡ ok tt) × (after.0.deleted ≡ w.deleted) × IsArranged w after.0
  unfolding on_arrange
  on_arrange_lem w =
      let r = prepare new outcome uuid w.trace in
      arranged w r.0 r.1 refl (prepare_lem new outcome uuid w.trace r.0 r.1 refl)
