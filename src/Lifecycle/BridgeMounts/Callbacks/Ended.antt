-- ===== src/Lifecycle/BridgeMounts/Callbacks/Ended.antt =====
-- Ending a mount, with its bridges.
use gefyra.Prelude.{◌≡◌, refl, List, [], ◌∷◌, Text}
use gefyra.Result.{Result, ok, err}
use gefyra.Lifecycle.Machine.{caught, done}
use gefyra.Lifecycle.BridgeMounts.Callbacks.{
  Trace, MountProvider, World, Deletion, deletion, any_error, provided, delete_each,
  cleanup_all_bridges, on_terminate,
}

module _ (provider : MountProvider) (delete : World → Text → Result (Unit {0})) where
  abbrev Run : Type 0
  Run = World × Result (Unit {0})

  -- The deletions of bridges after the provider's calls, the last one first.
  abbrev pub deletions : Trace → List Text → List Deletion → List Deletion
  deletions trace [] before = before
  deletions trace (b ∷ bs) before =
      deletions trace bs (record { bridge = b; before = trace } ∷ before)

  delete_each-fine :
      (bridges : Result (List Text)) (bs : List Text) (w : World)
      → ((x : World) (b : Text) → delete x b ≡ ok tt)
      → delete_each provider bridges delete bs w
        ≡ (record w { deleted = deletions w.trace bs w.deleted }, ok tt)
  unfolding delete_each
  delete_each-fine bridges [] w fine = refl
  delete_each-fine bridges (b ∷ bs) w fine =
      rw (fine w b)
        (delete_each-fine bridges bs (record w { deleted = deletion w b ∷ w.deleted }) fine)

  caught-any : (r : Run) → caught any_error done r ≡ (r.0, ok tt)
  caught-any (w, ok u) = refl
  caught-any (w, err e) = refl

  -- If the bridges of a mount are listed and each deletion succeeds, then ending the mount
  -- returns, the calls of the provider are those that removing the mount made, whatever that came
  -- to, and every listed bridge was deleted, in order, each after all of these calls.
  pub on_terminate-cleanup_all_bridges :
      (bs : List Text) (w : World)
      → ((x : World) (b : Text) → delete x b ≡ ok tt)
      → let removed = (provider.uninstall w.trace).0 in
        on_terminate provider (ok bs) delete w
        ≡ (record w { trace = removed; deleted = deletions removed bs w.deleted }, ok tt)
  unfolding on_terminate cleanup_all_bridges
  on_terminate-cleanup_all_bridges bs w fine =
      let v = record w { trace = (provider.uninstall w.trace).0 } in
      rw (caught-any (provided provider.uninstall w), delete_each-fine (ok bs) bs v fine) refl
