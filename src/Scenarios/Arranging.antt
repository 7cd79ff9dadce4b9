-- ===== src/Scenarios/Arranging.antt =====
-- The callbacks of a mount, in a cluster where every call succeeds.
use gefyra.Prelude.{◌≡◌, refl, List, [], ◌∷◌, Text, codes}
use gefyra.Result.{Result, ok}
use gefyra.Lifecycle.BridgeMounts.Callbacks.{
  MountProvider, World, carrier2mount, on_arrange, on_install, on_terminate,
}
use gefyra.Lifecycle.BridgeMounts.Callbacks.Installed.{
  IsArranged, IsFollowed, on_arrange_lem, on_install_lem,
}
use gefyra.Lifecycle.BridgeMounts.Callbacks.Ended.{deletions, on_terminate-cleanup_all_bridges}
use gefyra.Scenarios.Installing.{fine, mount, web_pod}
use gefyra.Scenarios.Watching.{prepared, removed, watched}

abbrev provider : MountProvider
provider = carrier2mount fine prepared (codes "u1") mount (ok (web_pod ∷ [])) removed watched

abbrev fresh : World
fresh = record { trace = []; sent = []; deleted = [] }

on_arrange_lem_example :
    let after = on_arrange provider fresh in
    (after.1 ≡ ok tt)
    × (after.0.deleted ≡ [])
    × IsArranged fine prepared (codes "u1") mount (ok (web_pod ∷ [])) removed watched fresh after.0
on_arrange_lem_example =
    on_arrange_lem fine prepared (codes "u1") mount (ok (web_pod ∷ [])) removed watched fresh

on_install_lem_example :
    let after = on_install provider fresh in
    (after.1 ≡ ok tt)
    × (after.0.deleted ≡ [])
    × IsFollowed fine prepared (codes "u1") mount (ok (web_pod ∷ [])) removed watched fresh after.0
on_install_lem_example =
    on_install_lem fine prepared (codes "u1") mount (ok (web_pod ∷ [])) removed watched fresh

abbrev bridges : List Text
bridges = codes "b1" ∷ codes "b2" ∷ []

abbrev deleted : World → Text → Result (Unit {0})
deleted w b = ok tt

on_terminate-cleanup_all_bridges_example :
    let removed = (provider.uninstall []).0 in
    on_terminate provider (ok bridges) deleted fresh ≡ (
      record fresh { trace = removed; deleted = deletions provider deleted removed bridges [] },
      ok tt,
    )
on_terminate-cleanup_all_bridges_example =
    on_terminate-cleanup_all_bridges provider deleted bridges fresh (λ x b. refl)
