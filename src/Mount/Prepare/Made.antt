-- ===== src/Mount/Prepare/Made.antt =====
-- What preparing a mount has made when it returns, and what it raises otherwise.
use gefyra.Prelude.{
  ==_iff, ◌∙◌, ◌≡◌, refl, sym, ap, subst, ◌⊎◌, inl, inr, true, ◌∷◌, Text, Bool-cases,
}
use gefyra.Result.{
  Result, Result-cases, ok, err, Error, api_exception, mount_install_exception,
  bridge_install_exception,
}
use gefyra.Cluster.{Service, Workload}
use gefyra.Lifecycle.Machine.{◌>&&>◌, and_then-eq-ok, caught, raise}
use gefyra.Mount.Clone.{clone_workload_structure, get_svc_for_workload}
use gefyra.Mount.Calls.{
  Call, create_workload, patch_workload, create_service, patch_service, Trace, call, recorded,
  is_there_already, is_api_exception,
}
use gefyra.Mount.Removal.{get_workload}
use gefyra.Mount.Prepare.{
  Prepared, or_patch, create_or_patch, write_hpa_if_deployment, write_shadow, duplicate_workload,
  prepare,
}

module _ (mount : Prepared) (outcome : Trace → Call → Result (Unit {0})) where
  -- A call that succeeds is the last one.
  abbrev pub Did : Call → Trace → Trace → Type 0
  Did c w v = (outcome w c ≡ ok tt) × (v ≡ c ∷ w)

  -- The first call succeeded, or it found that what it creates is there already, and the second one
  -- succeeded.
  abbrev pub Wrote : Call → Call → Trace → Trace → Type 0
  Wrote create patch w v =
      Did create w v ⊎ ((outcome w create ≡ err (api_exception 409)) × Did patch w v)

  call-ok :
      (c : Call) (w v : Trace) (r : Result (Unit {0}))
      → outcome w c ≡ r
      → recorded outcome w c r ≡ (v, ok tt)
      → Did c w v
  call-ok c w v (ok u) o e = (o, ap (λ (x : Trace × Result (Unit {0})). x.0) (sym e))
  call-ok c w v (err x) o e = cc (ap (λ (y : Trace × Result (Unit {0})). y.1) e)

  conflict : (x : Error) → is_there_already x ≡ true → x ≡ api_exception 409
  conflict (api_exception status) h = ap api_exception ((==_iff status 409).0 h)
  conflict x h = cc h

  or_patch-Wrote :
      (refusal : Error) (create patch : Call) (w v : Trace) (r : Result (Unit {0}))
      → outcome w create ≡ r
      → or_patch mount outcome refusal patch (recorded outcome w create r) ≡ (v, ok tt)
      → Wrote create patch w v
  or_patch-Wrote refusal create patch w v (ok u) o e =
      inl (o, ap (λ (x : Trace × Result (Unit {0})). x.0) (sym e))
  or_patch-Wrote refusal create patch w v (err x) o e = elim (Bool-cases (is_there_already x)) [
    | inl there ↦ inr (
      o ∙ ap err (conflict x there),
      call-ok patch w v (outcome w patch) refl (unfold call in rw there at e),
    )
    | inr other ↦ elim (Bool-cases (is_api_exception x)) [
      | inl api ↦ cc (ap (λ (y : Trace × Result (Unit {0})). y.1) (rw (other, api) at e))
      | inr foreign ↦ cc (ap (λ (y : Trace × Result (Unit {0})). y.1) (rw (other, foreign) at e))
    ]
  ]

  create_or_patch-Wrote :
      (refusal : Error) (create patch : Call) (w v : Trace)
      → create_or_patch mount outcome refusal create patch w ≡ (v, ok tt)
      → Wrote create patch w v
  unfolding create_or_patch call
  create_or_patch-Wrote refusal create patch w v e =
      or_patch-Wrote refusal create patch w v (outcome w create) refl e

  -- The target was read as a workload, the last call wrote the service of the workload's shadow, and
  -- an earlier one wrote the shadow itself, each created or, if it was there already, patched.
  pub record IsMade (uuid : Text) (v : Trace) : Type 0 where
    pub old : Workload
    pub svc : Service
    pub before : Trace
    pub between : Trace
    pub is_read : get_workload mount.read_namespaced mount.target ≡ ok old
    pub is_svc :
        get_svc_for_workload mount.target mount.container mount.namespace
          (clone_workload_structure uuid old)
        ≡ ok svc
    pub workload_written :
        Wrote
          (create_workload (clone_workload_structure uuid old))
          (patch_workload (clone_workload_structure uuid old))
          before
          between
    pub service_written : Wrote (create_service svc) (patch_service svc) between v

  duplicate_workload-IsMade :
      (uuid : Text) (w v : Trace)
      → duplicate_workload mount outcome uuid w ≡ (v, ok tt)
      → IsMade uuid v
  unfolding duplicate_workload write_shadow
  duplicate_workload-IsMade uuid w v e =
      elim (Result-cases (get_workload mount.read_namespaced mount.target)) [
        | inr (x, failed) ↦ cc (ap (λ (y : Trace × Result (Unit {0})). y.1) (rw failed at e))
        | inl (old, is_read) ↦
            let new = clone_workload_structure uuid old in
            elim (Result-cases
              (get_svc_for_workload mount.target mount.container mount.namespace new)) [
                | inr (x, failed) ↦
                    cc (ap (λ (y : Trace × Result (Unit {0})). y.1) (rw (is_read, failed) at e))
                | inl (svc, is_svc) ↦
                    let first = write_hpa_if_deployment mount outcome old new in
                    let second =
                      create_or_patch mount outcome bridge_install_exception (create_workload new)
                        (patch_workload new) in
                    let third =
                      create_or_patch mount outcome bridge_install_exception (create_service svc)
                        (patch_service svc) in
                    let (between, a, e1, f1) =
                      and_then-eq-ok v ((first >&&> second) w) (λ _. third)
                        (rw (is_read, is_svc) at e) in
                    let (before, b, e2, f2) = and_then-eq-ok between (first w) (λ _. second) e1 in
                    record {
                      old = old;
                      svc = svc;
                      before = before;
                      between = between;
                      is_read = is_read;
                      is_svc = is_svc;
                      workload_written =
                          create_or_patch-Wrote bridge_install_exception (create_workload new)
                            (patch_workload new) before between f2;
                      service_written =
                          create_or_patch-Wrote bridge_install_exception (create_service svc)
                            (patch_service svc) between v f1;
                    }
              ]
      ]

  settled :
      (uuid : Text) (w v : Trace) (r : Result (Unit {0})) (x : Trace × Result (Unit {0}))
      → duplicate_workload mount outcome uuid w ≡ x
      → caught (λ e. true) (raise mount_install_exception) x ≡ (v, r)
      → (r ≡ err mount_install_exception) ⊎ ((r ≡ ok tt) × IsMade uuid v)
  settled uuid w v r (y, ok u) made e = inr (
    ap (λ (z : Trace × Result (Unit {0})). z.1) (sym e),
    subst (IsMade uuid) (ap (λ (z : Trace × Result (Unit {0})). z.0) e)
        (duplicate_workload-IsMade uuid w y made),
  )
  settled uuid w v r (y, err x) made e = inl (ap (λ (z : Trace × Result (Unit {0})). z.1) (sym e))

  -- Preparing a mount raises a BridgeMountInstallException, or it returns and the target was read
  -- as a workload, the last call wrote the service of the workload's shadow, and an earlier one
  -- wrote the shadow itself, each created or, if it was there already, patched.
  pub prepare_lem :
      (uuid : Text) (w v : Trace) (r : Result (Unit {0}))
      → prepare mount outcome uuid w ≡ (v, r)
      → (r ≡ err mount_install_exception) ⊎ ((r ≡ ok tt) × IsMade uuid v)
  unfolding prepare
  prepare_lem uuid w v r e = settled uuid w v r (duplicate_workload mount outcome uuid w) refl e
