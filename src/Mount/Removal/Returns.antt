-- ===== src/Mount/Removal/Returns.antt =====
-- That removing a mount returns unless the cluster refuses a deletion.
use gefyra.Prelude.{
  ◌++◌, ℕ, ◌≡◌, refl, ◌⊎◌, inl, inr, Bool, true, false, List, ◌∷◌, Option, none, some, Text,
}
use gefyra.Result.{Result, ok, err, Error, api_exception}
use gefyra.Lifecycle.Machine.{◌>=>◌, ◌>&&>◌, and_then, done, catching, caught}
use gefyra.Mount.Names.{
  Kind, split_target_type_name, gefyra_workload_name, gefyra_svc_name, workload_suffix,
  generate_duplicate_svc_name,
}
use gefyra.Mount.Calls.{
  Call, delete_workload, delete_service, delete_hpa, Trace, Step, Hpa, call, read, is_missing,
}
use gefyra.Mount.Removal.{
  Removed, first_hpa, find_hpa_for_deployment, restore_original_workload, delete_found_hpa,
  uninstall_duplicated_workload, uninstall_service, uninstall,
}

-- A call that deletes part of the shadow.
unfoldable pub deletes : Call → Bool
deletes (delete_workload kind name) = true
deletes (delete_service name) = true
deletes (delete_hpa name) = true
deletes c = false

abbrev Missing : Error
Missing = api_exception 404

module _ (outcome : Trace → Call → Result (Unit {0})) where
  -- Every deletion succeeds or finds that what it deletes is missing.
  abbrev pub AreDeleted : Type 0
  AreDeleted =
      (c : Call) (w : Trace)
      → deletes c ≡ true
      → (outcome w c ≡ ok tt) ⊎ (outcome w c ≡ err (api_exception 404))

  abbrev Returns : Step → Type 0
  Returns act = (w : Trace) → (v : Trace) × (act w ≡ (v, ok tt))

  -- What a step may come to that returns or misses something.
  abbrev EndsWell : Trace × Result (Unit {0}) → Type 0
  EndsWell r = ((v : Trace) × (r ≡ (v, ok tt))) ⊎ ((v : Trace) × (r ≡ (v, err (api_exception 404))))

  abbrev GoesWell : Step → Type 0
  GoesWell act = (w : Trace) → EndsWell (act w)

  call-GoesWell : AreDeleted → (c : Call) → deletes c ≡ true → GoesWell (call outcome c)
  unfolding call
  call-GoesWell h c d w = elim (h c w d) [
    | inl fine ↦ inl (c ∷ w, rw fine refl)
    | inr missing ↦ inr (w, rw missing refl)
  ]

  then-EndsWell :
      (r : Trace × Result (Unit {0})) (next : Step)
      → EndsWell r
      → GoesWell next
      → EndsWell (and_then r (λ _. next))
  then-EndsWell r next (inl (v, e)) k = rw e (k v)
  then-EndsWell r next (inr (v, e)) k = inr (v, rw e refl)

  then-GoesWell : (a b : Step) → GoesWell a → GoesWell b → GoesWell (a >&&> b)
  then-GoesWell a b h k w = then-EndsWell (a w) b (h w) k

  unless_missing-Returns : (act : Step) → GoesWell act → Returns (catching is_missing done act)
  unless_missing-Returns act h w = elim (h w) [
    | inl (v, e) ↦ (v, rw e refl)
    | inr (v, e) ↦ (v, rw e refl)
  ]

  then-Returns : (a b : Step) → Returns a → Returns b → Returns (a >&&> b)
  then-Returns a b h k w = let (u, e) = h w in let (v, f) = k u in (v, rw e f)

  always-Returns : (act : Step) → Returns (catching (λ e. true) done act)
  always-Returns act w = settled (act w)
    where
      settled :
          (r : Trace × Result (Unit {0})) → (v : Trace) × (caught (λ e. true) done r ≡ (v, ok tt))
      settled (v, ok u) = (v, refl)
      settled (v, err e) = (v, refl)

  -- The autoscalers can be listed, or the listing fails with an ApiException.
  abbrev pub IsListed : Result (List Hpa) → Type 0
  IsListed r = ((hs : List Hpa) × (r ≡ ok hs)) ⊎ ((status : ℕ) × (r ≡ err (api_exception status)))

  module _ (mount : Removed) (deleted : AreDeleted) (listed : IsListed mount.hpas) where
    delete_found_hpa-GoesWell : (o : Option Hpa) → GoesWell (delete_found_hpa mount outcome o)
    unfolding deletes
    delete_found_hpa-GoesWell none w = inl (w, refl)
    delete_found_hpa-GoesWell (some h) w = call-GoesWell deleted (delete_hpa h.name) refl w

    hpa-GoesWell :
        (name : Text)
        → GoesWell (
            read outcome (find_hpa_for_deployment name mount.hpas)
            >=> delete_found_hpa mount outcome)
    unfolding find_hpa_for_deployment
    hpa-GoesWell name w = elim listed [
      | inl (hs, e) ↦ rw e (delete_found_hpa-GoesWell (first_hpa name hs) w)
      | inr (status, e) ↦ rw e (inl (w, refl))
    ]

    -- If the mount's target reads as a workload, each deletion succeeds or finds that what it
    -- deletes is missing, and the autoscalers can be listed or the listing fails with an
    -- ApiException, then removing the mount returns, whatever restoring the original workload
    -- comes to.
    pub uninstall_total :
        (name : Text) (kind : Kind) (w : Trace)
        → split_target_type_name mount.target ≡ ok (name, kind)
        → (v : Trace) × (uninstall mount outcome w ≡ (v, ok tt))
    unfolding uninstall uninstall_duplicated_workload uninstall_service gefyra_workload_name
        gefyra_svc_name deletes
    uninstall_total name kind w e =
        then-Returns
          (uninstall_duplicated_workload mount outcome >&&> uninstall_service mount outcome)
          (catching (λ x. true) done (restore_original_workload mount outcome))
          (then-Returns (uninstall_duplicated_workload mount outcome)
            (uninstall_service mount outcome)
            (rw e (
              unless_missing-Returns _ (
                then-GoesWell _ _
                  (call-GoesWell deleted (delete_workload kind (name ++ workload_suffix)) refl)
                  (hpa-GoesWell (name ++ workload_suffix)))))
            (rw e (
              unless_missing-Returns _ (
                call-GoesWell deleted
                  (delete_service (generate_duplicate_svc_name name mount.container)) refl))))
          (always-Returns (restore_original_workload mount outcome)) w
