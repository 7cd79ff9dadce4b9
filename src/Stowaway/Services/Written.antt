-- ===== src/Stowaway/Services/Written.antt =====
-- What creating or patching a proxy service does to what is listed.
use gefyra.Prelude.{
  ◌≡◌, refl, sym, ap, ◌∙◌, subst, ◌⊎◌, inl, inr, true, Bool-cases, List, Text, Signed,
}
use gefyra.Prelude.Dict.{Dict}
use gefyra.Result.{Result, ok, err, ok-injective, >>=-eq-ok}
use gefyra.Stowaway.Services.{
  ProxyService, ServiceApi, selects, is_named, create_stowaway_proxy_service,
  handle_stowaway_proxy_service, or_patch, is_there_already,
}

module _ (services : ServiceApi) where
  open services use {Store, create, patch, list}

  -- What creating or patching a service did.
  pub record IsWritten (v : ProxyService) (s t : Store) : Type 0 where
    pub listed :
        (selector : Dict Text) (vs : List ProxyService)
        → list selector t ≡ ok vs
        → selects selector v.labels ≡ true
        → is_named v.name vs ≡ true
    pub kept :
        (selector : Dict Text) (n : Text) (us vs : List ProxyService)
        → list selector s ≡ ok us
        → list selector t ≡ ok vs
        → is_named n vs ≡ true
        → (v.name ≡ n) ⊎ (is_named n us ≡ true)

  or_patch-IsWritten :
      (v : ProxyService) (s t : Store) (r : Result Store)
      → create v s ≡ r
      → or_patch services v s r ≡ ok t
      → IsWritten v s t
  or_patch-IsWritten v s t (ok u) e h =
      let here : create v s ≡ ok t = e ∙ h in
      record {
        listed = λ selector vs f g. services.created v s t selector vs here f g;
        kept = λ selector n us vs f g k. services.create-kept v s t selector n us vs here f g k;
      }
  or_patch-IsWritten v s t (err x) e h = elim (Bool-cases (is_there_already x)) [
    | inl there ↦
        let here : patch v s ≡ ok t = rw there at h in
        record {
          listed = λ selector vs f g. services.patched v s t selector vs here f g;
          kept = λ selector n us vs f g k. services.patch-kept v s t selector n us vs here f g k;
        }
    | inr other ↦ cc (rw other at h)
  ]

  pub handle_stowaway_proxy_service-IsWritten :
      (namespace : Text) (pod_labels : Dict Text) (n : Signed) (destination client : Text)
      (s t : Store) (v : ProxyService)
      → handle_stowaway_proxy_service services namespace pod_labels n destination client s
        ≡ ok (v, t)
      → (v ≡ create_stowaway_proxy_service namespace pod_labels n destination client)
        × IsWritten (create_stowaway_proxy_service namespace pod_labels n destination client) s t
  unfolding handle_stowaway_proxy_service
  handle_stowaway_proxy_service-IsWritten namespace pod_labels n destination client s t v e =
      let made = create_stowaway_proxy_service namespace pod_labels n destination client in
      let (u, e1, e2) = >>=-eq-ok (or_patch services made s (create made s)) _ e in
      (
        ap (λ (x : ProxyService × Store). x.0) (sym (ok-injective e2)),
        subst (IsWritten made s) (ap (λ (x : ProxyService × Store). x.1) (ok-injective e2))
            (or_patch-IsWritten made s u (create made s) refl e1),
      )
