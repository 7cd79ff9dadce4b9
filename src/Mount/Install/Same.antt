-- ===== src/Mount/Install/Same.antt =====
-- The configuration that installing a mount starts from is the one that the bridge provider builds.
use gefyra.Prelude.{
  ℕ, ◌≡◌, refl, sym, ap, ◌∙◌, true, false, List, [], ◌∷◌, ◌++◌, append-nil, some, Text, text_eq,
  text_eq_iff, subst, All, ◌==◌, inl, inr,
}
use gefyra.Result.{Result-cases, Result, ok, err, ◌>>=◌, ok-injective, >>=-eq-ok}
use gefyra.Cluster.{Container, Probe}
use gefyra.Carrier.Config.{Carrier2Proxy, Carrier2Config, new_config}
use gefyra.Carrier.Probes.{get_all_probes}
use gefyra.Carrier.Provider.{
  upstream_ports, set_container_probes, set_probes, cluster_upstream, tls_of_mount,
  proxies_for_ports, proxies_for_containers, base_carrier_config,
}
use gefyra.Mount.Upstreams.{or_type_error}
use gefyra.Mount.Tls.{get_tls_from_provider_parameters}
use gefyra.Mount.Install.{
  Mounted, Target, find_target, upstream_proxies, with_probes, set_carrier_upstream,
}
use gefyra.Mount.Install.Scan.{find_target-IsTarget}

-- No container of the list has the name.
abbrev pub IsUnnamed : Text → List Container → Type 0
IsUnnamed name = All (λ (c : Container). text_eq c.name name ≡ false)

-- The containers of a pod have different names.
abbrev pub IsDistinct : List Container → Type 0
IsDistinct [] = Unit
IsDistinct (c ∷ cs) = IsUnnamed c.name cs × IsDistinct cs

IsDistinct-after :
    (name : Text) (before after : List Container) (c : Container)
    → IsDistinct (before ++ (c ∷ after))
    → text_eq c.name name ≡ true
    → IsUnnamed name after
IsDistinct-after name [] after c h own =
    subst (λ (n : Text). IsUnnamed n after) ((text_eq_iff c.name name).0 own) h.0
IsDistinct-after name (d ∷ before) after c h own = IsDistinct-after name before after c h.1 own

module _ {Raw : Type 0} (mount : Mounted Raw) where
  open mount use {svc, read_secret, params}

  abbrev for_ports : List ℕ → Result (List Carrier2Proxy)
  for_ports = proxies_for_ports svc read_secret (some params)

  abbrev for_containers : Text → List Container → Result (List Carrier2Proxy)
  for_containers = proxies_for_containers svc read_secret (some params)

  proxies_for_ports-same : (ports : List ℕ) → for_ports ports ≡ upstream_proxies mount ports
  unfolding proxies_for_ports upstream_proxies cluster_upstream tls_of_mount
  proxies_for_ports-same [] = refl
  proxies_for_ports-same (port ∷ ports) = elim (Result-cases svc) [
    | inr (e, failed) ↦ rw failed refl
    | inl (service, there) ↦
        elim (Result-cases (get_tls_from_provider_parameters read_secret params port)) [
          | inr (e, failed) ↦ rw (there, failed) refl
          | inl (tls, read) ↦ rw (there, read, proxies_for_ports-same ports) refl
        ]
  ]

  for_containers-unnamed :
      (name : Text) (cs : List Container) → IsUnnamed name cs → for_containers name cs ≡ ok []
  unfolding proxies_for_containers
  for_containers-unnamed name [] h = refl
  for_containers-unnamed name (c ∷ cs) h = rw (h.0, for_containers-unnamed name cs h.1) refl

  set_probes-unnamed :
      (name : Text) (cs : List Container) (config : Carrier2Config)
      → IsUnnamed name cs
      → set_probes name cs config ≡ ok config
  unfolding set_probes
  set_probes-unnamed name [] config h = refl
  set_probes-unnamed name (c ∷ cs) config h = rw h.0 (set_probes-unnamed name cs config h.1)

  joined_empty : (r : Result (List Carrier2Proxy)) → (r >>= λ ps. ok (ps ++ [])) ≡ r
  joined_empty (ok ps) = ap ok (append-nil ps)
  joined_empty (err e) = refl

  for_containers-split :
      (name : Text) (before after : List Container) (c : Container) (ports : List ℕ)
      → IsUnnamed name before
      → text_eq c.name name ≡ true
      → or_type_error c.ports ≡ ok ports
      → IsUnnamed name after
      → for_containers name (before ++ (c ∷ after)) ≡ for_ports ports
  unfolding proxies_for_containers
  for_containers-split name [] after c ports h own read k =
      rw (own, read, for_containers-unnamed name after k) (joined_empty (for_ports ports))
  for_containers-split name (d ∷ before) after c ports h own read k =
      rw h.0 (for_containers-split name before after c ports h.1 own read k)

  bound_ok : (r : Result Carrier2Config) → (r >>= λ c. ok c) ≡ r
  bound_ok (ok c) = refl
  bound_ok (err e) = refl

  bound-unnamed :
      (name : Text) (after : List Container) (r : Result Carrier2Config)
      → IsUnnamed name after
      → (r >>= set_probes name after) ≡ r
  bound-unnamed name after (ok c) h = set_probes-unnamed name after c h
  bound-unnamed name after (err e) h = refl

  set_probes-split :
      (name : Text) (before after : List Container) (c : Container) (config : Carrier2Config)
      → IsUnnamed name before
      → text_eq c.name name ≡ true
      → IsUnnamed name after
      → set_probes name (before ++ (c ∷ after)) config
        ≡ set_container_probes (get_all_probes c) config
  unfolding set_probes
  set_probes-split name [] after c config h own k =
      rw own (bound-unnamed name after (set_container_probes (get_all_probes c) config) k)
  set_probes-split name (d ∷ before) after c config h own k =
      rw h.0 (set_probes-split name before after c config h.1 own k)

  abbrev IsPort : ℕ → Type 0
  IsPort port = (port == 0) ≡ false

  -- The ports of the proxies that are made for ports.
  upstream_ports-proxies :
      (ports : List ℕ) (ps : List Carrier2Proxy)
      → All IsPort ports
      → upstream_proxies mount ports ≡ ok ps
      → upstream_ports ps ≡ ports
  unfolding upstream_proxies upstream_ports
  upstream_ports-proxies [] ps h e = rw (← ok-injective e) refl
  upstream_ports-proxies (port ∷ ports) ps h e =
      let (service, e1, f1) = >>=-eq-ok svc _ e in
      let (tls, e2, f2) =
        >>=-eq-ok (get_tls_from_provider_parameters read_secret params port) _ f1 in
      let (qs, e3, f3) = >>=-eq-ok (upstream_proxies mount ports) _ f2 in
      rw (← ok-injective f3, h.0, upstream_ports-proxies ports qs h.1 e3) refl

  set_container_probes-same :
      (ports : List ℕ) (probes : List Probe) (ps : List Carrier2Proxy)
      → upstream_ports ps ≡ ports
      → set_container_probes probes (record new_config { proxy = ps })
        ≡ with_probes mount ports probes (record new_config { proxy = ps })
  unfolding set_container_probes
  set_container_probes-same ports [] ps h = refl
  set_container_probes-same ports (p ∷ probes) ps h = rw h refl

  abbrev both_from : List ℕ → List Probe → Result Carrier2Config
  both_from ports probes = upstream_proxies mount ports >>= λ ps.
      with_probes mount ports probes (record new_config { proxy = ps })

  base_from :
      (ports : List ℕ) (probes : List Probe) (r : Result (List Carrier2Proxy))
      → upstream_proxies mount ports ≡ r
      → All IsPort ports
      → (r >>= λ ps. set_container_probes probes (record new_config { proxy = ps }))
        ≡ (r >>= λ ps. with_probes mount ports probes (record new_config { proxy = ps }))
  base_from ports probes (err e) same h = refl
  base_from ports probes (ok ps) same h =
      set_container_probes-same ports probes ps (upstream_ports-proxies ports ps h same)

  bound_probes :
      (name : Text) (before after : List Container) (c : Container)
      (r : Result (List Carrier2Proxy))
      → IsUnnamed name before
      → text_eq c.name name ≡ true
      → IsUnnamed name after
      → (r >>= λ ps. set_probes name (before ++ (c ∷ after)) (record new_config { proxy = ps }))
        ≡ (r >>= λ ps. set_container_probes (get_all_probes c) (record new_config { proxy = ps }))
  bound_probes name before after c (err e) h own k = refl
  bound_probes name before after c (ok ps) h own k =
      set_probes-split name before after c (record new_config { proxy = ps }) h own k

  base-split :
      (name : Text) (before after : List Container) (c : Container) (ports : List ℕ)
      → IsUnnamed name before
      → text_eq c.name name ≡ true
      → IsUnnamed name after
      → or_type_error c.ports ≡ ok ports
      → All IsPort ports
      → base_carrier_config svc read_secret (some params) name (before ++ (c ∷ after))
        ≡ set_carrier_upstream mount ports (get_all_probes c)
  unfolding set_carrier_upstream base_carrier_config
  base-split name before after c ports h own k read p =
      rw (for_containers-split name before after c ports h own read k) (
        rw (proxies_for_ports-same ports) (
          bound_probes name before after c (upstream_proxies mount ports) h own k
          ∙ base_from ports (get_all_probes c) (upstream_proxies mount ports) refl p))

  -- If the mount's container is found in a pod whose containers have different names, and none of
  -- its ports is 0, then the configuration that installing the mount builds for the pod is the
  -- base configuration that the bridge provider builds for it, also where either raises.
  pub set_carrier_upstream-base :
      (cs : List Container) (t : Target)
      → IsDistinct cs
      → find_target mount.carrier_image mount.container cs ≡ ok t
      → All IsPort t.ports
      → set_carrier_upstream mount t.ports t.probes
        ≡ base_carrier_config svc read_secret (some params) mount.container cs
  set_carrier_upstream-base cs t distinct e ports =
      let is = find_target-IsTarget mount.carrier_image mount.container cs t e in
      let (before, c, after) = is.found in
      let split = is.split in
      rw (is.probes, split.whole)
        (sym (
          base-split mount.container before after c t.ports split.first split.named
            (IsDistinct-after mount.container before after c (rw split.whole at distinct)
              split.named)
            is.ports ports))
