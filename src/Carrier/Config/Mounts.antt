-- ===== src/Carrier/Config/Mounts.antt =====
-- What the bridges of a mount do to the configuration.
use gefyra.Prelude.{
  ℕ, ◌≡◌, ◌≢◌, refl, ap, sym, ◌∙◌, true, false, ◌||◌, not, List, [], ◌∷◌, ◌++◌, Option, none, some,
  arith, Text, text_eq, text_eq_refl, Bool-cases, ◌⊎◌, inl, inr, All,
}
use gefyra.Prelude.Dict.{Dict}
use gefyra.Result.{Result, ok, ok-injective}
use gefyra.Carrier.Config.{
  Carrier2Proxy, CarrierBridge, CarrierRule, Bridge, add_ports, is_added, is_removed, add_bridges,
}
use gefyra.Carrier.Config.Routes.{route, ports}
use gefyra.Carrier.Config.Rounds.{
  targets, IsRouted, ports-add_ports, route-add_ports_ne, add_ports_routes,
}

module _ {Raw : Type 0} (validate : Dict Raw → Result CarrierRule) where
  -- A bridge that is not the one being added, whose failure is passed over.
  abbrev pub IsBystander : Option Text → Bridge Raw → Type 0
  IsBystander add b = is_added validate add b.name ≡ false

  -- A bridge that writes no route of a name.
  abbrev pub IsElsewhere : Option Text → Text → Bridge Raw → Type 0
  IsElsewhere rm m b = (is_removed validate rm b.name || not (text_eq b.name m)) ≡ true

  add_bridges_step :
      (add rm : Option Text) (b : Bridge Raw) (rest : List (Bridge Raw)) (ps : List Carrier2Proxy)
      → is_removed validate rm b.name ≡ false
      → ((add_ports validate b b.port_mappings ps).1 || not (is_added validate add b.name)) ≡ true
      → add_bridges validate add rm (b ∷ rest) ps
        ≡ add_bridges validate add rm rest (add_ports validate b b.port_mappings ps).0
  unfolding add_bridges
  add_bridges_step add rm b rest ps kept goes = rw (kept, goes)

  -- If no bridge of the mount is the one being added, then the loop over the bridges never raises,
  -- since a failure of another bridge is passed over, and the ports of the proxies stay.
  pub add_bridges_total :
      (add rm : Option Text) (bs : List (Bridge Raw)) (ps : List Carrier2Proxy)
      → All (IsBystander add) bs
      → (qs : List Carrier2Proxy) × (add_bridges validate add rm bs ps ≡ ok qs)
        × (ports qs ≡ ports ps)
  unfolding add_bridges
  add_bridges_total add rm [] ps h = (ps, refl, refl)
  add_bridges_total add rm (b ∷ rest) ps h =
      let after = (add_ports validate b b.port_mappings ps).0 in
      elim (Bool-cases (is_removed validate rm b.name)) [
        | inl gone ↦ let (qs, e, p) = add_bridges_total add rm rest ps h.1 in (qs, rw gone e, p)
        | inr kept ↦
            let (qs, e, p) = add_bridges_total add rm rest after h.1 in
            (
              qs,
              add_bridges_step add rm b rest ps kept (ground (arith, h.0)) ∙ e,
              p ∙ ports-add_ports validate b b.port_mappings ps,
            )
      ]

  -- What a round of the loop does when the loop succeeds.
  add_bridges_cases :
      (add rm : Option Text) (b : Bridge Raw) (rest : List (Bridge Raw))
      (ps qs : List Carrier2Proxy)
      → add_bridges validate add rm (b ∷ rest) ps ≡ ok qs
      → ((is_removed validate rm b.name ≡ true) × (add_bridges validate add rm rest ps ≡ ok qs))
        ⊎ ((is_removed validate rm b.name ≡ false)
            × (((add_ports validate b b.port_mappings ps).1 || not (is_added validate add b.name))
                ≡ true)
            × (add_bridges validate add rm rest (add_ports validate b b.port_mappings ps).0
                ≡ ok qs))
  unfolding add_bridges
  add_bridges_cases add rm b rest ps qs e = elim (Bool-cases (is_removed validate rm b.name)) [
    | inl gone ↦ inl (gone, rw gone at e)
    | inr kept ↦
        elim (Bool-cases
          ((add_ports validate b b.port_mappings ps).1 || not (is_added validate add b.name))) [
            | inl goes ↦ inr (kept, goes, rw (kept, goes) at e)
            | inr stops ↦ cc (rw (kept, stops) at e)
          ]
  ]

  -- Bridges elsewhere leave the routes of a name as they are.
  pub route-add_bridges_ne :
      (add rm : Option Text) (bs : List (Bridge Raw)) (ps qs : List Carrier2Proxy) (port : ℕ)
      (m : Text)
      → All (IsElsewhere rm m) bs
      → add_bridges validate add rm bs ps ≡ ok qs
      → route port m qs ≡ route port m ps
  unfolding add_bridges
  route-add_bridges_ne add rm [] ps qs port m h e = cc e
  route-add_bridges_ne add rm (b ∷ rest) ps qs port m h e =
      elim (add_bridges_cases add rm b rest ps qs e) [
        | inl (gone, e') ↦ route-add_bridges_ne add rm rest ps qs port m h.1 e'
        | inr (kept, goes, e') ↦
            route-add_bridges_ne add rm rest _ qs port m h.1 e'
            ∙ route-add_ports_ne validate b b.port_mappings ps port m (ground (arith, h.0))
      ]

  is_added_self : (name : Text) → name ≢ [] → is_added validate (some name) name ≡ true
  is_added_self [] h = absurd (h refl)
  is_added_self (c ∷ name) h = text_eq_refl (c ∷ name)

  added_first :
      (rm : Option Text) (b : Bridge Raw) (after : List (Bridge Raw)) (ps qs : List Carrier2Proxy)
      (port : ℕ)
      → b.name ≢ []
      → is_removed validate rm b.name ≡ false
      → All (IsElsewhere rm b.name) after
      → add_bridges validate (some b.name) rm (b ∷ after) ps ≡ ok qs
      → targets port b.port_mappings ≡ true
      → (rule : CarrierBridge) × IsRouted validate b port rule qs
  added_first rm b after ps qs port named kept later e t =
      elim (add_bridges_cases (some b.name) rm b after ps qs e) [
        | inl (gone, e') ↦ cc
        | inr (_, goes, e') ↦
            let done : (add_ports validate b b.port_mappings ps).1 ≡ true =
              ground (arith, is_added_self b.name named) in
            let (rule, (converted, routed)) =
              add_ports_routes validate b b.port_mappings ps port done t in
            (
              rule,
              (
                converted,
                route-add_bridges_ne (some b.name) rm after _ qs port b.name later e' ∙ routed,
              ),
            )
      ]

  -- Where adding a bridge succeeds, it is routed.
  pub add_bridges_added :
      (rm : Option Text) (before : List (Bridge Raw)) (b : Bridge Raw) (after : List (Bridge Raw))
      (ps qs : List Carrier2Proxy) (port : ℕ)
      → b.name ≢ []
      → is_removed validate rm b.name ≡ false
      → All (IsElsewhere rm b.name) after
      → add_bridges validate (some b.name) rm (before ++ (b ∷ after)) ps ≡ ok qs
      → targets port b.port_mappings ≡ true
      → (rule : CarrierBridge) × IsRouted validate b port rule qs
  add_bridges_added rm [] b after ps qs port named kept later e t =
      added_first rm b after ps qs port named kept later e t
  add_bridges_added rm (c ∷ before) b after ps qs port named kept later e t =
      elim (add_bridges_cases (some b.name) rm c (before ++ (b ∷ after)) ps qs e) [
        | inl (_, e') ↦ add_bridges_added rm before b after ps qs port named kept later e' t
        | inr (_, _, e') ↦ add_bridges_added rm before b after _ qs port named kept later e' t
      ]

  pub ports-add_bridges :
      (add rm : Option Text) (bs : List (Bridge Raw)) (ps qs : List Carrier2Proxy)
      → add_bridges validate add rm bs ps ≡ ok qs
      → ports qs ≡ ports ps
  unfolding add_bridges
  ports-add_bridges add rm [] ps qs e = ap ports (sym (ok-injective e))
  ports-add_bridges add rm (b ∷ rest) ps qs e = elim (add_bridges_cases add rm b rest ps qs e) [
    | inl (_, e') ↦ ports-add_bridges add rm rest ps qs e'
    | inr (_, _, e') ↦
        ports-add_bridges add rm rest _ qs e' ∙ ports-add_ports validate b b.port_mappings ps
  ]

  -- The bridges of a mount lie elsewhere for the name that is removed.
  pub removed-IsElsewhere :
      (name : Text) (bs : List (Bridge Raw)) → All (IsElsewhere (some name) name) bs
  removed-IsElsewhere name [] = tt
  removed-IsElsewhere name (b ∷ bs) = (ground arith, removed-IsElsewhere name bs)

  pub other-IsElsewhere :
      (name : Text) (bs : List (Bridge Raw))
      → All (λ (c : Bridge Raw). text_eq c.name name ≡ false) bs
      → All (IsElsewhere none name) bs
  other-IsElsewhere name [] h = tt
  other-IsElsewhere name (b ∷ bs) h = (ground (arith, h.0), other-IsElsewhere name bs h.1)

  pub none-IsBystander : (bs : List (Bridge Raw)) → All (IsBystander none) bs
  none-IsBystander [] = tt
  none-IsBystander (b ∷ bs) = (refl, none-IsBystander bs)
