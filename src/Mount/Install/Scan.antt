-- ===== src/Mount/Install/Scan.antt =====
-- What looking for the mount's container in a pod finds.
use gefyra.Prelude.{
  ◌≡◌, refl, ap, subst, true, false, List, [], ◌∷◌, ◌++◌, some, Text, text_eq, All, Bool-cases, inl,
  inr, Option-cases, all,
}
use gefyra.Result.{ok, ok-injective, >>=-eq-ok}
use gefyra.Cluster.{Container}
use gefyra.Carrier.Probes.{get_all_probes, check_probe_compatibility}
use gefyra.Mount.Upstreams.{or_type_error}
use gefyra.Mount.Install.{Target, find_container, with_image, target_from, find_target}

abbrev pub Found : Type 0
Found = List Container × Container × List Container

-- The containers of a pod around the first one with a name.
pub record IsSplit (name : Text) (cs : List Container) (f : Found) : Type 0 where
  pub whole : cs ≡ f.0 ++ (f.1 ∷ f.2)
  pub named : text_eq (f.1).name name ≡ true
  pub first : All (λ (d : Container). text_eq d.name name ≡ false) f.0

some-injective : {A : Type 0} {a b : A} → some a ≡ some b → a ≡ b
some-injective e = cc

further-IsSplit :
    (name : Text) (d : Container) (cs : List Container) (g : Found)
    → text_eq d.name name ≡ false
    → IsSplit name cs g
    → IsSplit name (d ∷ cs) (d ∷ g.0, g.1, g.2)
further-IsSplit name d cs g other h = record {
  whole = ap (λ (x : List Container). d ∷ x) h.whole;
  named = h.named;
  first = (other, h.first);
}

pub find_container-IsSplit :
    (name : Text) (cs : List Container) (f : Found)
    → find_container name cs ≡ some f
    → IsSplit name cs f
unfolding find_container
find_container-IsSplit name [] f e = cc
find_container-IsSplit name (d ∷ cs) f e = elim (Bool-cases (text_eq d.name name)) [
  | inl own ↦
      subst (IsSplit name (d ∷ cs)) (some-injective (rw own at e))
        (record { whole = refl; named = own; first = tt })
  | inr other ↦ elim (Option-cases (find_container name cs)) [
    | inl missing ↦ cc (rw (other, missing) at e)
    | inr (g, found) ↦
        subst (IsSplit name (d ∷ cs)) (some-injective (rw (other, found) at e))
          (further-IsSplit name d cs g other (find_container-IsSplit name cs g found))
  ]
]

-- What a target is made of.
pub record IsTarget (image name : Text) (cs : List Container) (t : Target) : Type 0 where
  pub found : Found
  pub split : IsSplit name cs found
  pub ports : or_type_error (found.1).ports ≡ ok t.ports
  pub container : t.container ≡ found.1
  pub probes : t.probes ≡ get_all_probes found.1
  pub fits : all (λ p. check_probe_compatibility (some p)) t.probes ≡ true
  pub patched : t.patched ≡ found.0 ++ (with_image image found.1 ∷ found.2)

target_from-IsTarget :
    (image name : Text) (cs : List Container) (t : Target) (f : Found)
    → IsSplit name cs f
    → target_from image (some f) ≡ ok t
    → IsTarget image name cs t
target_from-IsTarget image name cs t f h e =
    let (ports, e1, e2) = >>=-eq-ok (or_type_error (f.1).ports) _ e in
    elim (Bool-cases (all (λ p. check_probe_compatibility (some p)) (get_all_probes f.1))) [
      | inl fits ↦ subst (IsTarget image name cs) (ok-injective (rw fits at e2)) (record {
        found = f;
        split = h;
        ports = e1;
        container = refl;
        probes = refl;
        fits = fits;
        patched = refl;
      })
      | inr refused ↦ cc (rw refused at e2)
    ]

pub find_target-IsTarget :
    (image name : Text) (cs : List Container) (t : Target)
    → find_target image name cs ≡ ok t
    → IsTarget image name cs t
unfolding find_target
find_target-IsTarget image name cs t e = elim (Option-cases (find_container name cs)) [
  | inl missing ↦ cc (rw missing at e)
  | inr (f, found) ↦
      target_from-IsTarget image name cs t f (find_container-IsSplit name cs f found)
        (rw found at e)
]
