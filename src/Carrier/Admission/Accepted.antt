-- ===== src/Carrier/Admission/Accepted.antt =====
-- What is admitted.
use gefyra.Prelude.{
  ◌≡◌, ◌≢◌, refl, ap, sym, ◌∙◌, ◌↔◌, ◌⊎◌, Bool, true, false, ◌&&◌, List, [], ◌∷◌, Option, none,
  some, Text, codes, text_eq, text_eq_iff, All, Bool-cases, Option-cases, inl, inr, arith, subst,
}
use gefyra.Prelude.Dict.{Dict, has_key}
use gefyra.Result.{Result, ok, err, ok-injective, >>=-eq-ok, Result-cases}
use gefyra.Carrier.Admission.{
  BridgeRequest, is_duplicate, check_existing, validate_bridge, ExistingMount, has_labels, admit,
  guard, dict_eq,
}

-- Two texts are equal, or not.
text_neq : (s t : Text) → (text_eq s t ≡ false) ↔ (s ≢ t)
text_neq s t = elim (Bool-cases (text_eq s t)) [
  | inl same ↦ (λ e. cc (same, e), λ n. absurd (n ((text_eq_iff s t).0 same)))
  | inr other ↦ (λ _ same. cc (other, (text_eq_iff s t).1 same), λ _. other)
]

-- An existing mount is for another target or in another namespace.
abbrev pub IsElsewhere : Text → Text → ExistingMount → Type 0
IsElsewhere target namespace m = (m.target ≢ target) ⊎ (m.target_namespace ≢ namespace)

some_same : {A : Type 0} {a b : A} → some a ≡ some b → a ≡ b
some_same e = cc e

admitted : {A : Type 0} (r : Result A) (a : A) → admit r ≡ ok a → r ≡ ok a
admitted (ok b) a e = e
admitted (err x) a e = cc e

-- A field that is given and not empty.
abbrev pub IsGiven : Option Text → Text → Type 0
IsGiven field s = (field ≡ some s) × (s ≢ [])

guarded : (b : Bool) → guard b ≡ ok tt → b ≡ true
guarded true e = refl
guarded false e = cc e

-- The two label keys.
abbrev pub HasLabels : Option (Dict Text) → Dict Text → Type 0
HasLabels given labels =
    (given ≡ some labels)
    × (has_key (codes "gefyra.dev/bridge-mount") labels ≡ true)
    × (has_key (codes "gefyra.dev/client") labels ≡ true)

has_labels-HasLabels :
    (given : Option (Dict Text)) → has_labels given ≡ true → (d : Dict Text) × HasLabels given d
has_labels-HasLabels none e = cc e
has_labels-HasLabels (some d) e = (d, (refl, ground (arith, e), ground (arith, e)))

HasLabels-has_labels :
    (given : Option (Dict Text)) (d : Dict Text) → HasLabels given d → has_labels given ≡ true
HasLabels-has_labels given d (e, m, c) = rw (e, m, c) refl

module _ {P : Type 0} (same_parameter : P → P → Bool) where
  -- The existing bridge has another target, or it has labels and differs in them, in the
  -- destination or in the parameters.
  abbrev pub IsApart : BridgeRequest P → Dict Text → BridgeRequest P → Type 0
  IsApart request labels existing =
      (existing.target ≢ request.target)
      ⊎ ((old : Dict Text) × (existing.labels ≡ some old)
          × ((dict_eq old labels ≡ false)
              ⊎ ((existing.destination_ip ≢ request.destination_ip)
                  ⊎ (same_parameter existing.provider_parameter request.provider_parameter
                      ≡ false))))

  apart_iff :
      (a b c : Bool) (s t : Text)
      → (b ≡ true ↔ s ≡ t)
      → ((a && (b && c)) ≡ false) ↔ ((a ≡ false) ⊎ ((s ≢ t) ⊎ (c ≡ false)))
  apart_iff false b c s t k = (λ _. inl refl, λ _. refl)
  apart_iff true false c s t k = (λ _. inr (inl (λ same. cc (k.1 same))), λ _. refl)
  apart_iff true true c s t k = (
    λ e. inr (inr e),
    λ h. elim h [
      | inl never ↦ cc never
      | inr later ↦ elim later [ inl other ↦ absurd (other (k.0 refl)) | inr differs ↦ differs ]
    ],
  )

  is_duplicate_iff :
      (request : BridgeRequest P) (labels : Dict Text) (existing : BridgeRequest P)
      → request.labels ≡ some labels
      → (is_duplicate same_parameter request existing ≡ ok false) ↔ IsApart request labels existing
  unfolding is_duplicate
  is_duplicate_iff request labels existing given =
      elim (Bool-cases (text_eq existing.target request.target)) [
        | inr other ↦
            (λ _. inl ((text_neq existing.target request.target).0 other), λ _. rw other refl)
        | inl same ↦ elim (Option-cases existing.labels) [
          | inl gone ↦ (
            λ e. cc (rw (same, gone) at e),
            λ h. elim h [
              | inl other ↦ absurd (other ((text_eq_iff existing.target request.target).0 same))
              | inr (old, o, rest) ↦ cc (gone, o)
            ],
          )
          | inr (old, o) ↦
              let (to, from) =
                apart_iff (dict_eq old labels)
                  (text_eq existing.destination_ip request.destination_ip)
                  (same_parameter existing.provider_parameter request.provider_parameter)
                  existing.destination_ip request.destination_ip
                  (text_eq_iff existing.destination_ip request.destination_ip) in
              (
                λ e. inr (old, o, to (ok-injective (rw (same, o, given) at e))),
                λ h. elim h [
                  | inl other ↦ absurd (other ((text_eq_iff existing.target request.target).0 same))
                  | inr (d, o', rest) ↦
                      rw (same, o, given)
                        (ap ok (
                          from (
                            subst
                              (λ (x : Dict Text).
                                (dict_eq x labels ≡ false)
                                ⊎ ((existing.destination_ip ≢ request.destination_ip)
                                    ⊎ (same_parameter existing.provider_parameter
                                          request.provider_parameter
                                        ≡ false)))
                              (some_same (sym o' ∙ o)) rest)))
                ],
              )
        ]
      ]

  check_existing_iff :
      (request : BridgeRequest P) (labels : Dict Text) (es : List (BridgeRequest P))
      → request.labels ≡ some labels
      → (check_existing same_parameter request es ≡ ok tt) ↔ All (IsApart request labels) es
  unfolding check_existing
  check_existing_iff request labels [] given = (λ _. tt, λ _. refl)
  check_existing_iff request labels (e ∷ es) given =
      let (to, from) = check_existing_iff request labels es given in
      let (apart, same) = is_duplicate_iff request labels e given in
      elim (Result-cases (is_duplicate same_parameter request e)) [
        | inl (true, d) ↦ (λ h. cc (rw d at h), λ h. cc (d, same h.0))
        | inl (false, d) ↦ (λ h. (apart d, to (rw d at h)), λ h. rw d (from h.1))
        | inr (x, d) ↦ (λ h. cc (rw d at h), λ h. cc (d, same h.0))
      ]

  -- With the existing bridges as they are read, a bridge is admitted exactly if it has the two
  -- labels, its mount is read and ACTIVE, and every existing bridge has another target, or it has
  -- labels and differs from the request in its labels, its destination address or its parameters.
  pub validate_bridge_iff :
      (request : BridgeRequest P) (mount_state : Result Text) (existing : List (BridgeRequest P))
      → (validate_bridge same_parameter request mount_state (ok existing) ≡ ok tt) ↔ (
          (labels : Dict Text) × HasLabels request.labels labels
          × (mount_state ≡ ok (codes "ACTIVE"))
          × All (IsApart request labels) existing)
  unfolding validate_bridge
  validate_bridge_iff request mount_state existing = (
    λ e.
        let (_, e1, f1) = >>=-eq-ok (guard (has_labels request.labels)) _ e in
        let (labels, given) = has_labels-HasLabels request.labels (guarded _ e1) in
        let (state, e2, f2) = >>=-eq-ok (admit mount_state) _ f1 in
        let (_, e3, f3) = >>=-eq-ok (guard (text_eq state (codes "ACTIVE"))) _ f2 in
        (
          labels,
          given,
          admitted mount_state state e2
              ∙ ap ok ((text_eq_iff state (codes "ACTIVE")).0 (guarded _ e3)),
          (check_existing_iff request labels existing given.0).0 f3,
        ),
    λ (labels, given, active, apart).
        rw
          (
            HasLabels-has_labels request.labels labels given,
            active,
            (text_eq_iff (codes "ACTIVE") (codes "ACTIVE")).1 refl,
          )
          ((check_existing_iff request labels existing given.0).1 apart),
  )
