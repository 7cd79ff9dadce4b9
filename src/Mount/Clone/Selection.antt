-- ===== src/Mount/Clone/Selection.antt =====
-- Which pods the selectors of a shadow select.
use gefyra.Prelude.{
  ◌≢◌, ℕ, ◌≤◌, ◌≡◌, refl, ap, sym, ◌∙◌, ◌↔◌, [], ◌∷◌, ◌++◌, Option, none, some, arith, Text,
  text_eq, text_eq_iff, text_eq_refl, if◌then◌else◌, length, length-append,
}
use gefyra.Prelude.Dict.{
  Dict, IsDict, lookup, insert, lookup-insert, lookup-insert_self, text_eq_missing,
}
use gefyra.Result.{ok}
use gefyra.Cluster.{Service, Workload, deployment, stateful_set, pod}
use gefyra.Mount.Names.{workload_suffix, max_name}
use gefyra.Mount.Names.Shapes.{conform_shape, take_all}
use gefyra.Mount.Clone.{
  duplicate_value, get_duplication_labels, clone_workload_structure, duplication_id, or_empty,
  pod_labels, get_svc_for_workload,
}
use gefyra.Mount.Clone.Labels.{marked, lookup-get_duplication_labels}

-- A selector selects the pods that have all its labels.
abbrev pub Selects : Dict Text → Dict Text → Type 0
Selects selector labels = (k v : Text) → lookup k selector ≡ some v → lookup k labels ≡ some v

abbrev some_length : Option Text → ℕ
some_length none = 0
some_length (some t) = length t

-- The labels that the clone of a controller puts on its pods, and its selector.
abbrev shadow_labels : Text → Dict Text → Dict Text
shadow_labels uuid labels = insert duplication_id uuid (get_duplication_labels labels)

marked-some :
    (o : Option Text) (v : Text)
    → marked o ≡ some v
    → (u : Text) × (o ≡ some u) × (v ≡ duplicate_value u)
marked-some none v e = cc
marked-some (some u) v e = (u, refl, cc)

lookup-shadow_labels :
    (uuid : Text) (labels : Dict Text) (k : Text)
    → IsDict labels
    → lookup k (shadow_labels uuid labels)
      ≡ (if text_eq duplication_id k then some uuid else marked (lookup k labels))
lookup-shadow_labels uuid labels k d = rw (lookup-insert, lookup-get_duplication_labels labels k d)

-- On labels alone: the selector of the shadow matches what the shadow's pods have.
Selects-shadow :
    (uuid : Text) (selector labels : Dict Text)
    → IsDict selector
    → IsDict labels
    → lookup duplication_id selector ≡ none
    → Selects selector labels
    → Selects (get_duplication_labels selector) (shadow_labels uuid labels)
Selects-shadow uuid selector labels ds dl free s k v e =
    let (u, here, shown) =
      marked-some (lookup k selector) v (sym (lookup-get_duplication_labels selector k ds) ∙ e) in
    lookup-shadow_labels uuid labels k dl
    ∙ ground (arith, text_eq_missing duplication_id k selector u free here, s k u here)

-- On labels alone: the selector of the original does not match them.
not-Selects-shadow :
    (uuid : Text) (selector labels : Dict Text) (k v : Text)
    → IsDict labels
    → lookup duplication_id selector ≡ none
    → lookup k selector ≡ some v
    → length v ≤ 56
    → Selects selector labels
    → ¬ Selects selector (shadow_labels uuid labels)
not-Selects-shadow uuid selector labels k v dl free here short s t =
    let other = text_eq_missing duplication_id k selector v free here in
    let kept : lookup k (shadow_labels uuid labels) ≡ some (duplicate_value v) =
      lookup-shadow_labels uuid labels k dl ∙ ground (arith, other, s k v here) in
    let same : some (duplicate_value v) ≡ some v = sym kept ∙ t k v here in
    let written =
      conform_shape v workload_suffix max_name (omega arith)
      ∙ ap (λ (t : Text). t ++ workload_suffix) (take_all 56 v short) in
    omega (
      arith,
      ap some_length same,
      ap (λ (t : Text). length t) written,
      length-append v workload_suffix,
    )

Selects-one :
    (a x : Text) (labels : Dict Text) → Selects ((a, x) ∷ []) labels ↔ (lookup a labels ≡ some x)
unfolding lookup
Selects-one a x labels =
    (λ s. s a x (ground (arith, text_eq_refl a)), λ h k v e. ground (arith, text_eq_iff a k))

lookup-pod_labels :
    (uuid : Text) (w : Workload)
    → lookup duplication_id (or_empty (pod_labels (clone_workload_structure uuid w))) ≡ some uuid
unfolding clone_workload_structure
lookup-pod_labels uuid (deployment w) = lookup-insert_self duplication_id uuid _
lookup-pod_labels uuid (stateful_set w) = lookup-insert_self duplication_id uuid _
lookup-pod_labels uuid (pod w) = lookup-insert_self duplication_id uuid _

svc-selector :
    (target container namespace uuid : Text) (w : Workload) (svc : Service)
    → get_svc_for_workload target container namespace (clone_workload_structure uuid w) ≡ ok svc
    → svc.selector ≡ (duplication_id, uuid) ∷ []
unfolding get_svc_for_workload
svc-selector target container namespace uuid w svc e = ground (arith, lookup-pod_labels uuid w)

-- If the service of a shadow is made, then it selects exactly the pods that carry the shadow's
-- uuid under the duplication id, and so it selects the shadow's own pods.
pub get_svc_for_workload-Selects :
    (target container namespace uuid : Text) (w : Workload) (svc : Service) (labels : Dict Text)
    → get_svc_for_workload target container namespace (clone_workload_structure uuid w) ≡ ok svc
    → (Selects svc.selector labels ↔ (lookup duplication_id labels ≡ some uuid))
      × Selects svc.selector (or_empty (pod_labels (clone_workload_structure uuid w)))
get_svc_for_workload-Selects target container namespace uuid w svc labels e =
    rw (svc-selector target container namespace uuid w svc e) (
      Selects-one duplication_id uuid labels,
      (Selects-one duplication_id uuid _).1 (lookup-pod_labels uuid w),
    )

-- What a workload selects its pods by; a pod selects none.
abbrev pub selector_of : Workload → Dict Text
selector_of (deployment w) = or_empty w.match_labels
selector_of (stateful_set w) = or_empty w.match_labels
selector_of (pod w) = []

abbrev pub labels_of : Workload → Dict Text
labels_of w = or_empty (pod_labels w)

Selects-nil : (labels : Dict Text) → Selects [] labels
unfolding lookup
Selects-nil labels k v e = cc

lookup-nil : (k v : Text) → lookup k [] ≢ some v
unfolding lookup
lookup-nil k v e = cc

-- If a workload's selector matches the labels of its pods, then the selector of its clone matches
-- the labels of the clone's pods, given that selector and labels are dictionaries and the selector
-- has no duplication id.
pub Selects-clone :
    (uuid : Text) (w : Workload)
    → IsDict (selector_of w)
    → IsDict (labels_of w)
    → lookup duplication_id (selector_of w) ≡ none
    → Selects (selector_of w) (labels_of w)
    → Selects
        (selector_of (clone_workload_structure uuid w))
        (labels_of (clone_workload_structure uuid w))
unfolding clone_workload_structure
Selects-clone uuid (deployment w) ds dl free s =
    Selects-shadow uuid (or_empty w.match_labels) (or_empty w.template_labels) ds dl free s
Selects-clone uuid (stateful_set w) ds dl free s =
    Selects-shadow uuid (or_empty w.match_labels) (or_empty w.template_labels) ds dl free s
Selects-clone uuid (pod w) ds dl free s =
    Selects-nil (labels_of (clone_workload_structure uuid (pod w)))

-- If a workload's selector matches the labels of its pods, which are a dictionary, and has no
-- duplication id but a label whose value has at most 56 characters, then it does not match the
-- labels of the clone's pods.
pub not-Selects-original :
    (uuid : Text) (w : Workload) (k v : Text)
    → IsDict (labels_of w)
    → lookup duplication_id (selector_of w) ≡ none
    → lookup k (selector_of w) ≡ some v
    → length v ≤ 56
    → Selects (selector_of w) (labels_of w)
    → ¬ Selects (selector_of w) (labels_of (clone_workload_structure uuid w))
unfolding clone_workload_structure
not-Selects-original uuid (deployment w) k v dl free here short s =
    not-Selects-shadow uuid (or_empty w.match_labels) (or_empty w.template_labels) k v dl free here
      short s
not-Selects-original uuid (stateful_set w) k v dl free here short s =
    not-Selects-shadow uuid (or_empty w.match_labels) (or_empty w.template_labels) k v dl free here
      short s
not-Selects-original uuid (pod w) k v dl free here short s = absurd (lookup-nil k v here)
