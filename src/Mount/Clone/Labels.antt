-- ===== src/Mount/Clone/Labels.antt =====
-- Labels and annotations of a shadow, key by key.
use gefyra.Prelude.{
  ◌≡◌, refl, ◌∙◌, [], ◌∷◌, Option, none, some, arith, Text, text_eq_iff, has_text, if◌then◌else◌,
}
use gefyra.Prelude.Dict.{Dict, IsDict, lookup, insert, lookup-insert}
use gefyra.Mount.Clone.{
  duplicate_value, duplicate_from, get_duplication_labels, annotation_filter, clean_annotations,
}

-- The value of a key that a loop has assigned, or else the value from before.
abbrev assigned : Option Text → Option Text → Option Text
assigned none before = before
assigned (some v) before = some (duplicate_value v)

lookup-duplicate_from :
    (acc labels : Dict Text) (j : Text)
    → IsDict labels
    → lookup j (duplicate_from acc labels) ≡ assigned (lookup j labels) (lookup j acc)
unfolding duplicate_from lookup
lookup-duplicate_from acc [] j h = refl
lookup-duplicate_from acc ((k, v) ∷ labels) j h =
    lookup-duplicate_from (insert k (duplicate_value v) acc) labels j h.1
    ∙ ground (arith, lookup-insert k j (duplicate_value v) acc, text_eq_iff k j, h.0)

-- A value as the shadow has it.
abbrev pub marked : Option Text → Option Text
marked none = none
marked (some v) = some (duplicate_value v)

assigned_none : (j : Text) (o : Option Text) → assigned o (lookup j []) ≡ marked o
unfolding lookup
assigned_none j none = refl
assigned_none j (some v) = refl

-- Each label of the original is in the shadow's labels with its value marked, and there is no
-- other, given that the labels are a dictionary.
pub lookup-get_duplication_labels :
    (labels : Dict Text) (j : Text)
    → IsDict labels
    → lookup j (get_duplication_labels labels) ≡ marked (lookup j labels)
unfolding get_duplication_labels
lookup-get_duplication_labels labels j h =
    lookup-duplicate_from [] labels j h ∙ assigned_none j (lookup j labels)

-- The annotations that are filtered are gone, and all others are kept with their values.
pub lookup-clean_annotations :
    (annotations : Dict Text) (j : Text)
    → lookup j (clean_annotations annotations)
      ≡ (if has_text j annotation_filter then none else lookup j annotations)
unfolding clean_annotations lookup
lookup-clean_annotations [] j = ground arith
lookup-clean_annotations ((k, v) ∷ annotations) j =
    ground (arith, lookup-clean_annotations annotations j, text_eq_iff k j)
